-- ===== src/Preflight/Dependencies/RecipeProgram.antt =====
-- src/preflight/dependencies.rs: when the recipe program passes, spelled out.
use leviso.Base.{
  ◌≡◌, refl, true, false, not, Option, none, some, ◌≤◌, arith, sym, ◌∙◌, ap, is_empty, Bool, ℕ, ltb,
  Bool-cases, inl, inr, ◌||◌,
}
use leviso.Error.{Result, ok, err}
use leviso.Text.{Text, byte_length, take_bytes}
use leviso.Fs.Path.{FilePath, join, drop_last}
use leviso.Fs.State.{Fs, Node}
use leviso.Fs.Ops.{exists, stat}
use leviso.Preflight.{CheckResult}
use leviso.Preflight.HostTools.Required.{is_failed}
use leviso.Preflight.Validators.{Verdict, good, bad}
use leviso.Preflight.Dependencies.{
  Dependencies, Output, check_recipe, recipe_binary, validate_executable, has_executable_bit,
  version_of, first_line, of_help, mode_of, of_executable, shortened, of_version, validate_node,
  check_recipe_at,
}
use leviso.Preflight.Dependencies.Located.{Located, recipe_binary-Located, Located-recipe_binary}

abbrev is_fine : Result (Verdict Text) → Bool
is_fine (err e) = false
is_fine (ok (bad e)) = false
is_fine (ok (good t)) = true

-- A check that returns a result which is not a failure
abbrev pub is_passed : Result CheckResult → Bool
is_passed (err e) = false
is_passed (ok r) = not (is_failed r)

module _ (deps : Dependencies) (base_dir : FilePath) (fs : Fs) where
  -- The version line is short, or can be cut behind its byte 47.
  pub data IsCut (line : Text) : Type 0 where
    short : byte_length line ≤ 50 → IsCut line
    cut : (t : Text) → take_bytes 47 line ≡ some t → IsCut line

  -- The program runs: it prints a version that can be shown, or fails that and prints a help.
  pub data Runs (path : FilePath) : Type 0 where
    version :
        (r : Output)
        → deps.run path "--version" fs ≡ ok r
        → r.success ≡ true
        → IsCut (first_line r.stdout "unknown")
        → Runs path
    help :
        (r h : Output)
        → deps.run path "--version" fs ≡ ok r
        → r.success ≡ false
        → deps.run path "--help" fs ≡ ok h
        → (h.success || not (is_empty h.stdout)) ≡ true
        → Runs path

  -- The recipe program is found, can be executed and runs; or it is not found, and its source is
  -- there.
  pub data IsRecipe : Type 0 where
    installed :
        (path : FilePath) (n : Node)
        → Located deps base_dir fs (some path)
        → stat fs path ≡ some n
        → has_executable_bit (mode_of deps n) ≡ true
        → Runs path
        → IsRecipe
    buildable :
        Located deps base_dir fs none
        → exists fs (join (drop_last base_dir) "tools/recipe/Cargo.toml") ≡ true
        → IsRecipe

  shortened-IsCut :
      (line : Text) (o : Option Text)
      → take_bytes 47 line ≡ o
      → is_fine (shortened o) ≡ true
      → IsCut line
  shortened-IsCut line none e h = absurd cc
  shortened-IsCut line (some t) e h = cut t e

  version_of-IsCut : (line : Text) → is_fine (version_of line) ≡ true → IsCut line
  unfolding version_of
  version_of-IsCut line h = elim (Bool-cases (ltb 50 (byte_length line))) [
    | inl l ↦ shortened-IsCut line (take_bytes 47 line) refl (let k = rw l at h in k)
    | inr l ↦ short (ground arith)
  ]

  IsCut-version_of : (line : Text) → IsCut line → is_fine (version_of line) ≡ true
  unfolding version_of
  IsCut-version_of line (short l) = let e = not_longer (byte_length line) l in rw e refl
    where
      not_longer : (n : ℕ) → n ≤ 50 → ltb 50 n ≡ false
      not_longer n l = ground arith
  IsCut-version_of line (cut t c) = elim (Bool-cases (ltb 50 (byte_length line))) [
    | inl l ↦ rw (l, c) refl
    | inr l ↦ rw l refl
  ]

  helped :
      (r : Output) (x : Result Output)
      → is_fine (ok (of_help r x)) ≡ true
      → (h : Output) × (x ≡ ok h) × ((h.success || not (is_empty h.stdout)) ≡ true)
  helped r (err e) h = absurd cc
  helped r (ok o) h = (o, refl, ground arith)

  module _ (path : FilePath) where
    ran :
        (x : Result Output)
        → deps.run path "--version" fs ≡ x
        → is_fine (of_version deps path fs x) ≡ true
        → Runs path
    ran (err e) v h = absurd cc
    ran (ok r) v h = elim (Bool-cases r.success) [
      | inl y ↦
          let k = rw y at h in version r v y (version_of-IsCut (first_line r.stdout "unknown") k)
      | inr y ↦
          let k = rw y at h in
          let (o, e, f) = helped r (deps.run path "--help" fs) k in help r o v y e f
    ]

    runs : Runs path → is_fine (of_version deps path fs (deps.run path "--version" fs)) ≡ true
    runs (version r v y c) = rw (v, y) (IsCut-version_of (first_line r.stdout "unknown") c)
    runs (help r h v y e f) = rw (v, y, e, f) refl

    valid :
        (o : Option Node)
        → stat fs path ≡ o
        → is_fine (validate_node deps path fs o) ≡ true
        → (n : Node) × (stat fs path ≡ some n)
          × (has_executable_bit (mode_of deps n) ≡ true)
          × Runs path
    valid none s h = absurd cc
    valid (some n) s h = elim (Bool-cases (has_executable_bit (mode_of deps n))) [
      | inl x ↦ let k = rw x at h in (n, s, x, ran (deps.run path "--version" fs) refl k)
      | inr x ↦ let k = rw x at h in absurd cc
    ]

    executable : (v : Result (Verdict Text)) → is_passed (of_executable deps path v) ≡ is_fine v
    executable (err e) = refl
    executable (ok (bad e)) = refl
    executable (ok (good t)) = refl

    validated :
        (n : Node)
        → stat fs path ≡ some n
        → has_executable_bit (mode_of deps n) ≡ true
        → Runs path
        → is_fine (validate_executable deps path fs) ≡ true
    unfolding validate_executable
    validated n s x r = rw (s, x) (runs r)

    from_validated :
        is_fine (validate_executable deps path fs) ≡ true
        → (n : Node) × (stat fs path ≡ some n)
          × (has_executable_bit (mode_of deps n) ≡ true)
          × Runs path
    unfolding validate_executable
    from_validated h = valid (stat fs path) refl h

  source_only :
      is_passed (check_recipe_at deps base_dir fs none)
      ≡ exists fs (join (drop_last base_dir) "tools/recipe/Cargo.toml")
  source_only = ground arith

  at_located :
      (o : Option FilePath)
      → Located deps base_dir fs o
      → is_passed (check_recipe_at deps base_dir fs o) ≡ true
      → IsRecipe
  at_located none l h = buildable l (sym (source_only) ∙ h)
  at_located (some path) l h =
      let (n, s, x, r) =
        from_validated path (sym (executable path (validate_executable deps path fs)) ∙ h) in
      installed path n l s x r

  pub check_recipe-IsRecipe : is_passed (check_recipe deps base_dir fs) ≡ true → IsRecipe
  unfolding check_recipe
  check_recipe-IsRecipe h =
      at_located (recipe_binary deps base_dir fs) (recipe_binary-Located deps base_dir fs) h

  pub IsRecipe-check_recipe : IsRecipe → is_passed (check_recipe deps base_dir fs) ≡ true
  unfolding check_recipe
  IsRecipe-check_recipe (installed path n l s x r) =
      ap (λ o. is_passed (check_recipe_at deps base_dir fs o))
        (Located-recipe_binary deps base_dir fs (some path) l)
      ∙ executable path (validate_executable deps path fs)
      ∙ validated path n s x r
  IsRecipe-check_recipe (buildable l h) =
      ap (λ o. is_passed (check_recipe_at deps base_dir fs o))
        (Located-recipe_binary deps base_dir fs none l)
      ∙ source_only
      ∙ h
