-- ===== src/Preflight/Dependencies/Located.antt =====
-- src/preflight/dependencies.rs: where the recipe program is found.
use leviso.Base.{String, ◌≡◌, refl, true, false, Option, none, some, Bool, Bool-cases, inl, inr}
use leviso.Fs.Path.{FilePath, join, components, drop_last}
use leviso.Fs.State.{Fs}
use leviso.Fs.Ops.{exists}
use leviso.Preflight.Dependencies.{Dependencies, recipe_binary, or_env}

module _ (deps : Dependencies) (base_dir : FilePath) (fs : Fs) where
  abbrev pub is_named : Option String → Bool
  is_named none = false
  is_named (some p) = exists fs (components p)

  -- Where the recipe program is looked for: the PATH, the two target directories, then the
  -- environment.
  pub data Located : Option FilePath → Type 0 where
    on_path : (p : String) → deps.which "recipe" ≡ some p → Located (some (components p))
    debug :
        deps.which "recipe" ≡ none
        → exists fs (join (drop_last base_dir) "target/debug/recipe") ≡ true
        → Located (some (join (drop_last base_dir) "target/debug/recipe"))
    release :
        deps.which "recipe" ≡ none
        → exists fs (join (drop_last base_dir) "target/debug/recipe") ≡ false
        → exists fs (join (drop_last base_dir) "target/release/recipe") ≡ true
        → Located (some (join (drop_last base_dir) "target/release/recipe"))
    named :
        (p : String)
        → deps.which "recipe" ≡ none
        → exists fs (join (drop_last base_dir) "target/debug/recipe") ≡ false
        → exists fs (join (drop_last base_dir) "target/release/recipe") ≡ false
        → deps.env_var "RECIPE_BIN" ≡ some p
        → exists fs (components p) ≡ true
        → Located (some (components p))
    nowhere :
        deps.which "recipe" ≡ none
        → exists fs (join (drop_last base_dir) "target/debug/recipe") ≡ false
        → exists fs (join (drop_last base_dir) "target/release/recipe") ≡ false
        → is_named (deps.env_var "RECIPE_BIN") ≡ false
        → Located none

  unnamed : (o : Option String) → is_named o ≡ false → or_env deps none fs o ≡ none
  unnamed none h = refl
  unnamed (some p) h = rw h refl

  pub Located-recipe_binary : (o : Option FilePath) → Located o → recipe_binary deps base_dir fs ≡ o
  unfolding recipe_binary
  Located-recipe_binary (some _) (on_path p w) = rw w refl
  Located-recipe_binary (some _) (debug w d) = rw (w, d) refl
  Located-recipe_binary (some _) (release w d r) = rw (w, d, r) refl
  Located-recipe_binary (some _) (named p w d r e x) = rw (w, d, r, e, x) refl
  Located-recipe_binary none (nowhere w d r n) =
      rw (w, d, r) (unnamed (deps.env_var "RECIPE_BIN") n)

  pub recipe_binary-Located : Located (recipe_binary deps base_dir fs)
  unfolding recipe_binary
  recipe_binary-Located =
      search (deps.which "recipe") _ _ (deps.env_var "RECIPE_BIN") refl refl refl refl
    where
      search :
          (w : Option String) (d r : Bool) (e : Option String)
          → deps.which "recipe" ≡ w
          → exists fs (join (drop_last base_dir) "target/debug/recipe") ≡ d
          → exists fs (join (drop_last base_dir) "target/release/recipe") ≡ r
          → deps.env_var "RECIPE_BIN" ≡ e
          → Located (recipe_binary deps base_dir fs)
      search (some p) d r e f g k m = rw f (on_path p f)
      search none true r e f g k m = rw (f, g) (debug f g)
      search none false true e f g k m = rw (f, g, k) (release f g k)
      search none false false e f g k m =
          rw (f, g, k) (in_env f g k (deps.env_var "RECIPE_BIN") refl)
        where
          in_env :
              deps.which "recipe" ≡ none
              → exists fs (join (drop_last base_dir) "target/debug/recipe") ≡ false
              → exists fs (join (drop_last base_dir) "target/release/recipe") ≡ false
              → (o : Option String) → deps.env_var "RECIPE_BIN" ≡ o
              → Located (or_env deps none fs o)
          in_env f g k none h = nowhere f g k (rw h refl)
          in_env f g k (some p) h = elim (Bool-cases (exists fs (components p))) [
            | inl x ↦ rw x (named p f g k h x)
            | inr x ↦ rw x (nowhere f g k (rw h x))
          ]
