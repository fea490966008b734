-- ===== src/Tests/Searching.antt =====
-- A copy along links with a search that looks at the disk.
use leviso.Base.{
  String, List, [], ◌∷◌, ◌++◌, ◌≡◌, refl, true, false, Bool, Bool-cases, inl, inr, ◌⊎◌, Option,
  none, some, contains, ap, sym, ◌∙◌, arith, if◌then◌else◌, ◌&&◌, ◌||◌,
}
use leviso.Base.{string_eq, list_eq, ◌==◌}
use leviso.Error.{ok}
use leviso.Fs.Path.{FilePath, drop_last}
use leviso.Fs.State.{Fs, Node, dir, file, link, node_at}
use leviso.Fs.Ops.{
  is_some, create_dir_all, create_dirs_below, symlink, symlink_at, put_node, resolve, stat, is_dir,
}
use leviso.Fs.Walk.{walk}
use leviso.Fs.ReadBack.{node_at-put_node}
use leviso.Build.{World}
use leviso.Build.Libdeps.{copy_executable, find_or_extract}
use leviso.Build.Libdeps.Fuel.{Bounded, dest_of, copy_executable_enough}
use leviso.Tests.Data.{plain}
use leviso.Tests.Building.{tools, ctx}
use mathlib.Core.Path.{subst}
use leviso.Fs.Table.{lookup}

abbrev in_source : String → FilePath
in_source n = "src" ∷ "usr" ∷ "bin" ∷ n ∷ []

-- The entries of `usr/bin` are what can be found.
abbrev listed : Fs → FilePath → String → Option FilePath
listed fs source n = if is_some (node_at fs (in_source n)) then some (in_source n) else none

abbrev names : List String
names = "ls" ∷ "dir" ∷ []

-- The disks that copies of these names go through
record Stocked (s : Fs) : Type 0 where
  staging : node_at s ("staging" ∷ []) ≡ some dir
  usr : node_at s ("staging" ∷ "usr" ∷ []) ≡ some dir
  bin : node_at s ("staging" ∷ "usr" ∷ "bin" ∷ []) ≡ some dir
  only : (n : String) → is_some (node_at s (in_source n)) ≡ true → contains names n ≡ true
  each : (n : String) → contains names n ≡ true → is_some (node_at s (in_source n)) ≡ true

abbrev place : String → FilePath
place x = "staging" ∷ "usr" ∷ "bin" ∷ x ∷ []

one_of : (n : String) → contains names n ≡ true → (n ≡ "ls") ⊎ (n ≡ "dir")
one_of n h = ground (arith, string_eq.same_iff "ls" n, string_eq.same_iff "dir" n)

module _ (s : Fs) (i : Stocked s) where
  staging_is_dir : is_dir s ("staging" ∷ []) ≡ true
  unfolding stat resolve walk
  staging_is_dir = rw i.staging (rw i.staging refl)

  usr_is_dir : is_dir s ("staging" ∷ "usr" ∷ []) ≡ true
  unfolding stat resolve walk
  usr_is_dir = rw (i.staging, i.usr) (rw i.usr refl)

  bin_is_dir : is_dir s ("staging" ∷ "usr" ∷ "bin" ∷ []) ≡ true
  unfolding stat resolve walk
  bin_is_dir = rw (i.staging, i.usr, i.bin) (rw i.bin refl)

  below_dir :
      (done todo : FilePath) (x : String)
      → is_dir s (done ++ (x ∷ [])) ≡ true
      → create_dirs_below done (x ∷ todo) s ≡ create_dirs_below (done ++ (x ∷ [])) todo s
  unfolding create_dirs_below
  below_dir done todo x h = rw h refl

  nothing_to_make : (done : FilePath) → create_dirs_below done [] s ≡ (ok tt, s)
  unfolding create_dirs_below
  nothing_to_make done = refl

  dirs_there : create_dir_all ("staging" ∷ "usr" ∷ "bin" ∷ []) s ≡ (ok tt, s)
  unfolding create_dir_all
  dirs_there =
      below_dir [] ("usr" ∷ "bin" ∷ []) "staging" staging_is_dir
      ∙ below_dir ("staging" ∷ []) ("bin" ∷ []) "usr" usr_is_dir
      ∙ below_dir ("staging" ∷ "usr" ∷ []) [] "bin" bin_is_dir
      ∙ nothing_to_make ("staging" ∷ "usr" ∷ "bin" ∷ [])

  put-Stocked : (x : String) (n : Node) → Stocked (put_node (place x) n s)
  put-Stocked x n = record {
    staging = node_at-put_node s "staging" ("usr" ∷ "bin" ∷ x ∷ []) ("staging" ∷ []) n ∙ i.staging;
    usr = node_at-put_node s "staging" ("usr" ∷ "bin" ∷ x ∷ []) ("staging" ∷ "usr" ∷ []) n ∙ i.usr;
    bin =
        node_at-put_node s "staging" ("usr" ∷ "bin" ∷ x ∷ []) ("staging" ∷ "usr" ∷ "bin" ∷ []) n
        ∙ i.bin;
    only = λ m h. i.only m (
        sym (ap is_some (node_at-put_node s "staging" ("usr" ∷ "bin" ∷ x ∷ []) (in_source m) n))
        ∙ h);
    each = λ m h.
        ap is_some (node_at-put_node s "staging" ("usr" ∷ "bin" ∷ x ∷ []) (in_source m) n)
        ∙ i.each m h;
  }

  place-resolved :
      (x : String) (o : Option Node)
      → node_at s (place x) ≡ o
      → (x == "..") ≡ false
      → resolve s false (place x) ≡ some (place x)
  unfolding resolve walk
  place-resolved x none e d = rw (i.staging, i.usr, i.bin, d, e) refl
  place-resolved x (some dir) e d = rw (i.staging, i.usr, i.bin, d, e) refl
  place-resolved x (some (file content mode time)) e d = rw (i.staging, i.usr, i.bin, d, e) refl
  place-resolved x (some (link target)) e d = rw (i.staging, i.usr, i.bin, d, e) refl

  linked-Stocked : (target x : String) → Stocked (symlink_at target (some (place x)) s).1
  linked-Stocked target x = elim (Bool-cases (is_some (node_at s (place x)))) [
    | inl y ↦ rw y i
    | inr y ↦ rw y (put-Stocked x (link target))
  ]

  link-Stocked : (target x : String) → (x == "..") ≡ false → Stocked (symlink target (place x) s).1
  unfolding symlink
  link-Stocked target x d =
      rw (place-resolved x (node_at s (place x)) refl d) (linked-Stocked target x)

  extraction-Stocked :
      (n : String) → contains names n ≡ true → Stocked (find_or_extract tools ctx listed n s).1
  extraction-Stocked n c = rw (find_or_extract, i.each n c) i

  dirs-Stocked :
      (n : String)
      → contains names n ≡ true
      → Stocked (create_dir_all (drop_last (dest_of tools ctx listed "usr/bin" true n)) s).1
  dirs-Stocked n c = elim (one_of n c) [
    | inl e ↦
        subst
          (λ m.
            Stocked (create_dir_all (drop_last (dest_of tools ctx listed "usr/bin" true m)) s).1)
          (sym e) (subst Stocked (sym (ap (λ r. r.1) dirs_there)) i)
    | inr e ↦
        subst
          (λ m.
            Stocked (create_dir_all (drop_last (dest_of tools ctx listed "usr/bin" true m)) s).1)
          (sym e) (subst Stocked (sym (ap (λ r. r.1) dirs_there)) i)
  ]

  links-Stocked :
      (target n : String)
      → contains names n ≡ true
      → Stocked (symlink target (dest_of tools ctx listed "usr/bin" true n) s).1
  links-Stocked target n c = elim (one_of n c) [
    | inl e ↦
        subst (λ m. Stocked (symlink target (dest_of tools ctx listed "usr/bin" true m) s).1)
          (sym e) (link-Stocked target "ls" refl)
    | inr e ↦
        subst (λ m. Stocked (symlink target (dest_of tools ctx listed "usr/bin" true m) s).1)
          (sym e) (link-Stocked target "dir" refl)
  ]

listed-found :
    (s : Fs) (n : String)
    → is_some (listed s ctx.source n) ≡ true
    → is_some (node_at s (in_source n)) ≡ true
listed-found s n h = ground arith

listed-Bounded : Bounded tools ctx listed "usr/bin" true Stocked names
listed-Bounded = record {
  found_names = λ s n i h. i.only n (listed-found s n h);
  dirs_kept = λ n s c i. dirs-Stocked s i n c;
  links_kept = λ target n s c i. links-Stocked s i target n c;
  extraction_kept = λ n s c i. extraction-Stocked s i n c;
}

abbrev stocked : World
stocked = record {
  fs = record {
    nodes =
        ("staging" ∷ [], dir)
        ∷ ("staging" ∷ "usr" ∷ [], dir)
        ∷ ("staging" ∷ "usr" ∷ "bin" ∷ [], dir)
        ∷ ("src" ∷ [], dir)
        ∷ ("src" ∷ "usr" ∷ [], dir)
        ∷ ("src" ∷ "usr" ∷ "bin" ∷ [], dir)
        ∷ (in_source "ls", plain "elf")
        ∷ (in_source "dir", link "ls")
        ∷ [];
    clock = 1;
  };
  registered = [];
}

only_these :
    (a b : Bool) (x y : Node)
    → is_some (if a && true then some x else if b && true then some y else none) ≡ true
    → (a || (b || false)) ≡ true
only_these true b x y h = refl
only_these false true x y h = refl
only_these false false x y h = absurd cc

stocked_only :
    (n : String) → is_some (node_at stocked.fs (in_source n)) ≡ true → contains names n ≡ true
unfolding node_at lookup
stocked_only n h = only_these _ _ _ _ h

stocked_each :
    (n : String) → contains names n ≡ true → is_some (node_at stocked.fs (in_source n)) ≡ true
unfolding node_at lookup
stocked_each n h = elim (one_of n h) [
  | inl e ↦ subst (λ m. is_some (node_at stocked.fs (in_source m)) ≡ true) (sym e) refl
  | inr e ↦ subst (λ m. is_some (node_at stocked.fs (in_source m)) ≡ true) (sym e) refl
]

small_disk : Stocked stocked.fs
unfolding node_at lookup
small_disk = record {
  staging = refl;
  usr = refl;
  bin = refl;
  only = stocked_only;
  each = stocked_each;
}

copy_executable_enough_example :
    copy_executable tools ctx listed "usr/bin" 4 "dir" true stocked
    ≡ copy_executable tools ctx listed "usr/bin" 9 "dir" true stocked
copy_executable_enough_example =
    copy_executable_enough tools ctx listed "usr/bin" true Stocked names listed-Bounded 4 9 "dir"
      stocked refl small_disk (omega arith) (omega arith)
