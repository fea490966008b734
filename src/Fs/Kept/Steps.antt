-- ===== src/Fs/Kept/Steps.antt =====
-- The calls of `std::fs` that only add, and the ways to put such steps together.
use leviso.Base.{
  String, ◌≡◌, [], ◌∷◌, ◌++◌, true, false, Bool, Option, none, some, refl, Bool-cases,
  if◌then◌else◌, inl, inr, ap, ℕ,
}
use leviso.Error.{Error, Result, ok, err}
use leviso.Exec.{Exec, continue, wrap, with_context, ◌>>=◌, ◌>>◌}
use leviso.Text.{Text}
use leviso.Fs.Ops.{
  symlink, resolve, exists, lstat, stat, mkdir_at, create_dir, create_dirs_below, create_dir_all,
  symlink_at, at_place, is_dir, is_some,
}
use leviso.Fs.Copy.{copy, copy_node, copy_to, place_copy}
use leviso.Fs.Path.{FilePath}
use leviso.Fs.State.{Fs, Node, link, node_at, dir, file}
use leviso.Fs.Kept.{Keeps, Keeps-refl, Keeps-trans, put_node-Keeps, lstat-made, node-none}
use mathlib.Core.Path.{subst}
use leviso.Fs.ReadBack.{stat-put_node}

-- A step that keeps every node, whether it succeeds or not
abbrev pub Keeping : {T : Type 0} → Exec Fs T → Type 0
Keeping m = (s : Fs) → Keeps s (m s).1

pub continue-Keeps :
    {T U : Type 0} (s : Fs) (r : Result T × Fs) (k : T → Exec Fs U)
    → Keeps s r.1
    → ((x : T) → Keeping (k x))
    → Keeps s (continue r k).1
continue-Keeps s (err e, t) k h g = h
continue-Keeps s (ok x, t) k h g = Keeps-trans s t _ h (g x t)

module _ {T U : Type 0} (m : Exec Fs T) where
  pub bind-Keeping : (k : T → Exec Fs U) → Keeping m → ((x : T) → Keeping (k x)) → Keeping (m >>= k)
  bind-Keeping k h g s = continue-Keeps s (m s) k (h s) g

  pub then-Keeping : (n : Exec Fs U) → Keeping m → Keeping n → Keeping (m >> n)
  then-Keeping n h g = bind-Keeping (λ _. n) h (λ _. g)

module _ {T : Type 0} where
  wrap-Keeps :
      (more : Error → Error) (s : Fs) (r : Result T × Fs) → Keeps s r.1 → Keeps s (wrap more r).1
  wrap-Keeps more s (err e, t) h = h
  wrap-Keeps more s (ok x, t) h = h

  pub context-Keeping :
      (more : Error → Error) (m : Exec Fs T) → Keeping m → Keeping (with_context more m)
  context-Keeping more m h s = wrap-Keeps more s (m s) (h s)

  pub branch-Keeps :
      (b : Bool) (s : Fs) (u v : Result T × Fs)
      → (b ≡ true → Keeps s u.1)
      → (b ≡ false → Keeps s v.1)
      → Keeps s (if b then u else v).1
  branch-Keeps true s u v f g = f refl
  branch-Keeps false s u v f g = g refl

mkdir_at-Keeping : (o : Option FilePath) → Keeping (mkdir_at o)
unfolding node_at
mkdir_at-Keeping none s = Keeps-refl s
mkdir_at-Keeping (some []) s = Keeps-refl s
mkdir_at-Keeping (some (x ∷ q)) s =
    branch-Keeps (is_some (node_at s (x ∷ q))) s _ _ (λ _. Keeps-refl s)
      (λ y. put_node-Keeps s x q dir (node-none _ y))

create_dir-Keeping : (p : FilePath) → Keeping (create_dir p)
unfolding create_dir
create_dir-Keeping p s = mkdir_at-Keeping (resolve s false p) s

create_dirs_below-Keeping : (done todo : FilePath) → Keeping (create_dirs_below done todo)
unfolding create_dirs_below
create_dirs_below-Keeping done [] s = Keeps-refl s
create_dirs_below-Keeping done (x ∷ todo) s =
    let p = done ++ (x ∷ []) in
    continue-Keeps s (if is_dir s p then (ok tt, s) else create_dir p s)
      (λ _. create_dirs_below p todo)
      (branch-Keeps (is_dir s p) s _ _ (λ _. Keeps-refl s) (λ _. create_dir-Keeping p s))
      (λ _. create_dirs_below-Keeping p todo)

-- `fs::create_dir_all` leaves in its place what is there, whether it succeeds or not.
pub create_dir_all-Keeping : (p : FilePath) → Keeping (create_dir_all p)
unfolding create_dir_all
create_dir_all-Keeping p = create_dirs_below-Keeping [] p

symlink_at-Keeping : (target : String) (o : Option FilePath) → Keeping (symlink_at target o)
unfolding node_at
symlink_at-Keeping target none s = Keeps-refl s
symlink_at-Keeping target (some []) s = Keeps-refl s
symlink_at-Keeping target (some (x ∷ q)) s =
    branch-Keeps (is_some (node_at s (x ∷ q))) s _ _ (λ _. Keeps-refl s)
      (λ y. put_node-Keeps s x q (link target) (node-none _ y))

pub symlink-Keeping : (target : String) (p : FilePath) → Keeping (symlink target p)
unfolding symlink
symlink-Keeping target p s = symlink_at-Keeping target (resolve s false p) s

symlink_at-made :
    (target : String) (p : FilePath) (o : Option FilePath) (s t : Fs)
    → resolve s false p ≡ o
    → symlink_at target o s ≡ (ok tt, t)
    → lstat t p ≡ some (link target)
unfolding node_at
symlink_at-made target p none s t e h = absurd cc
symlink_at-made target p (some []) s t e h = absurd cc
symlink_at-made target p (some (x ∷ q)) s t e h = elim (Bool-cases (is_some (node_at s (x ∷ q)))) [
  | inl y ↦ let k = rw y at h in absurd cc
  | inr y ↦
      let k = rw y at h in
      subst (λ u. lstat u p ≡ some (link target)) (ap (λ r. r.1) k)
        (lstat-made s x q (link target) (node-none _ y) p e)
]

-- After `symlink` has succeeded, the link is at its path.
pub symlink-made :
    (target : String) (p : FilePath) (s t : Fs)
    → symlink target p s ≡ (ok tt, t)
    → lstat t p ≡ some (link target)
unfolding symlink
symlink-made target p s t h = symlink_at-made target p (resolve s false p) s t refl h

module _ (s : Fs) where
  place_copy-Keeps :
      (content : Text) (mode : ℕ) (from : Option FilePath) (x : String) (q : FilePath)
      → node_at s (x ∷ q) ≡ none
      → Keeps s (place_copy content mode from (x ∷ q) none s).1
  place_copy-Keeps content mode none x q f = Keeps-refl s
  place_copy-Keeps content mode (some p) x q f = put_node-Keeps s x q (file content mode s.clock) f

  copy_to-Keeps :
      (content : Text) (mode : ℕ) (from to : Option FilePath)
      → at_place s to ≡ none
      → Keeps s (copy_to content mode from to s).1
  unfolding node_at
  copy_to-Keeps content mode from none h = Keeps-refl s
  copy_to-Keeps content mode from (some []) h = absurd cc
  copy_to-Keeps content mode from (some (x ∷ q)) h = rw h (place_copy-Keeps content mode from x q h)

  copy_node-Keeps :
      (from to : Option FilePath) (n : Option Node)
      → at_place s to ≡ none
      → Keeps s (copy_node from to n s).1
  copy_node-Keeps from to none h = Keeps-refl s
  copy_node-Keeps from to (some dir) h = Keeps-refl s
  copy_node-Keeps from to (some (link target)) h = Keeps-refl s
  copy_node-Keeps from to (some (file content mode time)) h = copy_to-Keeps content mode from to h

  -- A copy to a path that leads nowhere
  pub copy-Keeps : (from to : FilePath) → exists s to ≡ false → Keeps s (copy from to s).1
  unfolding copy stat
  copy-Keeps from to h =
      copy_node-Keeps (resolve s true from) (resolve s true to) (stat s from) (node-none _ h)

-- What a copy to a path that led nowhere leaves: a file with the content and the mode of its source.
pub record Copied (s t : Fs) (from to : FilePath) : Type 0 where
  pub content : Text
  pub mode : ℕ
  pub old_time : ℕ
  pub time : ℕ
  pub source : stat s from ≡ some (file content mode old_time)
  pub copied : stat t to ≡ some (file content mode time)

module _ (s t : Fs) (to : FilePath) where
  place_copy-lands :
      (content : Text) (mode : ℕ) (from : Option FilePath) (x : String) (q : FilePath)
      → node_at s (x ∷ q) ≡ none
      → resolve s true to ≡ some (x ∷ q)
      → place_copy content mode from (x ∷ q) none s ≡ (ok tt, t)
      → stat t to ≡ some (file content mode s.clock)
  place_copy-lands content mode none x q f e h = absurd cc
  place_copy-lands content mode (some p) x q f e h =
      subst (λ u. stat u to ≡ some (file content mode s.clock)) (ap (λ r. r.1) h)
        (stat-put_node s to x q content mode s.clock (rw f tt) e)

  copy_to-lands :
      (content : Text) (mode : ℕ) (from o : Option FilePath)
      → at_place s o ≡ none
      → resolve s true to ≡ o
      → copy_to content mode from o s ≡ (ok tt, t)
      → stat t to ≡ some (file content mode s.clock)
  unfolding node_at
  copy_to-lands content mode from none f e h = absurd cc
  copy_to-lands content mode from (some []) f e h = absurd cc
  copy_to-lands content mode from (some (x ∷ q)) f e h =
      place_copy-lands content mode from x q f e (let k = rw f at h in k)

  copy_node-Copied :
      (from : FilePath) (n : Option Node)
      → at_place s (resolve s true to) ≡ none
      → stat s from ≡ n
      → copy_node (resolve s true from) (resolve s true to) n s ≡ (ok tt, t)
      → Copied s t from to
  copy_node-Copied from none f e h = absurd cc
  copy_node-Copied from (some dir) f e h = absurd cc
  copy_node-Copied from (some (link target)) f e h = absurd cc
  copy_node-Copied from (some (file content mode time)) f e h = record {
    content = content;
    mode = mode;
    old_time = time;
    time = s.clock;
    source = e;
    copied = copy_to-lands content mode (resolve s true from) (resolve s true to) f refl h;
  }

  pub copy-Copied :
      (from : FilePath) → exists s to ≡ false → copy from to s ≡ (ok tt, t) → Copied s t from to
  unfolding copy stat
  copy-Copied from f h = copy_node-Copied from (stat s from) (node-none _ f) refl h
