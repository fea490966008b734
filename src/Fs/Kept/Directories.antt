-- ===== src/Fs/Kept/Directories.antt =====
-- After `fs::create_dir_all` has succeeded, the directory is there.
use leviso.Base.{
  ℕ, zero, suc, String, ◌≡◌, refl, [], ◌∷◌, ◌++◌, true, false, Option, none, some, arith, sym, ap,
  Bool-cases, inl, inr, string_eq, if◌then◌else◌,
}
use mathlib.Core.List.{append_assoc, append-nil}
use leviso.Error.{Result, ok, err}
use leviso.Exec.{continue}
use leviso.Fs.Path.{FilePath, components, drop_last}
use leviso.Fs.State.{Fs, Node, link, dir, node_at}
use leviso.Fs.Walk.{walk, start_of, max_links}
use leviso.Fs.Ops.{
  resolve, at_place, stat, lstat, exists, is_dir, is_some, mkdir_at, create_dir, create_dirs_below,
  create_dir_all, node_is_dir,
}
use leviso.Fs.Kept.{node-none, lstat-made}
use mathlib.Core.Path.{subst}

abbrev target_of : Option Node → String
target_of (some (link target)) = target
target_of _ = ""

module _ (s : Fs) where
  -- A walk that ends at a directory has no link left to follow.
  walk-dir :
      (links : ℕ) (done todo r : FilePath)
      → walk s false links done todo ≡ some r
      → node_at s r ≡ some dir
      → walk s true links done todo ≡ some r
  unfolding walk
  walk-dir links done [] r e h = e
  walk-dir zero done (y ∷ todo) r e h =
      let p = done ++ (y ∷ []) in
      ground (arith, walk-dir zero (drop_last done) todo r, walk-dir zero p todo r)
  walk-dir (suc links) done (y ∷ todo) r e h =
      let p = done ++ (y ∷ []) in
      let target = target_of (node_at s p) in
      ground (
        arith,
        walk-dir (suc links) (drop_last done) todo r,
        walk-dir (suc links) p todo r,
        walk-dir links (start_of done target) (components target ++ todo) r,
      )

  lstat-dir :
      (p : FilePath) (o : Option FilePath)
      → resolve s false p ≡ o
      → at_place s o ≡ some dir
      → exists s p ≡ true
  unfolding stat resolve
  lstat-dir p none e h = absurd cc
  lstat-dir p (some r) e h = rw (walk-dir max_links [] p r e h) (rw h refl)

directory_is_there : (u : Fs) (p : FilePath) → lstat u p ≡ some dir → exists u p ≡ true
unfolding lstat
directory_is_there u p h = lstat-dir u p (resolve u false p) refl h

mkdir_at-there :
    (p : FilePath) (o : Option FilePath) (s t : Fs)
    → resolve s false p ≡ o
    → mkdir_at o s ≡ (ok tt, t)
    → exists t p ≡ true
unfolding node_at
mkdir_at-there p none s t e h = absurd cc
mkdir_at-there p (some []) s t e h = absurd cc
mkdir_at-there p (some (x ∷ q)) s t e h = elim (Bool-cases (is_some (node_at s (x ∷ q)))) [
  | inl y ↦ let k = rw y at h in absurd cc
  | inr y ↦
      let k = rw y at h in
      subst (λ u. exists u p ≡ true) (ap (λ r. r.1) k)
        (directory_is_there _ p (lstat-made s x q dir (node-none _ y) p e))
]

is_dir-exists : (o : Option Node) → node_is_dir o ≡ true → is_some o ≡ true
is_dir-exists o h = ground arith

step-there :
    (p : FilePath) (s u : Fs)
    → (if is_dir s p then (ok tt, s) else create_dir p s) ≡ (ok tt, u)
    → exists u p ≡ true
unfolding create_dir
step-there p s u h = elim (Bool-cases (is_dir s p)) [
  | inl d ↦
      let k = rw d at h in
      subst (λ v. exists v p ≡ true) (ap (λ r. r.1) k) (is_dir-exists (stat s p) d)
  | inr d ↦ let k = rw d at h in mkdir_at-there p (resolve s false p) s u refl k
]

through_made :
    (r : Result (Unit {0}) × Fs) (p todo : FilePath) {t : Fs}
    → continue r (λ _. create_dirs_below p todo) ≡ (ok tt, t)
    → (x : Unit {0}) × (u : Fs) × (r ≡ (ok x, u)) × (create_dirs_below p todo u ≡ (ok tt, t))
through_made (err e, u) p todo h = absurd cc
through_made (ok tt, u) p todo h = (tt, u, refl, h)

create_dirs_below-there :
    (done todo : FilePath) (s t : Fs)
    → exists s done ≡ true
    → create_dirs_below done todo s ≡ (ok tt, t)
    → exists t (done ++ todo) ≡ true
unfolding create_dirs_below
create_dirs_below-there done [] s t e h =
    subst (λ u. exists u (done ++ []) ≡ true) (ap (λ r. r.1) h)
      (subst (λ p. exists s p ≡ true) (sym (append-nil done)) e)
create_dirs_below-there done (x ∷ todo) s t e h =
    let p = done ++ (x ∷ []) in
    let (_, u, m, k) = through_made (if is_dir s p then (ok tt, s) else create_dir p s) p todo h in
    subst (λ q. exists t q ≡ true) (append_assoc done (x ∷ []) todo)
      (create_dirs_below-there p todo u t (step-there p s u m) k)

root_exists : (s : Fs) → exists s [] ≡ true
unfolding stat resolve walk node_at
root_exists s = refl

-- After a success the directory is there.
pub create_dir_all-there :
    (p : FilePath) (s t : Fs) → create_dir_all p s ≡ (ok tt, t) → exists t p ≡ true
unfolding create_dir_all
create_dir_all-there p s t h = create_dirs_below-there [] p s t (root_exists s) h
