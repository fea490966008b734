-- ===== src/Fs/Kept.antt =====
-- What is made where nothing was leaves every node as it is, and every path to one.
pub mod Steps
pub mod Directories
use leviso.Base.{
  ℕ, zero, suc, String, ◌≡◌, [], ◌∷◌, ◌++◌, true, false, Bool, Option, none, some, string_eq,
  list_eq, list_same_iff, arith, refl, Bool-cases, if◌then◌else◌, sym, inl, inr, ap, ◌∙◌, ◌⊎◌,
}
use leviso.Base.{clash}
use leviso.Error.{Result, ok, err}
use leviso.Exec.{Exec, continue, wrap, ◌>>=◌}
use leviso.Fs.Ops.{
  symlink, resolve, lexists, exists, lstat, stat, mkdir_at, create_dir, create_dirs_below,
  create_dir_all, symlink_at, at_place, is_dir, put_node, is_some,
}
use leviso.Fs.Path.{FilePath, components, drop_last}
use leviso.Fs.State.{Fs, Node, link, node_at, dir}
use leviso.Fs.Walk.{walk, start_of, max_links}
use leviso.Fs.ReadBack.{node_at-put_node}
use mathlib.Core.Path.{subst}

abbrev target_of : Option Node → String
target_of (some (link target)) = target
target_of _ = ""

-- Every node of `s` is in `t`, at its place and as it is.
pub record Keeps (s t : Fs) : Type 0 where
  pub node : (q : FilePath) (n : Node) → node_at s q ≡ some n → node_at t q ≡ some n

pub Keeps-refl : (s : Fs) → Keeps s s
Keeps-refl s = record { node = λ q n h. h }

pub Keeps-trans : (s t u : Fs) → Keeps s t → Keeps t u → Keeps s u
Keeps-trans s t u h g = record { node = λ q n e. g.node q n (h.node q n e) }

module _ (s t : Fs) (k : Keeps s t) where
  node_kept : (q : FilePath) (o : Option Node) → node_at s q ≡ o → (o ≡ none) ⊎ (node_at t q ≡ o)
  node_kept q none h = inl refl
  node_kept q (some n) h = inr (k.node q n h)

  -- A walk that ends at a node takes the same way.
  walk-Keeps :
      (follow : Bool) (links : ℕ) (done todo r : FilePath)
      → walk s follow links done todo ≡ some r
      → is_some (node_at s r) ≡ true
      → walk t follow links done todo ≡ some r
  unfolding walk
  walk-Keeps follow links done [] r e h = e
  walk-Keeps follow zero done (y ∷ todo) r e h =
      let p = done ++ (y ∷ []) in
      ground (
        arith,
        node_kept p (node_at s p) refl,
        walk-Keeps follow zero (drop_last done) todo r,
        walk-Keeps follow zero p todo r,
      )
  walk-Keeps follow (suc links) done (y ∷ todo) r e h =
      let p = done ++ (y ∷ []) in
      let target = target_of (node_at s p) in
      ground (
        arith,
        node_kept p (node_at s p) refl,
        walk-Keeps follow (suc links) (drop_last done) todo r,
        walk-Keeps follow (suc links) p todo r,
        walk-Keeps follow links (start_of done target) (components target ++ todo) r,
      )

  at_place-Keeps :
      (follow : Bool) (p : FilePath) (o : Option FilePath) (n : Node)
      → resolve s follow p ≡ o
      → at_place s o ≡ some n
      → at_place t (resolve t follow p) ≡ some n
  unfolding resolve
  at_place-Keeps follow p none n e h = absurd cc
  at_place-Keeps follow p (some r) n e h =
      subst (λ o. at_place t o ≡ some n) (sym (walk-Keeps follow max_links [] p r e (ap is_some h)))
        (k.node r n h)

  -- What a path leads to is led to still.
  pub lstat-Keeps : (p : FilePath) (n : Node) → lstat s p ≡ some n → lstat t p ≡ some n
  unfolding lstat
  lstat-Keeps p n h = at_place-Keeps false p (resolve s false p) n refl h

  pub stat-Keeps : (p : FilePath) (n : Node) → stat s p ≡ some n → stat t p ≡ some n
  unfolding stat
  stat-Keeps p n h = at_place-Keeps true p (resolve s true p) n refl h

  some_kept :
      (o : Option Node) (r : Option Node)
      → ((n : Node) → o ≡ some n → r ≡ some n)
      → is_some o ≡ true
      → is_some r ≡ true
  some_kept none r f h = clash (sym h)
  some_kept (some n) r f h = ap is_some (f n refl)

  pub lexists-Keeps : (p : FilePath) → lexists s p ≡ true → lexists t p ≡ true
  lexists-Keeps p = some_kept (lstat s p) (lstat t p) (lstat-Keeps p)

  pub exists-Keeps : (p : FilePath) → exists s p ≡ true → exists t p ≡ true
  exists-Keeps p = some_kept (stat s p) (stat t p) (stat-Keeps p)

module _ (s : Fs) (x : String) (q : FilePath) (n : Node) (free : node_at s (x ∷ q) ≡ none) where
  abbrev after : Fs
  after = put_node (x ∷ q) n s

  pub put_node-Keeps : Keeps s after
  put_node-Keeps = record {
    node = λ r m e. ground (arith, node_at-put_node s x q r n, list_same_iff (x ∷ q) r);
  }

  -- A walk that does not follow the last link, and ends where nothing is, ends at what is made there.
  walk-made :
      (links : ℕ) (done todo : FilePath)
      → walk s false links done todo ≡ some (x ∷ q)
      → walk after false links done todo ≡ some (x ∷ q)
  unfolding walk
  walk-made links done [] e = e
  walk-made zero done (y ∷ todo) e =
      let p = done ++ (y ∷ []) in
      ground (
        arith,
        node_at-put_node s x q p n,
        list_same_iff (x ∷ q) p,
        walk-made zero (drop_last done) todo,
        walk-made zero p todo,
      )
  walk-made (suc links) done (y ∷ todo) e =
      let p = done ++ (y ∷ []) in
      let target = target_of (node_at s p) in
      ground (
        arith,
        node_at-put_node s x q p n,
        list_same_iff (x ∷ q) p,
        walk-made (suc links) (drop_last done) todo,
        walk-made (suc links) p todo,
        walk-made links (start_of done target) (components target ++ todo),
      )

  pub lstat-made : (p : FilePath) → resolve s false p ≡ some (x ∷ q) → lstat after p ≡ some n
  unfolding lstat resolve
  lstat-made p e =
      subst (λ o. at_place after o ≡ some n) (sym (walk-made max_links [] p e))
        (ground (arith, node_at-put_node s x q (x ∷ q) n, list_same_iff (x ∷ q) (x ∷ q)))

pub node-none : (o : Option Node) → is_some o ≡ false → o ≡ none
node-none none h = refl
node-none (some n) h = clash h
