-- ===== src/Fs/Removal.antt =====
-- What `remove_file` and `remove_dir_all` leave: the removed path is gone whatever links led to
-- it, and no path that was missing appears.
pub mod Elsewhere
use leviso.Base.{
  ℕ, zero, suc, String, ◌≡◌, refl, ◌⊎◌, inl, inr, [], ◌∷◌, ◌++◌, Bool, true, false, Option, none,
  some, ◌==◌, string_eq, list_eq, list_same_iff, arith,
}
use text.Mathlib.TextEquality.{eq_iff}
use leviso.Error.{Error, Result, ok, err}
use leviso.Fs.Path.{FilePath, components, drop_last, is_prefix}
use leviso.Fs.Table.{lookup, erase, erase_tree, lookup-erase, lookup-erase_tree}
use leviso.Fs.State.{Fs, Node, dir, file, link, node_at}
use leviso.Fs.Walk.{walk, max_links, start_of}
use leviso.Fs.Ops.{
  resolve, at_place, stat, exists, unlink_to, unlink_at, rmtree_to, rmtree_at, remove_file,
  remove_dir_all,
}

abbrev target_of : Option Node → String
target_of (some (link target)) = target
target_of _ = ""

-- Each node of `t` is the node of `s` there.
pub record Within (t s : Fs) : Type 0 where
  pub kept : (q : FilePath) → (node_at t q ≡ none) ⊎ (node_at t q ≡ node_at s q)

module _ (s t : Fs) (w : Within t s) where
  walk-Within :
      (follow : Bool) (links : ℕ) (done todo : FilePath)
      → (at_place t (walk t follow links done todo) ≡ none)
        ⊎ (walk t follow links done todo ≡ walk s follow links done todo)
  unfolding walk
  walk-Within follow links done [] = inr refl
  walk-Within follow zero done (x ∷ todo) = ground (
    arith,
    w.kept (done ++ (x ∷ [])),
    walk-Within follow zero (drop_last done) todo,
    walk-Within follow zero (done ++ (x ∷ [])) todo,
  )
  walk-Within follow (suc links) done (x ∷ todo) =
      let target = target_of (node_at t (done ++ (x ∷ []))) in
      ground (
        arith,
        w.kept (done ++ (x ∷ [])),
        walk-Within follow (suc links) (drop_last done) todo,
        walk-Within follow (suc links) (done ++ (x ∷ [])) todo,
        walk-Within follow links (start_of done target) (components target ++ todo),
      )

  pub resolve-Within :
      (follow : Bool) (p : FilePath)
      → (at_place t (resolve t follow p) ≡ none) ⊎ (resolve t follow p ≡ resolve s follow p)
  unfolding resolve
  resolve-Within follow p = walk-Within follow max_links [] p

  at_place-Within : (o : Option FilePath) → (at_place t o ≡ none) ⊎ (at_place t o ≡ at_place s o)
  at_place-Within none = inl refl
  at_place-Within (some q) = w.kept q

  -- A missing path stays missing.
  pub exists-Within : (p : FilePath) → exists s p ≡ false → exists t p ≡ false
  unfolding stat resolve
  exists-Within p h =
      ground (arith, walk-Within true max_links [] p, at_place-Within (walk s true max_links [] p))

  walk-removed :
      (follow : Bool) (links : ℕ) (done todo : FilePath) {r : FilePath}
      → node_at t r ≡ none
      → walk s false links done todo ≡ some r
      → at_place t (walk t follow links done todo) ≡ none
  unfolding walk
  walk-removed follow links done [] gone e = ground arith
  walk-removed follow zero done (x ∷ todo) gone e = ground (
    arith,
    w.kept (done ++ (x ∷ [])),
    walk-removed follow zero (drop_last done) todo gone,
    walk-removed follow zero (done ++ (x ∷ [])) todo gone,
  )
  walk-removed follow (suc links) done (x ∷ todo) gone e =
      let target = target_of (node_at t (done ++ (x ∷ []))) in
      ground (
        arith,
        w.kept (done ++ (x ∷ [])),
        walk-removed follow (suc links) (drop_last done) todo gone,
        walk-removed follow (suc links) (done ++ (x ∷ [])) todo gone,
        walk-removed follow links (start_of done target) (components target ++ todo) gone,
      )

pub Within-refl : (s : Fs) → Within s s
Within-refl s = record { kept = λ q. inr refl }

pub Within-trans : {u t s : Fs} → Within u t → Within t s → Within u s
Within-trans {u} {t} {s} a b = record { kept = λ q. ground (arith, a.kept q, b.kept q) }

erase-Within : (s : Fs) (q : FilePath) → Within (record s { nodes = erase q s.nodes }) s
unfolding node_at
erase-Within s q = record {
  kept = elim [ [] ↦ inr refl | x ∷ p ↦ ground (arith, lookup-erase q (x ∷ p) s.nodes) ];
}

erase_tree-Within : (s : Fs) (q : FilePath) → Within (record s { nodes = erase_tree q s.nodes }) s
unfolding node_at
erase_tree-Within s q = record {
  kept = elim [ [] ↦ inr refl | x ∷ p ↦ ground (arith, lookup-erase_tree q (x ∷ p) s.nodes) ];
}

empty-Within : (s : Fs) → Within (record s { nodes = [] }) s
unfolding node_at lookup
empty-Within s = record { kept = elim [ [] ↦ inr refl | x ∷ p ↦ inl refl ] }

-- The node at the resolved place is gone.
erase_self :
    (s : Fs) (x : String) (p : FilePath)
    → node_at (record s { nodes = erase (x ∷ p) s.nodes }) (x ∷ p) ≡ none
unfolding node_at
erase_self s x p =
    ground (arith, lookup-erase (x ∷ p) (x ∷ p) s.nodes, list_same_iff (x ∷ p) (x ∷ p))

is_prefix_refl : (p : FilePath) → is_prefix p p ≡ true
is_prefix_refl [] = refl
is_prefix_refl (x ∷ p) = ground (arith, eq_iff x x, is_prefix_refl p)

erase_tree_self :
    (s : Fs) (x : String) (p : FilePath)
    → node_at (record s { nodes = erase_tree (x ∷ p) s.nodes }) (x ∷ p) ≡ none
unfolding node_at
erase_tree_self s x p =
    ground (arith, lookup-erase_tree (x ∷ p) (x ∷ p) s.nodes, is_prefix_refl (x ∷ p))

-- What a call that removes `p` leaves, whether it returns `ok` or not: nothing is added or
-- changed, and after `ok` the path leads nowhere.
pub record Removes (p : FilePath) (s : Fs) (out : Result (Unit {0}) × Fs) : Type 0 where
  pub within : Within out.1 s
  pub gone : out.0 ≡ ok tt → exists out.1 p ≡ false

removed-gone :
    (s t : Fs) (p : FilePath) {r : FilePath}
    → Within t s
    → node_at t r ≡ none
    → resolve s false p ≡ some r
    → exists t p ≡ false
unfolding stat resolve
removed-gone s t p w gone e = ground (arith, walk-removed s t w true max_links [] p gone e)

module _ (p : FilePath) (s : Fs) where
  Removes-err : (e : Error) → Removes p s (err e, s)
  Removes-err e = record { within = Within-refl s; gone = λ h. cc }

  module _ (x : String) (q : FilePath) (e : resolve s false p ≡ some (x ∷ q)) where
    erase-Removes : Removes p s (ok tt, record s { nodes = erase (x ∷ q) s.nodes })
    erase-Removes =
        let w = erase-Within s (x ∷ q) in
        record { within = w; gone = λ h. removed-gone s _ p w (erase_self s x q) e }

    unlink_at-Removes : (n : Option Node) → Removes p s (unlink_at (x ∷ q) n s)
    unlink_at-Removes none = Removes-err _
    unlink_at-Removes (some dir) = Removes-err _
    unlink_at-Removes (some (file content mode time)) = erase-Removes
    unlink_at-Removes (some (link target)) = erase-Removes

    rmtree_at-Removes : (n : Option Node) → Removes p s (rmtree_at (x ∷ q) n s)
    rmtree_at-Removes none = Removes-err _
    rmtree_at-Removes (some dir) =
        let w = erase_tree-Within s (x ∷ q) in
        record { within = w; gone = λ h. removed-gone s _ p w (erase_tree_self s x q) e }
    rmtree_at-Removes (some (file content mode time)) = Removes-err _
    rmtree_at-Removes (some (link target)) = erase-Removes

  unlink_to-Removes : (o : Option FilePath) → resolve s false p ≡ o → Removes p s (unlink_to o s)
  unfolding node_at
  unlink_to-Removes none e = Removes-err _
  unlink_to-Removes (some []) e = Removes-err _
  unlink_to-Removes (some (x ∷ q)) e = unlink_at-Removes x q e (node_at s (x ∷ q))

  rmtree_to-Removes : (o : Option FilePath) → resolve s false p ≡ o → Removes p s (rmtree_to o s)
  unfolding node_at
  rmtree_to-Removes none e = Removes-err _
  rmtree_to-Removes (some []) e = record { within = empty-Within s; gone = λ h. cc }
  rmtree_to-Removes (some (x ∷ q)) e = rmtree_at-Removes x q e (node_at s (x ∷ q))

  pub remove_file-Removes : Removes p s (remove_file p s)
  unfolding remove_file
  remove_file-Removes = unlink_to-Removes (resolve s false p) refl

  pub remove_dir_all-Removes : Removes p s (remove_dir_all p s)
  unfolding remove_dir_all
  remove_dir_all-Removes = rmtree_to-Removes (resolve s false p) refl

list_same-is_prefix : (p q : FilePath) → is_prefix p q ≡ false → (p == q) ≡ false
list_same-is_prefix [] [] h = cc
list_same-is_prefix [] (y ∷ q) h = refl
list_same-is_prefix (x ∷ p) [] h = refl
list_same-is_prefix (x ∷ p) (y ∷ q) h = ground (arith, list_same-is_prefix p q)

module _ (s : Fs) (x : String) (d : FilePath) where
  pub erase-keeps :
      (q : FilePath)
      → is_prefix (x ∷ d) q ≡ false
      → node_at (record s { nodes = erase (x ∷ d) s.nodes }) q ≡ node_at s q
  unfolding node_at
  erase-keeps [] o = refl
  erase-keeps (y ∷ q) o = rw (lookup-erase, list_same-is_prefix (x ∷ d) (y ∷ q) o)

  erase_tree-keeps :
      (q : FilePath)
      → is_prefix (x ∷ d) q ≡ false
      → node_at (record s { nodes = erase_tree (x ∷ d) s.nodes }) q ≡ node_at s q
  unfolding node_at
  erase_tree-keeps [] o = refl
  erase_tree-keeps (y ∷ q) o = rw (lookup-erase_tree, o)

  pub rmtree_at-keeps :
      (q : FilePath) (n : Option Node)
      → is_prefix (x ∷ d) q ≡ false
      → node_at (rmtree_at (x ∷ d) n s).1 q ≡ node_at s q
  rmtree_at-keeps q none o = refl
  rmtree_at-keeps q (some dir) o = erase_tree-keeps q o
  rmtree_at-keeps q (some (file content mode time)) o = refl
  rmtree_at-keeps q (some (link target)) o = erase-keeps q o

-- `remove_dir_all` leaves alone what is not at or below the place that is removed.
pub remove_dir_all-keeps :
    (p d q : FilePath) (s : Fs)
    → resolve s false p ≡ some d
    → is_prefix d q ≡ false
    → node_at (remove_dir_all p s).1 q ≡ node_at s q
unfolding remove_dir_all
remove_dir_all-keeps p [] q s e o = cc
remove_dir_all-keeps p (x ∷ d) q s e o = rw e (rmtree_at-keeps s x d q (node_at s (x ∷ d)) o)
