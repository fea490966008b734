-- ===== src/Fs/Removal/Elsewhere.antt =====
-- What a removal leaves alone: every place that is not at or below the one that is removed.
use leviso.Base.{
  ◌≡◌, refl, [], ◌∷◌, Bool, true, false, not, Option, none, some, inl, inr, ◌∙◌, ap, String, arith,
}
use leviso.Fs.Path.{FilePath, is_prefix}
use leviso.Fs.State.{Fs, Node, dir, file, link, node_at}
use leviso.Fs.Ops.{resolve, at_place, unlink_at, unlink_to, rmtree_to, remove_file, remove_dir_all}
use leviso.Fs.Removal.{Within, resolve-Within, erase-keeps, rmtree_at-keeps}

-- A place is outside of what a removal would take.
abbrev pub is_outside : Option FilePath → FilePath → Bool
is_outside none q = true
is_outside (some d) q = not (is_prefix d q)

module _ (s : Fs) (q : FilePath) where
  unlink_at-keeps :
      (x : String) (d : FilePath) (n : Option Node)
      → is_prefix (x ∷ d) q ≡ false
      → node_at (unlink_at (x ∷ d) n s).1 q ≡ node_at s q
  unlink_at-keeps x d none o = refl
  unlink_at-keeps x d (some dir) o = refl
  unlink_at-keeps x d (some (file content mode time)) o = erase-keeps s x d q o
  unlink_at-keeps x d (some (link target)) o = erase-keeps s x d q o

  unlink_to-keeps :
      (o : Option FilePath) → is_outside o q ≡ true → node_at (unlink_to o s).1 q ≡ node_at s q
  unlink_to-keeps none h = refl
  unlink_to-keeps (some []) h = cc
  unlink_to-keeps (some (x ∷ d)) h = unlink_at-keeps x d (node_at s (x ∷ d)) (ground arith)

  rmtree_to-keeps :
      (o : Option FilePath) → is_outside o q ≡ true → node_at (rmtree_to o s).1 q ≡ node_at s q
  rmtree_to-keeps none h = refl
  rmtree_to-keeps (some []) h = cc
  rmtree_to-keeps (some (x ∷ d)) h = rmtree_at-keeps s x d q (node_at s (x ∷ d)) (ground arith)

  unlink_to-nothing :
      (o : Option FilePath) → at_place s o ≡ none → node_at (unlink_to o s).1 q ≡ node_at s q
  unlink_to-nothing none h = refl
  unlink_to-nothing (some d) h = rw h refl

  pub remove_dir_all-elsewhere :
      (p : FilePath)
      → is_outside (resolve s false p) q ≡ true
      → node_at (remove_dir_all p s).1 q ≡ node_at s q
  unfolding remove_dir_all
  remove_dir_all-elsewhere p h = rmtree_to-keeps (resolve s false p) h

-- Where less is left of a file system, a removal takes nothing else than before.
module _ (s t : Fs) (w : Within t s) (p q : FilePath) where
  pub remove_file-elsewhere :
      is_outside (resolve s false p) q ≡ true → node_at (remove_file p t).1 q ≡ node_at t q
  unfolding remove_file
  remove_file-elsewhere h = elim (resolve-Within s t w false p) [
    | inl e ↦ unlink_to-nothing t q (resolve t false p) e
    | inr e ↦ unlink_to-keeps t q (resolve t false p) (ap (λ o. is_outside o q) e ∙ h)
  ]
