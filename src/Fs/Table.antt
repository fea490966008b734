-- ===== src/Fs/Table.antt =====
-- Association lists from paths, with their laws in `if` form.
use leviso.Base.{◌≡◌, refl, List, [], ◌∷◌, Option, none, some, arith}
use leviso.Base.{◌==◌, string_eq, list_eq, list_same_iff, if◌then◌else◌}
use leviso.Fs.Path.{FilePath, is_prefix}

abbrev pub Table {ℓ} : Type ℓ → Type ℓ
Table V = List (FilePath × V)

module _ {ℓ} {V : Type ℓ} where
  unfoldable pub lookup : FilePath → Table V → Option V
  lookup q [] = none
  lookup q ((p, v) ∷ t) = if p == q then some v else lookup q t

  unfoldable pub insert : FilePath → V → Table V → Table V
  insert p v [] = (p, v) ∷ []
  insert p v ((r, w) ∷ t) = if r == p then (p, v) ∷ t else (r, w) ∷ insert p v t

  unfoldable pub erase : FilePath → Table V → Table V
  erase p [] = []
  erase p ((r, w) ∷ t) = let rest = erase p t in if p == r then rest else (r, w) ∷ rest

  unfoldable pub erase_tree : FilePath → Table V → Table V
  erase_tree p [] = []
  erase_tree p ((r, w) ∷ t) =
      let rest = erase_tree p t in if is_prefix p r then rest else (r, w) ∷ rest

  pub lookup-insert :
      (p q : FilePath) (v : V) (t : Table V)
      → lookup q (insert p v t) ≡ (if p == q then some v else lookup q t)
  unfolding lookup insert
  lookup-insert p q v [] = refl
  lookup-insert p q v ((r, w) ∷ t) =
      ground (arith, list_same_iff p q, list_same_iff r p, list_same_iff r q, lookup-insert p q v t)

  pub lookup-erase :
      (p q : FilePath) (t : Table V) → lookup q (erase p t) ≡ (if p == q then none else lookup q t)
  unfolding lookup erase
  lookup-erase p q [] = ground arith
  lookup-erase p q ((r, w) ∷ t) =
      ground (arith, list_same_iff p q, list_same_iff p r, list_same_iff r q, lookup-erase p q t)

  pub lookup-erase_tree :
      (p q : FilePath) (t : Table V)
      → lookup q (erase_tree p t) ≡ (if is_prefix p q then none else lookup q t)
  unfolding lookup erase_tree
  lookup-erase_tree p q [] = ground arith
  lookup-erase_tree p q ((r, w) ∷ t) = ground (arith, list_same_iff r q, lookup-erase_tree p q t)
