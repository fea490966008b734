-- ===== src/Fs/Links.antt =====
-- A path that leads to something is something, itself or as a link.
use leviso.Base.{
  ℕ, zero, suc, ◌≡◌, [], ◌∷◌, ◌++◌, true, false, Option, some, arith, String, not, ◌&&◌, Bool-cases,
  inl, inr, Bool, refl,
}
use leviso.Fs.Path.{FilePath, components, drop_last}
use leviso.Fs.State.{Fs, Node, link, node_at}
use leviso.Fs.Walk.{walk, max_links, start_of}
use leviso.Fs.Ops.{resolve, at_place, exists, lexists, stat, lstat, is_some, is_symlink}

abbrev target_of : Option Node → String
target_of (some (link target)) = target
target_of _ = ""

module _ (s : Fs) where
  walk-there :
      (links : ℕ) (done todo : FilePath)
      → is_some (at_place s (walk s true links done todo)) ≡ true
      → is_some (at_place s (walk s false links done todo)) ≡ true
  unfolding walk
  walk-there links done [] h = h
  walk-there zero done (x ∷ todo) h =
      ground (arith, walk-there zero (drop_last done) todo, walk-there zero (done ++ (x ∷ [])) todo)
  walk-there (suc links) done (x ∷ todo) h =
      let target = target_of (node_at s (done ++ (x ∷ []))) in
      ground (
        arith,
        walk-there (suc links) (drop_last done) todo,
        walk-there (suc links) (done ++ (x ∷ [])) todo,
        walk-there links (start_of done target) (components target ++ todo),
      )

  pub exists-lexists : (p : FilePath) → exists s p ≡ true → lexists s p ≡ true
  unfolding stat lstat resolve
  exists-lexists p h = walk-there max_links [] p h

  pub symlink-is_there : (p : FilePath) → is_symlink s p ≡ true → lexists s p ≡ true
  symlink-is_there p h = ground arith

  -- A path at which no new link can be made has something.
  pub taken-lexists :
      (p : FilePath) → (not (exists s p) && not (is_symlink s p)) ≡ false → lexists s p ≡ true
  taken-lexists p h = elim (Bool-cases (exists s p)) [
    | inl e ↦ exists-lexists p e
    | inr e ↦ elim (Bool-cases (is_symlink s p)) [
      | inl l ↦ symlink-is_there p l
      | inr l ↦ ground (arith, e, l)
    ]
  ]

pub both_free : (a b : Bool) → (not a && not b) ≡ true → (a ≡ false) × (b ≡ false)
both_free true b h = absurd cc
both_free false true h = absurd cc
both_free false false h = (refl, refl)
