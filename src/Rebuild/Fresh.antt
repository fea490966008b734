-- ===== src/Rebuild/Fresh.antt =====
-- src/rebuild.rs: the hash cache.
use leviso.Base.{◌≡◌, ◌↔◌, true, false, list_eq, string_eq, Option, some, none, arith, clash}
use leviso.Text.{Text}
use leviso.Rebuild.{Cache, Artifact, needs_rebuild, cache_hash}
use leviso.Base.{Option-cases, Bool-cases, inl, inr, sym, ◌∙◌, ap, none}
use leviso.Fs.Ops.{exists}
use leviso.Fs.State.{Fs}
use leviso.Fs.Path.{FilePath}
use leviso.Error.{ok}
use mathlib.Core.Path.{subst}

-- What the documentation of `distro_builder::cache` says of it: an output is up to date if it is
-- there and the hash file holds the current hash, and writing a hash file stores the hash in it.
pub record Lawful (cache : Cache) : Type 0 where
  pub stored : Fs → FilePath → Option Text
  pub up_to_date :
      (fs : Fs) (hash : Text) (hash_file output : FilePath)
      → exists fs output ≡ true
      → (cache.needs_rebuild fs hash hash_file output ≡ false) ↔ (stored fs hash_file ≡ some hash)
  pub stores :
      (fs t : Fs) (hash : Text) (hash_file : FilePath)
      → cache.write_cached_hash hash_file hash fs ≡ (ok tt, t)
      → stored t hash_file ≡ some hash

module _ (cache : Cache) (laws : Lawful cache) (a : Artifact) where
  -- The output is there, and the stored hash is that of the inputs.
  pub UpToDate : Fs → Type 0
  UpToDate fs =
      (exists fs a.output ≡ true)
      × ((hash : Text) × (cache.hash_files fs a.inputs ≡ some hash)
          × (laws.stored fs a.hash_file ≡ some hash))

  some_injective : (h k : Text) → some h ≡ some k → h ≡ k
  some_injective h k e = cc

  needs_rebuild-hashed :
      (fs : Fs) (hash : Text)
      → cache.hash_files fs a.inputs ≡ some hash
      → exists fs a.output ≡ true
      → needs_rebuild cache a fs ≡ cache.needs_rebuild fs hash a.hash_file a.output
  unfolding needs_rebuild
  needs_rebuild-hashed fs hash e x = rw x (rw e)

  needs_rebuild-unhashed :
      (fs : Fs) → cache.hash_files fs a.inputs ≡ none → needs_rebuild cache a fs ≡ true
  unfolding needs_rebuild
  needs_rebuild-unhashed fs e = ground (arith, e)

  needs_rebuild-missing : (fs : Fs) → exists fs a.output ≡ false → needs_rebuild cache a fs ≡ true
  unfolding needs_rebuild
  needs_rebuild-missing fs x = rw x

  there-UpToDate :
      (fs : Fs) → exists fs a.output ≡ true → needs_rebuild cache a fs ≡ false → UpToDate fs
  unfolding UpToDate
  there-UpToDate fs x n = elim (Option-cases (cache.hash_files fs a.inputs)) [
    | inl e ↦ clash (sym (needs_rebuild-unhashed fs e) ∙ n)
    | inr (hash, e) ↦ (
      x,
      (
        hash,
        e,
        (laws.up_to_date fs hash a.hash_file a.output x).0
            (sym (needs_rebuild-hashed fs hash e x) ∙ n),
      ),
    )
  ]

  UpToDate-needs_rebuild : (fs : Fs) → UpToDate fs → needs_rebuild cache a fs ≡ false
  unfolding UpToDate
  UpToDate-needs_rebuild fs (x, (hash, e, h)) =
      needs_rebuild-hashed fs hash e x ∙ (laws.up_to_date fs hash a.hash_file a.output x).1 h

  pub needs_rebuild-UpToDate : (fs : Fs) → (needs_rebuild cache a fs ≡ false) ↔ UpToDate fs
  needs_rebuild-UpToDate fs = (
    λ n. elim (Bool-cases (exists fs a.output)) [
      | inl x ↦ there-UpToDate fs x n
      | inr x ↦ clash (sym (needs_rebuild-missing fs x) ∙ n)
    ],
    UpToDate-needs_rebuild fs,
  )

  -- With a lawful cache, once the hash of the inputs is written, the artifact is up to date, if its
  -- output is there and writing the hash file has not changed what the inputs hash to.
  pub cache_hash-UpToDate :
      (fs t : Fs) (hash : Text)
      → cache.hash_files fs a.inputs ≡ some hash
      → cache.write_cached_hash a.hash_file hash fs ≡ (ok tt, t)
      → exists t a.output ≡ true
      → cache.hash_files t a.inputs ≡ some hash
      → needs_rebuild cache a (cache_hash cache a fs) ≡ false
  unfolding cache_hash UpToDate
  cache_hash-UpToDate fs t hash e w x kept =
      subst (λ s. needs_rebuild cache a s ≡ false) (sym (rw (e, cache_hash) (ap (λ r. r.1) w)))
        (UpToDate-needs_rebuild t (x, (hash, kept, laws.stores fs t hash a.hash_file w)))
