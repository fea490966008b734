-- ===== src/Artifact/Rootfs/Complete.antt =====
-- src/artifact/rootfs.rs: what the check of the staging tree asks for.
use leviso.Base.{
  String, ◌<>◌, List, [], ◌∷◌, ◌++◌, Bool, true, not, ◌||◌, ◌≡◌, ◌↔◌, filterb, All, is_empty, arith,
}
use leviso.Error.{ok}
use leviso.Fs.Path.{FilePath, join}
use leviso.Fs.State.{Fs}
use leviso.Fs.Ops.{exists, lexists, is_symlink}
use leviso.Component.Spec.{Spec}
use leviso.Artifact.Kit.{Kit}
use leviso.Artifact.Rootfs.{
  verify_staging, missing, all_bins, all_units, missing_bins, missing_units, missing_dirs,
  missing_files,
}

-- A filter keeps nothing exactly if the test holds of no element.
filterb-nothing :
    (p : String → Bool) (xs : List String)
    → (is_empty (filterb (λ x. not (p x)) xs) ≡ true) ↔ All (λ x. p x ≡ true) xs
filterb-nothing p [] = ground arith
filterb-nothing p (x ∷ xs) = ground (arith, filterb-nothing p xs)

is_empty-append :
    (xs ys : List String)
    → (is_empty (xs ++ ys) ≡ true) ↔ ((is_empty xs ≡ true) × (is_empty ys ≡ true))
is_empty-append [] ys = ground arith
is_empty-append (x ∷ xs) ys = ground arith

module _ (kit : Kit) (spec : Spec) (fs : Fs) (staging : FilePath) where
  -- Everything that the image needs is there, as a file or at least as a link.
  pub record Complete : Type 0 where
    pub bins : All (λ b. lexists fs (join staging ("usr/bin/" <> b)) ≡ true) (all_bins kit spec)
    pub bash : lexists fs (join staging "usr/bin/bash") ≡ true
    pub units :
        All
          (λ u. lexists fs (join staging ("usr/lib/systemd/system/" <> u)) ≡ true)
          (all_units kit spec)
    pub dirs :
        All
          (λ d. (exists fs (join staging d) || is_symlink fs (join staging d)) ≡ true)
          spec.fhs_dirs
    pub files : All (λ f. lexists fs (join staging f) ≡ true) kit.etc_files

  missing_names-Complete : (is_empty (missing kit spec fs staging) ≡ true) ↔ (
      All (λ b. lexists fs (join staging ("usr/bin/" <> b)) ≡ true) (all_bins kit spec)
      × All (λ b. lexists fs (join staging ("usr/bin/" <> b)) ≡ true) ("bash" ∷ [])
      × All
          (λ u. lexists fs (join staging ("usr/lib/systemd/system/" <> u)) ≡ true)
          (all_units kit spec)
      × All
          (λ d. (exists fs (join staging d) || is_symlink fs (join staging d)) ≡ true)
          spec.fhs_dirs
      × All (λ f. lexists fs (join staging f) ≡ true) kit.etc_files)
  unfolding missing
  missing_names-Complete =
      let bins = missing_bins kit spec fs staging (all_bins kit spec) in
      let bash = missing_bins kit spec fs staging ("bash" ∷ []) in
      let units = missing_units kit spec fs staging (all_units kit spec) in
      let dirs = missing_dirs kit spec fs staging spec.fhs_dirs in
      let files = missing_files kit spec fs staging kit.etc_files in
      ground (
        arith,
        is_empty-append bins (bash ++ (units ++ (dirs ++ files))),
        is_empty-append bash (units ++ (dirs ++ files)),
        is_empty-append units (dirs ++ files),
        is_empty-append dirs files,
        filterb-nothing (λ b. lexists fs (join staging ("usr/bin/" <> b))) (all_bins kit spec),
        filterb-nothing (λ b. lexists fs (join staging ("usr/bin/" <> b))) ("bash" ∷ []),
        filterb-nothing (λ u. lexists fs (join staging ("usr/lib/systemd/system/" <> u)))
            (all_units kit spec),
        filterb-nothing (λ d. exists fs (join staging d) || is_symlink fs (join staging d))
            spec.fhs_dirs,
        filterb-nothing (λ f. lexists fs (join staging f)) kit.etc_files,
      )

  missing-Complete : (is_empty (missing kit spec fs staging) ≡ true) ↔ Complete
  unfolding missing
  missing-Complete = (
    λ h.
        let (a, b, c, d, e) = missing_names-Complete.0 h in
        record { bins = a; bash = b.0; units = c; dirs = d; files = e },
    λ k. missing_names-Complete.1 (k.bins, (k.bash, tt), k.units, k.dirs, k.files),
  )

  -- The check of the staging tree returns `ok` exactly if every program, unit, directory and file
  -- that the image needs is there.
  pub verify_staging-Complete : (verify_staging kit spec staging fs ≡ (ok tt, fs)) ↔ Complete
  unfolding verify_staging
  verify_staging-Complete = ground (arith, missing-Complete)
