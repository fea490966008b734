-- ===== src/Artifact/Qcow2/Verified.antt =====
-- src/artifact/qcow2/mod.rs: an image is returned only if it passed its check.
use leviso.Base.{ℕ, ◌≡◌, refl, ◌≤◌, true, false, ◌∙◌, ap, sym, Option, some, none, arith}
use leviso.Error.{Error, Result, ok, err}
use leviso.Exec.{continue}
use leviso.Fs.Path.{FilePath}
use leviso.Fs.State.{Fs, Node, node_at}
use leviso.Fs.Ops.{exists, stat, resolve, remove_dir_all, metadata_of}
use leviso.Fs.Removal.{remove_dir_all-Removes}
use leviso.Fs.Removal.Elsewhere.{is_outside, remove_dir_all-elsewhere}
use leviso.Executor.Custom.Outside.{Host}
use leviso.Artifact.Qcow2.Disk.{DiskKit}
use leviso.Artifact.Qcow2.{
  build_qcow2, make_qcow2, verify_qcow2_internal, after_verify, work_dir, qcow2_path, size_mb,
  check_size, image_too_small,
}
use mathlib.Core.Path.{subst}

-- The image is there, and has at least a hundred megabytes.
pub record IsImage (disk : DiskKit) (fs : Fs) (p : FilePath) : Type 0 where
  pub node : Node
  pub there : stat fs p ≡ some node
  pub large : 100 ≤ size_mb disk node

module _ (disk : DiskKit) where
  check_size-passed :
      (n : Node) (fs t : Fs)
      → check_size disk (image_too_small disk) n fs ≡ (ok tt, t)
      → (100 ≤ size_mb disk n) × (fs ≡ t)
  check_size-passed n fs t h = ground arith

  verified :
      (p : FilePath) (fs t : Fs) (o : Option Node)
      → stat fs p ≡ o
      → continue (metadata_of o, fs) (check_size disk (image_too_small disk)) ≡ (ok tt, t)
      → IsImage disk fs p × (fs ≡ t)
  verified p fs t none e h = absurd cc
  verified p fs t (some n) e h =
      let (a, b) = check_size-passed n fs t h in (record { node = n; there = e; large = a }, b)

  verify_qcow2_internal-IsImage :
      (p : FilePath) (fs t : Fs)
      → verify_qcow2_internal disk p fs ≡ (ok tt, t)
      → IsImage disk fs p × (fs ≡ t)
  unfolding verify_qcow2_internal
  verify_qcow2_internal-IsImage p fs t h = verified p fs t (stat fs p) refl h

  verify_qcow2_internal_kept :
      (p : FilePath) (fs v : Fs) (r : Result (Unit {0}))
      → verify_qcow2_internal disk p fs ≡ (r, v)
      → fs ≡ v
  unfolding verify_qcow2_internal
  verify_qcow2_internal_kept p fs v r h = kept (stat fs p) (λ n. checked n) ∙ ap (λ x. x.1) h
    where
      checked : (n : Node) → fs ≡ (check_size disk (image_too_small disk) n fs).1
      checked n = ground arith

      kept :
          (o : Option Node)
          → ((n : Node) → fs ≡ (check_size disk (image_too_small disk) n fs).1)
          → fs ≡ (continue (metadata_of o, fs) (check_size disk (image_too_small disk))).1
      kept none c = refl
      kept (some n) c = c n

module _ (host : Host) (disk : DiskKit) (base_dir : FilePath) where
  abbrev work : FilePath
  work = work_dir host disk base_dir

  abbrev image : FilePath
  image = qcow2_path host disk base_dir

  pub data QcowOutcome (disk_size_gb : ℕ) (fs : Fs) : Result (Unit {0}) × Fs → Type 0 where
    unmade :
        (t : Fs) (e : Error)
        → make_qcow2 host disk base_dir disk_size_gb fs ≡ (err e, t)
        → QcowOutcome disk_size_gb fs (err e, t)
    preserved :
        (t : Fs) (e : Error)
        → make_qcow2 host disk base_dir disk_size_gb fs ≡ (ok tt, t)
        → verify_qcow2_internal disk image t ≡ (err e, t)
        → QcowOutcome disk_size_gb fs (err e, t)
    -- the image passed, the work directory is removed, and nothing else changes
    cleaned :
        (t : Fs) (r : Result (Unit {0})) (v : Fs)
        → make_qcow2 host disk base_dir disk_size_gb fs ≡ (ok tt, t)
        → IsImage disk t image
        → (r ≡ ok tt → exists v work ≡ false)
        → ((q : FilePath) → is_outside (resolve t false work) q ≡ true → node_at v q ≡ node_at t q)
        → QcowOutcome disk_size_gb fs (r, v)

  clean :
      (disk_size_gb : ℕ) (fs t : Fs)
      → make_qcow2 host disk base_dir disk_size_gb fs ≡ (ok tt, t)
      → IsImage disk t image
      → QcowOutcome disk_size_gb fs (remove_dir_all work t)
  clean d fs t m i =
      let (r, v) = remove_dir_all work t in
      cleaned t r v m i (remove_dir_all-Removes work t).gone
        (λ q h. remove_dir_all-elsewhere t q work h)

  from_verified :
      (disk_size_gb : ℕ) (fs t : Fs) (r : Result (Unit {0}) × Fs)
      → make_qcow2 host disk base_dir disk_size_gb fs ≡ (ok tt, t)
      → verify_qcow2_internal disk image t ≡ r
      → QcowOutcome disk_size_gb fs (after_verify host disk base_dir r)
  unfolding remove_dir_all
  from_verified d fs t (err e, v) m h =
      let same = verify_qcow2_internal_kept disk image t v (err e) h in
      subst (λ x. QcowOutcome d fs (err e, x)) same
        (preserved t e m (h ∙ ap (λ x. (err e, x)) (sym same)))
  from_verified d fs t (ok tt, v) m h =
      let (i, same) = verify_qcow2_internal-IsImage disk image t v h in
      subst (λ x. QcowOutcome d fs (remove_dir_all work x)) same (clean d fs t m i)

  from_made :
      (disk_size_gb : ℕ) (fs : Fs) (r : Result (Unit {0}) × Fs)
      → make_qcow2 host disk base_dir disk_size_gb fs ≡ r
      → QcowOutcome disk_size_gb fs
          (continue r (λ _ t. after_verify host disk base_dir (verify_qcow2_internal disk image t)))
  unfolding remove_dir_all
  from_made d fs (err e, t) m = unmade t e m
  from_made d fs (ok tt, t) m = from_verified d fs t _ m refl

  -- Where the check of the finished disk image passes, the image is there with at least a hundred
  -- megabytes, nothing but the work directory is removed, and it is gone if the build returns
  -- `ok`. Where the check fails, its error is returned and the disk is left as it is. An earlier
  -- error is passed on.
  pub build_qcow2-QcowOutcome :
      (disk_size_gb : ℕ) (fs : Fs)
      → QcowOutcome disk_size_gb fs (build_qcow2 host disk base_dir disk_size_gb fs)
  unfolding build_qcow2
  build_qcow2-QcowOutcome d fs = from_made d fs _ refl
