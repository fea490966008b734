-- ===== src/Artifact/Rootfs/Atomic.antt =====
-- src/artifact/rootfs.rs: the image is replaced only by a complete one.
use leviso.Base.{ℕ, ◌≡◌, refl, ◌∙◌, ap, sym, true, arith, false}
use leviso.Error.{Error, Result, ok, err}
use leviso.Exec.{continue}
use leviso.Exec.Loops.{through, both}
use leviso.Fs.Path.{FilePath}
use leviso.Fs.State.{Fs, node_at}
use leviso.Fs.Ops.{resolve, remove_dir_all}
use leviso.Fs.Removal.{Within, Within-trans, remove_dir_all-Removes, remove_file-Removes}
use leviso.Fs.Removal.Elsewhere.{is_outside, remove_dir_all-elsewhere, remove_file-elsewhere}
use leviso.Component.Spec.{Spec}
use leviso.Build.{Externals, new}
use leviso.Executor.Custom.Outside.{Host}
use leviso.Artifact.Kit.{Kit}
use leviso.Artifact.Rootfs.{
  build_rootfs, prepare_work, build_work, remove_work, swap_work, after_build, verify_staging,
  create_erofs_internal, work_staging, work_output, build_tracked,
}
use leviso.Artifact.Rootfs.Complete.{Complete, verify_staging-Complete}

module _ (ext : Externals) (host : Host) (kit : Kit) (fuel : ℕ) (spec : Spec)
    (base_dir : FilePath) where
  abbrev staging : FilePath
  staging = work_staging ext host kit fuel spec base_dir

  abbrev output : FilePath
  output = work_output ext host kit fuel spec base_dir

  -- `v` is what is left of `u` when the work files are gone: nothing is added, and what is outside of
  -- the work files is as it was.
  pub record Discarded (u v : Fs) : Type 0 where
    pub within : Within v u
    pub kept :
        (q : FilePath)
        → is_outside (resolve u false staging) q ≡ true
        → is_outside (resolve u false output) q ≡ true
        → node_at v q ≡ node_at u q

  remove_work-Discarded : (u : Fs) → Discarded u (remove_work ext host kit fuel spec base_dir u).1
  unfolding remove_work
  remove_work-Discarded u =
      let v = (remove_dir_all staging u).1 in
      let w = (remove_dir_all-Removes staging u).within in
      record {
        within = Within-trans (remove_file-Removes output v).within w;
        kept = λ q h k.
            remove_file-elsewhere u v w output q k ∙ remove_dir_all-elsewhere u q staging h;
      }

  -- A build in the work directory that ends well has made the image out of a complete tree.
  pub record Finished (u : Fs) : Type 0 where
    pub tree : Fs
    pub complete : Complete kit spec tree staging
    pub image : create_erofs_internal kit staging output tree ≡ (ok tt, u)

  verify_staging-reads : (s t : Fs) → verify_staging kit spec staging s ≡ (ok tt, t) → s ≡ t
  unfolding verify_staging
  verify_staging-reads s t h = ground arith

  verify_staging-passed :
      (s t : Fs)
      → verify_staging kit spec staging s ≡ (ok tt, t)
      → (s ≡ t) × Complete kit spec s staging
  verify_staging-passed s t h =
      let same = verify_staging-reads s t h in
      (same, (verify_staging-Complete kit spec s staging).0 (h ∙ ap (λ x. (ok tt, x)) (sym same)))

  build_work-Finished :
      (t u : Fs) → build_work ext host kit fuel spec base_dir t ≡ (ok tt, u) → Finished u
  unfolding build_work
  build_work-Finished t u h =
      let (ctx, a, _, h) = through (new ext base_dir staging) _ h in
      let (_, b, _, h) = both (build_tracked ext host kit fuel spec base_dir ctx) _ h in
      let (_, c, v, h) = both (verify_staging kit spec staging) _ h in
      let (same, whole) = verify_staging-passed b c v in
      record {
        tree = b;
        complete = whole;
        image = ap (create_erofs_internal kit staging output) same ∙ h;
      }

  pub data RootfsOutcome (fs : Fs) : Result (Unit {0}) × Fs → Type 0 where
    unprepared :
        (t : Fs) (e : Error)
        → prepare_work ext host kit fuel spec base_dir fs ≡ (err e, t)
        → RootfsOutcome fs (err e, t)
    discarded :
        (t u v : Fs) (e : Error)
        → prepare_work ext host kit fuel spec base_dir fs ≡ (ok tt, t)
        → build_work ext host kit fuel spec base_dir t ≡ (err e, u)
        → Discarded u v
        → RootfsOutcome fs (err e, v)
    swapped :
        (t u : Fs) (r : Result (Unit {0}) × Fs)
        → prepare_work ext host kit fuel spec base_dir fs ≡ (ok tt, t)
        → build_work ext host kit fuel spec base_dir t ≡ (ok tt, u)
        → Finished u
        → swap_work ext host kit fuel spec base_dir u ≡ r
        → RootfsOutcome fs r

  from_work :
      (fs t : Fs) (r : Result (Unit {0}) × Fs)
      → prepare_work ext host kit fuel spec base_dir fs ≡ (ok tt, t)
      → build_work ext host kit fuel spec base_dir t ≡ r
      → RootfsOutcome fs (after_build ext host kit fuel spec base_dir r)
  from_work fs t (err e, u) p b = discarded t u _ e p b (remove_work-Discarded u)
  from_work fs t (ok tt, u) p b = swapped t u _ p b (build_work-Finished t u b) refl

  from_prepared :
      (fs : Fs) (r : Result (Unit {0}) × Fs)
      → prepare_work ext host kit fuel spec base_dir fs ≡ r
      → RootfsOutcome fs (
          continue r (λ _ t.
            after_build ext host kit fuel spec base_dir
              (build_work ext host kit fuel spec base_dir t)))
  from_prepared fs (err e, t) p = unprepared t e p
  from_prepared fs (ok tt, t) p = from_work fs t _ p refl

  -- Where the preparation of a build of the system image fails, its error is returned. Where the
  -- build in the work directory fails, that error is returned, and the cleanup takes away nothing
  -- but the work files. The swap is reached only with an image that was made out of a tree in
  -- which nothing is missing.
  pub build_rootfs-RootfsOutcome :
      (fs : Fs) → RootfsOutcome fs (build_rootfs ext host kit fuel spec base_dir fs)
  unfolding build_rootfs
  build_rootfs-RootfsOutcome fs = from_prepared fs _ refl
