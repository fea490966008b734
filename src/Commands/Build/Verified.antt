-- ===== src/Commands/Build/Verified.antt =====
-- src/commands/build.rs: a full build that succeeds has verified what is on the disk at its end.
use leviso.Base.{◌≡◌, ap, ◌∙◌, refl}
use leviso.Error.{ok, Result, Error, err}
use leviso.Exec.Loops.{reads-ok, Reading, both-settled, both-Reading}
use leviso.Fs.Path.{FilePath}
use leviso.Fs.State.{Fs}
use leviso.Artifact.Initramfs.{verify_live_initramfs, verify_install_initramfs, do_verify_initramfs}
use leviso.Artifact.Iso.{verify_iso}
use leviso.Commands.Build.{
  System, out, build_full, verify_artifacts, verify_hardware_compat, build_images,
}
use leviso.Exec.{◌>>◌, pure, Exec, continue}

module _ (sys : System) (base_dir : FilePath) where
  -- The three images that a build makes pass their checks.
  pub record Verified (fs : Fs) : Type 0 where
    pub live :
        verify_live_initramfs sys.kit (out sys base_dir sys.kit.names.initramfs_live_output) fs
        ≡ (ok tt, fs)
    pub installed :
        verify_install_initramfs sys.kit
          (out sys base_dir sys.kit.names.initramfs_installed_output)
          fs
        ≡ (ok tt, fs)
    pub iso : verify_iso sys.kit (out sys base_dir sys.kit.names.iso_filename) fs ≡ (ok tt, fs)

  abbrev live : Exec Fs (Unit {0})
  live = verify_live_initramfs sys.kit (out sys base_dir sys.kit.names.initramfs_live_output)

  abbrev installed : Exec Fs (Unit {0})
  installed =
      verify_install_initramfs sys.kit (out sys base_dir sys.kit.names.initramfs_installed_output)

  abbrev iso : Exec Fs (Unit {0})
  iso = verify_iso sys.kit (out sys base_dir sys.kit.names.iso_filename)

  live-Reading : Reading live
  unfolding verify_live_initramfs do_verify_initramfs
  live-Reading a b h = (reads-ok h).1

  installed-Reading : Reading installed
  unfolding verify_install_initramfs do_verify_initramfs
  installed-Reading a b h = (reads-ok h).1

  iso-Reading : Reading iso
  unfolding verify_iso
  iso-Reading a b h = (reads-ok h).1

  verify_artifacts-reads : (fs t : Fs) → verify_artifacts sys base_dir fs ≡ (ok tt, t) → fs ≡ t
  unfolding verify_artifacts
  verify_artifacts-reads =
      both-Reading (live >> installed) iso
        (both-Reading live installed live-Reading installed-Reading) iso-Reading

  verify_artifacts-Verified :
      (fs t : Fs) → verify_artifacts sys base_dir fs ≡ (ok tt, t) → Verified t
  unfolding verify_artifacts
  verify_artifacts-Verified fs t h =
      let images = live >> installed in
      let (i, s) =
        both-settled images iso fs (both-Reading live installed live-Reading installed-Reading)
          iso-Reading h in
      let (l, i) = both-settled live installed t live-Reading installed-Reading i in
      record { live = l; installed = i; iso = s }

  -- What a full build returns.
  pub data FullOutcome (fs : Fs) : Result (Unit {0}) × Fs → Type 0 where
    built :
        (t : Fs)
        → build_images sys base_dir fs ≡ (ok tt, t)
        → Verified t
        → FullOutcome fs (ok tt, t)
    unfinished :
        (t : Fs) (e : Error) → build_images sys base_dir fs ≡ (err e, t) → FullOutcome fs (err e, t)
    rejected :
        (v t : Fs) (e : Error)
        → build_images sys base_dir fs ≡ (ok tt, v)
        → verify_artifacts sys base_dir v ≡ (err e, t)
        → FullOutcome fs (err e, t)

  after_images :
      (fs v : Fs) (r : Result (Unit {0}) × Fs)
      → build_images sys base_dir fs ≡ (ok tt, v)
      → verify_artifacts sys base_dir v ≡ r
      → FullOutcome fs (continue r (λ _. verify_hardware_compat sys base_dir >> pure tt))
  unfolding verify_hardware_compat
  after_images fs v (err e, t) b p = rejected v t e b p
  after_images fs v (ok tt, t) b p =
      built t (b ∙ ap (λ x. (ok tt, x)) (verify_artifacts-reads v t p))
        (verify_artifacts-Verified v t p)

  from_images :
      (fs : Fs) (r : Result (Unit {0}) × Fs)
      → build_images sys base_dir fs ≡ r
      → FullOutcome fs (
          continue r (λ _.
            verify_artifacts sys base_dir >> (verify_hardware_compat sys base_dir >> pure tt)))
  from_images fs (err e, t) b = unfinished t e b
  from_images fs (ok tt, v) b = after_images fs v (verify_artifacts sys base_dir v) b refl

  -- A full build returns `ok` exactly if the steps up to the ISO succeed and the checks of both
  -- initramfs images and of the ISO pass on the disk that it leaves; else it returns the error of
  -- the first of them that fails.
  pub build_full-FullOutcome : (fs : Fs) → FullOutcome fs (build_full sys base_dir fs)
  unfolding build_full
  build_full-FullOutcome fs = from_images fs (build_images sys base_dir fs) refl
