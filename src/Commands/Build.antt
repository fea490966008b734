-- ===== src/Commands/Build.antt =====
-- src/commands/build.rs: the steps of a build, in their order. Timers and what is printed are not
-- modelled.
pub mod Kernel
pub mod Verified
use leviso.Base.{ℕ, String, [], ◌∷◌, Bool, true, false, not, ◌||◌, if◌then◌else◌, List, ◌+◌}
use leviso.Error.{Error, ok, err, message, Result}
use leviso.Exec.{Exec, ◌>>=◌, ◌>>◌, pure, forget}
use leviso.Fs.Path.{FilePath, join, display}
use leviso.Fs.State.{Fs}
use leviso.Fs.Ops.{exists}
use leviso.Component.Spec.{Spec}
use leviso.Build.{Externals}
use leviso.Executor.Custom.Outside.{Host}
use leviso.Recipe.{RecipeKit, ensure_host_tools, packages, epel, rocky}
use leviso.Rebuild.{
  Cache, kernel_needs_compile, kernel_needs_install, install_initramfs_needs_rebuild,
  cache_kernel_hash, cache_rootfs_hash, cache_initramfs_hash, cache_install_initramfs_hash,
}
use leviso.Artifact.Kit.{Kit}
use leviso.Artifact.Rootfs.{build_rootfs}
use leviso.Artifact.Initramfs.{
  build_tiny_initramfs, build_install_initramfs, verify_live_initramfs, verify_install_initramfs,
}
use leviso.Artifact.Iso.{create_iso, verify_iso}
use leviso.Artifact.Qcow2.Disk.{DiskKit}
use leviso.Artifact.Qcow2.{build_qcow2, verify_qcow2}

-- `distro_builder::artifact_store`; a store keeps files by the hash in a key file.
pub record Store : Type 0 where
  pub opens : Fs → Bool
  -- the kind, the key file and the file
  pub try_restore_file : String → FilePath → FilePath → Exec Fs Bool
  pub try_store_file : String → FilePath → FilePath → Exec Fs (Unit {0})
  -- the key file and the staging directory
  pub try_store_kernel_payload : FilePath → FilePath → Exec Fs (Unit {0})

-- Everything that a build is given.
pub record System : Type 0 where
  pub ext : Externals
  pub host : Host
  pub kit : Kit
  pub disk : DiskKit
  pub recipes : RecipeKit
  pub cache : Cache
  pub store : Store
  pub spec : Spec
  pub fuel : ℕ
  pub require_conformance_contract : Exec Fs (Unit {0})

pub data BuildTarget : Type 0 where
  full rootfs initramfs iso : BuildTarget
  qcow2 : ℕ → BuildTarget

-- A step that cannot fail
abbrev pub update : (Fs → Fs) → Exec Fs (Unit {0})
update f fs = (ok tt, f fs)

-- A warning is printed where a call fails.
abbrev warn : {A : Type 0} → Exec Fs A → Exec Fs (Unit {0})
warn m fs = forget (m fs)

abbrev pub no_kernel : Error
no_kernel = message "No kernel available!" []

-- The profiles that cannot be verified or have critical failures
abbrev pub failures : List (Result Bool) → ℕ
failures [] = 0
failures (ok has_critical ∷ results) =
    if has_critical then 1 + failures results else failures results
failures (err e ∷ results) = 1 + failures results

module _ (sys : System) (base_dir : FilePath) where
  abbrev pub out : String → FilePath
  out name = join (sys.kit.names.output_dir base_dir) name

  -- The files that are kept in the store: the kind, the key and the output.
  abbrev pub Kept : Type 0
  Kept = String × String × String

  abbrev pub kept_rootfs : Kept
  kept_rootfs = ("rootfs_erofs", ".rootfs-inputs.hash", sys.kit.names.rootfs_name)

  abbrev pub kept_initramfs : Kept
  kept_initramfs = ("initramfs", ".initramfs-inputs.hash", sys.kit.names.initramfs_live_output)

  abbrev pub kept_install_initramfs : Kept
  kept_install_initramfs = (
    "install_initramfs", ".install-initramfs-inputs.hash", sys.kit.names.initramfs_installed_output,
  )

  -- `if let Some(store) = &store { … }` around a call whose errors are only printed
  abbrev pub restore : Bool → Kept → Exec Fs (Unit {0})
  restore true (kind, key, file) = warn (sys.store.try_restore_file kind (out key) (out file))
  restore false kept = pure tt

  abbrev pub store_file : Bool → Kept → Exec Fs (Unit {0})
  store_file true (kind, key, file) = warn (sys.store.try_store_file kind (out key) (out file))
  store_file false kept = pure tt

  abbrev pub store_kernel : Bool → Exec Fs (Unit {0})
  store_kernel true =
      warn (sys.store.try_store_kernel_payload (out ".kernel-inputs.hash") (out "staging"))
  store_kernel false = pure tt

  -- `open_artifact_store`
  abbrev pub open_artifact_store : Exec Fs Bool
  open_artifact_store fs = (ok (sys.store.opens fs), fs)

  abbrev pub ensure_rocky : Exec Fs (Unit {0})
  ensure_rocky fs =
      if not (exists fs (join base_dir "downloads/iso-contents/BaseOS"))
      then (rocky sys.recipes base_dir >> pure tt) fs
      else (ok tt, fs)

  abbrev pub install_kernel : Bool → Exec Fs (Unit {0})
  install_kernel store = do
    sys.recipes.linux base_dir
    update (cache_kernel_hash sys.cache sys.kit.names base_dir)
    store_kernel store

  -- The kernel is never compiled here: without one the build ends.
  unfoldable pub ensure_kernel : Bool → Exec Fs (Unit {0})
  unfolding kernel_needs_compile kernel_needs_install cache_kernel_hash
  ensure_kernel store fs =
      let needs_compile = kernel_needs_compile sys.cache sys.kit.names base_dir fs in
      let needs_install = kernel_needs_install sys.cache sys.kit.names base_dir fs in
      if needs_compile || needs_install
      then if needs_compile then (err no_kernel, fs) else install_kernel store fs
      else (ok tt, fs)

  -- A part of the build: it is built, its hash is cached, and the output goes to the store.
  unfoldable pub rootfs_part : Bool → Exec Fs (Unit {0})
  unfolding build_rootfs cache_rootfs_hash
  rootfs_part store =
      build_rootfs sys.ext sys.host sys.kit sys.fuel sys.spec base_dir
      >> update (cache_rootfs_hash sys.cache sys.kit.names base_dir)
      >> store_file store kept_rootfs

  unfoldable pub initramfs_part : Bool → Exec Fs (Unit {0})
  unfolding build_tiny_initramfs cache_initramfs_hash
  initramfs_part store =
      build_tiny_initramfs sys.kit sys.host.env_var base_dir
      >> update (cache_initramfs_hash sys.cache sys.kit.names base_dir)
      >> store_file store kept_initramfs

  unfoldable pub install_initramfs_part : Bool → Exec Fs (Unit {0})
  unfolding build_install_initramfs cache_install_initramfs_hash
  install_initramfs_part store =
      build_install_initramfs sys.kit sys.host.env_var base_dir
      >> update (cache_install_initramfs_hash sys.cache sys.kit.names base_dir)
      >> store_file store kept_install_initramfs

  unfoldable pub verify_artifacts : Exec Fs (Unit {0})
  unfolding verify_live_initramfs verify_install_initramfs verify_iso
  verify_artifacts =
      verify_live_initramfs sys.kit (out sys.kit.names.initramfs_live_output)
      >> verify_install_initramfs sys.kit (out sys.kit.names.initramfs_installed_output)
      >> verify_iso sys.kit (out sys.kit.names.iso_filename)

  unfoldable pub prepare_sources : Exec Fs (Unit {0})
  unfolding ensure_host_tools packages epel rocky
  prepare_sources =
      ensure_host_tools sys.recipes base_dir
      >> ensure_rocky
      >> packages sys.recipes base_dir
      >> epel sys.recipes base_dir

  -- The result is the number of profiles that fail, which the code prints.
  unfoldable pub verify_hardware_compat : Exec Fs ℕ
  verify_hardware_compat fs =
      let output_dir = sys.kit.names.output_dir base_dir in
      (
        ok (
            failures (
              sys.kit.verify_profiles fs (join output_dir "kernel-build/.config")
                (join output_dir "rootfs-staging/usr/lib/firmware"))),
        fs,
      )

  -- The steps of `build_full` up to the ISO
  unfoldable pub build_images : Exec Fs (Unit {0})
  unfolding prepare_sources ensure_kernel rootfs_part initramfs_part install_initramfs_part
      create_iso
  build_images = do
    store ← open_artifact_store
    prepare_sources
    restore store kept_rootfs
    restore store kept_initramfs
    restore store kept_install_initramfs
    ensure_kernel store
    rootfs_part store
    initramfs_part store
    install_initramfs_part store
    create_iso sys.kit sys.host base_dir

  unfoldable pub build_full : Exec Fs (Unit {0})
  unfolding build_images verify_artifacts verify_hardware_compat
  build_full = build_images >> (verify_artifacts >> (verify_hardware_compat >> pure tt))

  unfoldable pub build_rootfs_only : Exec Fs (Unit {0})
  unfolding rootfs_part
  build_rootfs_only = do store ← open_artifact_store; restore store kept_rootfs; rootfs_part store

  unfoldable pub build_initramfs_only : Exec Fs (Unit {0})
  unfolding initramfs_part verify_live_initramfs
  build_initramfs_only = do
    store ← open_artifact_store
    restore store kept_initramfs
    initramfs_part store
    verify_live_initramfs sys.kit (out sys.kit.names.initramfs_live_output)

  unfoldable pub build_iso_only : Exec Fs (Unit {0})
  unfolding build_rootfs build_tiny_initramfs build_install_initramfs cache_rootfs_hash
      cache_initramfs_hash cache_install_initramfs_hash verify_live_initramfs
      verify_install_initramfs create_iso verify_iso
  build_iso_only = do
    build_rootfs sys.ext sys.host sys.kit sys.fuel sys.spec base_dir
    build_tiny_initramfs sys.kit sys.host.env_var base_dir
    build_install_initramfs sys.kit sys.host.env_var base_dir
    update (cache_rootfs_hash sys.cache sys.kit.names base_dir)
    update (cache_initramfs_hash sys.cache sys.kit.names base_dir)
    update (cache_install_initramfs_hash sys.cache sys.kit.names base_dir)
    verify_live_initramfs sys.kit (out sys.kit.names.initramfs_live_output)
    verify_install_initramfs sys.kit (out sys.kit.names.initramfs_installed_output)
    create_iso sys.kit sys.host base_dir
    verify_iso sys.kit (out sys.kit.names.iso_filename)

  abbrev refresh_install_initramfs : Exec Fs (Unit {0})
  refresh_install_initramfs fs =
      if install_initramfs_needs_rebuild sys.cache sys.kit.names base_dir fs
      then (build_install_initramfs sys.kit sys.host.env_var base_dir
            >> update (cache_install_initramfs_hash sys.cache sys.kit.names base_dir))
          fs
      else (ok tt, fs)

  abbrev require_rootfs_staging : Exec Fs (Unit {0})
  require_rootfs_staging fs =
      if not (exists fs (out "rootfs-staging"))
      then (err (message "rootfs-staging not found" (display (out "rootfs-staging") ∷ [])), fs)
      else (ok tt, fs)

  unfoldable pub build_qcow2_only : ℕ → Exec Fs (Unit {0})
  unfolding install_initramfs_needs_rebuild build_install_initramfs cache_install_initramfs_hash
      build_qcow2 verify_qcow2
  build_qcow2_only disk_size =
      require_rootfs_staging
      >> refresh_install_initramfs
      >> build_qcow2 sys.host sys.disk base_dir disk_size
      >> verify_qcow2 sys.disk base_dir

  abbrev dispatch : BuildTarget → Exec Fs (Unit {0})
  dispatch full = build_full
  dispatch rootfs = build_rootfs_only
  dispatch initramfs = build_initramfs_only
  dispatch iso = build_iso_only
  dispatch (qcow2 disk_size) = build_qcow2_only disk_size

  unfoldable pub cmd_build : BuildTarget → Exec Fs (Unit {0})
  unfolding build_full build_rootfs_only build_initramfs_only build_iso_only build_qcow2_only
  cmd_build target = sys.require_conformance_contract >> dispatch target
