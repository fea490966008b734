-- ===== src/Artifact/Rootfs.antt =====
-- src/artifact/rootfs.rs: the system image. What is printed is not modelled.
pub mod Complete
pub mod Atomic
use leviso.Base.{
  ℕ, String, ◌<>◌, List, [], ◌∷◌, ◌++◌, Bool, not, ◌&&◌, ◌||◌, filterb, is_empty, ◌==◌,
  if◌then◌else◌, string_eq,
}
use leviso.Error.{Result, ok, err, message, context}
use leviso.Exec.{Exec, ◌>>=◌, ◌>>◌, pure, fail, for_each, with_context, forget}
use leviso.Text.{codes, contains_text}
use leviso.Fs.Path.{FilePath, join}
use leviso.Fs.State.{Fs}
use leviso.Fs.Ops.{exists, lexists, is_symlink, create_dir_all, remove_file, remove_dir_all, rename}
use leviso.Component.Spec.{Spec}
use leviso.Build.{BuildContext, Externals, World, new}
use leviso.Executor.Custom.Outside.{Host}
use leviso.Builder.{build_system}
use leviso.Artifact.Kit.{Kit}

-- `let _ = …;`
abbrev pub ignore : Exec Fs (Unit {0}) → Exec Fs (Unit {0})
ignore m fs = forget (m fs)

module _ (kit : Kit) where
  abbrev check_tool : String × String → Exec Fs (Unit {0})
  check_tool (tool, package_name) =
      if not (kit.tool_exists tool)
      then fail (message "not found. Install package." (tool ∷ package_name ∷ []))
      else pure tt

  unfoldable pub check_host_tools : Exec Fs (Unit {0})
  check_host_tools =
      for_each check_tool (("mkfs.erofs", "erofs-utils") ∷ ("readelf", "binutils") ∷ [])

  unfoldable pub create_erofs_internal : FilePath → FilePath → Exec Fs (Unit {0})
  create_erofs_internal staging output = kit.build_erofs_default staging output

module _ (kit : Kit) (spec : Spec) where
  abbrev pub all_bins : List String
  all_bins = spec.bin_utils ++ (spec.auth_bin ++ (kit.ssh_bin ++ spec.nm_bin))

  -- The units that the image has to have: the network is that of NetworkManager, and `system.slice`
  -- is made at run time.
  abbrev pub is_checked_unit : String → Bool
  is_checked_unit u =
      not (contains_text (codes "networkd") (codes u))
      && not (contains_text (codes "resolved") (codes u))
      && not (u == "system.slice")

  abbrev pub all_units : List String
  all_units = filterb is_checked_unit (spec.essential_units ++ (spec.nm_units ++ spec.wpa_units))

  -- The names in the report of what is missing, and the test of each.
  abbrev pub missing_bins : Fs → FilePath → List String → List String
  missing_bins fs staging = filterb λ binary. not (lexists fs (join staging ("usr/bin/" <> binary)))

  abbrev pub missing_units : Fs → FilePath → List String → List String
  missing_units fs staging =
      filterb λ unit. not (lexists fs (join staging ("usr/lib/systemd/system/" <> unit)))

  abbrev pub missing_dirs : Fs → FilePath → List String → List String
  missing_dirs fs staging =
      filterb λ dir. not (exists fs (join staging dir) || is_symlink fs (join staging dir))

  abbrev pub missing_files : Fs → FilePath → List String → List String
  missing_files fs staging = filterb λ etc_file. not (lexists fs (join staging etc_file))

  unfoldable pub missing : Fs → FilePath → List String
  missing fs staging =
      missing_bins fs staging all_bins
      ++ (missing_bins fs staging ("bash" ∷ [])
          ++ (missing_units fs staging all_units
              ++ (missing_dirs fs staging spec.fhs_dirs ++ missing_files fs staging kit.etc_files)))

  unfoldable pub verify_staging : FilePath → Exec Fs (Unit {0})
  unfolding missing
  verify_staging staging fs =
      if is_empty (missing fs staging)
      then (ok tt, fs)
      else (err (message "Rootfs verification FAILED" (missing fs staging)), fs)

-- A step of a build, with a license tracker of its own, as a step on the file system.
abbrev pub untracked : Result (Unit {0}) × World → Result (Unit {0}) × Fs
untracked (r, w) = (r, w.fs)

module _ (ext : Externals) (host : Host) (kit : Kit) (fuel : ℕ) (spec : Spec)
    (base_dir : FilePath) where
  abbrev pub work_staging : FilePath
  work_staging = join (kit.names.output_dir base_dir) "rootfs-staging.work"

  abbrev pub work_output : FilePath
  work_output = join (kit.names.output_dir base_dir) "filesystem.erofs.work"

  abbrev pub final_staging : FilePath
  final_staging = join (kit.names.output_dir base_dir) "rootfs-staging"

  abbrev pub final_output : FilePath
  final_output = join (kit.names.output_dir base_dir) kit.names.rootfs_name

  abbrev build_tracked : BuildContext → Exec Fs (Unit {0})
  build_tracked ctx fs =
      untracked (build_system ext host fuel spec ctx (record { fs = fs; registered = [] }))

  -- The closure that builds into the work directory
  unfoldable pub build_work : Exec Fs (Unit {0})
  unfolding new build_system verify_staging create_erofs_internal
  build_work = do
    ctx ← new ext base_dir work_staging
    build_tracked ctx
    verify_staging kit spec work_staging
    create_erofs_internal kit work_staging work_output

  unfoldable pub remove_work : Exec Fs (Unit {0})
  unfolding remove_dir_all remove_file
  remove_work = ignore (remove_dir_all work_staging) >> ignore (remove_file work_output)

  -- The swap of the work files to their final places
  unfoldable pub swap_work : Exec Fs (Unit {0})
  unfolding remove_dir_all remove_file rename
  swap_work =
      ignore (remove_dir_all final_staging)
      >> ignore (remove_file final_output)
      >> with_context (context "Failed to move rootfs-staging.work to rootfs-staging")
          (rename work_staging final_staging)
      >> with_context (context "Failed to move filesystem.erofs.work to filesystem.erofs")
          (rename work_output final_output)

  abbrev pub after_build : Result (Unit {0}) × Fs → Result (Unit {0}) × Fs
  after_build (err e, fs) = (err e, (remove_work fs).1)
  after_build (ok tt, fs) = swap_work fs

  unfoldable pub prepare_work : Exec Fs (Unit {0})
  unfolding check_host_tools create_dir_all remove_work
  prepare_work = check_host_tools kit >> remove_work >> create_dir_all work_staging

  unfoldable pub build_rootfs : Exec Fs (Unit {0})
  unfolding prepare_work build_work
  build_rootfs = prepare_work >> λ fs. after_build (build_work fs)
