-- ===== src/Clean.antt =====
-- src/clean.rs and src/commands/clean.rs: the removal of build outputs.
-- What is printed is not modelled; `cleaned`, which only chooses a message, is not either.
pub mod Gone
use leviso.Base.{String, ◌<>◌, List, [], ◌∷◌, Bool, if◌then◌else◌}
use leviso.Error.{Result, ok}
use leviso.Exec.{Exec, pure, for_each, ◌>>◌}
use leviso.Fs.Path.{FilePath, join, with_extension, trim_start}
use leviso.Fs.State.{Fs}
use leviso.Fs.Ops.{exists, remove_file, remove_dir_all}

-- The names of `distro_spec::levitate`, and the calls of distro-builder and recipe.
pub record Env : Type 0 where
  pub efiboot_filename : String
  pub initramfs_build_dir : String
  pub initramfs_filename : String
  pub initramfs_live_output : String
  pub iso_checksum_suffix : String
  pub iso_filename : String
  pub rootfs_name : String
  -- `artifact_store::central_output_dir_for_distro`
  pub output_dir : FilePath → FilePath
  -- `recipe::clear_cache`
  pub clear_cache : Exec Fs (Unit {0})

-- How an output is removed.
pub data Removal : Type 0 where
  of_file : FilePath → Removal
  of_dir : FilePath → Removal

abbrev pub target : Removal → FilePath
target (of_file p) = p
target (of_dir p) = p

abbrev pub remove : Removal → Exec Fs (Unit {0})
remove (of_file p) = remove_file p
remove (of_dir p) = remove_dir_all p

-- `if path.exists() { fs::remove_…(&path)?; }`
unfoldable pub remove_if_exists : Removal → Exec Fs (Unit {0})
remove_if_exists r s = if exists s (target r) then remove r s else (ok tt, s)

module _ (env : Env) (base_dir : FilePath) where
  abbrev pub output : String → FilePath
  output rel = join (env.output_dir base_dir) rel

  abbrev pub outputs_removals : List Removal
  outputs_removals = of_dir (env.output_dir base_dir) ∷ []

  abbrev pub kernel_removals : List Removal
  kernel_removals =
      of_dir (output "kernel-build")
      ∷ of_file (output "staging/boot/vmlinuz")
      ∷ of_dir (output "staging/usr/lib/modules")
      ∷ of_file (output ".kconfig.hash")
      ∷ []

  -- `iso.with_extension(ISO_CHECKSUM_SUFFIX.trim_start_matches('.'))`
  abbrev pub checksum : FilePath → FilePath
  checksum iso = with_extension iso (trim_start b'.' env.iso_checksum_suffix)

  abbrev pub iso_removals : List Removal
  iso_removals =
      of_file (output env.iso_filename)
      ∷ of_file (checksum (output env.iso_filename))
      ∷ of_file (output (env.iso_filename <> env.iso_checksum_suffix))
      ∷ of_file (output env.initramfs_filename)
      ∷ of_file (output env.initramfs_live_output)
      ∷ of_dir (output "initramfs")
      ∷ of_dir (output env.initramfs_build_dir)
      ∷ of_file (output env.efiboot_filename)
      ∷ of_dir (output "live-overlay")
      ∷ of_file (output ".initramfs-inputs.hash")
      ∷ []

  abbrev pub rootfs_removals : List Removal
  rootfs_removals =
      of_file (output env.rootfs_name)
      ∷ of_dir (output "rootfs-staging")
      ∷ of_dir (output "rootfs-extracted")
      ∷ of_file (output ".rootfs-inputs.hash")
      ∷ []

  abbrev pub downloads_removals : List Removal
  downloads_removals = of_dir (join base_dir "downloads") ∷ []

  unfoldable pub clean_outputs : Exec Fs (Unit {0})
  clean_outputs = for_each remove_if_exists outputs_removals

  unfoldable pub clean_kernel : Exec Fs (Unit {0})
  clean_kernel = for_each remove_if_exists kernel_removals

  unfoldable pub clean_iso : Exec Fs (Unit {0})
  clean_iso = for_each remove_if_exists iso_removals

  unfoldable pub clean_rootfs : Exec Fs (Unit {0})
  clean_rootfs = for_each remove_if_exists rootfs_removals

  unfoldable pub clean_downloads : Exec Fs (Unit {0})
  clean_downloads = for_each remove_if_exists downloads_removals

  unfoldable pub clean_all : Exec Fs (Unit {0})
  clean_all = do clean_downloads; clean_outputs

pub data CleanTarget : Type 0 where
  outputs kernel iso rootfs downloads cache all : CleanTarget

unfoldable pub cmd_clean : Env → FilePath → CleanTarget → Exec Fs (Unit {0})
cmd_clean env base_dir outputs = clean_outputs env base_dir
cmd_clean env base_dir kernel = clean_kernel env base_dir
cmd_clean env base_dir iso = clean_iso env base_dir
cmd_clean env base_dir rootfs = clean_rootfs env base_dir
cmd_clean env base_dir downloads = clean_downloads env base_dir
cmd_clean env base_dir cache = env.clear_cache
cmd_clean env base_dir all = do clean_all env base_dir; env.clear_cache
