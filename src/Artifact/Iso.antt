-- ===== src/Artifact/Iso.antt =====
-- src/artifact/iso.rs: the bootable image. What is printed is not modelled.
pub mod Accepted
use leviso.Base.{
  String, ◌<>◌, List, [], ◌∷◌, Bool, true, false, not, ◌&&◌, ◌||◌, Option, none, some,
  if◌then◌else◌,
}
use leviso.Error.{Result, ok, err, message}
use leviso.Exec.{Exec, ◌>>=◌, ◌>>◌, pure}
use leviso.Text.{codes, contains_text}
use leviso.Fs.Path.{FilePath, join, display, with_extension, trim_start}
use leviso.Fs.State.{Fs}
use leviso.Fs.Ops.{exists, is_dir, create_dir_all, remove_dir_all, rename}
use leviso.Fs.Copy.{read_dir}
use leviso.Executor.Custom.Outside.{Host}
use leviso.Executor.Custom.Live.{create_live_overlay_at}
use leviso.Artifact.Kit.{Kit, UkiEntry, Opened, unreadable, checked}
use leviso.Artifact.Initramfs.{failed_items}
use leviso.Artifact.Rootfs.{ignore}
use leviso.Artifact.Uki.{build_installed_ukis}

-- `IsoPaths`
pub record IsoPaths : Type 0 where
  pub output_dir : FilePath
  pub rootfs : FilePath
  pub initramfs_live : FilePath
  pub initramfs_installed : FilePath
  pub iso_output : FilePath

abbrev pub iso_paths : Kit → FilePath → IsoPaths
iso_paths kit base_dir =
    let output_dir = kit.names.output_dir base_dir in
    record {
      output_dir = output_dir;
      rootfs = join output_dir kit.names.rootfs_name;
      initramfs_live = join output_dir kit.names.initramfs_live_output;
      initramfs_installed = join output_dir kit.names.initramfs_installed_output;
      iso_output = join output_dir kit.names.iso_filename;
    }

abbrev has_dir : Fs → FilePath → List String → Bool
has_dir fs staging_modules [] = false
has_dir fs staging_modules (name ∷ names) =
    is_dir fs (join staging_modules name) || has_dir fs staging_modules names

abbrev modules_found : FilePath → List String → Exec Fs (Unit {0})
modules_found staging_modules names fs =
    if has_dir fs staging_modules names
    then (ok tt, fs)
    else (err (message "Staging directory exists but contains no kernel modules!" []), fs)

abbrev check_staging_modules : FilePath → Exec Fs (Unit {0})
check_staging_modules output_dir fs =
    let staging_boot = join output_dir "staging/boot/vmlinuz" in
    let staging_modules = join output_dir "staging/usr/lib/modules" in
    if exists fs staging_boot && exists fs staging_modules
    then (read_dir staging_modules >>= modules_found staging_modules) fs
    else (ok tt, fs)

unfoldable pub validate_iso_inputs : IsoPaths → Exec Fs (Unit {0})
unfolding read_dir
validate_iso_inputs paths fs =
    if not (exists fs paths.rootfs)
    then (err (message "EROFS rootfs not found" (display paths.rootfs ∷ [])), fs)
    else if not (exists fs paths.initramfs_live)
    then (err (message "Live initramfs not found" (display paths.initramfs_live ∷ [])), fs)
    else check_staging_modules paths.output_dir fs

unfoldable pub find_kernel : IsoPaths → Exec Fs FilePath
find_kernel paths fs =
    let kernel = join paths.output_dir "staging/boot/vmlinuz" in
    if not (exists fs kernel)
    then (err (message "LevitateOS kernel not found" (display kernel ∷ [])), fs)
    else (ok kernel, fs)

abbrev pub verdict_of : Opened → Result (Unit {0})
verdict_of (unreadable e) =
    if contains_text (codes "isoinfo not found") (codes e)
    then err (message "ISO verification requires 'isoinfo' tool." [])
    else err (message "Failed to open ISO" (e ∷ []))
verdict_of (checked report) =
    if report.is_success
    then ok tt
    else err (message "ISO verification failed." (failed_items report.results))

-- A profile that cannot be verified counts as a critical failure.
abbrev pub has_critical : List (Result Bool) → Bool
has_critical [] = false
has_critical (err e ∷ rs) = true
has_critical (ok critical ∷ rs) = critical || has_critical rs

module _ (kit : Kit) where
  unfoldable pub verify_iso : FilePath → Exec Fs (Unit {0})
  unfolding contains_text
  verify_iso path fs = (verdict_of (kit.check_iso fs path), fs)

  unfoldable pub verify_hardware_compat : FilePath → Exec Fs Bool
  verify_hardware_compat base_dir fs =
      let output_dir = kit.names.output_dir base_dir in
      (
        ok (
            has_critical (
              kit.verify_profiles fs (join output_dir "kernel-build/.config")
                (join output_dir "rootfs-staging/usr/lib/firmware"))),
        fs,
      )

module _ (kit : Kit) (host : Host) (base_dir : FilePath) where
  abbrev label_or : Option String → String
  label_or none = kit.iso_label
  label_or (some label) = label

  unfoldable pub iso_label : String
  iso_label = label_or (host.env_var "ISO_LABEL")

  abbrev pub paths : IsoPaths
  paths = iso_paths kit base_dir

  abbrev pub installed_uki_dir : FilePath
  installed_uki_dir = join paths.output_dir "installed-ukis"

  abbrev pub temp_iso : FilePath
  temp_iso = join paths.output_dir (kit.names.iso_filename <> ".tmp")

  abbrev pub checksum_of : FilePath → FilePath
  checksum_of iso = with_extension iso (trim_start b'.' kit.iso_checksum_suffix)

  -- The images that are there, beside their places in the ISO
  abbrev pub uki_files : Fs → List UkiEntry → List (FilePath × String)
  uki_files fs [] = []
  uki_files fs (entry ∷ entries) =
      let src = join installed_uki_dir entry.filename in
      let rest = uki_files fs entries in
      if exists fs src
      then (src, kit.uki_installed_iso_dir <> "/" <> entry.filename) ∷ rest
      else rest

  abbrev create_with : FilePath → Exec Fs (Unit {0})
  create_with kernel_path fs =
      kit.create_iso
        (record {
          kernel = kernel_path;
          initramfs = paths.initramfs_live;
          rootfs = paths.rootfs;
          label = iso_label;
          output = temp_iso;
          os_release = kit.os_release;
          overlay = join paths.output_dir "live-overlay";
          ukis = kit.uki_entries;
          extra_files =
              (paths.initramfs_installed, kit.initramfs_installed_iso_path)
              ∷ uki_files fs kit.uki_installed_entries;
        })
        fs

  abbrev move_checksum : Exec Fs (Unit {0})
  move_checksum fs =
      if exists fs (checksum_of temp_iso)
      then rename (checksum_of temp_iso) (checksum_of paths.iso_output) fs
      else (ok tt, fs)

  -- The stages up to the finished image in its temporary place
  unfoldable pub make_iso : Exec Fs (Unit {0})
  unfolding validate_iso_inputs find_kernel create_live_overlay_at create_dir_all
      build_installed_ukis iso_label verify_hardware_compat
  make_iso = do
    validate_iso_inputs paths
    kernel_path ← find_kernel paths
    create_live_overlay_at host paths.output_dir
    create_dir_all installed_uki_dir
    build_installed_ukis kit kernel_path paths.initramfs_installed installed_uki_dir
    create_dir_all (join (join paths.output_dir "iso-staging") kit.uki_installed_iso_dir)
    create_with kernel_path
    verify_hardware_compat kit base_dir
    pure tt

  -- The stages before the verification: the image is in its final place.
  unfoldable pub place_iso : Exec Fs (Unit {0})
  unfolding make_iso rename remove_dir_all
  place_iso = do
    make_iso
    rename temp_iso paths.iso_output
    move_checksum
    ignore (remove_dir_all installed_uki_dir)

  unfoldable pub create_iso : Exec Fs (Unit {0})
  unfolding place_iso verify_iso
  create_iso = place_iso >> verify_iso kit paths.iso_output
