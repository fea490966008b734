-- ===== src/Artifact/Qcow2.antt =====
-- src/artifact/qcow2: the disk image of a virtual machine. What is printed is not modelled.
pub mod Sizes
pub mod Verified
pub mod Shadow
pub mod Disk
pub mod Configuration
use leviso.Base.{
  ℕ, ◌+◌, ◌-◌, ◌*◌, ◌/◌, ◌%◌, ◌^◌, String, ◌<>◌, List, [], ◌∷◌, Bool, not, Option, none, some, ltb,
  if◌then◌else◌,
}
use leviso.Error.{Error, Result, ok, err, message, context}
use leviso.Exec.{Exec, ◌>>=◌, ◌>>◌, pure, fail, for_each, with_context}
use leviso.Text.{Text, byte_length}
use leviso.Fs.Path.{FilePath, join, display}
use leviso.Fs.State.{Fs, Node, dir, file, link}
use leviso.Fs.Ops.{exists, metadata, create_dir_all, remove_dir_all, remove_file}
use leviso.Common.{remove_dir_if_exists}
use leviso.Executor.Custom.Outside.{Host}
use leviso.Artifact.Qcow2.Disk.{DiskKit, DiskUuids}
use leviso.Artifact.Qcow2.Configuration.{prepare_qcow2_rootfs}

abbrev pub efi_size_mb : ℕ
efi_size_mb = 1024

-- `(disk_size_gb as u64 * 1024) - EFI_SIZE_MB - 2`, with the wrap-around of a release build
unfoldable pub root_size_mb : ℕ → ℕ
root_size_mb disk_size_gb = (disk_size_gb * 1024 + 2 ^ 64 - efi_size_mb - 2) % 2 ^ 64

module _ (disk : DiskKit) where
  -- `metadata.len() / 1024 / 1024`
  abbrev pub size_mb : Node → ℕ
  size_mb dir = disk.dir_len / 1024 / 1024
  size_mb (file content mode time) = byte_length content / 1024 / 1024
  size_mb (link target) = 0

  abbrev pub image_too_small : Error
  image_too_small = message "qcow2 image is suspiciously small" []

  abbrev check_size : Error → Node → Exec Fs (Unit {0})
  check_size small n fs = if ltb (size_mb n) 100 then (err small, fs) else (ok tt, fs)

  unfoldable pub verify_qcow2_internal : FilePath → Exec Fs (Unit {0})
  verify_qcow2_internal qcow2_path = metadata qcow2_path >>= check_size image_too_small

  unfoldable pub verify_qcow2 : FilePath → Exec Fs (Unit {0})
  verify_qcow2 base_dir = do
    let qcow2_path = join (disk.output_dir base_dir) disk.qcow2_image_filename
    disk.ensure_exists qcow2_path "qcow2 image"
    n ← metadata qcow2_path
    check_size (message "qcow2 image seems too small." []) n

  abbrev pub critical_paths : List String
  critical_paths =
      "usr/bin" ∷ "usr/lib" ∷ "usr/lib64" ∷ "etc/shadow" ∷ "etc/passwd" ∷ "etc/fstab" ∷ "boot" ∷ []

  abbrev require_path : FilePath → String → Exec Fs (Unit {0})
  require_path rootfs path fs =
      if not (exists fs (join rootfs path))
      then (err (message "rootfs-staging is incomplete" (path ∷ [])), fs)
      else (ok tt, fs)

  abbrev check_dir_size : Result ℕ → Result (Unit {0})
  check_dir_size (err e) = err (context "Failed to calculate rootfs size" e)
  check_dir_size (ok bytes) =
      if ltb (bytes / 1048576) 500
      then err (message "rootfs-staging seems too small." [])
      else ok tt

  -- `1024 * 1024` is 1048576.
  unfoldable pub validate_rootfs_content : FilePath → Exec Fs (Unit {0})
  validate_rootfs_content rootfs = for_each (require_path rootfs) critical_paths >> λ fs.
      (check_dir_size (disk.calculate_dir_size fs rootfs), fs)

  unfoldable pub verify_build_dependencies : FilePath → FilePath → Exec Fs (Unit {0})
  unfolding validate_rootfs_content
  verify_build_dependencies base_dir rootfs = do
    let output_dir = disk.output_dir base_dir
    with_context (context "Kernel not found.")
        (disk.ensure_exists (join output_dir "staging/boot/vmlinuz") "Kernel")
    with_context (context "Install initramfs not found.")
        (disk.ensure_exists (join output_dir "initramfs-installed.img") "Install initramfs")
    validate_rootfs_content rootfs

  abbrev require_initramfs : FilePath → Exec Fs (Unit {0})
  require_initramfs initramfs_src fs =
      if not (exists fs initramfs_src)
      then (err (message "Install initramfs not found" (display initramfs_src ∷ [])), fs)
      else (ok tt, fs)

  abbrev efi_partition_with : FilePath → FilePath → DiskUuids → Option FilePath → Exec Fs (Unit {0})
  efi_partition_with base_dir image_path uuids none =
      fail (message "systemd-boot EFI binary not found." [])
  efi_partition_with base_dir image_path uuids (some systemd_boot_src) = do
    let kernel_src = join (disk.output_dir base_dir) "staging/boot/vmlinuz"
    disk.ensure_exists kernel_src "Kernel"
    let initramfs_src = join (disk.output_dir base_dir) "initramfs-installed.img"
    require_initramfs initramfs_src
    let (filename, entry_content) = disk.boot_entry_with_partuuid uuids.root_part_uuid
    disk.create_efi_partition image_path efi_size_mb uuids (filename <> ".conf") entry_content
        disk.default_loader_config kernel_src initramfs_src systemd_boot_src

  unfoldable pub create_efi_partition :
      FilePath → FilePath → DiskUuids → FilePath → Exec Fs (Unit {0})
  create_efi_partition base_dir image_path uuids rootfs fs =
      efi_partition_with base_dir image_path uuids
        (disk.find_first_existing fs (
          join rootfs "usr/lib/systemd/boot/efi/systemd-bootx64.efi"
          ∷ join [] "/usr/lib/systemd/boot/efi/systemd-bootx64.efi"
          ∷ []))
        fs

module _ (host : Host) where
  abbrev remove_if_there : FilePath → Exec Fs (Unit {0})
  remove_if_there p fs = if exists fs p then remove_file p fs else (ok tt, fs)

  unfoldable pub convert_to_qcow2 : FilePath → FilePath → Exec Fs (Unit {0})
  unfolding remove_file
  convert_to_qcow2 raw_path qcow2_path =
      remove_if_there qcow2_path
      >> host.run "qemu-img"
          ("convert"
            ∷ "-f"
            ∷ "raw"
            ∷ "-O"
            ∷ "qcow2"
            ∷ "-c"
            ∷ display raw_path
            ∷ display qcow2_path
            ∷ [])
          "qemu-img convert failed"

module _ (host : Host) (disk : DiskKit) (base_dir : FilePath) where
  abbrev pub work_dir : FilePath
  work_dir = join (disk.output_dir base_dir) "qcow2-work"

  -- The work directory goes only after a verification that succeeds.
  abbrev pub after_verify : Result (Unit {0}) × Fs → Result (Unit {0}) × Fs
  after_verify (err e, fs) = (err e, fs)
  after_verify (ok tt, fs) = remove_dir_all work_dir fs

  abbrev pub qcow2_path : FilePath
  qcow2_path = join (disk.output_dir base_dir) disk.qcow2_image_filename

  -- The steps of `build_qcow2` up to the conversion
  unfoldable pub make_qcow2 : ℕ → Exec Fs (Unit {0})
  unfolding verify_build_dependencies remove_dir_all create_dir_all prepare_qcow2_rootfs
      create_efi_partition root_size_mb convert_to_qcow2
  make_qcow2 disk_size_gb = do
    disk.check_host_tools (("qemu-img", "qemu-img") ∷ [])
    let output_dir = disk.output_dir base_dir
    let staging_dir = join output_dir "rootfs-staging"
    with_context (context "Run 'cargo run -- build rootfs' first to create rootfs-staging.")
        (disk.ensure_exists staging_dir "rootfs-staging")
    with_context (context "qcow2 build requires kernel, install initramfs, and complete rootfs.")
        (verify_build_dependencies disk base_dir staging_dir)
    uuids ← disk.generate_disk_uuids
    remove_dir_if_exists work_dir
    create_dir_all work_dir
    let qcow2_staging = join work_dir "rootfs"
    prepare_qcow2_rootfs host disk base_dir staging_dir qcow2_staging uuids
    let efi_image = join work_dir "efi.img"
    create_efi_partition disk base_dir efi_image uuids qcow2_staging
    let root_image = join work_dir "root.img"
    disk.create_root_partition qcow2_staging root_image (root_size_mb disk_size_gb) uuids
    let raw_path = join work_dir "disk.raw"
    disk.assemble_disk raw_path efi_image root_image disk_size_gb efi_size_mb uuids
    convert_to_qcow2 host raw_path qcow2_path

  unfoldable pub build_qcow2 : ℕ → Exec Fs (Unit {0})
  unfolding make_qcow2 remove_dir_all verify_qcow2_internal
  build_qcow2 disk_size_gb =
      make_qcow2 disk_size_gb >> λ fs. after_verify (verify_qcow2_internal disk qcow2_path fs)
