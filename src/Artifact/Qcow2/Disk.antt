-- ===== src/Artifact/Qcow2/Disk.antt =====
-- What src/artifact/qcow2 takes from distro-builder and distro-spec.
use leviso.Base.{String, List, ℕ, Option}
use leviso.Error.{Result}
use leviso.Exec.{Exec}
use leviso.Fs.Path.{FilePath}
use leviso.Fs.State.{Fs}

-- `distro_builder::DiskUuids`
pub record DiskUuids : Type 0 where
  pub root_fs_uuid : String
  pub efi_fs_uuid : String
  pub root_part_uuid : String

pub record DiskKit : Type 0 where
  -- distro-spec
  pub qcow2_image_filename : String
  pub default_hostname : String
  pub root_filesystem : String
  pub efi_filesystem : String
  -- the boot entry of a partition: its name and its text; and the configuration of the loader
  pub boot_entry_with_partuuid : String → String × String
  pub default_loader_config : String
  -- distro-builder
  pub output_dir : FilePath → FilePath
  pub ensure_exists : FilePath → String → Exec Fs (Unit {0})
  pub find_first_existing : Fs → List FilePath → Option FilePath
  pub check_host_tools : List (String × String) → Exec Fs (Unit {0})
  pub calculate_dir_size : Fs → FilePath → Result ℕ
  pub generate_disk_uuids : Exec Fs DiskUuids
  -- the image, its size, the entry's name and text, the loader's configuration, the kernel, the
  -- initramfs and the boot loader
  pub create_efi_partition :
      FilePath
      → ℕ
      → DiskUuids
      → String
      → String
      → String
      → FilePath
      → FilePath
      → FilePath
      → Exec Fs (Unit {0})
  pub create_root_partition : FilePath → FilePath → ℕ → DiskUuids → Exec Fs (Unit {0})
  -- the disk, the two images, the sizes in GB and MB
  pub assemble_disk : FilePath → FilePath → FilePath → ℕ → ℕ → DiskUuids → Exec Fs (Unit {0})
  -- what `metadata().len()` is for a directory
  pub dir_len : ℕ
