-- ===== src/Artifact/Kit.antt =====
-- What src/artifact takes from other crates and from the process.
use leviso.Base.{String, List, ℕ, Bool, Option}
use leviso.Error.{Result}
use leviso.Exec.{Exec}
use leviso.Fs.Path.{FilePath}
use leviso.Fs.State.{Fs}
use leviso.Rebuild.{Names}

-- `recinit::ModulePreset`
pub data ModulePreset : Type 0 where
  live_modules install_modules : ModulePreset

-- `recinit::TinyConfig`
pub record TinyConfig : Type 0 where
  pub modules_dir : FilePath
  pub busybox_path : FilePath
  pub template_path : FilePath
  pub output : FilePath
  pub iso_label : String
  pub rootfs_path : String
  pub live_overlay_image_path : Option String
  pub live_overlay_path : Option String
  pub boot_devices : List String
  pub module_preset : ModulePreset
  pub gzip_level : ℕ
  pub check_builtin : Bool

-- `recinit::InstallConfig`
pub record InstallConfig : Type 0 where
  pub rootfs : FilePath
  pub modules_path : Option FilePath
  pub output : FilePath
  pub module_preset : ModulePreset
  pub gzip_level : ℕ
  pub include_firmware : Bool

-- The entries of `UKI_ENTRIES` and `UKI_INSTALLED_ENTRIES`
pub record UkiEntry : Type 0 where
  pub name : String
  pub extra_cmdline : String
  pub filename : String

-- `recuki::UkiConfig`, with the release of the system
pub record UkiConfig : Type 0 where
  pub kernel : FilePath
  pub initramfs : FilePath
  pub cmdline : String
  pub output : FilePath
  pub os_release : String × String × String

-- `reciso::IsoConfig`
pub record IsoConfig : Type 0 where
  pub kernel : FilePath
  pub initramfs : FilePath
  pub rootfs : FilePath
  pub label : String
  pub output : FilePath
  pub os_release : String × String × String
  pub overlay : FilePath
  pub ukis : List UkiEntry
  pub extra_files : List (FilePath × String)

-- `fsdbg::checklist::ChecklistType`, the two of an initramfs
pub data ChecklistType : Type 0 where
  live_initramfs install_initramfs : ChecklistType

pub record CheckItem : Type 0 where
  pub item : String
  pub passed : Bool

-- A report of fsdbg
pub record Report : Type 0 where
  pub results : List CheckItem
  pub is_success : Bool

-- What `IsoReader::open` and the checks after it return
pub data Opened : Type 0 where
  unreadable : String → Opened
  checked : Report → Opened

pub record Kit : Type 0 where
  pub names : Names
  -- distro-spec
  pub ssh_bin : List String
  pub etc_files : List String
  pub busybox_url : String
  pub busybox_url_env : String
  pub cpio_gzip_level : ℕ
  pub iso_label : String
  pub iso_checksum_suffix : String
  pub rootfs_iso_path : String
  pub live_overlay_iso_path : String
  pub initramfs_installed_iso_path : String
  pub boot_device_probe_order : List String
  pub os_release : String × String × String
  pub serial_console : String
  pub vga_console : String
  pub selinux_disable : String
  pub efi_debug : String
  pub uki_entries : List UkiEntry
  pub uki_installed_entries : List UkiEntry
  pub uki_installed_iso_dir : String
  -- distro-builder
  pub tool_exists : String → Bool
  pub build_erofs_default : FilePath → FilePath → Exec Fs (Unit {0})
  -- recinit, recuki and reciso
  pub download_busybox : String → FilePath → Exec Fs (Unit {0})
  pub build_tiny : TinyConfig → Exec Fs (Unit {0})
  pub build_install : InstallConfig → Exec Fs (Unit {0})
  pub build_uki : UkiConfig → Exec Fs (Unit {0})
  pub create_iso : IsoConfig → Exec Fs (Unit {0})
  -- fsdbg
  pub check_cpio : ChecklistType → Fs → FilePath → Result Report
  pub check_iso : Fs → FilePath → Opened
  -- hardware-compat, with the kernel's configuration and the firmware: for each profile, whether it
  -- has critical failures
  pub verify_profiles : Fs → FilePath → FilePath → List (Result Bool)
