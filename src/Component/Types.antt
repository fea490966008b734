-- ===== src/Component/Types.antt =====
-- src/component/mod.rs: `Op` and the enums that it mentions, `Component` and `Installable`.
-- A `u32` is a number; a `&'static [T]` is a list.
use leviso.Base.{ℕ, ◌≤◌, String, List}

-- In the order of the derived `Ord`.
pub data Phase : Type 0 where
  filesystem binaries systemd dbus services config packages firmware final : Phase

-- The `#[repr(u8)]` discriminants, by which the derived order compares.
abbrev pub discriminant : Phase → ℕ
discriminant filesystem = 1
discriminant binaries = 2
discriminant systemd = 3
discriminant dbus = 4
discriminant services = 5
discriminant config = 6
discriminant packages = 7
discriminant firmware = 8
discriminant final = 9

-- `impl fmt::Display for Phase`
abbrev pub phase_display : Phase → String
phase_display filesystem = "Filesystem"
phase_display binaries = "Binaries"
phase_display systemd = "Systemd"
phase_display dbus = "D-Bus"
phase_display services = "Services"
phase_display config = "Config"
phase_display packages = "Packages"
phase_display firmware = "Firmware"
phase_display final = "Final"

pub data Dest : Type 0 where
  bin sbin : Dest

pub data Target : Type 0 where
  multi_user getty sockets sysinit : Target

abbrev pub wants_dir : Target → String
wants_dir multi_user = "etc/systemd/system/multi-user.target.wants"
wants_dir getty = "etc/systemd/system/getty.target.wants"
wants_dir sockets = "etc/systemd/system/sockets.target.wants"
wants_dir sysinit = "etc/systemd/system/sysinit.target.wants"

pub data CustomOp : Type 0 where
  create_live_overlay copy_wifi_firmware copy_all_firmware run_depmod copy_modules : CustomOp
  create_etc_files copy_timezone_data copy_locales copy_systemd_boot_efi copy_keymaps : CustomOp
  create_welcome_message install_tools install_stage_tests disable_selinux : CustomOp
  create_pam_files create_security_config copy_recipe setup_recipe_config : CustomOp
  setup_live_systemd_configs copy_docs_tui create_ssh_host_keys : CustomOp

pub data Op : Type 0 where
  dir : String → Op
  dir_mode : String → ℕ → Op
  dirs : List String → Op
  bin : String → Dest → Op
  bins : List String → Dest → Op
  bash : Op
  systemd_binaries : List String → Op
  sudo_libs : List String → Op
  copy_file : String → Op
  copy_tree : String → Op
  write_file : String → String → Op
  write_file_mode : String → String → ℕ → Op
  symlink : String → String → Op
  units : List String → Op
  user_units : List String → Op
  enable : String → Target → Op
  dbus_symlinks : List String → Op
  udev_helpers : List String → Op
  -- name, uid, gid, home, shell
  user : String → ℕ → ℕ → String → String → Op
  -- name, gid
  group : String → ℕ → Op
  custom : CustomOp → Op

pub record Component : Type 0 where
  pub name : String
  pub phase : Phase
  pub ops : List Op

-- The trait `Installable`.
pub record Installable (A : Type 0) : Type 0 where
  pub name : A → String
  pub phase : A → Phase
  pub ops : A → List Op

-- `impl Installable for Component` and for `&Component`
instance abbrev pub component_installable : Installable Component
component_installable = record { name = λ c. c.name; phase = λ c. c.phase; ops = λ c. c.ops }

-- `Phase` derives `PartialOrd`.
infix 40 ◌≤ᵖ◌
abbrev pub ◌≤ᵖ◌ : Phase → Phase → Type 0
p ≤ᵖ q = discriminant p ≤ discriminant q
