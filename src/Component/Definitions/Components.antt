-- ===== src/Component/Definitions/Components.antt =====
-- src/component/definitions.rs: the components, as data over the lists of distro-spec.
use leviso.Base.{String, [], ◌∷◌}
use leviso.Component.Types.{Phase, Op, CustomOp, Component}
use leviso.Component.Spec.{Spec}
use leviso.Component.Helpers.{
  bins, copy_file, copy_tree, custom, dirs, enable_getty, enable_multi_user, enable_sysinit, group,
  sbins, symlink, units, user, write_file,
}

abbrev pub serial_getty_conf : String
serial_getty_conf =
    "[Service]\n# Override ExecStart for virtual serial consoles.\n# -L: local line (no carrier detect wait) - required for QEMU/virtual serial\n# --keep-baud: try multiple baud rates for compatibility\n# vt100: simpler terminal type that doesn't send cursor position queries\n#        (linux terminal sends [6n which hangs when no terminal responds)\nExecStart=\nExecStart=-/sbin/agetty -L --keep-baud 115200,57600,38400,9600 %I linux\n"

abbrev pub efivarfs_mount : String
efivarfs_mount =
    "[Unit]\nDescription=EFI Variable Filesystem\nConditionPathExists=/sys/firmware/efi\nDefaultDependencies=no\nBefore=sysinit.target\nAfter=local-fs-pre.target\n\n[Mount]\nWhat=efivarfs\nWhere=/sys/firmware/efi/efivars\nType=efivarfs\nOptions=rw\n\n[Install]\nWantedBy=sysinit.target\n"

module _ (spec : Spec) where
  abbrev pub filesystem : Component
  filesystem = record {
    name = "filesystem";
    phase = Phase.filesystem;
    ops =
        (dirs spec.fhs_dirs)
        ∷ (symlink "bin" "usr/bin")
        ∷ (symlink "sbin" "usr/sbin")
        ∷ (symlink "lib" "usr/lib")
        ∷ (symlink "lib64" "usr/lib64")
        ∷ (symlink "var/run" "/run")
        ∷ (symlink "var/lock" "/run/lock")
        ∷ (symlink "usr/bin/sh" "bash")
        ∷ [];
  }

  abbrev pub shell : Component
  shell = record { name = "shell"; phase = Phase.binaries; ops = Op.bash ∷ [] }

  abbrev pub coreutils : Component
  coreutils = record {
    name = "coreutils";
    phase = Phase.binaries;
    ops = (bins spec.bin_utils) ∷ (bins spec.auth_bin) ∷ [];
  }

  abbrev pub sbin_binaries : Component
  sbin_binaries = record {
    name = "sbin";
    phase = Phase.binaries;
    ops =
        (sbins spec.sbin_utils)
        ∷ (sbins spec.auth_sbin)
        ∷ (symlink "usr/bin/login" "../sbin/login")
        ∷ [];
  }

  abbrev pub systemd_bins : Component
  systemd_bins = record {
    name = "systemd-binaries";
    phase = Phase.binaries;
    ops =
        (Op.systemd_binaries spec.systemd_binaries)
        ∷ (symlink "usr/sbin/init" "/usr/lib/systemd/systemd")
        ∷ (Op.sudo_libs spec.sudo_libs)
        ∷ [];
  }

  abbrev pub systemd_units : Component
  systemd_units = record {
    name = "systemd-units";
    phase = Phase.systemd;
    ops = (units spec.essential_units) ∷ (Op.dbus_symlinks spec.dbus_activation_symlinks) ∷ [];
  }

  abbrev pub getty : Component
  getty = record {
    name = "getty";
    phase = Phase.systemd;
    ops =
        (enable_getty "getty@tty1.service")
        ∷ (enable_multi_user "getty.target")
        ∷ (symlink "etc/systemd/system/default.target" "/usr/lib/systemd/system/multi-user.target")
        ∷ (dirs ("etc/systemd/system/serial-getty@.service.d" ∷ []))
        ∷ (write_file "etc/systemd/system/serial-getty@.service.d/local.conf" serial_getty_conf)
        ∷ [];
  }

  abbrev pub efivars : Component
  efivars = record {
    name = "efivars";
    phase = Phase.systemd;
    ops =
        (write_file "usr/lib/systemd/system/sys-firmware-efi-efivars.mount" efivarfs_mount)
        ∷ (enable_sysinit "sys-firmware-efi-efivars.mount")
        ∷ [];
  }

  abbrev pub udev : Component
  udev = record {
    name = "udev";
    phase = Phase.systemd;
    ops =
        (copy_tree "usr/lib/udev/rules.d")
        ∷ (copy_tree "usr/lib/udev/hwdb.d")
        ∷ (Op.udev_helpers spec.udev_helpers)
        ∷ (enable_sysinit "systemd-udevd-control.socket")
        ∷ (enable_sysinit "systemd-udevd-kernel.socket")
        ∷ (enable_sysinit "systemd-udevd.service")
        ∷ (enable_sysinit "systemd-udev-trigger.service")
        ∷ [];
  }

  abbrev pub tmpfiles : Component
  tmpfiles = record {
    name = "tmpfiles";
    phase = Phase.systemd;
    ops = (copy_tree "usr/lib/tmpfiles.d") ∷ (copy_tree "usr/lib/sysctl.d") ∷ [];
  }

  abbrev pub live_systemd : Component
  live_systemd = record {
    name = "live-systemd";
    phase = Phase.systemd;
    ops = (custom CustomOp.setup_live_systemd_configs) ∷ [];
  }

  abbrev pub network : Component
  network = record {
    name = "network";
    phase = Phase.services;
    ops =
        (sbins spec.nm_sbin)
        ∷ (bins spec.nm_bin)
        ∷ (sbins spec.wpa_sbin)
        ∷ (copy_tree "usr/libexec")
        ∷ (copy_tree "usr/lib64/NetworkManager")
        ∷ (copy_tree "etc/NetworkManager")
        ∷ (copy_tree "etc/wpa_supplicant")
        ∷ (copy_file "usr/share/dbus-1/system.d/org.freedesktop.NetworkManager.conf")
        ∷ (copy_file "etc/dbus-1/system.d/wpa_supplicant.conf")
        ∷ (units spec.nm_units)
        ∷ (units spec.wpa_units)
        ∷ (enable_multi_user "NetworkManager.service")
        ∷ (custom CustomOp.copy_wifi_firmware)
        ∷ (user "nm-openconnect" 993 988 "/" "/sbin/nologin")
        ∷ (group "nm-openconnect" 988)
        ∷ [];
  }

  abbrev pub pam : Component
  pam = record {
    name = "pam";
    phase = Phase.services;
    ops =
        (copy_tree "usr/lib64/security")
        ∷ (custom CustomOp.create_pam_files)
        ∷ (custom CustomOp.create_security_config)
        ∷ [];
  }

  abbrev pub modules : Component
  modules = record {
    name = "modules";
    phase = Phase.services;
    ops = (custom CustomOp.copy_modules) ∷ [];
  }

  abbrev pub etc_config : Component
  etc_config = record {
    name = "etc";
    phase = Phase.config;
    ops =
        (custom CustomOp.create_etc_files)
        ∷ (custom CustomOp.copy_timezone_data)
        ∷ (custom CustomOp.copy_locales)
        ∷ (custom CustomOp.disable_selinux)
        ∷ (custom CustomOp.create_ssh_host_keys)
        ∷ (copy_tree "usr/share/terminfo")
        ∷ [];
  }

  abbrev pub recipe : Component
  recipe = record {
    name = "recipe";
    phase = Phase.packages;
    ops = (custom CustomOp.copy_recipe) ∷ (custom CustomOp.setup_recipe_config) ∷ [];
  }

  abbrev pub bootloader : Component
  bootloader = record {
    name = "bootloader";
    phase = Phase.packages;
    ops = (custom CustomOp.copy_systemd_boot_efi) ∷ [];
  }

  abbrev pub firmware : Component
  firmware = record {
    name = "firmware";
    phase = Phase.firmware;
    ops = (custom CustomOp.copy_all_firmware) ∷ (custom CustomOp.copy_keymaps) ∷ [];
  }

  abbrev pub final : Component
  final = record {
    name = "final";
    phase = Phase.final;
    ops =
        (custom CustomOp.create_welcome_message)
        ∷ (custom CustomOp.install_tools)
        ∷ (custom CustomOp.install_stage_tests)
        ∷ (custom CustomOp.copy_docs_tui)
        ∷ [];
  }
