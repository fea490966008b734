-- ===== src/Tests/Data.antt =====
-- A small project on disk, and small lists in the place of distro-spec's.
use leviso.Base.{String, ◌∷◌, []}
use leviso.Component.Spec.{Spec}
use leviso.Fs.State.{Fs, Node, file, dir, link}
use leviso.Text.{codes}

abbrev pub lists : Spec
lists = record {
  auth_bin = "su" ∷ [];
  auth_sbin = "unix_chkpwd" ∷ [];
  bin_utils = "ls" ∷ "cat" ∷ [];
  bluetooth_sbin = [];
  bluetooth_units = "bluetooth.service" ∷ [];
  dbus_activation_symlinks = "dbus-org.bluez.service" ∷ [];
  essential_units = "basic.target" ∷ [];
  fhs_dirs = "usr/bin" ∷ "var" ∷ [];
  nm_bin = "nmcli" ∷ [];
  nm_sbin = "NetworkManager" ∷ [];
  nm_units = "NetworkManager.service" ∷ [];
  pipewire_sbin = [];
  pipewire_units = "pipewire.service" ∷ [];
  polkit_sbin = [];
  polkit_units = "polkit.service" ∷ [];
  sbin_utils = "mkfs" ∷ [];
  sudo_libs = "sudoers.so" ∷ [];
  systemd_binaries = "systemd-journald" ∷ [];
  udev_helpers = "ata_id" ∷ [];
  udisks_sbin = [];
  udisks_units = "udisks2.service" ∷ [];
  upower_sbin = [];
  upower_units = "upower.service" ∷ [];
  wpa_sbin = "wpa_supplicant" ∷ [];
  wpa_units = "wpa_supplicant.service" ∷ [];
}

abbrev pub plain : String → Node
plain s = file (codes s) 420 0

abbrev pub disk : Fs
disk = record {
  nodes =
      ("base" ∷ [], dir)
      ∷ ("base" ∷ "downloads" ∷ [], dir)
      ∷ ("base" ∷ "downloads" ∷ "rocky.iso" ∷ [], plain "iso")
      ∷ ("base" ∷ "output" ∷ [], dir)
      ∷ ("base" ∷ "output" ∷ "levitateos.iso" ∷ [], plain "iso")
      ∷ ("base" ∷ "output" ∷ "levitateos.sha512" ∷ [], link "levitateos.iso")
      ∷ ("base" ∷ "output" ∷ "live-overlay" ∷ [], dir)
      ∷ ("base" ∷ "output" ∷ "live-overlay" ∷ "etc" ∷ [], dir)
      ∷ ("src" ∷ [], dir)
      ∷ ("src" ∷ "etc" ∷ [], dir)
      ∷ (
        "src" ∷ "etc" ∷ "passwd" ∷ [],
        plain "root:x:0:0:root:/root:/bin/bash\nsshd:x:74:75:sshd:/var/empty:/sbin/nologin\n",
      )
      ∷ ("staging" ∷ [], dir)
      ∷ ("staging" ∷ "etc" ∷ [], dir)
      ∷ ("staging" ∷ "etc" ∷ "passwd" ∷ [], plain "root:x:0:0:root:/root:/bin/bash\n")
      ∷ [];
  clock = 1;
}
