-- ===== src/Component/Spec.antt =====
-- The lists of `distro_spec::shared` that the definitions take: that crate is not in this
-- repository, so they are a parameter.
use leviso.Base.{String, List}

pub record Spec : Type 0 where
  pub auth_bin : List String
  pub auth_sbin : List String
  pub bin_utils : List String
  pub bluetooth_sbin : List String
  pub bluetooth_units : List String
  pub dbus_activation_symlinks : List String
  pub essential_units : List String
  pub fhs_dirs : List String
  pub nm_bin : List String
  pub nm_sbin : List String
  pub nm_units : List String
  pub pipewire_sbin : List String
  pub pipewire_units : List String
  pub polkit_sbin : List String
  pub polkit_units : List String
  pub sbin_utils : List String
  pub sudo_libs : List String
  pub systemd_binaries : List String
  pub udev_helpers : List String
  pub udisks_sbin : List String
  pub udisks_units : List String
  pub upower_sbin : List String
  pub upower_units : List String
  pub wpa_sbin : List String
  pub wpa_units : List String
