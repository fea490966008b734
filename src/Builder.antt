-- ===== src/Builder.antt =====
-- src/component/builder.rs. Timers and what is printed are not modelled.
pub mod Order
pub mod Run
pub mod Phased
use leviso.Base.{List, [], ◌∷◌, ℕ}
use leviso.Exec.{◌>>=◌, ◌>>◌, pure, Exec}
use leviso.Component.Types.{Component, Installable, component_installable}
use leviso.Component.Service.{service_installable}
use leviso.Component.Definitions.{
  filesystem, shell, coreutils, sbin_binaries, systemd_bins, systemd_units, getty, efivars, udev,
  tmpfiles, live_systemd, dbus_svc, network, chrony_svc, openssh_svc, pam, modules, bluetooth_svc,
  pipewire_svc, polkit_svc, udisks_svc, upower_svc, etc_config, recipe, bootloader, firmware, final,
}
use leviso.Component.Spec.{Spec}
use leviso.Build.{Externals, BuildContext, World, on_fs}
use leviso.Executor.Custom.Outside.{Host}
use leviso.Executor.{execute}
use leviso.Users.{ensure_user}

-- An installable, seen as a component.
abbrev pub as_component : {A : Type 0} ⦃i : Installable A⦄ → A → Component
as_component ⦃i⦄ c = record { name = i.name c; phase = i.phase c; ops = i.ops c }

-- `all_installables` of the tests of this file, with the operations too.
unfoldable pub all_installables : Spec → List Component
unfolding service_installable
all_installables spec =
    as_component (filesystem spec)
    ∷ as_component (shell spec)
    ∷ as_component (coreutils spec)
    ∷ as_component (sbin_binaries spec)
    ∷ as_component (systemd_bins spec)
    ∷ as_component (systemd_units spec)
    ∷ as_component (getty spec)
    ∷ as_component (efivars spec)
    ∷ as_component (udev spec)
    ∷ as_component (tmpfiles spec)
    ∷ as_component (live_systemd spec)
    ∷ as_component (dbus_svc spec)
    ∷ as_component (network spec)
    ∷ as_component (chrony_svc spec)
    ∷ as_component (openssh_svc spec)
    ∷ as_component (pam spec)
    ∷ as_component (modules spec)
    ∷ as_component (bluetooth_svc spec)
    ∷ as_component (pipewire_svc spec)
    ∷ as_component (polkit_svc spec)
    ∷ as_component (udisks_svc spec)
    ∷ as_component (upower_svc spec)
    ∷ as_component (etc_config spec)
    ∷ as_component (recipe spec)
    ∷ as_component (bootloader spec)
    ∷ as_component (firmware spec)
    ∷ as_component (final spec)
    ∷ []

module _ (ext : Externals) (host : Host) (fuel : ℕ) (spec : Spec) (ctx : BuildContext) where
  abbrev pub install : {A : Type 0} ⦃i : Installable A⦄ → A → Exec World (Unit {0})
  install = execute ext host fuel ctx

  -- `tracker.copy_licenses(…)?`
  abbrev pub copy_licenses : Exec World (Unit {0})
  copy_licenses w = (on_fs (ext.copy_licenses w.registered ctx.source ctx.staging) >> pure tt) w

  unfoldable pub build_system : Exec World (Unit {0})
  unfolding execute
  build_system =
      install (filesystem spec)
      >> install (shell spec)
      >> install (coreutils spec)
      >> install (sbin_binaries spec)
      >> install (systemd_bins spec)
      >> install (systemd_units spec)
      >> install (getty spec)
      >> install (efivars spec)
      >> install (udev spec)
      >> install (tmpfiles spec)
      >> install (live_systemd spec)
      >> install (dbus_svc spec)
      >> install (network spec)
      >> install (chrony_svc spec)
      >> install (openssh_svc spec)
      >> install (pam spec)
      >> install (modules spec)
      >> install (bluetooth_svc spec)
      >> install (pipewire_svc spec)
      >> install (polkit_svc spec)
      >> install (udisks_svc spec)
      >> install (upower_svc spec)
      >> install (etc_config spec)
      >> install (recipe spec)
      >> install (bootloader spec)
      >> install (firmware spec)
      >> install (final spec)
      >> copy_licenses
