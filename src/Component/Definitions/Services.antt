-- ===== src/Component/Definitions/Services.antt =====
-- src/component/definitions.rs: the services, as data over the lists of distro-spec.
use leviso.Base.{[], ◌∷◌}
use leviso.Component.Types.{Phase, Target}
use leviso.Component.Spec.{Spec}
use leviso.Component.Service.{Service}

module _ (spec : Spec) where
  abbrev pub openssh_svc : Service
  openssh_svc = record {
    name = "openssh";
    phase = Phase.services;
    bins = "ssh" ∷ "scp" ∷ "sftp" ∷ "ssh-keygen" ∷ "ssh-add" ∷ "ssh-agent" ∷ [];
    sbins = "sshd" ∷ [];
    units =
        "sshd.service" ∷ "sshd.socket" ∷ "sshd@.service" ∷ "sshd-keygen.target"
        ∷ "sshd-keygen@.service" ∷ "ssh-host-keys-migration.service" ∷ [];
    user_units = [];
    enable = [];
    config_trees =
        "usr/libexec/openssh" ∷ "etc/ssh" ∷ "etc/crypto-policies" ∷ "usr/share/crypto-policies"
        ∷ [];
    config_files = "etc/pam.d/sshd" ∷ "etc/sysconfig/sshd" ∷ [];
    dirs = "var/empty/sshd" ∷ [];
    symlinks = [];
    users =
        (record {
          name = "sshd";
          uid = 74;
          gid = 74;
          home = "/var/empty/sshd";
          shell = "/usr/sbin/nologin";
        })
        ∷ [];
    groups = (record { name = "sshd"; gid = 74 }) ∷ [];
    custom = [];
  }

  abbrev pub chrony_svc : Service
  chrony_svc = record {
    name = "chrony";
    phase = Phase.services;
    bins = [];
    sbins = [];
    units = [];
    user_units = [];
    enable = (Target.multi_user, "chronyd.service") ∷ [];
    config_trees = [];
    config_files =
        "etc/chrony.conf" ∷ "etc/sysconfig/chronyd" ∷ "usr/lib/systemd/ntp-units.d/50-chronyd.list"
        ∷ [];
    dirs = "var/lib/chrony" ∷ "var/run/chrony" ∷ [];
    symlinks = [];
    users =
        (record {
          name = "chrony";
          uid = 992;
          gid = 987;
          home = "/var/lib/chrony";
          shell = "/sbin/nologin";
        })
        ∷ [];
    groups = (record { name = "chrony"; gid = 987 }) ∷ [];
    custom = [];
  }

  abbrev pub dbus_svc : Service
  dbus_svc = record {
    name = "dbus";
    phase = Phase.dbus;
    bins = "dbus-broker" ∷ "dbus-broker-launch" ∷ "dbus-send" ∷ "dbus-daemon" ∷ "busctl" ∷ [];
    sbins = [];
    units = "dbus.socket" ∷ "dbus-daemon.service" ∷ [];
    user_units = [];
    enable =
        (Target.sockets, "dbus.socket")
        ∷ (Target.sockets, "systemd-journald.socket")
        ∷ (Target.sockets, "systemd-journald-dev-log.socket")
        ∷ [];
    config_trees = "usr/share/dbus-1" ∷ "etc/dbus-1" ∷ [];
    config_files = [];
    dirs = "run/dbus" ∷ [];
    symlinks =
        (record { link = "usr/lib/systemd/system/dbus.service"; target = "dbus-daemon.service" })
        ∷ [];
    users =
        (record { name = "dbus"; uid = 81; gid = 81; home = "/"; shell = "/sbin/nologin" }) ∷ [];
    groups = (record { name = "dbus"; gid = 81 }) ∷ [];
    custom = [];
  }

  abbrev pub bluetooth_svc : Service
  bluetooth_svc = record {
    name = "bluetooth";
    phase = Phase.services;
    bins = "bluetoothctl" ∷ [];
    sbins = spec.bluetooth_sbin;
    units = spec.bluetooth_units;
    user_units = [];
    enable = [];
    config_trees = "etc/bluetooth" ∷ "usr/libexec/bluetooth" ∷ [];
    config_files = "usr/share/dbus-1/system.d/bluetooth.conf" ∷ [];
    dirs = "var/lib/bluetooth" ∷ [];
    symlinks = [];
    users = [];
    groups = (record { name = "bluetooth"; gid = 170 }) ∷ [];
    custom = [];
  }

  abbrev pub pipewire_svc : Service
  pipewire_svc = record {
    name = "pipewire";
    phase = Phase.services;
    bins =
        "pw-cli" ∷ "pw-dump" ∷ "pw-cat" ∷ "pw-play" ∷ "pw-record" ∷ "pw-top" ∷ "pw-metadata"
        ∷ "pw-mon" ∷ "pw-link" ∷ "wpctl" ∷ "pactl" ∷ "paplay" ∷ "parecord" ∷ [];
    sbins = spec.pipewire_sbin;
    units = [];
    user_units = spec.pipewire_units;
    enable = [];
    config_trees =
        "usr/share/pipewire" ∷ "etc/pipewire" ∷ "usr/share/wireplumber" ∷ "etc/wireplumber" ∷ [];
    config_files = [];
    dirs = [];
    symlinks = [];
    users = [];
    groups = (record { name = "pipewire"; gid = 171 }) ∷ (record { name = "audio"; gid = 63 }) ∷ [];
    custom = [];
  }

  abbrev pub polkit_svc : Service
  polkit_svc = record {
    name = "polkit";
    phase = Phase.services;
    bins = "pkexec" ∷ "pkaction" ∷ "pkcheck" ∷ [];
    sbins = spec.polkit_sbin;
    units = spec.polkit_units;
    user_units = [];
    enable = [];
    config_trees = "usr/share/polkit-1" ∷ "etc/polkit-1" ∷ "usr/lib/polkit-1" ∷ [];
    config_files =
        "usr/share/dbus-1/system.d/org.freedesktop.PolicyKit1.conf"
        ∷ "usr/share/dbus-1/system-services/org.freedesktop.PolicyKit1.service" ∷ [];
    dirs = "var/lib/polkit-1" ∷ [];
    symlinks = [];
    users =
        (record { name = "polkitd"; uid = 27; gid = 27; home = "/"; shell = "/sbin/nologin" }) ∷ [];
    groups = (record { name = "polkitd"; gid = 27 }) ∷ [];
    custom = [];
  }

  abbrev pub udisks_svc : Service
  udisks_svc = record {
    name = "udisks2";
    phase = Phase.services;
    bins = "udisksctl" ∷ [];
    sbins = spec.udisks_sbin;
    units = spec.udisks_units;
    user_units = [];
    enable = [];
    config_trees = "usr/lib/udisks2" ∷ "etc/udisks2" ∷ "usr/libexec/udisks2" ∷ [];
    config_files =
        "usr/share/dbus-1/system.d/org.freedesktop.UDisks2.conf"
        ∷ "usr/share/dbus-1/system-services/org.freedesktop.UDisks2.service" ∷ [];
    dirs = "var/lib/udisks2" ∷ [];
    symlinks = [];
    users = [];
    groups = [];
    custom = [];
  }

  abbrev pub upower_svc : Service
  upower_svc = record {
    name = "upower";
    phase = Phase.services;
    bins = "upower" ∷ [];
    sbins = spec.upower_sbin;
    units = spec.upower_units;
    user_units = [];
    enable = [];
    config_trees = "etc/UPower" ∷ [];
    config_files =
        "usr/share/dbus-1/system.d/org.freedesktop.UPower.conf"
        ∷ "usr/share/dbus-1/system-services/org.freedesktop.UPower.service" ∷ "usr/libexec/upowerd"
        ∷ [];
    dirs = "var/lib/upower" ∷ [];
    symlinks = [];
    users = [];
    groups = [];
    custom = [];
  }
