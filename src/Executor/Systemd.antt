-- ===== src/Executor/Systemd.antt =====
-- src/component/executor/systemd.rs
use leviso.Base.{List, String, if◌then◌else◌, ◌<>◌, ◌&&◌, not}
use leviso.Exec.{◌>>=◌, ◌>>◌, Exec, pure, for_each}
use leviso.Component.Types.{Target, wants_dir}
use leviso.Fs.Ops.{exists, create_dir_all, read_link, is_symlink}
use leviso.Build.{Externals, BuildContext}
use leviso.Build.Libdeps.Trees.{copy_systemd_units}
use leviso.Fs.Path.{FilePath, join}
use leviso.Fs.Copy.{copy, set_permissions}
use leviso.Fs.State.{Fs}
use leviso.Error.{ok}

module _ (ext : Externals) (ctx : BuildContext) where
  unfoldable pub handle_units : List String → Exec Fs (Unit {0})
  unfolding copy_systemd_units
  handle_units names = copy_systemd_units ctx names >> pure tt

  abbrev handle_user_unit : FilePath → FilePath → String → Exec Fs (Unit {0})
  handle_user_unit src_dir dst_dir name fs =
      let src = join src_dir name in
      let dst = join dst_dir name in
      if exists fs src
      then copy src dst fs
      else if is_symlink fs src
      then (read_link src >>= λ target. ext.create_symlink_if_missing target dst) fs
      else (ok tt, fs)

  unfoldable pub handle_user_units : List String → Exec Fs (Unit {0})
  unfolding create_dir_all copy
  handle_user_units names = do
    let src_dir = join ctx.source "usr/lib/systemd/user"
    let dst_dir = join ctx.staging "usr/lib/systemd/user"
    create_dir_all dst_dir
    for_each (handle_user_unit src_dir dst_dir) names

  unfoldable pub handle_enable : String → Target → Exec Fs (Unit {0})
  unfolding create_dir_all
  handle_enable unit target = do
    let wants = join ctx.staging (wants_dir target)
    create_dir_all wants
    ext.create_symlink_if_missing ("/usr/lib/systemd/system/" <> unit) (join wants unit)

  abbrev handle_dbus_symlink : String → Exec Fs (Unit {0})
  handle_dbus_symlink symlink fs =
      let src = join (join ctx.source "usr/lib/systemd/system") symlink in
      let dst = join (join ctx.staging "usr/lib/systemd/system") symlink in
      if is_symlink fs src
      then (read_link src >>= λ target. ext.create_symlink_if_missing target dst) fs
      else (ok tt, fs)

  unfoldable pub handle_dbus_symlinks : List String → Exec Fs (Unit {0})
  handle_dbus_symlinks symlinks = for_each handle_dbus_symlink symlinks

  abbrev handle_udev_helper : String → Exec Fs (Unit {0})
  handle_udev_helper helper fs =
      let src = join (join ctx.source "usr/lib/udev") helper in
      let dst = join (join ctx.staging "usr/lib/udev") helper in
      if exists fs src && not (exists fs dst)
      then (copy src dst >> set_permissions dst 493) fs
      else (ok tt, fs)

  -- 0o755 is 493.
  unfoldable pub handle_udev_helpers : List String → Exec Fs (Unit {0})
  unfolding create_dir_all copy set_permissions
  handle_udev_helpers helpers =
      create_dir_all (join ctx.staging "usr/lib/udev") >> for_each handle_udev_helper helpers
