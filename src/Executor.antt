-- ===== src/Executor.antt =====
-- src/component/executor: how operations are carried out. `fuel` bounds the recursions of
-- src/build/libdeps.rs.
pub mod Binaries
pub mod Systemd
pub mod Files
pub mod Custom
use leviso.Exec.{for_each, with_context, Exec}
use leviso.Component.Types.{Op, Installable, Component}
use leviso.Build.{Externals, BuildContext, World, on_fs}
use leviso.Executor.Custom.Outside.{Host}
use leviso.Executor.Custom.{execute_custom}
use Prim.Native.Nat.{ℕ}
use leviso.Base.{ℕ, String, List}
use leviso.Executor.Binaries.{
  handle_bin, handle_bins, handle_bash, handle_systemd_binaries, handle_sudo_libs,
}
use leviso.Error.{in_component}
use leviso.Executor.Files.{handle_copyfile, handle_copytree}
use leviso.Executor.Systemd.{
  handle_units, handle_user_units, handle_enable, handle_dbus_symlinks, handle_udev_helpers,
}
use leviso.Users.{ensure_user, ensure_group}
use leviso.Text.{codes}

module _ (ext : Externals) (host : Host) (fuel : ℕ) (ctx : BuildContext) where
  -- `execute_op`
  unfoldable pub execute_op : Op → Exec World (Unit {0})
  unfolding handle_bin handle_bins handle_bash handle_systemd_binaries handle_sudo_libs
      handle_copyfile handle_copytree handle_units handle_user_units handle_enable
      handle_dbus_symlinks handle_udev_helpers ensure_user ensure_group execute_custom
  execute_op (Op.dir path) = on_fs (ext.handle_dir ctx.staging path)
  execute_op (Op.dir_mode path mode) = on_fs (ext.handle_dirmode ctx.staging path mode)
  execute_op (Op.dirs paths) = on_fs (ext.handle_dirs ctx.staging paths)
  execute_op (Op.bin name dest) = handle_bin ext fuel ctx name dest
  execute_op (Op.bins names dest) = handle_bins ext fuel ctx names dest
  execute_op Op.bash = handle_bash ext ctx
  execute_op (Op.systemd_binaries binaries) = handle_systemd_binaries ext ctx binaries
  execute_op (Op.sudo_libs libs) = handle_sudo_libs ctx libs
  execute_op (Op.copy_file path) = on_fs (handle_copyfile ctx path)
  execute_op (Op.copy_tree path) = on_fs (handle_copytree ctx fuel path)
  execute_op (Op.write_file path content) = on_fs (ext.handle_writefile ctx.staging path content)
  execute_op (Op.write_file_mode path content mode) =
      on_fs (ext.handle_writefilemode ctx.staging path content mode)
  execute_op (Op.symlink link target) = on_fs (ext.handle_symlink ctx.staging link target)
  execute_op (Op.units names) = on_fs (handle_units ext ctx names)
  execute_op (Op.user_units names) = on_fs (handle_user_units ext ctx names)
  execute_op (Op.enable unit target) = on_fs (handle_enable ext ctx unit target)
  execute_op (Op.dbus_symlinks symlinks) = on_fs (handle_dbus_symlinks ext ctx symlinks)
  execute_op (Op.udev_helpers helpers) = on_fs (handle_udev_helpers ext ctx helpers)
  execute_op (Op.user name uid gid home shell) =
      on_fs (ensure_user ctx.source ctx.staging (codes name) uid gid (codes home) (codes shell))
  execute_op (Op.group name gid) = on_fs (ensure_group ctx.source ctx.staging (codes name) gid)
  execute_op (Op.custom op) = execute_custom ext host fuel ctx op

  -- The loop of `execute`
  abbrev pub run_ops : String → List Op → Exec World (Unit {0})
  run_ops name = for_each λ op. with_context (in_component name op) (execute_op op)

  -- `execute`
  unfoldable pub execute : {A : Type 0} ⦃i : Installable A⦄ → A → Exec World (Unit {0})
  unfolding execute_op
  execute ⦃i⦄ component = run_ops (i.name component) (i.ops component)
