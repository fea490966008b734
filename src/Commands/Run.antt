-- ===== src/Commands/Run.antt =====
-- src/commands/run.rs and src/commands/download.rs.
pub mod Unchecked
use leviso.Base.{String, Bool, not, Option, none, some, if◌then◌else◌, ℕ}
use leviso.Error.{ok}
use leviso.Exec.{Exec, ◌>>◌, pure}
use leviso.Fs.Path.{FilePath}
use leviso.Fs.State.{Fs}
use leviso.Fs.Ops.{exists}
use leviso.Recipe.{rocky, install_tools}
use leviso.Recipe.Qemu.{Vars, ensure_qemu, on_disk}
use leviso.Qemu.{QemuKit, Verdict, run_iso, test_iso}
use leviso.Artifact.Rootfs.{build_rootfs}
use leviso.Artifact.Initramfs.{build_tiny_initramfs}
use leviso.Artifact.Iso.{create_iso}
use leviso.Commands.Build.{System, out}

pub data DownloadTarget : Type 0 where
  everything rocky_linux tools : DownloadTarget

module _ (sys : System) (base_dir : FilePath) where
  abbrev rootfs_if_missing : Exec Fs (Unit {0})
  rootfs_if_missing fs =
      if not (exists fs (out sys base_dir sys.kit.names.rootfs_name))
      then build_rootfs sys.ext sys.host sys.kit sys.fuel sys.spec base_dir fs
      else (ok tt, fs)

  abbrev initramfs_if_missing : Bool → Exec Fs (Unit {0})
  initramfs_if_missing there =
      if not there then build_tiny_initramfs sys.kit sys.host.env_var base_dir else pure tt

  unfoldable pub ensure_iso_built : Exec Fs (Unit {0})
  unfolding build_rootfs build_tiny_initramfs create_iso
  ensure_iso_built fs =
      if exists fs (out sys base_dir sys.kit.names.iso_filename)
      then (ok tt, fs)
      else (rootfs_if_missing
            >> (λ s.
                initramfs_if_missing
                  (exists s (out sys base_dir sys.kit.names.initramfs_live_output)) s)
            >> create_iso sys.kit sys.host base_dir)
          fs

  -- The paths of Rocky Linux, and what is installed, are only printed.
  unfoldable pub cmd_download : DownloadTarget → Exec Fs (Unit {0})
  unfolding rocky install_tools
  cmd_download everything = rocky sys.recipes base_dir >> install_tools sys.recipes base_dir
  cmd_download rocky_linux = rocky sys.recipes base_dir >> pure tt
  cmd_download tools = install_tools sys.recipes base_dir

module _ (sys : System) (qemu : QemuKit) (base_dir : FilePath) where
  abbrev disk_of : Bool → String → Option String
  disk_of no_disk disk_size = if no_disk then none else some disk_size

  unfoldable pub cmd_run : Bool → String → Exec (Fs × Vars) (Unit {0})
  unfolding ensure_qemu ensure_iso_built run_iso
  cmd_run no_disk disk_size =
      ensure_qemu sys.recipes base_dir
      >> on_disk (ensure_iso_built sys base_dir)
      >> on_disk (run_iso qemu base_dir (disk_of no_disk disk_size))

  -- The verdict of the boot test; `Qemu.result_of` makes it the result of the command.
  unfoldable pub cmd_test : ℕ → Exec (Fs × Vars) Verdict
  unfolding ensure_qemu ensure_iso_built test_iso
  cmd_test timeout =
      ensure_qemu sys.recipes base_dir
      >> on_disk (ensure_iso_built sys base_dir)
      >> on_disk (test_iso qemu base_dir timeout)
