-- ===== src/Artifact/Initramfs.antt =====
-- src/artifact/initramfs.rs: the two initramfs images.
pub mod Sources
use leviso.Base.{String, List, [], ◌∷◌, true, false, not, Option, none, some, if◌then◌else◌}
use leviso.Error.{Result, ok, err, message, context}
use leviso.Exec.{Exec, ◌>>=◌, ◌>>◌}
use leviso.Fs.Path.{FilePath, join, display}
use leviso.Fs.State.{Fs}
use leviso.Fs.Ops.{exists, is_dir}
use leviso.Fs.Copy.{read_dir}
use leviso.Artifact.Kit.{
  Kit, live_modules, install_modules, ChecklistType, live_initramfs, install_initramfs, Report,
  CheckItem,
}

abbrev first_dir : FilePath → List String → Exec Fs String
first_dir modules_dir [] fs =
    (err (message "No kernel version directory found" (display modules_dir ∷ [])), fs)
first_dir modules_dir (name ∷ names) fs =
    let rest = first_dir modules_dir names in
    if is_dir fs (join modules_dir name) then (ok name, fs) else rest fs

unfoldable pub find_kernel_version : FilePath → Exec Fs String
unfolding read_dir
find_kernel_version modules_dir = read_dir modules_dir >>= first_dir modules_dir

abbrev pub failed_items : List CheckItem → List String
failed_items [] = []
failed_items (c ∷ cs) = let rest = failed_items cs in if c.passed then rest else c.item ∷ rest

abbrev verdict_of : Result Report → Result (Unit {0})
verdict_of (err e) = err (context "Failed to open initramfs for verification" e)
verdict_of (ok report) =
    if report.is_success
    then ok tt
    else err (message "Initramfs verification FAILED" (failed_items report.results))

module _ (kit : Kit) where
  unfoldable pub do_verify_initramfs : ChecklistType → FilePath → Exec Fs (Unit {0})
  do_verify_initramfs checklist_type path fs =
      (verdict_of (kit.check_cpio checklist_type fs path), fs)

  unfoldable pub verify_live_initramfs : FilePath → Exec Fs (Unit {0})
  unfolding do_verify_initramfs
  verify_live_initramfs = do_verify_initramfs live_initramfs

  unfoldable pub verify_install_initramfs : FilePath → Exec Fs (Unit {0})
  unfolding do_verify_initramfs
  verify_install_initramfs = do_verify_initramfs install_initramfs

module _ (kit : Kit) (env_var : String → Option String) (base_dir : FilePath) where
  abbrev pub output_dir : FilePath
  output_dir = kit.names.output_dir base_dir

  abbrev url_or : Option String → String
  url_or none = kit.busybox_url
  url_or (some url) = url

  unfoldable pub busybox_url : String
  busybox_url = url_or (env_var kit.busybox_url_env)

  abbrev pub custom_modules_path : FilePath
  custom_modules_path = join output_dir "staging/usr/lib/modules"

  abbrev pub rocky_modules_path : FilePath
  rocky_modules_path = join base_dir "downloads/rootfs/usr/lib/modules"

  abbrev pub vmlinuz_path : FilePath
  vmlinuz_path = join output_dir "staging/boot/vmlinuz"

  -- Modules of a kernel of its own are used only with that kernel.
  unfoldable pub find_kernel_modules_dir : Exec Fs FilePath
  find_kernel_modules_dir fs =
      if exists fs custom_modules_path
      then if not (exists fs vmlinuz_path)
        then (err (message "Custom modules found but vmlinuz is missing from staging." []), fs)
        else (ok custom_modules_path, fs)
      else if exists fs rocky_modules_path
      then (ok rocky_modules_path, fs)
      else (
        err (
            message "No kernel modules found."
              (display custom_modules_path ∷ display rocky_modules_path ∷ [])),
        fs,
      )

  abbrev ensure_busybox : FilePath → Exec Fs (Unit {0})
  ensure_busybox busybox_path fs =
      if not (exists fs busybox_path)
      then kit.download_busybox busybox_url busybox_path fs
      else (ok tt, fs)

  unfoldable pub build_tiny_initramfs : Exec Fs (Unit {0})
  unfolding find_kernel_modules_dir find_kernel_version busybox_url verify_live_initramfs
  build_tiny_initramfs = do
    modules_dir ← find_kernel_modules_dir
    kernel_version ← find_kernel_version modules_dir
    let busybox_path = join (join base_dir "downloads") "busybox-static"
    ensure_busybox busybox_path
    kit.build_tiny (record {
      modules_dir = join modules_dir kernel_version;
      busybox_path = busybox_path;
      template_path = join base_dir "profile/init_tiny.template";
      output = join output_dir kit.names.initramfs_live_output;
      iso_label = kit.iso_label;
      rootfs_path = kit.rootfs_iso_path;
      live_overlay_image_path = some kit.live_overlay_iso_path;
      live_overlay_path = some kit.live_overlay_iso_path;
      boot_devices = kit.boot_device_probe_order;
      module_preset = live_modules;
      gzip_level = kit.cpio_gzip_level;
      check_builtin = true;
    })
    verify_live_initramfs kit (join output_dir kit.names.initramfs_live_output)

  abbrev install_modules_path : Fs → Option FilePath
  install_modules_path fs =
      if exists fs (join (join output_dir "staging") "usr/lib/modules")
      then some (join output_dir "staging")
      else none

  abbrev build_install_from : Option FilePath → Exec Fs (Unit {0})
  build_install_from modules = do
    kit.build_install (record {
      rootfs = join base_dir "downloads/rootfs";
      modules_path = modules;
      output = join output_dir kit.names.initramfs_installed_output;
      module_preset = install_modules;
      gzip_level = kit.cpio_gzip_level;
      include_firmware = false;
    })
    verify_install_initramfs kit (join output_dir kit.names.initramfs_installed_output)

  unfoldable pub build_install_initramfs : Exec Fs (Unit {0})
  unfolding verify_install_initramfs
  build_install_initramfs fs =
      if not (exists fs (join base_dir "downloads/rootfs"))
      then (
        err (
            message "downloads/rootfs not found" (display (join base_dir "downloads/rootfs") ∷ [])),
        fs,
      )
      else build_install_from (install_modules_path fs) fs
