-- ===== src/Tests/Images.antt =====
-- Artifacts, recipes and full builds on small disks, with other crates that do nothing or little.
use leviso.Base.{[], ◌∷◌, ◌≡◌, refl, none, ◌++◌, true, arith, ◌↔◌, ◌*◌, ◌+◌, ◌<◌}
use leviso.Error.{ok, err}
use leviso.Exec.{pure}
use leviso.Text.{codes}
use leviso.Fs.Path.{FilePath, join}
use leviso.Fs.State.{Fs, dir, file, node_at}
use leviso.Fs.Ops.{create_dir_all, write, stat, lstat, resolve, symlink}
use leviso.Fs.Copy.{read_dir}
use leviso.Fs.Walk.{walk}
use leviso.Fs.Table.{lookup, insert}
use leviso.Build.{for_testing, BuildContext}
use leviso.Artifact.Kit.{Kit, checked, Report}
use leviso.Artifact.Qcow2.Disk.{DiskKit}
use leviso.Artifact.Rootfs.{build_rootfs, verify_staging}
use leviso.Artifact.Rootfs.Atomic.{RootfsOutcome, build_rootfs-RootfsOutcome}
use leviso.Artifact.Rootfs.Complete.{Complete, verify_staging-Complete}
use leviso.Artifact.Initramfs.{find_kernel_modules_dir}
use leviso.Artifact.Initramfs.Sources.{SourceOutcome, find_kernel_modules_dir-SourceOutcome}
use leviso.Artifact.Qcow2.{root_size_mb, efi_size_mb}
use leviso.Artifact.Qcow2.Sizes.{root_size_mb-fills, root_size_mb-wraps}
use leviso.Artifact.Qcow2.Configuration.{shadow_without_password}
use leviso.Artifact.Qcow2.Shadow.{Entry, file_of, shadow_without_password-opened}
use leviso.Artifact.Qcow2.{build_qcow2}
use leviso.Artifact.Qcow2.Verified.{QcowOutcome, build_qcow2-QcowOutcome}
use leviso.Build.Filesystem.{create_var_symlinks}
use leviso.Build.Filesystem.Linked.{VarLinked, create_var_symlinks-VarLinked}
use leviso.Artifact.Qcow2.Configuration.{link_serial}
use leviso.Error.{io, already_exists}
use leviso.Recipe.{RecipeKit, RockyPaths, rocky, all_exist}
use leviso.Recipe.Paths.{rocky-all_exist}
use leviso.Executor.Custom.Firmware.{copy_all_firmware, amd_ucode, intel_ucode}
use leviso.Executor.Custom.Firmware.Microcode.{Filled, copy_all_firmware-Filled}
use leviso.Executor.Custom.Modules.{copy_modules_from_config}
use leviso.Executor.Custom.Modules.Missing.{ModulesOutcome, copy_modules_from_config-ModulesOutcome}
use leviso.Config.{parse_modules}
use leviso.Config.Names.{parse_modules-with_commas}
use leviso.Commands.Build.{System, build_full, ensure_kernel}
use leviso.Commands.Build.Verified.{FullOutcome, build_full-FullOutcome}
use leviso.Commands.Build.Kernel.{IsCurrentKernel, ensure_kernel-IsCurrentKernel}
use leviso.Tests.Data.{lists, plain}
use leviso.Tests.Building.{tools, host}
use leviso.Tests.Caching.{names, content_cache, content_laws}

abbrev passed : Report
passed = record { results = []; is_success = true }

abbrev pub kit : Kit
kit = record {
  names = names;
  ssh_bin = "ssh" ∷ [];
  etc_files = "etc/passwd" ∷ [];
  busybox_url = "https://busybox.example/busybox";
  busybox_url_env = "BUSYBOX_URL";
  cpio_gzip_level = 9;
  iso_label = "LEVITATEOS";
  iso_checksum_suffix = ".sha512";
  rootfs_iso_path = "live/filesystem.erofs";
  live_overlay_iso_path = "live/overlay.erofs";
  initramfs_installed_iso_path = "boot/initramfs-installed.img";
  boot_device_probe_order = "/dev/sr0" ∷ [];
  os_release = ("LevitateOS", "levitateos", "1.0");
  serial_console = "console=ttyS0";
  vga_console = "console=tty0";
  selinux_disable = "selinux=0";
  efi_debug = "efi=debug";
  uki_entries = [];
  uki_installed_entries = [];
  uki_installed_iso_dir = "boot/uki";
  tool_exists = λ tool. true;
  build_erofs_default = λ staging output. write output [];
  download_busybox = λ url p. write p [];
  build_tiny = λ c. write c.output [];
  build_install = λ c. write c.output [];
  build_uki = λ c. write c.output [];
  create_iso = λ c. write c.output [];
  check_cpio = λ kind fs p. ok passed;
  check_iso = λ fs p. checked passed;
  verify_profiles = λ fs config firmware. [];
}

abbrev disk_kit : DiskKit
disk_kit = record {
  qcow2_image_filename = "levitateos.qcow2";
  default_hostname = "levitateos";
  root_filesystem = "ext4";
  efi_filesystem = "vfat";
  boot_entry_with_partuuid = λ uuid. ("levitateos", uuid);
  default_loader_config = "";
  output_dir = λ base. base ++ ("output" ∷ []);
  ensure_exists = λ p what. pure tt;
  find_first_existing = λ fs ps. none;
  check_host_tools = λ tools. pure tt;
  calculate_dir_size = λ fs p. ok 0;
  generate_disk_uuids =
      pure (record { root_fs_uuid = "r"; efi_fs_uuid = "e"; root_part_uuid = "p" });
  create_efi_partition = λ a b c d e f g h i. pure tt;
  create_root_partition = λ a b c d. pure tt;
  assemble_disk = λ a b c d e f. pure tt;
  dir_len = 4096;
}

abbrev recipes : RecipeKit
recipes = record {
  levitate_cargo_tools = "recstrap" ∷ [];
  output_dir = λ base. base ++ ("output" ∷ []);
  ensure_exists = λ p what. pure tt;
  find_recipe = λ base. pure (base ++ ("recipe" ∷ []));
  linux = λ base. pure (record { version = "6.12" });
  has_linux_source = λ fs base. true;
  run = λ a b c. pure tt;
  run_with_recipes_path = λ a b c d. pure tt;
  run_json = λ a b c d. pure (λ key. none);
}

abbrev pub system : System
system = record {
  ext = tools;
  host = host;
  kit = kit;
  disk = disk_kit;
  recipes = recipes;
  cache = content_cache;
  store = record {
    opens = λ fs. true;
    try_restore_file = λ kind key out. pure true;
    try_store_file = λ kind key out. pure tt;
    try_store_kernel_payload = λ key staging. pure tt;
  };
  spec = lists;
  fuel = 5;
  require_conformance_contract = pure tt;
}

abbrev pub base : FilePath
base = "base" ∷ []

-- A project with a kernel, with the sources of Rocky Linux, and with half of a staging tree
abbrev pub project : Fs
project = record {
  nodes =
      ("base" ∷ [], dir)
      ∷ ("base" ∷ "kconfig" ∷ [], file (7 ∷ []) 420 1)
      ∷ ("base" ∷ "output" ∷ [], dir)
      ∷ ("base" ∷ "output" ∷ ".kernel-inputs.hash" ∷ [], file (7 ∷ []) 420 2)
      ∷ ("base" ∷ "output" ∷ "kernel-build" ∷ [], dir)
      ∷ ("base" ∷ "output" ∷ "kernel-build" ∷ "arch" ∷ [], dir)
      ∷ ("base" ∷ "output" ∷ "kernel-build" ∷ "arch" ∷ "x86" ∷ [], dir)
      ∷ ("base" ∷ "output" ∷ "kernel-build" ∷ "arch" ∷ "x86" ∷ "boot" ∷ [], dir)
      ∷ (
        "base" ∷ "output" ∷ "kernel-build" ∷ "arch" ∷ "x86" ∷ "boot" ∷ "bzImage" ∷ [],
        file [] 420 2,
      )
      ∷ ("base" ∷ "output" ∷ "staging" ∷ [], dir)
      ∷ ("base" ∷ "output" ∷ "staging" ∷ "boot" ∷ [], dir)
      ∷ ("base" ∷ "output" ∷ "staging" ∷ "boot" ∷ "vmlinuz" ∷ [], file [] 420 3)
      ∷ ("base" ∷ "downloads" ∷ [], dir)
      ∷ ("base" ∷ "downloads" ∷ "Rocky-10.1-x86_64-dvd1.iso" ∷ [], plain "iso")
      ∷ ("base" ∷ "downloads" ∷ "rootfs" ∷ [], dir)
      ∷ ("base" ∷ "downloads" ∷ "rootfs" ∷ "usr" ∷ [], dir)
      ∷ ("base" ∷ "downloads" ∷ "iso-contents" ∷ [], dir)
      ∷ ("modules" ∷ [], dir)
      ∷ ("modules" ∷ "a.ko.xz" ∷ [], plain "a")
      ∷ ("src" ∷ [], dir)
      ∷ ("src" ∷ "lib" ∷ [], dir)
      ∷ ("src" ∷ "lib" ∷ "firmware" ∷ [], dir)
      ∷ ("staging" ∷ [], dir)
      ∷ ("staging" ∷ "usr" ∷ [], dir)
      ∷ ("staging" ∷ "usr" ∷ "lib" ∷ [], dir)
      ∷ ("staging" ∷ "usr" ∷ "lib" ∷ "firmware" ∷ [], dir)
      ∷ ("staging" ∷ "usr" ∷ "lib" ∷ "firmware" ∷ "amd-ucode" ∷ [], dir)
      ∷ ("staging" ∷ "usr" ∷ "lib" ∷ "firmware" ∷ "amd-ucode" ∷ "a.bin" ∷ [], plain "a")
      ∷ ("staging" ∷ "usr" ∷ "lib" ∷ "firmware" ∷ "intel-ucode" ∷ [], dir)
      ∷ ("staging" ∷ "usr" ∷ "lib" ∷ "firmware" ∷ "intel-ucode" ∷ "b.bin" ∷ [], plain "b")
      ∷ [];
  clock = 9;
}

build_full-FullOutcome_example : FullOutcome system base project (build_full system base project)
build_full-FullOutcome_example = build_full-FullOutcome system base project

ensure_kernel-IsCurrentKernel_example : IsCurrentKernel system base content_laws project
unfolding ensure_kernel stat resolve walk node_at lookup
ensure_kernel-IsCurrentKernel_example =
    ensure_kernel-IsCurrentKernel system base content_laws true project project refl

-- A link that leads nowhere is in the way of the link for the serial console.
dangling_serial :
    (link_serial base
      ("base" ∷ "serial" ∷ [])
      (symlink "nowhere" ("base" ∷ "serial" ∷ []) project).1).0
    ≡ err (io already_exists)
unfolding symlink stat lstat resolve walk node_at lookup insert
dangling_serial = refl

build_qcow2-QcowOutcome_example :
    QcowOutcome host disk_kit base 8 project (build_qcow2 host disk_kit base 8 project)
build_qcow2-QcowOutcome_example = build_qcow2-QcowOutcome host disk_kit base 8 project

create_var_symlinks-VarLinked_example : VarLinked base project (create_var_symlinks base project).1
unfolding create_var_symlinks create_dir_all symlink stat lstat resolve walk node_at lookup insert
create_var_symlinks-VarLinked_example =
    create_var_symlinks-VarLinked base project (create_var_symlinks base project).1 refl

build_rootfs-RootfsOutcome_example :
    RootfsOutcome tools host kit 5 lists base project
      (build_rootfs tools host kit 5 lists base project)
build_rootfs-RootfsOutcome_example = build_rootfs-RootfsOutcome tools host kit 5 lists base project

verify_staging-Complete_example :
    (verify_staging kit lists ("staging" ∷ []) project ≡ (ok tt, project))
    ↔ Complete kit lists project ("staging" ∷ [])
verify_staging-Complete_example = verify_staging-Complete kit lists project ("staging" ∷ [])

modules_of_rocky :
    SourceOutcome kit host.env_var base project
      (find_kernel_modules_dir kit host.env_var base project)
modules_of_rocky = find_kernel_modules_dir-SourceOutcome kit host.env_var base project

root_size_mb-fills_example : root_size_mb 8 + efi_size_mb + 2 ≡ 8 * 1024
root_size_mb-fills_example = root_size_mb-fills 8 (omega arith) (omega arith)

root_size_mb-wraps_example : 64 * 1024 < root_size_mb 1
root_size_mb-wraps_example = root_size_mb-wraps 1 64 (omega arith) (omega arith)

abbrev root_entry : Entry
root_entry = record { name = codes "root"; password = codes "!"; fields = codes "19000:0" }

abbrev bin_entry : Entry
bin_entry = record { name = codes "bin"; password = codes "*"; fields = codes "19000:0" }

shadow_without_password-opened_example :
    shadow_without_password (file_of (root_entry ∷ bin_entry ∷ []))
    ≡ file_of (record root_entry { password = [] } ∷ bin_entry ∷ [])
shadow_without_password-opened_example =
    shadow_without_password-opened root_entry (bin_entry ∷ []) (ground arith)

abbrev rocky_paths : RockyPaths
rocky_paths = record {
  iso = join base "downloads/Rocky-10.1-x86_64-dvd1.iso";
  rootfs = join base "downloads/rootfs";
  iso_contents = join base "downloads/iso-contents";
}

rocky_paths_are_there : all_exist project rocky_paths ≡ true
unfolding rocky stat resolve walk node_at lookup
rocky_paths_are_there = rocky-all_exist recipes base project project rocky_paths refl

abbrev ctx : BuildContext
ctx = for_testing ("src" ∷ []) ("staging" ∷ []) base

copy_all_firmware-Filled_example :
    Filled project (amd_ucode host ctx) × Filled project (intel_ucode host ctx)
unfolding copy_all_firmware read_dir create_dir_all stat lstat resolve walk node_at lookup
copy_all_firmware-Filled_example = copy_all_firmware-Filled host ctx project project refl

copy_modules_from_config-ModulesOutcome_example :
    ModulesOutcome ("modules" ∷ []) ("staging" ∷ []) project ("b.ko" ∷ "a.ko.gz" ∷ "c.ko" ∷ []) (
      copy_modules_from_config
        ("b.ko" ∷ "a.ko.gz" ∷ "c.ko" ∷ [])
        ("modules" ∷ [])
        ("staging" ∷ [])
        project)
copy_modules_from_config-ModulesOutcome_example =
    copy_modules_from_config-ModulesOutcome ("modules" ∷ []) ("staging" ∷ [])
      ("b.ko" ∷ "a.ko.gz" ∷ "c.ko" ∷ []) project

parse_modules-with_commas_example : parse_modules "a.ko,b.ko" ≡ "a.ko" ∷ "b.ko" ∷ []
parse_modules-with_commas_example = parse_modules-with_commas ("a.ko" ∷ "b.ko" ∷ []) (
  (λ e. cc, refl, (refl, (refl, (refl, (refl, tt))))),
  ((λ e. cc, refl, (refl, (refl, (refl, (refl, tt))))), tt),
)
