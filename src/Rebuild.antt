-- ===== src/Rebuild.antt =====
-- src/rebuild.rs: which artifacts are built again.
pub mod Fresh
pub mod Iso
use leviso.Base.{
  String, List, [], ◌∷◌, Bool, true, false, not, ◌||◌, Option, none, some, if◌then◌else◌,
}
use leviso.Error.{ok}
use leviso.Exec.{Exec}
use leviso.Fs.Ops.{exists}
use leviso.Fs.State.{Fs}
use leviso.Fs.Path.{FilePath, join}
use leviso.Text.{Text}

-- `distro_builder::cache`
pub record Cache : Type 0 where
  pub hash_files : Fs → List FilePath → Option Text
  -- the current hash, the hash file, the output
  pub needs_rebuild : Fs → Text → FilePath → FilePath → Bool
  pub write_cached_hash : FilePath → Text → Exec Fs (Unit {0})
  pub is_newer : Fs → FilePath → FilePath → Bool

-- The constants of distro-spec, and `central_output_dir_for_distro`.
pub record Names : Type 0 where
  pub initramfs_installed_output : String
  pub initramfs_live_output : String
  pub iso_filename : String
  pub rootfs_name : String
  pub qcow2_image_filename : String
  pub output_dir : FilePath → FilePath

pub record Artifact : Type 0 where
  pub output : FilePath
  pub hash_file : FilePath
  pub inputs : List FilePath

module _ (cache : Cache) where
  unfoldable pub needs_rebuild : Artifact → Fs → Bool
  needs_rebuild a fs =
      if not (exists fs a.output) then true else elim (cache.hash_files fs a.inputs) [
        | none ↦ true
        | some hash ↦ cache.needs_rebuild fs hash a.hash_file a.output
      ]

  -- What `write_cached_hash` returns is dropped.
  unfoldable pub cache_hash : Artifact → Fs → Fs
  cache_hash a fs = elim (cache.hash_files fs a.inputs) [
    | none ↦ fs
    | some hash ↦ (cache.write_cached_hash a.hash_file hash fs).1
  ]

module _ (names : Names) where
  -- The makefile is an input only if it is there.
  unfoldable pub kernel_artifact : FilePath → Fs → Artifact
  kernel_artifact base_dir fs =
      let output_dir = names.output_dir base_dir in
      let kernel_makefile = join base_dir "../linux/Makefile" in
      record {
        output = join output_dir "kernel-build/arch/x86/boot/bzImage";
        hash_file = join output_dir ".kernel-inputs.hash";
        inputs =
            join base_dir "kconfig"
            ∷ (if exists fs kernel_makefile then kernel_makefile ∷ [] else []);
      }

  unfoldable pub rootfs_artifact : FilePath → Artifact
  rootfs_artifact base_dir =
      let output_dir = names.output_dir base_dir in
      let distro_spec_base = join base_dir "../distro-spec/src/shared" in
      record {
        output = join output_dir names.rootfs_name;
        hash_file = join output_dir ".rootfs-inputs.hash";
        inputs =
            join base_dir "downloads/rootfs/usr/bin/bash"
            ∷ join base_dir "src/component/definitions.rs"
            ∷ join base_dir "src/component/mod.rs"
            ∷ join base_dir "src/component/custom/mod.rs"
            ∷ join base_dir "src/component/custom/etc/mod.rs"
            ∷ join base_dir "src/component/custom/pam.rs"
            ∷ join base_dir "src/component/custom/live/mod.rs"
            ∷ join base_dir "src/component/custom/packages/mod.rs"
            ∷ join base_dir "src/component/custom/firmware.rs"
            ∷ join base_dir "src/component/custom/modules.rs"
            ∷ join base_dir "src/component/custom/etc/files/adjtime"
            ∷ join base_dir "src/component/custom/etc/files/bashrc"
            ∷ join base_dir "src/component/custom/etc/files/fstab"
            ∷ join base_dir "src/component/custom/etc/files/group"
            ∷ join base_dir "src/component/custom/etc/files/gshadow"
            ∷ join base_dir "src/component/custom/etc/files/hosts"
            ∷ join base_dir "src/component/custom/etc/files/locale.conf"
            ∷ join base_dir "src/component/custom/etc/files/login.defs"
            ∷ join base_dir "src/component/custom/etc/files/motd"
            ∷ join base_dir "src/component/custom/etc/files/nsswitch.conf"
            ∷ join base_dir "src/component/custom/etc/files/passwd"
            ∷ join base_dir "src/component/custom/etc/files/profile"
            ∷ join base_dir "src/component/custom/etc/files/shadow"
            ∷ join base_dir "src/component/custom/etc/files/shells"
            ∷ join base_dir "src/component/custom/etc/files/sudo.conf"
            ∷ join base_dir "src/component/custom/etc/files/sudoers"
            ∷ join base_dir "src/component/custom/etc/files/vconsole.conf"
            ∷ join base_dir "src/component/custom/packages/files/recipe.conf"
            ∷ join base_dir "src/component/custom/packages/files/recipe.sh"
            ∷ join base_dir "src/build/libdeps.rs"
            ∷ join base_dir "src/build/filesystem.rs"
            ∷ join base_dir "src/build/users.rs"
            ∷ join distro_spec_base "services.rs"
            ∷ join distro_spec_base "components/mod.rs"
            ∷ join distro_spec_base "components/bins.rs"
            ∷ join distro_spec_base "components/etc.rs"
            ∷ join distro_spec_base "components/filesystem.rs"
            ∷ join distro_spec_base "components/systemd.rs"
            ∷ join distro_spec_base "components/units.rs"
            ∷ join distro_spec_base "components/users.rs"
            ∷ [];
      }

  unfoldable pub initramfs_artifact : FilePath → Artifact
  initramfs_artifact base_dir =
      let output_dir = names.output_dir base_dir in
      record {
        output = join output_dir names.initramfs_live_output;
        hash_file = join output_dir ".initramfs-inputs.hash";
        inputs =
            join base_dir "profile/init_tiny.template"
            ∷ join base_dir "downloads/busybox-static"
            ∷ [];
      }

  unfoldable pub install_initramfs_artifact : FilePath → Artifact
  install_initramfs_artifact base_dir =
      let output_dir = names.output_dir base_dir in
      let distro_spec_base = join base_dir "../distro-spec/src/shared" in
      let recinit_base = join base_dir "../tools/recinit/src" in
      record {
        output = join output_dir names.initramfs_installed_output;
        hash_file = join output_dir ".install-initramfs-inputs.hash";
        inputs =
            join recinit_base "systemd.rs"
            ∷ join recinit_base "install.rs"
            ∷ join recinit_base "lib.rs"
            ∷ join recinit_base "elf.rs"
            ∷ join recinit_base "cpio.rs"
            ∷ join recinit_base "modules.rs"
            ∷ join distro_spec_base "components/mod.rs"
            ∷ join distro_spec_base "components/bins.rs"
            ∷ join distro_spec_base "components/etc.rs"
            ∷ join distro_spec_base "components/filesystem.rs"
            ∷ join distro_spec_base "components/systemd.rs"
            ∷ join distro_spec_base "components/units.rs"
            ∷ join distro_spec_base "components/users.rs"
            ∷ join distro_spec_base "udev.rs"
            ∷ join base_dir "downloads/rootfs/usr/bin/bash"
            ∷ [];
      }

  unfoldable pub qcow2_artifact : FilePath → Artifact
  qcow2_artifact base_dir =
      let output_dir = names.output_dir base_dir in
      record {
        output = join output_dir names.qcow2_image_filename;
        hash_file = join output_dir ".qcow2-inputs.hash";
        inputs =
            join output_dir "rootfs-staging/usr/bin/bash"
            ∷ join output_dir names.initramfs_installed_output
            ∷ join base_dir "src/artifact/qcow2.rs"
            ∷ [];
      }

module _ (cache : Cache) (names : Names) (base_dir : FilePath) where
  unfoldable pub kernel_needs_compile : Fs → Bool
  unfolding needs_rebuild kernel_artifact
  kernel_needs_compile fs = needs_rebuild cache (kernel_artifact names base_dir fs) fs

  unfoldable pub kernel_needs_install : Fs → Bool
  kernel_needs_install fs =
      let bzimage = join (names.output_dir base_dir) "kernel-build/arch/x86/boot/bzImage" in
      let vmlinuz = join (names.output_dir base_dir) "staging/boot/vmlinuz" in
      if not (exists fs bzimage)
      then false
      else if not (exists fs vmlinuz)
      then true
      else cache.is_newer fs bzimage vmlinuz

  unfoldable pub rootfs_needs_rebuild : Fs → Bool
  unfolding needs_rebuild rootfs_artifact
  rootfs_needs_rebuild = needs_rebuild cache (rootfs_artifact names base_dir)

  unfoldable pub initramfs_needs_rebuild : Fs → Bool
  unfolding needs_rebuild initramfs_artifact
  initramfs_needs_rebuild = needs_rebuild cache (initramfs_artifact names base_dir)

  unfoldable pub install_initramfs_needs_rebuild : Fs → Bool
  unfolding needs_rebuild install_initramfs_artifact
  install_initramfs_needs_rebuild = needs_rebuild cache (install_initramfs_artifact names base_dir)

  unfoldable pub qcow2_needs_rebuild : Fs → Bool
  unfolding needs_rebuild qcow2_artifact
  qcow2_needs_rebuild = needs_rebuild cache (qcow2_artifact names base_dir)

  abbrev pub iso : FilePath
  iso = join (names.output_dir base_dir) names.iso_filename

  abbrev pub rootfs : FilePath
  rootfs = join (names.output_dir base_dir) names.rootfs_name

  abbrev pub initramfs : FilePath
  initramfs = join (names.output_dir base_dir) names.initramfs_live_output

  abbrev pub vmlinuz : FilePath
  vmlinuz = join (names.output_dir base_dir) "staging/boot/vmlinuz"

  -- A file below profile/live-overlay.
  abbrev pub live : String → FilePath
  live rel = join (join base_dir "profile/live-overlay") rel

  unfoldable pub iso_needs_rebuild : Fs → Bool
  iso_needs_rebuild fs =
      let live_shadow = live "etc/shadow" in
      let live_autologin = live "etc/systemd/system/getty@tty1.service.d/autologin.conf" in
      let live_serial = live "etc/systemd/system/serial-getty@.service.d/zz-autologin.conf" in
      let live_docs = live "etc/profile.d/live-docs.sh" in
      let live_test = live "etc/profile.d/00-levitate-test.sh" in
      if not (exists fs iso)
      then true
      else not (exists fs rootfs)
        || not (exists fs initramfs)
        || not (exists fs vmlinuz)
        || cache.is_newer fs rootfs iso
        || cache.is_newer fs initramfs iso
        || cache.is_newer fs vmlinuz iso
        || cache.is_newer fs live_shadow iso
        || cache.is_newer fs live_autologin iso
        || cache.is_newer fs live_serial iso
        || cache.is_newer fs live_docs iso
        || cache.is_newer fs live_test iso

  unfoldable pub cache_kernel_hash : Fs → Fs
  unfolding cache_hash kernel_artifact
  cache_kernel_hash fs = cache_hash cache (kernel_artifact names base_dir fs) fs

  unfoldable pub cache_rootfs_hash : Fs → Fs
  unfolding cache_hash rootfs_artifact
  cache_rootfs_hash = cache_hash cache (rootfs_artifact names base_dir)

  unfoldable pub cache_initramfs_hash : Fs → Fs
  unfolding cache_hash initramfs_artifact
  cache_initramfs_hash = cache_hash cache (initramfs_artifact names base_dir)

  unfoldable pub cache_install_initramfs_hash : Fs → Fs
  unfolding cache_hash install_initramfs_artifact
  cache_install_initramfs_hash = cache_hash cache (install_initramfs_artifact names base_dir)

  unfoldable pub cache_qcow2_hash : Fs → Fs
  unfolding cache_hash qcow2_artifact
  cache_qcow2_hash = cache_hash cache (qcow2_artifact names base_dir)
