-- ===== src/Artifact/Uki.antt =====
-- src/artifact/uki.rs: the kernel images of installed systems.
use leviso.Base.{String, ◌<>◌, List, [], ◌∷◌, ◌==◌, if◌then◌else◌, string_eq}
use leviso.Exec.{Exec, ◌>>=◌, ◌>>◌, pure}
use leviso.Fs.Path.{FilePath, join}
use leviso.Fs.State.{Fs}
use leviso.Artifact.Kit.{Kit, UkiEntry}

module _ (kit : Kit) where
  unfoldable pub build_uki : FilePath → FilePath → String → FilePath → Exec Fs (Unit {0})
  build_uki kernel initramfs cmdline output = kit.build_uki (record {
    kernel = kernel;
    initramfs = initramfs;
    cmdline = cmdline;
    output = output;
    os_release = kit.os_release;
  })

  abbrev pub base_cmdline : String
  base_cmdline =
      "root=LABEL=root rw " <> kit.serial_console <> " " <> kit.vga_console <> " "
      <> kit.selinux_disable <> " " <> kit.efi_debug

  abbrev pub cmdline_of : UkiEntry → String
  cmdline_of entry =
      if entry.extra_cmdline == "" then base_cmdline else base_cmdline <> " " <> entry.extra_cmdline

  abbrev pub build_entries :
      FilePath → FilePath → FilePath → List UkiEntry → Exec Fs (List FilePath)
  build_entries kernel initramfs output_dir [] = pure []
  build_entries kernel initramfs output_dir (entry ∷ entries) = do
    let output = join output_dir entry.filename
    build_uki kernel initramfs (cmdline_of entry) output
    outputs ← build_entries kernel initramfs output_dir entries
    pure (output ∷ outputs)

  unfoldable pub build_installed_ukis : FilePath → FilePath → FilePath → Exec Fs (List FilePath)
  unfolding build_uki
  build_installed_ukis kernel initramfs output_dir =
      build_entries kernel initramfs output_dir kit.uki_installed_entries
