-- ===== src/Commands/Show.antt =====
-- src/commands/show.rs: what is printed, as the list of its lines.
pub mod Status
use leviso.Base.{
  String, List, [], ◌∷◌, ◌++◌, Bool, true, false, not, ◌||◌, map, is_empty, if◌then◌else◌,
}
use leviso.Error.{ok, err, message}
use leviso.Exec.{Exec, ◌>>◌}
use leviso.Fs.Path.{FilePath, join, drop_last, display}
use leviso.Fs.State.{Fs}
use leviso.Fs.Ops.{exists}
use leviso.Config.{Config}
use leviso.Rebuild.{
  Cache, Names, kernel_needs_compile, kernel_needs_install, rootfs_needs_rebuild,
  initramfs_needs_rebuild, install_initramfs_needs_rebuild, iso_needs_rebuild,
}
use leviso.Extract.{Programs}

pub data ShowTarget : Type 0 where
  config rootfs status : ShowTarget

-- A line: its text up to the argument, and the argument.
abbrev pub Line : Type 0
Line = String × String

-- `Config::print`
unfoldable pub print : Config → List Line
print self =
    ("Build Configuration:", "")
    ∷ ("  KERNEL_LOCALVERSION: ", self.kernel_localversion)
    ∷ (if not (is_empty self.extra_modules)
        then ("  EXTRA_MODULES:", "") ∷ map (λ m. ("    - ", m)) self.extra_modules
        else [])

-- `has_linux_source` is of distro-builder.
unfoldable pub print_dependency_status : (Fs → FilePath → Bool) → FilePath → Fs → List Line
print_dependency_status has_linux_source base_dir fs =
    let monorepo = drop_last base_dir in
    let iso_path = join base_dir "downloads/Rocky-10.1-x86_64-dvd1.iso" in
    ("Dependency Status:", "")
    ∷ ("  Base dir:     ", display base_dir)
    ∷ ("  Monorepo dir: ", display monorepo)
    ∷ ("", "")
    ∷ (if has_linux_source fs base_dir
        then ("  Linux: FOUND (tarball-extracted in downloads/)", "")
        else ("  Linux: NOT FOUND (will download tarball from cdn.kernel.org)", ""))
    ∷ (if exists fs iso_path
        then ("  Rocky: FOUND at ", display iso_path)
        else ("  Rocky: NOT FOUND (will download via recipe)", ""))
    ∷ []

-- One artifact: the line for a missing and for a stale one, whether it is there, and whether it
-- is to be made again.
abbrev pub verdict : String → String → Bool → Bool → String
verdict missing stale there needed =
    if not there then missing else if needed then stale else "OK (up to date)"

abbrev pub summary_of : Bool → Line
summary_of true = ("Run 'leviso build' to rebuild stale/missing artifacts.", "")
summary_of false = ("All artifacts up to date. Nothing to rebuild.", "")

module _ (cache : Cache) (names : Names) (base_dir : FilePath) where
  abbrev pub at : String → FilePath
  at name = join (names.output_dir base_dir) name

  unfoldable pub artifact_lines : Fs → List Line
  artifact_lines fs =
      (
        "Kernel (compile):  ",
        verdict "MISSING → will build" "STALE → will rebuild"
            (exists fs (at "kernel-build/arch/x86/boot/bzImage"))
            (kernel_needs_compile cache names base_dir fs),
      )
      ∷ (
        "Kernel (install):  ",
        verdict "MISSING → will install" "STALE → will reinstall"
            (exists fs (at "staging/boot/vmlinuz")) (kernel_needs_install cache names base_dir fs),
      )
      ∷ (
        "Rootfs (EROFS):    ",
        verdict "MISSING → will build" "STALE → will rebuild" (exists fs (at names.rootfs_name))
            (rootfs_needs_rebuild cache names base_dir fs),
      )
      ∷ (
        "Initramfs:         ",
        verdict "MISSING → will build" "STALE → will rebuild"
            (exists fs (at names.initramfs_live_output))
            (initramfs_needs_rebuild cache names base_dir fs),
      )
      ∷ (
        "Install initramfs: ",
        verdict "MISSING → will build" "STALE → will rebuild"
            (exists fs (at names.initramfs_installed_output))
            (install_initramfs_needs_rebuild cache names base_dir fs),
      )
      ∷ (
        "ISO:               ",
        verdict "MISSING → will build" "STALE → will rebuild" (exists fs (at names.iso_filename))
            (iso_needs_rebuild cache names base_dir fs),
      )
      ∷ []

  unfoldable pub any_work : Fs → Bool
  any_work fs =
      kernel_needs_compile cache names base_dir fs
      || kernel_needs_install cache names base_dir fs
      || rootfs_needs_rebuild cache names base_dir fs
      || initramfs_needs_rebuild cache names base_dir fs
      || install_initramfs_needs_rebuild cache names base_dir fs
      || iso_needs_rebuild cache names base_dir fs

  unfoldable pub summary_line : Fs → Line
  unfolding any_work
  summary_line fs = summary_of (any_work fs)

  unfoldable pub show_build_status : Fs → List Line
  unfolding artifact_lines summary_line
  show_build_status fs =
      ("=== Build Status ===", "") ∷ ("", "") ∷ artifact_lines fs
      ++ (("", "") ∷ summary_line fs ∷ [])

  -- The image is described by the program itself, on the terminal.
  abbrev show_rootfs : Programs → Exec Fs (List Line)
  show_rootfs programs fs =
      if not (exists fs (at names.rootfs_name))
      then (err (message "Rootfs not found. Run 'leviso build rootfs' first." []), fs)
      else (programs.run_interactive "fsck.erofs"
              ("--print-comp-cfgs" ∷ display (at names.rootfs_name) ∷ [])
              "fsck.erofs failed. Install: sudo dnf install erofs-utils"
            >> λ s. (ok (("=== EROFS Rootfs Info ===", "") ∷ ("", "") ∷ []), s))
          fs

  unfoldable pub cmd_show :
      Programs → (Fs → FilePath → Bool) → ShowTarget → Config → Exec Fs (List Line)
  unfolding print print_dependency_status show_build_status
  cmd_show programs has_linux_source config c fs =
      (ok (print c ++ (("", "") ∷ print_dependency_status has_linux_source base_dir fs)), fs)
  cmd_show programs has_linux_source rootfs c fs = show_rootfs programs fs
  cmd_show programs has_linux_source status c fs = (ok (show_build_status fs), fs)
