-- ===== src/Preflight/HostTools.antt =====
-- src/preflight/host_tools.rs. `process::which` of distro-builder, and the path of the boot stub in
-- distro-spec, are arguments.
pub mod Required
use leviso.Base.{
  String, List, [], ◌∷◌, ◌++◌, Bool, true, false, Option, none, some, any, map, if◌then◌else◌,
}
use leviso.Fs.Ops.{exists}
use leviso.Preflight.{
  CheckResult, pass_result, pass_with, fail_with, warn_with, note, of_string, Note,
}
use leviso.Fs.State.{Fs}
use leviso.Fs.Path.{join}

-- A tool, its package and its purpose.
abbrev pub Tool : Type 0
Tool = String × String × String

abbrev pub required_tools : List Tool
required_tools =
    ("mkfs.erofs", "erofs-utils", "Required to create EROFS filesystem (1.8+ for zstd)")
    ∷ ("xorriso", "xorriso", "Required to create ISO image")
    ∷ ("mkfs.fat", "dosfstools", "Required for EFI partition")
    ∷ ("readelf", "binutils", "Required for library dependency detection")
    ∷ ("ukify", "systemd-ukify", "Required for UKI (Unified Kernel Image) creation")
    ∷ []

abbrev pub optional_tools : List Tool
optional_tools =
    ("qemu-system-x86_64", "qemu-system-x86", "Required for `leviso run`")
    ∷ ("qemu-img", "qemu-utils", "Required for virtual disk creation")
    ∷ []

abbrev pub ovmf_paths : List String
ovmf_paths =
    "/usr/share/edk2/ovmf/OVMF_CODE.fd" ∷ "/usr/share/OVMF/OVMF_CODE.fd"
    ∷ "/usr/share/OVMF/OVMF_CODE_4M.fd" ∷ "/usr/share/qemu/OVMF.fd"
    ∷ "/usr/share/edk2-ovmf/x64/OVMF_CODE.fd" ∷ []

module _ (which : String → Option String) where
  unfoldable pub check_tool_exists : Tool → Bool → CheckResult
  check_tool_exists (tool, pkg, purpose) required = elim (which tool) [
    | some path ↦ pass_with tool (note path)
    | none ↦
        let msg : Note = record {
          format = "Not found. Install '{}' package. {}";
          args = of_string pkg ∷ of_string purpose ∷ [];
        } in
        if required then fail_with tool msg else warn_with tool msg
  ]

  unfoldable pub check_host_tools : String → Fs → List CheckResult
  unfolding check_tool_exists
  check_host_tools systemd_boot_path fs =
      map (λ t. check_tool_exists t true) required_tools
      ++ (map (λ t. check_tool_exists t false) optional_tools
          ++ ((if exists fs (join [] systemd_boot_path)
                then pass_with "systemd-boot" (note systemd_boot_path)
                else fail_with "systemd-boot" (record {
                  format = "Not found at {}. Install: sudo dnf install systemd-boot";
                  args = of_string systemd_boot_path ∷ [];
                }))
              ∷ (if any (λ p. exists fs (join [] p)) ovmf_paths
                  then pass_result "OVMF firmware"
                  else warn_with "OVMF firmware" (
                      note
                        "Not found - `leviso run` requires UEFI. Install edk2-ovmf or ovmf package."))
              ∷ []))
