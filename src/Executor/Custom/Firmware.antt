-- ===== src/Executor/Custom/Firmware.antt =====
-- src/component/custom/firmware.rs. The byte counts are printed only.
pub mod Microcode
use leviso.Base.{String, List, [], ◌∷◌, not, ◌&&◌, if◌then◌else◌}
use leviso.Error.{Error, Result, ok, err, message}
use leviso.Exec.{Exec, ◌>>◌, pure, for_each}
use leviso.Text.{starts_with, codes}
use leviso.Fs.Path.{FilePath, join, display}
use leviso.Fs.State.{Fs}
use leviso.Fs.Ops.{exists, is_dir, is_file, create_dir_all}
use leviso.Fs.Copy.{copy, read_dir}
use leviso.Build.{BuildContext}
use leviso.Executor.Custom.Outside.{Host}

abbrev pub wifi_firmware_dirs : List String
wifi_firmware_dirs =
    "iwlwifi" ∷ "ath10k" ∷ "ath11k" ∷ "rtlwifi" ∷ "rtw88" ∷ "rtw89" ∷ "brcm" ∷ "cypress"
    ∷ "mediatek" ∷ []

-- A directory that is not there, or has no entry, ends the build.
abbrev pub check_names : Error → Result (List String) × Fs → Result (Unit {0}) × Fs
check_names empty (err e, fs) = (err e, fs)
check_names empty (ok [], fs) = (err empty, fs)
check_names empty (ok (name ∷ names), fs) = (ok tt, fs)

abbrev pub check_microcode : Error → Error → FilePath → Exec Fs (Unit {0})
check_microcode missing empty dir fs =
    if not (exists fs dir) then (err missing, fs) else check_names empty (read_dir dir fs)

abbrev pub microcode_missing : String → FilePath → Error
microcode_missing vendor dir = message "microcode not found" (vendor ∷ display dir ∷ [])

abbrev pub microcode_empty : String → FilePath → Error
microcode_empty vendor dir = message "microcode directory is empty" (vendor ∷ display dir ∷ [])

module _ (host : Host) (ctx : BuildContext) where
  abbrev copy_wifi_dir : FilePath → FilePath → String → Exec Fs (Unit {0})
  copy_wifi_dir actual_src firmware_dst dir_name fs =
      if is_dir fs (join actual_src dir_name)
      then (host.copy_dir_recursive (join actual_src dir_name) (join firmware_dst dir_name)
            >> pure tt)
          fs
      else (ok tt, fs)

  abbrev copy_wifi_file : FilePath → FilePath → String → Exec Fs (Unit {0})
  copy_wifi_file actual_src firmware_dst name fs =
      if is_file fs (join actual_src name)
        && starts_with (codes "iwlwifi-") (codes name)
        && not (exists fs (join firmware_dst name))
      then copy (join actual_src name) (join firmware_dst name) fs
      else (ok tt, fs)

  -- `if let Ok(entries) = fs::read_dir(…)`
  abbrev copy_wifi_files : FilePath → FilePath → Result (List String) × Fs → Result (Unit {0}) × Fs
  copy_wifi_files actual_src firmware_dst (err e, fs) = (ok tt, fs)
  copy_wifi_files actual_src firmware_dst (ok names, fs) =
      for_each (copy_wifi_file actual_src firmware_dst) names fs

  abbrev copy_wifi_from : FilePath → Exec Fs (Unit {0})
  copy_wifi_from actual_src = do
    let firmware_dst = join ctx.staging "lib/firmware"
    create_dir_all firmware_dst
    for_each (copy_wifi_dir actual_src firmware_dst) wifi_firmware_dirs
    λ fs. copy_wifi_files actual_src firmware_dst (read_dir actual_src fs)

  unfoldable pub copy_wifi_firmware : Exec Fs (Unit {0})
  unfolding create_dir_all copy read_dir
  copy_wifi_firmware fs =
      if is_dir fs (join ctx.source "lib/firmware")
      then copy_wifi_from (join ctx.source "lib/firmware") fs
      else if is_dir fs (join ctx.source "usr/lib/firmware")
      then copy_wifi_from (join ctx.source "usr/lib/firmware") fs
      else (err (message "No firmware directory found - WiFi won't work" []), fs)

  abbrev copy_intel_microcode : FilePath → Exec Fs (Unit {0})
  copy_intel_microcode firmware_dst fs =
      let microcode_ctl_src =
        join ctx.source "usr/share/microcode_ctl/ucode_with_caveats/intel/intel-ucode" in
      if exists fs microcode_ctl_src && is_dir fs microcode_ctl_src
      then (create_dir_all (join firmware_dst "intel-ucode")
            >> host.copy_dir_recursive microcode_ctl_src (join firmware_dst "intel-ucode")
            >> pure tt)
          fs
      else (ok tt, fs)

  abbrev pub amd_ucode : FilePath
  amd_ucode = join (join ctx.staging "usr/lib/firmware") "amd-ucode"

  abbrev pub intel_ucode : FilePath
  intel_ucode = join (join ctx.staging "usr/lib/firmware") "intel-ucode"

  abbrev pub check_amd : Exec Fs (Unit {0})
  check_amd =
      check_microcode (microcode_missing "AMD" amd_ucode) (microcode_empty "AMD" amd_ucode)
        amd_ucode

  abbrev pub check_intel : Exec Fs (Unit {0})
  check_intel =
      check_microcode (microcode_missing "Intel" intel_ucode) (microcode_empty "Intel" intel_ucode)
        intel_ucode

  abbrev copy_firmware_from : FilePath → Exec Fs (Unit {0})
  copy_firmware_from actual_src = do
    let firmware_dst = join ctx.staging "usr/lib/firmware"
    create_dir_all firmware_dst
    host.copy_dir_recursive actual_src firmware_dst
    copy_intel_microcode firmware_dst

  abbrev find_firmware : Exec Fs (Unit {0})
  find_firmware fs =
      if exists fs (join ctx.source "usr/lib/firmware")
      then copy_firmware_from (join ctx.source "usr/lib/firmware") fs
      else if exists fs (join ctx.source "lib/firmware")
      then copy_firmware_from (join ctx.source "lib/firmware") fs
      else (err (message "No firmware directory found." []), fs)

  unfoldable pub copy_all_firmware : Exec Fs (Unit {0})
  unfolding create_dir_all read_dir
  copy_all_firmware = find_firmware >> check_amd >> check_intel
