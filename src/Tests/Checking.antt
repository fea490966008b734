-- ===== src/Tests/Checking.antt =====
-- The checks before a build, on small inputs.
use leviso.Base.{
  String, [], ◌∷◌, ◌≡◌, ◌↔◌, refl, true, none, some, Option, ◌==◌, string_eq, if◌then◌else◌, ℕ,
  zero, suc, ◌++◌, length, ◌+◌, ◌≤◌, All, map,
}
use leviso.Text.{Text, codes, lines, contains_text}
use leviso.Preflight.{
  PreflightReport, pass_result, warn_with, note, CheckStatus, all_passed, summary, count_status,
}
use leviso.Preflight.Validators.{
  good, check_kconfig, check_init_script, config_count, critical_options, validate_kconfig,
  validate_init_script,
}
use leviso.Preflight.Report.{summary-all_passed}
use leviso.Preflight.Validators.Content.{
  check_kconfig-Complete, check_init_script-IsInitScript, IsInitScript,
}
use leviso.Preflight.HostTools.{check_host_tools, required_tools}
use leviso.Tests.Data.{disk}
use leviso.Fs.Ops.{is_some, exists, stat, lstat, resolve, create_dir_all}
use leviso.Fs.Table.{erase}
use leviso.Fs.State.{dir}
use leviso.Fs.Ops.{create_dir_all, resolve, write, remove_file}
use leviso.Fs.Path.{join}
use leviso.Preflight.HostTools.Required.{check_host_tools-all_passed}
use leviso.Fs.State.{Fs, file, dir, node_at}
use leviso.Preflight.Environment.{
  check_disk, check_build_environment, check_output, check_downloads, check_kconfig_file,
  check_init_file,
}
use leviso.Preflight.Environment.Ready.{
  IsUsable, IsCreatable, is_good, check_build_environment-all_passed,
}
use leviso.Fs.Walk.{walk}
use leviso.Fs.Table.{insert, lookup}

abbrev report : PreflightReport
report = record {
  checks = pass_result "xorriso" ∷ warn_with "OVMF firmware" (note "Not found") ∷ [];
}

warned_summary :
    ((all_passed report ≡ true) ↔ ((summary report).2 ≡ 0))
    × ((summary report).0
          + (summary report).2
          + (summary report).3
          + count_status CheckStatus.skip report
        ≡ (summary report).1)
warned_summary = summary-all_passed report

abbrev repeated : ℕ → Text → Text
repeated zero t = []
repeated (suc n) t = t ++ repeated n t

abbrev kconfig : Text
kconfig =
    codes "CONFIG_SQUASHFS=y\n  CONFIG_OVERLAY_FS=m\nCONFIG_BLK_DEV_LOOP=y\n# CONFIG_A is not set\n"
    ++ repeated 97 (codes "CONFIG_A=y\n")

accepted : check_kconfig kconfig ≡ good 100
unfolding check_kconfig lines contains_text
accepted = refl

check_kconfig-Complete_example : (check_kconfig kconfig ≡ good 100) ↔ (
    (config_count kconfig ≡ 100)
    × (100 ≤ 100)
    × All (λ s. contains_text (codes s) kconfig ≡ true) critical_options)
check_kconfig-Complete_example = check_kconfig-Complete kconfig 100

abbrev script : Text
script =
    codes "#!/bin/busybox sh\n# init\nmount -t proc proc /proc\nexec switch_root /root\n"
    ++ repeated 18 (codes "  true\n")

accepted_script : check_init_script script ≡ good 22
unfolding check_init_script lines contains_text
accepted_script = refl

check_init_script-IsInitScript_example :
    (check_init_script script ≡ good 22)
    ↔ (IsInitScript script (lines script) × (length (lines script) ≡ 22))
check_init_script-IsInitScript_example = check_init_script-IsInitScript script 22

-- Only one tool is in the path.
abbrev one_tool : String → Option String
one_tool name = if name == "xorriso" then some "/usr/bin/xorriso" else none

check_host_tools-all_passed_example :
    (all_passed (record { checks = check_host_tools one_tool "/usr/lib/systemd/boot" disk }) ≡ true)
    ↔ (All (λ t. is_some (one_tool t.0) ≡ true) required_tools
        × (exists disk (join [] "/usr/lib/systemd/boot") ≡ true))
check_host_tools-all_passed_example =
    check_host_tools-all_passed one_tool "/usr/lib/systemd/boot" disk

-- The tree with a kernel configuration and an init script.
abbrev ready_disk : Fs
ready_disk = record {
  nodes =
      ("base" ∷ "kconfig" ∷ [], file kconfig 420 0)
      ∷ ("base" ∷ "profile" ∷ [], dir)
      ∷ ("base" ∷ "profile" ∷ "init_tiny.template" ∷ [], file script 493 0)
      ∷ disk.nodes;
  clock = 9;
}

abbrev df_stdout : Text
df_stdout = codes "      Avail\n10737418240\n"

-- Ten of the twenty gigabytes are free: a warning.
little_space : map (λ c. c.status) (check_disk (some df_stdout)) ≡ (CheckStatus.warn ∷ [])
unfolding check_disk lines
little_space = refl

ready :
    all_passed (record {
      checks =
          (check_build_environment
            ("base" ∷ "output" ∷ [])
            ("base" ∷ [])
            (some df_stdout)
            ready_disk).0;
    })
    ≡ true
unfolding all_passed check_build_environment check_output check_downloads check_kconfig_file
    check_init_file check_disk validate_kconfig validate_init_script check_kconfig check_init_script
    lines contains_text stat lstat resolve walk node_at insert lookup create_dir_all write
    remove_file erase
ready = refl

check_build_environment-all_passed_example :
    (all_passed (record {
      checks =
          (check_build_environment
            ("base" ∷ "output" ∷ [])
            ("base" ∷ [])
            (some df_stdout)
            ready_disk).0;
    })
      ≡ true)
    ↔ (IsUsable ("base" ∷ "output" ∷ []) ready_disk
        × IsCreatable
            (join ("base" ∷ []) "downloads")
            (check_output ("base" ∷ "output" ∷ []) ready_disk).1
        × (is_good (
              validate_kconfig
                (join ("base" ∷ []) "kconfig")
                (check_build_environment
                  ("base" ∷ "output" ∷ [])
                  ("base" ∷ [])
                  (some df_stdout)
                  ready_disk).1)
            ≡ true)
        × (is_good (
              validate_init_script
                (join ("base" ∷ []) "profile/init_tiny.template")
                (check_build_environment
                  ("base" ∷ "output" ∷ [])
                  ("base" ∷ [])
                  (some df_stdout)
                  ready_disk).1)
            ≡ true))
check_build_environment-all_passed_example =
    check_build_environment-all_passed ("base" ∷ "output" ∷ []) ("base" ∷ []) (some df_stdout)
      ready_disk
