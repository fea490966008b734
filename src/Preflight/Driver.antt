-- ===== src/Preflight/Driver.antt =====
-- src/preflight/mod.rs and src/commands/preflight.rs: all checks in their order.
pub mod Passed
use leviso.Base.{String, List, ◌++◌, [], Bool, not, Option, if◌then◌else◌}
use leviso.Error.{Result, ok, err, Error, message}
use leviso.Exec.{Exec}
use leviso.Text.{Text}
use leviso.Fs.Path.{FilePath}
use leviso.Fs.State.{Fs}
use leviso.Preflight.{CheckResult, PreflightReport, all_passed}
use leviso.Preflight.HostTools.{check_host_tools}
use leviso.Preflight.Environment.{check_build_environment}
use leviso.Preflight.Dependencies.{Dependencies, check_dependencies}

-- `systemd_boot_path` is that of distro-spec, and `df` what `df` prints.
module _ (deps : Dependencies) (systemd_boot_path : String) (df : Option Text)
    (base_dir : FilePath) where
  abbrev report_of :
      List CheckResult → List CheckResult → List CheckResult × Fs → Result PreflightReport × Fs
  report_of tools results (environment, fs) =
      (ok (record { checks = tools ++ (results ++ environment) }), fs)

  abbrev pub with_environment :
      List CheckResult → Result (List CheckResult) → Fs → Result PreflightReport × Fs
  with_environment tools (err e) fs = (err e, fs)
  with_environment tools (ok results) fs =
      report_of tools results (check_build_environment (deps.output_dir base_dir) base_dir df fs)

  unfoldable pub run_preflight : Exec Fs PreflightReport
  unfolding check_host_tools check_dependencies check_build_environment
  run_preflight fs =
      with_environment (check_host_tools deps.which systemd_boot_path fs)
        (check_dependencies deps base_dir fs) fs

  abbrev pub preflight_failed : Error
  preflight_failed = message "Preflight failed" []

  abbrev pub or_fail : Result PreflightReport × Fs → Result (Unit {0}) × Fs
  or_fail (err e, fs) = (err e, fs)
  or_fail (ok report, fs) =
      if not (all_passed report) then (err preflight_failed, fs) else (ok tt, fs)

  -- The number of checks that failed is part of the message, and is not kept.
  unfoldable pub run_preflight_or_fail : Exec Fs (Unit {0})
  unfolding run_preflight all_passed
  run_preflight_or_fail fs = or_fail (run_preflight fs)

  abbrev ignore_report : Result PreflightReport × Fs → Result (Unit {0}) × Fs
  ignore_report (err e, fs) = (err e, fs)
  ignore_report (ok report, fs) = (ok tt, fs)

  unfoldable pub cmd_preflight : Bool → Exec Fs (Unit {0})
  unfolding run_preflight run_preflight_or_fail
  cmd_preflight strict fs =
      if strict then run_preflight_or_fail fs else ignore_report (run_preflight fs)
