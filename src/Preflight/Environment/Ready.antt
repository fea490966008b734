-- ===== src/Preflight/Environment/Ready.antt =====
-- src/preflight/environment.rs: which environments pass.
use leviso.Base.{◌≡◌, ◌↔◌, true, false, Bool, ℕ, Option, none, some, arith, any, String}
use leviso.Error.{Result, ok, err}
use leviso.Text.{Text, lines, codes}
use leviso.Fs.Path.{FilePath, join}
use leviso.Fs.State.{Fs}
use leviso.Fs.Ops.{exists, write, create_dir_all}
use leviso.Preflight.{CheckResult, CheckStatus, is_status, all_passed}
use leviso.Preflight.Validators.{Verdict, good, bad, validate_kconfig, validate_init_script}
use leviso.Preflight.Environment.{
  after_write, after_create, after_downloads, of_verdict, of_avail, check_disk, avail_of,
  check_output, check_downloads, check_kconfig_file, check_init_file, check_build_environment,
}

abbrev failed : CheckResult → Bool
failed c = is_status c.status CheckStatus.fail

abbrev pub is_good : Verdict ℕ → Bool
is_good (good n) = true
is_good (bad e) = false

after_write-failed :
    (dir probe : FilePath) (r : Result (Unit {0}) × Fs)
    → (failed (after_write dir probe r).0 ≡ false) ↔ (r.0 ≡ ok tt)
after_write-failed dir probe (ok tt, fs) = ground arith
after_write-failed dir probe (err e, fs) = ground arith

after_create-failed :
    (dir : FilePath) (r : Result (Unit {0}) × Fs)
    → (failed (after_create dir r).0 ≡ false) ↔ (r.0 ≡ ok tt)
after_create-failed dir (ok tt, fs) = ground arith
after_create-failed dir (err e, fs) = ground arith

after_downloads-failed :
    (r : Result (Unit {0}) × Fs) → (failed (after_downloads r).0 ≡ false) ↔ (r.0 ≡ ok tt)
after_downloads-failed (ok tt, fs) = ground arith
after_downloads-failed (err e, fs) = ground arith

of_verdict-failed :
    (name format : String) (v : Verdict ℕ)
    → (failed (of_verdict name format v) ≡ false) ↔ (is_good v ≡ true)
of_verdict-failed name format (good n) = ground arith
of_verdict-failed name format (bad e) = ground arith

of_avail-passes : (o : Option ℕ) → any failed (of_avail o) ≡ false
of_avail-passes none = ground arith
of_avail-passes (some n) = ground arith

check_disk-passes : (df : Option Text) → any failed (check_disk df) ≡ false
unfolding check_disk
check_disk-passes none = ground arith
check_disk-passes (some t) = of_avail-passes (avail_of (lines t))

-- A file that is valid is there.
validate_kconfig-exists :
    (p : FilePath) (fs : Fs) → is_good (validate_kconfig p fs) ≡ true → exists fs p ≡ true
unfolding validate_kconfig
validate_kconfig-exists p fs h = ground arith

validate_init_script-exists :
    (p : FilePath) (fs : Fs) → is_good (validate_init_script p fs) ≡ true → exists fs p ≡ true
unfolding validate_init_script
validate_init_script-exists p fs h = ground arith

-- `dir` is there and takes a probe, or it is not there and can be created.
abbrev pub IsUsable : FilePath → Fs → Type 0
IsUsable dir fs =
    (exists fs dir ≡ true → (write (join dir ".preflight-test") (codes "test") fs).0 ≡ ok tt)
    × (exists fs dir ≡ false → (create_dir_all dir fs).0 ≡ ok tt)

-- `dir` is there or can be created.
abbrev pub IsCreatable : FilePath → Fs → Type 0
IsCreatable dir fs = exists fs dir ≡ false → (create_dir_all dir fs).0 ≡ ok tt

check_output-failed :
    (dir : FilePath) (fs : Fs) → (failed (check_output dir fs).0 ≡ false) ↔ IsUsable dir fs
unfolding check_output
check_output-failed dir fs = ground (
  arith,
  after_write-failed dir (join dir ".preflight-test")
      (write (join dir ".preflight-test") (codes "test") fs),
  after_create-failed dir (create_dir_all dir fs),
)

check_downloads-failed :
    (dir : FilePath) (fs : Fs) → (failed (check_downloads dir fs).0 ≡ false) ↔ IsCreatable dir fs
unfolding check_downloads
check_downloads-failed dir fs = ground (arith, after_downloads-failed (create_dir_all dir fs))

check_kconfig_file-failed :
    (p : FilePath) (fs : Fs)
    → (failed (check_kconfig_file p fs) ≡ false) ↔ (is_good (validate_kconfig p fs) ≡ true)
unfolding check_kconfig_file
check_kconfig_file-failed p fs = ground (
  arith,
  validate_kconfig-exists p fs,
  of_verdict-failed "kconfig" "{} CONFIG_ options" (validate_kconfig p fs),
)

check_init_file-failed :
    (p : FilePath) (fs : Fs)
    → (failed (check_init_file p fs) ≡ false) ↔ (is_good (validate_init_script p fs) ≡ true)
unfolding check_init_file
check_init_file-failed p fs = ground (
  arith,
  validate_init_script-exists p fs,
  of_verdict-failed "profile/init_tiny.template" "{} lines, valid shebang"
      (validate_init_script p fs),
)

-- The checks of the environment pass exactly if the output directory is usable, the downloads
-- directory is there or can then be created, and the kernel configuration and the init script are
-- valid in the tree that these checks leave. What `df` prints, or that it fails, is never a failure.
pub check_build_environment-all_passed :
    (output_dir base_dir : FilePath) (df : Option Text) (fs : Fs)
    → (all_passed (record { checks = (check_build_environment output_dir base_dir df fs).0 })
        ≡ true)
      ↔ (IsUsable output_dir fs
          × IsCreatable (join base_dir "downloads") (check_output output_dir fs).1
          × (is_good (
                validate_kconfig
                  (join base_dir "kconfig")
                  (check_build_environment output_dir base_dir df fs).1)
              ≡ true)
          × (is_good (
                validate_init_script
                  (join base_dir "profile/init_tiny.template")
                  (check_build_environment output_dir base_dir df fs).1)
              ≡ true))
unfolding all_passed check_build_environment
check_build_environment-all_passed output_dir base_dir df fs =
    let s = (check_output output_dir fs).1 in
    let t = (check_downloads (join base_dir "downloads") s).1 in
    ground (
      arith,
      check_output-failed output_dir fs,
      check_downloads-failed (join base_dir "downloads") s,
      check_kconfig_file-failed (join base_dir "kconfig") t,
      check_init_file-failed (join base_dir "profile/init_tiny.template") t,
      check_disk-passes df,
    )
