-- ===== src/Preflight/Environment.antt =====
-- src/preflight/environment.rs. `central_output_dir_for_distro` of distro-builder, and what `df`
-- prints where it runs and succeeds, are arguments.
pub mod Ready
use leviso.Base.{
  String, List, [], ◌∷◌, ◌++◌, ℕ, ◌/◌, ◌^◌, ◌*◌, ◌+◌, ◌-◌, Option, none, some, if◌then◌else◌, ltb,
  Bool, ◌==◌, nat_eq,
}
use leviso.Error.{Result, ok, err}
use leviso.Text.{Text, codes, lines, is_digit, trim}
use leviso.Fs.Path.{FilePath, join}
use leviso.Fs.State.{Fs}
use leviso.Fs.Ops.{exists, write, create_dir_all, remove_file}
use leviso.Preflight.{
  CheckResult, pass_result, pass_with, fail_with, warn_with, note, of_number, of_path, of_error,
}
use leviso.Preflight.Validators.{Verdict, good, bad, validate_kconfig, validate_init_script}

-- The digits of a number below `2 ^ 64`
abbrev digits_u64 : ℕ → Text → Option ℕ
digits_u64 acc [] = some acc
digits_u64 acc (c ∷ t) =
    let v = acc * 10 + (c - b'0') in
    let rest = digits_u64 v t in
    if is_digit c then (if ltb v (2 ^ 64) then rest else none) else none

-- `str::parse::<u64>`
abbrev parse_u64 : Text → Option ℕ
parse_u64 [] = none
parse_u64 (c ∷ []) = if is_digit c then some (c - b'0') else none
parse_u64 (c ∷ d ∷ t) = if c == b'+' then digits_u64 0 (d ∷ t) else digits_u64 0 (c ∷ d ∷ t)

-- The check of the directory after the write of the probe, which is removed again, and after the
-- attempt to create the directory.
abbrev pub after_write : FilePath → FilePath → Result (Unit {0}) × Fs → CheckResult × Fs
after_write dir probe (ok tt, fs) =
    (pass_result "central output writable", (remove_file probe fs).1)
after_write dir probe (err e, fs) = (
  fail_with "central output writable"
      (record { format = "Cannot write to {}: {}"; args = of_path dir ∷ of_error e ∷ [] }),
  fs,
)

abbrev pub after_create : FilePath → Result (Unit {0}) × Fs → CheckResult × Fs
after_create dir (ok tt, fs) = (pass_result "central output writable", fs)
after_create dir (err e, fs) = (
  fail_with "central output writable"
      (record { format = "Cannot create {}: {}"; args = of_path dir ∷ of_error e ∷ [] }),
  fs,
)

unfoldable pub check_output : FilePath → Fs → CheckResult × Fs
check_output dir fs =
    let probe = join dir ".preflight-test" in
    if exists fs dir
    then after_write dir probe (write probe (codes "test") fs)
    else after_create dir (create_dir_all dir fs)

abbrev pub after_downloads : Result (Unit {0}) × Fs → CheckResult × Fs
after_downloads (ok tt, fs) = (pass_result "downloads/ created", fs)
after_downloads (err e, fs) =
    (fail_with "downloads/" (record { format = "Cannot create: {}"; args = of_error e ∷ [] }), fs)

unfoldable pub check_downloads : FilePath → Fs → CheckResult × Fs
check_downloads dir fs =
    if exists fs dir
    then (pass_result "downloads/ exists", fs)
    else after_downloads (create_dir_all dir fs)

abbrev pub of_verdict : String → String → Verdict ℕ → CheckResult
of_verdict name format (good n) =
    pass_with name (record { format = format; args = of_number n ∷ [] })
of_verdict name format (bad e) = fail_with name e

unfoldable pub check_kconfig_file : FilePath → Fs → CheckResult
check_kconfig_file kconfig fs =
    if exists fs kconfig
    then of_verdict "kconfig" "{} CONFIG_ options" (validate_kconfig kconfig fs)
    else fail_with "kconfig" (note "Not found - kernel configuration required")

unfoldable pub check_init_file : FilePath → Fs → CheckResult
check_init_file init_tiny fs =
    if exists fs init_tiny
    then of_verdict "profile/init_tiny.template" "{} lines, valid shebang"
        (validate_init_script init_tiny fs)
    else fail_with "profile/init_tiny.template" (note "Not found - initramfs init script required")

-- `1024 * 1024 * 1024` is 1073741824.
abbrev pub of_space : ℕ → CheckResult
of_space avail_bytes =
    let free_gb = avail_bytes / 1073741824 in
    if ltb free_gb 20
    then warn_with "disk space"
        (record { format = "{}GB free - build needs ~15GB"; args = of_number free_gb ∷ [] })
    else pass_with "disk space" (record { format = "{}GB free"; args = of_number free_gb ∷ [] })

-- The second line of what `df` prints
abbrev pub avail_of : List Text → Option ℕ
avail_of (header ∷ avail ∷ rest) = parse_u64 (trim avail)
avail_of _ = none

abbrev pub of_avail : Option ℕ → List CheckResult
of_avail none = []
of_avail (some avail_bytes) = of_space avail_bytes ∷ []

unfoldable pub check_disk : Option Text → List CheckResult
check_disk none = []
check_disk (some stdout) = of_avail (avail_of (lines stdout))

unfoldable pub check_build_environment :
    FilePath → FilePath → Option Text → Fs → List CheckResult × Fs
unfolding check_output check_downloads check_kconfig_file check_init_file check_disk
check_build_environment output_dir base_dir df fs =
    let (output, s) = check_output output_dir fs in
    let (downloads, t) = check_downloads (join base_dir "downloads") s in
    (
      output
          ∷ downloads
          ∷ check_kconfig_file (join base_dir "kconfig") t
          ∷ check_init_file (join base_dir "profile/init_tiny.template") t
          ∷ check_disk df,
      t,
    )
