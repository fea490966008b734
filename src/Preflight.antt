-- ===== src/Preflight.antt =====
-- src/preflight/types.rs: the results of the checks, and what the report says of them.
-- A text that `format!` makes is kept as its format and what the format names.
pub mod Report
pub mod Validators
pub mod HostTools
pub mod Environment
pub mod Dependencies
pub mod Driver
use leviso.Base.{
  String, List, [], ◌∷◌, ℕ, Bool, true, false, not, Option, none, some, length, any, filterb,
}
use leviso.Text.{Text}
use leviso.Fs.Path.{FilePath}
use leviso.Error.{Error}

pub data Arg : Type 0 where
  of_number : ℕ → Arg
  of_text : Text → Arg
  of_path : FilePath → Arg
  of_string : String → Arg
  of_error : Error → Arg

pub record Note : Type 0 where
  pub format : String
  pub args : List Arg

-- A fixed text
abbrev pub note : String → Note
note text = record { format = text; args = [] }

pub data CheckStatus : Type 0 where
  pass fail warn skip : CheckStatus

pub record CheckResult : Type 0 where
  pub name : String
  pub status : CheckStatus
  pub details : Option Note

-- `CheckResult::pass` and its siblings
abbrev pub pass_result : String → CheckResult
pass_result name = record { name = name; status = CheckStatus.pass; details = none }

abbrev pub pass_with : String → Note → CheckResult
pass_with name details = record { name = name; status = CheckStatus.pass; details = some details }

abbrev pub fail_with : String → Note → CheckResult
fail_with name details = record { name = name; status = CheckStatus.fail; details = some details }

abbrev pub warn_with : String → Note → CheckResult
warn_with name details = record { name = name; status = CheckStatus.warn; details = some details }

-- `PreflightReport`
pub record PreflightReport : Type 0 where
  pub checks : List CheckResult

-- The derived `==` of `CheckStatus`
abbrev pub is_status : CheckStatus → CheckStatus → Bool
is_status CheckStatus.pass CheckStatus.pass = true
is_status CheckStatus.fail CheckStatus.fail = true
is_status CheckStatus.warn CheckStatus.warn = true
is_status CheckStatus.skip CheckStatus.skip = true
is_status _ _ = false

abbrev pub count_status : CheckStatus → PreflightReport → ℕ
count_status s report = length (filterb (λ c. is_status c.status s) report.checks)

unfoldable pub all_passed : PreflightReport → Bool
all_passed report = not (any (λ c. is_status c.status CheckStatus.fail) report.checks)

unfoldable pub fail_count : PreflightReport → ℕ
fail_count = count_status CheckStatus.fail

unfoldable pub warn_count : PreflightReport → ℕ
warn_count = count_status CheckStatus.warn

-- The numbers that `print` ends with: how many passed, of how many, how many failed and warned.
unfoldable pub summary : PreflightReport → ℕ × ℕ × ℕ × ℕ
unfolding fail_count warn_count
summary report = (
  count_status CheckStatus.pass report,
  length report.checks,
  fail_count report,
  warn_count report,
)
