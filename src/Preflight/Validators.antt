-- ===== src/Preflight/Validators.antt =====
-- src/preflight/validators.rs: `validate_kconfig` and `validate_init_script`.
pub mod Content
use leviso.Base.{
  String, List, [], ◌∷◌, ℕ, Bool, true, false, not, ◌&&◌, ◌||◌, Option, none, some, length, filterb,
  ltb, leb, ◌==◌, nat_eq, if◌then◌else◌, suc, list_eq, zero,
}
use leviso.Error.{Result, ok, err}
use leviso.Text.{Text, codes, starts_with, contains_text, lines, trim}
use leviso.Preflight.{Note, note, of_number, of_text, of_string, of_error}
use leviso.Fs.Path.{FilePath}
use leviso.Fs.State.{Fs}
use leviso.Fs.Ops.{read}

-- `Result<T, String>`
pub data Verdict (A : Type 0) : Type 0 where
  good : A → Verdict A
  bad : Note → Verdict A

-- `critical_options` and `critical_patterns`
abbrev pub critical_options : List String
critical_options = "CONFIG_SQUASHFS" ∷ "CONFIG_OVERLAY_FS" ∷ "CONFIG_BLK_DEV_LOOP" ∷ []

abbrev pub critical_patterns : List String
critical_patterns = "mount" ∷ "switch_root" ∷ []

-- The first of the texts that the content does not contain.
unfoldable pub first_missing : Text → List String → Option String
first_missing content [] = none
first_missing content (s ∷ ss) =
    let rest = first_missing content ss in
    if not (contains_text (codes s) content) then some s else rest

abbrev pub is_option_line : Text → Bool
is_option_line line =
    starts_with (codes "CONFIG_") (trim line) && contains_text (codes "=") (trim line)

abbrev pub config_count : Text → ℕ
config_count content = length (filterb is_option_line (lines content))

unfoldable pub check_kconfig : Text → Verdict ℕ
unfolding first_missing
check_kconfig content =
    if ltb (config_count content) 100
    then bad (record {
      format =
          "Only {} CONFIG_ options found (expected 1000+) - file may be corrupted or incomplete";
      args = of_number (config_count content) ∷ [];
    })
    else elim (first_missing content critical_options) [
      | some opt ↦ bad (record {
        format = "Missing critical option: {} - this kernel won't boot LevitateOS";
        args = of_string opt ∷ [];
      })
      | none ↦ good (config_count content)
    ]

abbrev check_read : (Text → Verdict ℕ) → Result Text → Verdict ℕ
check_read check (err e) = bad (record { format = "Cannot read: {}"; args = of_error e ∷ [] })
check_read check (ok content) = check content

unfoldable pub validate_kconfig : FilePath → Fs → Verdict ℕ
unfolding check_kconfig
validate_kconfig path fs = check_read check_kconfig (read path fs).0

abbrev pub is_code_line : Text → Bool
is_code_line line = not (trim line == []) && not (starts_with (codes "#") (trim line))

abbrev pub code_lines : List Text → ℕ
code_lines ls = length (filterb is_code_line ls)

abbrev pub is_shell : Text → Bool
is_shell first = contains_text (codes "sh") first || contains_text (codes "bash") first

abbrev take : ℕ → Text → Text
take zero t = []
take (suc n) [] = []
take (suc n) (c ∷ t) = c ∷ take n t

abbrev check_body : Text → List Text → Verdict ℕ
check_body content ls =
    if ltb (code_lines ls) 20
    then bad (record {
      format = "Only {} lines of code (expected 50+) - script may be incomplete";
      args = of_number (code_lines ls) ∷ [];
    })
    else elim (first_missing content critical_patterns) [
      | some pattern ↦ bad (record {
        format = "Missing critical command: '{}' - init script won't work";
        args = of_string pattern ∷ [];
      })
      | none ↦ good (length ls)
    ]

abbrev pub check_lines : Text → List Text → Verdict ℕ
check_lines content [] = bad (note "File is empty")
check_lines content (l ∷ ls) =
    let first = trim l in
    if not (starts_with (codes "#!") first)
    then bad (record {
      format = "No shebang found (first line: '{}') - not a valid script";
      args = of_text (take 40 first) ∷ [];
    })
    else if not (is_shell first)
    then bad (record {
      format = "Unexpected interpreter: {} - expected shell";
      args = of_text first ∷ [];
    })
    else check_body content (l ∷ ls)

unfoldable pub check_init_script : Text → Verdict ℕ
unfolding first_missing
check_init_script content = check_lines content (lines content)

unfoldable pub validate_init_script : FilePath → Fs → Verdict ℕ
unfolding check_init_script
validate_init_script path fs = check_read check_init_script (read path fs).0
