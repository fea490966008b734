-- ===== src/Preflight/Validators/Content.antt =====
-- src/preflight/validators.rs: which files are accepted.
use leviso.Base.{String, List, [], ◌∷◌, ℕ, ◌≤◌, ◌≡◌, ◌↔◌, refl, true, All, none, arith, length}
use leviso.Text.{Text, codes, contains_text, starts_with, lines}
use leviso.Preflight.Validators.{
  good, first_missing, check_kconfig, config_count, check_init_script, critical_options, trim,
  is_shell, code_lines, critical_patterns, check_lines,
}

-- The content contains each of the texts.
abbrev Complete : Text → List String → Type 0
Complete content = All (λ s. contains_text (codes s) content ≡ true)

first_missing-Complete :
    (content : Text) (ss : List String) → (first_missing content ss ≡ none) ↔ Complete content ss
unfolding first_missing
first_missing-Complete content [] = (λ e. tt, λ h. refl)
first_missing-Complete content (s ∷ ss) = ground (arith, first_missing-Complete content ss)

-- A kernel configuration is accepted exactly if at least a hundred of its lines set an option and
-- it contains the three critical options; the number of such lines is returned.
pub check_kconfig-Complete :
    (content : Text) (n : ℕ)
    → (check_kconfig content ≡ good n) ↔ (
        (config_count content ≡ n)
        × (100 ≤ n)
        × All (λ s. contains_text (codes s) content ≡ true) critical_options)
unfolding check_kconfig
check_kconfig-Complete content n = ground (arith, first_missing-Complete content critical_options)

-- What an init script has: a first line that is a shebang and mentions a shell, at least twenty
-- lines that are neither empty nor comments, and the critical commands.
pub IsInitScript : Text → List Text → Type 0
IsInitScript content [] = ⊥
IsInitScript content (first ∷ more) =
    (starts_with (codes "#!") (trim first) ≡ true)
    × (is_shell (trim first) ≡ true)
    × (20 ≤ code_lines (first ∷ more))
    × All (λ s. contains_text (codes s) content ≡ true) critical_patterns

check_lines-IsInitScript :
    (content : Text) (ls : List Text) (n : ℕ)
    → (check_lines content ls ≡ good n) ↔ (IsInitScript content ls × (length ls ≡ n))
unfolding IsInitScript
check_lines-IsInitScript content [] n = (λ e. absurd cc, λ h. absurd h.0)
check_lines-IsInitScript content (first ∷ more) n =
    ground (arith, first_missing-Complete content critical_patterns)

-- An init script is accepted exactly if its first line is a shebang that mentions a shell, at least
-- twenty lines are neither empty nor comments, and it contains the two critical commands; the
-- number of its lines is returned.
pub check_init_script-IsInitScript :
    (content : Text) (n : ℕ)
    → (check_init_script content ≡ good n)
      ↔ (IsInitScript content (lines content) × (length (lines content) ≡ n))
unfolding check_init_script
check_init_script-IsInitScript content n = check_lines-IsInitScript content (lines content) n
