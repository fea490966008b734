-- ===== src/Preflight/Dependencies.antt =====
-- src/preflight/dependencies.rs, and the validators that it calls. What it takes from distro-spec
-- and distro-builder, from the process and from the programs that it runs is a parameter; these
-- programs print and change nothing on the disk.
pub mod Measured
pub mod Located
pub mod RecipeProgram
use leviso.Base.{
  String, ◌<>◌, List, [], ◌∷◌, ◌++◌, ℕ, ◌*◌, ◌/◌, ◌%◌, ◌^◌, Bool, not, ◌&&◌, ◌||◌, Option, none,
  some, map, ltb, eqb, is_empty, if◌then◌else◌,
}
use leviso.Error.{Result, ok, err, message}
use leviso.Text.{Text, codes, starts_with, ends_with, lines, byte_length, take_bytes}
use leviso.Fs.Path.{FilePath, join, components, drop_last}
use leviso.Fs.State.{Fs, Node, dir, file, link}
use leviso.Fs.Ops.{exists, stat}
use leviso.Fs.Copy.{read_dir}
use leviso.Preflight.{
  CheckResult, pass_with, fail_with, warn_with, note, of_number, of_text, of_path, of_error,
}
use leviso.Preflight.Validators.{Verdict, good, bad}

-- What a program that ran has printed
pub record Output : Type 0 where
  pub success : Bool
  pub stdout : Text
  pub stderr : Text

pub record Dependencies : Type 0 where
  pub which : String → Option String
  pub env_var : String → Option String
  pub has_linux_source : Fs → FilePath → Bool
  pub levitate_cargo_tools : List String
  pub output_dir : FilePath → FilePath
  -- `Cmd::new(path).arg(arg).allow_fail().run()`
  pub run : FilePath → String → Fs → Result Output
  -- the length and the mode of a directory
  pub dir_len : ℕ
  pub dir_mode : ℕ

abbrev pub is_iso_name : String → Bool
is_iso_name name =
    starts_with (codes "Rocky-") (codes name) && ends_with (codes ".iso") (codes name)

abbrev pub find_iso : FilePath → List String → Verdict FilePath
find_iso downloads_dir [] = bad (note "No Rocky ISO found in downloads/")
find_iso downloads_dir (name ∷ names) =
    let rest = find_iso downloads_dir names in
    if is_iso_name name then good (join downloads_dir name) else rest

abbrev pub any_iso : FilePath → Result (List String) → Verdict FilePath
any_iso downloads_dir (err e) = bad (note "Cannot read downloads directory")
any_iso downloads_dir (ok names) = find_iso downloads_dir names

-- Seven gigabytes
abbrev pub min_iso_size : ℕ
min_iso_size = 7 * 2 ^ 30

abbrev pub check_iso_size : ℕ → Verdict ℕ
check_iso_size size_bytes =
    if ltb size_bytes min_iso_size
    then bad (record {
      format = "ISO is only {} bytes (expected ~8.6GB) - likely partial download";
      args = of_number size_bytes ∷ [];
    })
    else good size_bytes

-- Whether one of the three executable bits is set: `mode & 0o111 != 0`.
abbrev pub has_executable_bit : ℕ → Bool
has_executable_bit mode = eqb (mode % 2) 1 || eqb (mode / 8 % 2) 1 || eqb (mode / 64 % 2) 1

abbrev pub first_line : Text → String → Text
first_line text default = elim (lines text) [ [] ↦ codes default | line ∷ rest ↦ line ]

-- The slice of a long version line panics inside of a character.
abbrev pub shortened : Option Text → Result (Verdict Text)
shortened none = err (message "byte index 47 is not a char boundary" [])
shortened (some t) = ok (good (t ++ codes "..."))

unfoldable pub version_of : Text → Result (Verdict Text)
unfolding take_bytes
version_of line =
    if ltb 50 (byte_length line) then shortened (take_bytes 47 line) else ok (good line)

abbrev pub version_failed : Output → Verdict Text
version_failed r = bad (record {
  format = "Runs but --version failed: {}";
  args = of_text (first_line r.stderr "unknown error") ∷ [];
})

abbrev pub of_help : Output → Result Output → Verdict Text
of_help r (err e) = version_failed r
of_help r (ok h) =
    if h.success || not (is_empty h.stdout)
    then good (codes "executable (no version)")
    else version_failed r

module _ (deps : Dependencies) where
  abbrev pub len_of : Node → ℕ
  len_of dir = deps.dir_len
  len_of (file content mode time) = byte_length content
  len_of (link target) = 0

  abbrev pub mode_of : Node → ℕ
  mode_of dir = deps.dir_mode
  mode_of (file content mode time) = mode
  mode_of (link target) = 0

  abbrev pub iso_of : Option String → FilePath → Fs → Verdict FilePath
  iso_of (some path) downloads_dir fs = good (components path)
  iso_of none downloads_dir fs =
      if exists fs (join downloads_dir "Rocky-10.1-x86_64-dvd1.iso")
      then good (join downloads_dir "Rocky-10.1-x86_64-dvd1.iso")
      else any_iso downloads_dir (read_dir downloads_dir fs).0

  abbrev pub size_of : Option Node → Verdict ℕ
  size_of none = bad (note "Cannot stat ISO")
  size_of (some n) = check_iso_size (len_of n)

  abbrev pub size_at : Verdict FilePath → Fs → Verdict ℕ
  size_at (bad e) fs = bad e
  size_at (good iso_path) fs = size_of (stat fs iso_path)

  -- The size is given in bytes.
  unfoldable pub validate_rocky_iso_size : FilePath → Fs → Verdict ℕ
  unfolding stat read_dir
  validate_rocky_iso_size base_dir fs =
      size_at (iso_of (deps.env_var "ROCKY_ISO_PATH") (join base_dir "downloads") fs) fs

  abbrev pub of_version : FilePath → Fs → Result Output → Result (Verdict Text)
  of_version path fs (err e) =
      ok (bad (record { format = "Cannot execute: {}"; args = of_error e ∷ [] }))
  of_version path fs (ok r) =
      if r.success
      then version_of (first_line r.stdout "unknown")
      else ok (of_help r (deps.run path "--help" fs))

  abbrev pub validate_node : FilePath → Fs → Option Node → Result (Verdict Text)
  validate_node path fs none = ok (bad (note "Cannot stat"))
  validate_node path fs (some n) =
      if not (has_executable_bit (mode_of n))
      then ok (bad (note "Not executable (missing +x permission)"))
      else of_version path fs (deps.run path "--version" fs)

  unfoldable pub validate_executable : FilePath → Fs → Result (Verdict Text)
  unfolding version_of stat
  validate_executable path fs = validate_node path fs (stat fs path)

  abbrev pub check_linux : FilePath → Fs → CheckResult
  check_linux base_dir fs =
      if deps.has_linux_source fs base_dir
      then pass_with "Linux source" (note "Found (submodule or downloaded)")
      else warn_with "Linux source" (note "Not found - will be downloaded on first build")

  abbrev pub of_iso_size : Verdict ℕ → CheckResult
  of_iso_size (good size) =
      pass_with "Rocky (recipe)"
        (record { format = "ISO {} bytes + rootfs + iso-contents"; args = of_number size ∷ [] })
  of_iso_size (bad e) = fail_with "Rocky (recipe)" e

  unfoldable pub check_rocky : FilePath → Fs → CheckResult
  unfolding validate_rocky_iso_size
  check_rocky base_dir fs =
      let iso = exists fs (join base_dir "downloads/Rocky-10.1-x86_64-dvd1.iso") in
      if iso
        && exists fs (join base_dir "downloads/rootfs")
        && exists fs (join base_dir "downloads/iso-contents")
      then of_iso_size (validate_rocky_iso_size base_dir fs)
      else if iso
      then warn_with "Rocky (recipe)" (note "ISO found but not extracted")
      else warn_with "Rocky (recipe)" (note "Not found - run 'leviso download rocky'")

  unfoldable pub check_cargo_tool : FilePath → Fs → String → CheckResult
  check_cargo_tool base_dir fs tool =
      let path = join (join (deps.output_dir base_dir) "staging/usr/bin") tool in
      let recipe_path = join base_dir ("deps/" <> tool <> ".rhai") in
      if exists fs path
      then pass_with tool (record { format = "Installed: {}"; args = of_path path ∷ [] })
      else if exists fs recipe_path
      then warn_with tool (note "Not installed - will be built via recipe during build")
      else fail_with tool (record {
        format = "Not installed and recipe missing: {}";
        args = of_path recipe_path ∷ [];
      })

  -- `Option::or_else` on a path that counts only if it is there
  abbrev pub or_there : Option FilePath → Fs → FilePath → Option FilePath
  or_there (some p) fs q = some p
  or_there none fs q = if exists fs q then some q else none

  abbrev pub or_env : Option FilePath → Fs → Option String → Option FilePath
  or_env (some p) fs env = some p
  or_env none fs none = none
  or_env none fs (some q) = if exists fs (components q) then some (components q) else none

  abbrev pub in_path : Option String → Option FilePath
  in_path none = none
  in_path (some p) = some (components p)

  unfoldable pub recipe_binary : FilePath → Fs → Option FilePath
  recipe_binary base_dir fs =
      let debug =
        or_there (in_path (deps.which "recipe")) fs
          (join (drop_last base_dir) "target/debug/recipe") in
      let release = or_there debug fs (join (drop_last base_dir) "target/release/recipe") in
      or_env release fs (deps.env_var "RECIPE_BIN")

  abbrev pub of_executable : FilePath → Result (Verdict Text) → Result CheckResult
  of_executable path (err e) = err e
  of_executable path (ok (good version)) = ok (
      pass_with "recipe"
        (record { format = "{} ({})"; args = of_path path ∷ of_text version ∷ [] }))
  of_executable path (ok (bad e)) = ok (fail_with "recipe" e)

  abbrev pub check_recipe_at : FilePath → Fs → Option FilePath → Result CheckResult
  check_recipe_at base_dir fs (some path) = of_executable path (validate_executable path fs)
  check_recipe_at base_dir fs none = ok (
      if exists fs (join (drop_last base_dir) "tools/recipe/Cargo.toml")
      then warn_with "recipe" (record {
        format = "Source found at {}, will be built on first use";
        args = of_path (join (drop_last base_dir) "tools/recipe") ∷ [];
      })
      else fail_with "recipe" (note "Not found. Install to PATH or set RECIPE_BIN"))

  unfoldable pub check_recipe : FilePath → Fs → Result CheckResult
  unfolding recipe_binary validate_executable
  check_recipe base_dir fs = check_recipe_at base_dir fs (recipe_binary base_dir fs)

  abbrev pub with_recipe : List CheckResult → Result CheckResult → Result (List CheckResult)
  with_recipe results (err e) = err e
  with_recipe results (ok r) = ok (results ++ (r ∷ []))

  unfoldable pub check_dependencies : FilePath → Fs → Result (List CheckResult)
  unfolding check_rocky check_cargo_tool check_recipe
  check_dependencies base_dir fs =
      with_recipe
        (check_linux base_dir fs
          ∷ check_rocky base_dir fs
          ∷ map (check_cargo_tool base_dir fs) deps.levitate_cargo_tools)
        (check_recipe base_dir fs)
