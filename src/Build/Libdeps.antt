-- ===== src/Build/Libdeps.antt =====
-- src/build/libdeps.rs: what is copied from the source tree to the staging tree.
-- A tracker that may be missing is a Boolean, for there is one tracker. What is printed is not
-- modelled.
pub mod Trees
pub mod Licenses
pub mod Fuel
pub mod Dangling
use leviso.Exec.{◌>>=◌, ◌>>◌, pure, forget}
use leviso.Fs.Ops.{symlink, read_link, lexists, is_symlink, is_some}
use leviso.Build.{
  BuildContext, World, on_fs, register_if, of_binary, of_library, Externals, List, Error, String,
  FilePath, Result, Fs, Option, ℕ, message, ok, Exec, err, join, exists, get_fs,
}
use leviso.Base.{
  List, String, Option, ℕ, none, Bool, ◌∷◌, if◌then◌else◌, [], ◌==◌, some, ◌<>◌, suc, ◌&&◌,
  string_eq, true, false, zero,
}
use leviso.Error.{Error, Result, message, context}
use leviso.Fs.Path.{FilePath, join, display, last_of, drop_last, components}
use leviso.Fs.State.{Fs}
use leviso.Fs.Copy.{read_dir, copy}
use leviso.Fs.Ops.{create_dir_all, symlink, exists, is_dir}
use leviso.Exec.{Exec, ◌>>◌, for_each, fail, with_context}
use leviso.Text.{starts_with, trim_end, codes, ends_with}

abbrev pub extra_lib_paths : List String
extra_lib_paths = "usr/libexec/sudo" ∷ "usr/lib64/man-db" ∷ "usr/lib64/pulseaudio" ∷ []

abbrev pub private_lib_dirs : List String
private_lib_dirs = "systemd" ∷ []

abbrev pub rpm_binary_sources : List (String × String × String)
rpm_binary_sources =
    ("passwd", "shadow-utils-*.rpm", "usr/bin/passwd") ∷ ("nano", "nano-*.rpm", "usr/bin/nano") ∷ []

-- The fuel of a recursion is used up.
abbrev pub out_of_fuel : Error
out_of_fuel = message "out of fuel" []

abbrev pub bash_missing : Error
bash_missing = message "CRITICAL: bash not found in source rootfs" []

abbrev rpm_info : String → List (String × String × String) → Option (String × String)
rpm_info binary [] = none
rpm_info binary ((name, rpm_pattern, path_in_rpm) ∷ sources) =
    if name == binary then some (rpm_pattern, path_in_rpm) else rpm_info binary sources

-- The test of `find_rpm_by_pattern` on a file's name.
abbrev is_rpm_of : String → String → Bool
is_rpm_of pattern name =
    starts_with (trim_end (codes "-*.rpm") (trim_end (codes "*.rpm") (codes pattern))) (codes name)
    && ends_with (codes ".rpm") (codes name)

abbrev find_rpm_in : FilePath → String → List String → Option FilePath
find_rpm_in subdir pattern [] = none
find_rpm_in subdir pattern (name ∷ names) =
    if is_rpm_of pattern name then some (join subdir name) else find_rpm_in subdir pattern names

-- What cannot be read is passed over.
abbrev names_of : Result (List String) → List String
names_of (ok names) = names
names_of (err e) = []

abbrev find_rpm_below : Fs → FilePath → String → List String → Option FilePath
find_rpm_below fs dir pattern [] = none
find_rpm_below fs dir pattern (name ∷ names) =
    let subdir = join dir name in
    let rest = find_rpm_below fs dir pattern names in
    if is_dir fs subdir
    then elim (find_rpm_in subdir pattern (names_of (read_dir subdir fs).0)) [
      | some p ↦ some p
      | none ↦ rest
    ]
    else rest

unfoldable pub find_rpm_by_pattern : Fs → FilePath → String → Option FilePath
unfolding read_dir
find_rpm_by_pattern fs packages_dir pattern =
    find_rpm_below fs packages_dir pattern (names_of (read_dir packages_dir fs).0)

-- What is left after the shell command.
abbrev extracted : Result (Unit {0}) × Fs → FilePath → Result (Option FilePath) × Fs
extracted (err e, fs) p = (ok none, fs)
extracted (ok u, fs) p = (ok (if exists fs p then some p else none), fs)

module _ (ext : Externals) (ctx : BuildContext) where
  unfoldable pub copy_library : String → Bool → Exec World (Unit {0})
  copy_library lib_name tracker =
      register_if tracker (of_library lib_name)
      >> on_fs (
          ext.copy_library_to ctx.source lib_name ctx.staging "usr/lib64" "usr/lib" extra_lib_paths
            private_lib_dirs)

  -- `copy_library(…).with_context(…)?` for each library
  abbrev pub copy_libraries : String → List String → Bool → Exec World (Unit {0})
  copy_libraries binary libs tracker =
      for_each (λ lib. with_context (context binary) (copy_library lib tracker)) libs

  abbrev extract_with : FilePath → String → FilePath → Exec Fs (Option FilePath)
  extract_with rpm_path path_in_rpm extract_dir fs =
      let made = create_dir_all extract_dir fs in
      let cmd = "rpm2cpio '" <> display rpm_path <> "' | cpio -idm './" <> path_in_rpm <> "'" in
      extracted (ext.shell_in cmd extract_dir made.1) (join extract_dir path_in_rpm)

  abbrev extract_from : Option (String × String) → Exec Fs (Option FilePath)
  extract_from none fs = (ok none, fs)
  extract_from (some (rpm_pattern, path_in_rpm)) fs =
      let packages_dir = join ctx.base_dir "downloads/iso-contents/BaseOS/Packages" in
      elim (find_rpm_by_pattern fs packages_dir rpm_pattern) [
        | none ↦ (ok none, fs)
        | some rpm_path ↦ extract_with rpm_path path_in_rpm (join ctx.output "rpm-tmp") fs
      ]

  unfoldable pub extract_binary_from_rpm : String → Exec Fs (Option FilePath)
  unfolding find_rpm_by_pattern create_dir_all
  extract_binary_from_rpm binary = extract_from (rpm_info binary rpm_binary_sources)

  -- `find_binary` or `find_sbin_binary`
  abbrev Find : Type 0
  Find = Fs → FilePath → String → Option FilePath

  abbrev pub find_or_extract : Find → String → Exec Fs (Option FilePath)
  find_or_extract find binary fs = elim (find fs ctx.source binary) [
    | some p ↦ (ok (some p), fs)
    | none ↦ extract_binary_from_rpm binary fs
  ]

  abbrev copy_dependencies : String → FilePath → Bool → Exec World Bool
  copy_dependencies binary bin_path tracker = do
    libs ← on_fs (ext.get_all_dependencies ctx.source bin_path extra_lib_paths)
    copy_libraries binary libs tracker
    pure true

  -- The binary of a name is copied too, if it can be.
  abbrev follow : Find → (String → Exec World Bool) → Option String → Exec World Bool
  follow find again none w = (ok true, w)
  follow find again (some target_name) w =
      if is_some (find w.fs ctx.source target_name)
      then (ok true, (forget (again target_name w)).1)
      else (ok true, w)

  -- A link is made again, and what it leads to is copied.
  abbrev copy_link : Find → (String → Exec World Bool) → FilePath → FilePath → Exec World Bool
  copy_link find again bin_path dest = do
    link_target ← on_fs (read_link bin_path)
    on_fs (symlink link_target dest)
    follow find again (last_of (components link_target))

  -- What is done for a binary at `bin_path`, once the directory is there.
  abbrev copy_there :
      Find → String → (String → Exec World Bool) → String → Bool → FilePath → Exec World Bool
  copy_there find dest_dir again binary tracker bin_path = do
    let dest = join (join ctx.staging dest_dir) binary
    t ← get_fs
    if is_symlink t bin_path then copy_link find again bin_path dest else do
      on_fs (copy bin_path dest)
      on_fs (ext.make_executable dest)
      copy_dependencies binary bin_path tracker

  -- What is done for a binary at `bin_path`, once it is registered.
  abbrev copy_body :
      Find → String → (String → Exec World Bool) → String → Bool → FilePath → Exec World Bool
  copy_body find dest_dir again binary tracker bin_path = do
    let dest = join (join ctx.staging dest_dir) binary
    s ← get_fs
    if lexists s dest then copy_dependencies binary bin_path tracker else do
      on_fs (create_dir_all (drop_last dest))
      copy_there find dest_dir again binary tracker bin_path

  abbrev copy_if_found :
      Find → String → (String → Exec World Bool) → String → Bool → Option FilePath → Exec World Bool
  copy_if_found find dest_dir again binary tracker none w = (ok false, w)
  copy_if_found find dest_dir again binary tracker (some bin_path) w =
      (register_if tracker (of_binary binary)
          >> copy_body find dest_dir again binary tracker bin_path)
        w

  -- The common text of the two functions below, with the links that it follows as fuel.
  unfoldable pub copy_executable : Find → String → ℕ → String → Bool → Exec World Bool
  unfolding extract_binary_from_rpm copy_library create_dir_all symlink copy
  copy_executable find dest_dir zero binary tracker = fail out_of_fuel
  copy_executable find dest_dir (suc fuel) binary tracker =
      let again : String → Exec World Bool =
        λ target. copy_executable find dest_dir fuel target tracker in
      on_fs (find_or_extract find binary) >>= copy_if_found find dest_dir again binary tracker

  unfoldable pub copy_binary_with_libs : ℕ → String → String → Bool → Exec World Bool
  unfolding copy_executable
  copy_binary_with_libs fuel binary dest_dir tracker =
      copy_executable ext.find_binary dest_dir fuel binary tracker

  unfoldable pub copy_sbin_binary_with_libs : ℕ → String → Bool → Exec World Bool
  unfolding copy_executable
  copy_sbin_binary_with_libs fuel binary tracker =
      copy_executable ext.find_sbin_binary "usr/sbin" fuel binary tracker

  abbrev bash_path : Fs → Option FilePath
  bash_path fs =
      if exists fs (join ctx.source "usr/bin/bash")
      then some (join ctx.source "usr/bin/bash")
      else if exists fs (join ctx.source "bin/bash")
      then some (join ctx.source "bin/bash")
      else none

  unfoldable pub copy_bash : Bool → Exec World (Unit {0})
  unfolding copy_library create_dir_all copy
  copy_bash tracker = do
    s ← get_fs
    elim (bash_path s) [
      | none ↦ fail bash_missing
      | some path ↦ do
        register_if tracker (of_binary "bash")
        let dest = join ctx.staging "usr/bin/bash"
        on_fs (create_dir_all (drop_last dest))
        on_fs (copy path dest)
        on_fs (ext.make_executable dest)
        libs ← on_fs (ext.get_all_dependencies ctx.source path extra_lib_paths)
        copy_libraries "bash" libs tracker
    ]
