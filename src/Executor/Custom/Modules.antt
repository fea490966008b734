-- ===== src/Executor/Custom/Modules.antt =====
-- src/component/custom/modules.rs: kernel modules. `fuel` bounds how deep directories are nested.
pub mod Missing
use leviso.Base.{
  ℕ, zero, suc, ◌+◌, String, ◌<>◌, List, [], ◌∷◌, Bool, true, false, not, ◌&&◌, Option, none, some,
  is_empty, if◌then◌else◌,
}
use leviso.Error.{Error, Result, ok, err, message}
use leviso.Exec.{Exec, ◌>>=◌, ◌>>◌, pure, fail, for_each}
use leviso.Text.{trim_end_of, contains_text, codes}
use leviso.Fs.Path.{FilePath, join, components, last_of, has_extension, display}
use leviso.Fs.State.{Fs}
use leviso.Fs.Ops.{exists, is_dir, create_dir_all}
use leviso.Fs.Copy.{copy, read_dir}
use leviso.Build.{BuildContext}
use leviso.Build.Libdeps.{out_of_fuel}
use leviso.Config.{load, all_modules}
use leviso.Executor.Custom.Outside.{Host}
use leviso.Exec.Missing.{each_missing}

abbrev pub module_metadata_files : List String
module_metadata_files =
    "modules.dep" ∷ "modules.dep.bin" ∷ "modules.alias" ∷ "modules.alias.bin" ∷ "modules.softdep"
    ∷ "modules.symbols" ∷ "modules.symbols.bin" ∷ "modules.builtin" ∷ "modules.builtin.bin"
    ∷ "modules.builtin.modinfo" ∷ "modules.order" ∷ []

-- The test of `find_kernel_version`.
abbrev pub is_version : Fs → FilePath → String → Bool
is_version fs base name = contains_text (codes ".") (codes name) && is_dir fs (join base name)

abbrev pub first_version : FilePath → List String → Exec Fs String
first_version base [] fs = (err (message "Could not find kernel modules directory" []), fs)
first_version base (name ∷ names) fs =
    let rest = first_version base names in
    if is_version fs base name then (ok name, fs) else rest fs

unfoldable pub find_kernel_version : FilePath → Exec Fs String
unfolding read_dir contains_text
find_kernel_version modules_base = read_dir modules_base >>= first_version modules_base

-- One entry of `copy_dir_recursive`: how many modules it copies; `again` copies a directory.
abbrev pub copy_module_entry :
    (FilePath → FilePath → Exec Fs ℕ) → FilePath → FilePath → String → Exec Fs ℕ
copy_module_entry again src dst name fs =
    let path = join src name in
    let dest_path = join dst name in
    if is_dir fs path
    then again path dest_path fs
    else (copy path dest_path >> pure (if has_extension "ko" name then 1 else 0)) fs

abbrev pub copy_module_entries :
    (FilePath → FilePath → Exec Fs ℕ) → FilePath → FilePath → List String → Exec Fs ℕ
copy_module_entries again src dst [] = pure 0
copy_module_entries again src dst (name ∷ names) = do
  n ← copy_module_entry again src dst name
  count ← copy_module_entries again src dst names
  pure (n + count)

unfoldable pub copy_dir_counting : ℕ → FilePath → FilePath → Exec Fs ℕ
unfolding create_dir_all read_dir copy
copy_dir_counting zero src dst fs = (err out_of_fuel, fs)
copy_dir_counting (suc fuel) src dst fs =
    let again : FilePath → FilePath → Exec Fs ℕ = λ p q. copy_dir_counting fuel p q in
    (create_dir_all dst >> read_dir src >>= copy_module_entries again src dst) fs

unfoldable pub copy_modules_recursive : ℕ → FilePath → FilePath → Exec Fs (Unit {0})
unfolding copy_dir_counting
copy_modules_recursive fuel src dst fs =
    if exists fs (join src "kernel")
    then (copy_dir_counting fuel (join src "kernel") (join dst "kernel") >> pure tt) fs
    else (ok tt, fs)

-- A module's path without its extensions
abbrev pub base_path : String → String
base_path module_path = trim_end_of ".ko" (trim_end_of ".ko.gz" (trim_end_of ".ko.xz" module_path))

abbrev pub module_extensions : List String
module_extensions = ".ko" ∷ ".ko.xz" ∷ ".ko.gz" ∷ []

abbrev pub find_module : Fs → FilePath → String → List String → Option String
find_module fs src_modules base [] = none
find_module fs src_modules base (ext ∷ exts) =
    let rest = find_module fs src_modules base exts in
    if exists fs (join src_modules (base <> ext)) then some (base <> ext) else rest

abbrev pub copy_found_module : FilePath → FilePath → String → Option String → Exec Fs (Unit {0})
copy_found_module src_modules dst_modules full none fs =
    (err (message "Invalid module path" []), fs)
copy_found_module src_modules dst_modules full (some module_name) fs =
    copy (join src_modules full) (join dst_modules module_name) fs

-- The body of the loop of `copy_modules_from_config`: whether the module is found.
abbrev pub copy_module : FilePath → FilePath → String → Exec Fs Bool
copy_module src_modules dst_modules module_path fs =
    elim (find_module fs src_modules (base_path module_path) module_extensions) [
      | none ↦ (ok false, fs)
      | some full ↦
          (copy_found_module src_modules dst_modules full (last_of (components full)) >> pure true)
            fs
    ]

-- The modules that are missing.
unfoldable pub copy_listed_modules : FilePath → FilePath → List String → Exec Fs (List String)
unfolding copy each_missing
copy_listed_modules src_modules dst_modules = each_missing (copy_module src_modules dst_modules)

abbrev pub modules_missing : List String → Error
modules_missing missing = message "Required kernel modules not found" missing

-- `modules` are those of the configuration.
unfoldable pub copy_modules_from_config : List String → FilePath → FilePath → Exec Fs (Unit {0})
unfolding copy_listed_modules
copy_modules_from_config modules src_modules dst_modules = do
  missing ← copy_listed_modules src_modules dst_modules modules
  if not (is_empty missing) then fail (modules_missing missing) else pure tt

abbrev pub copy_metadata_file : FilePath → FilePath → String → Exec Fs (Unit {0})
copy_metadata_file src_modules dst_modules name fs =
    if exists fs (join src_modules name)
    then copy (join src_modules name) (join dst_modules name) fs
    else (ok tt, fs)

abbrev some_entry : Result (List String) → Bool
some_entry (err e) = false
some_entry (ok names) = not (is_empty names)

module _ (host : Host) (fuel : ℕ) (ctx : BuildContext) where
  abbrev depmod : String → Exec Fs (Unit {0})
  depmod kernel_version =
      host.run "depmod" ("-a" ∷ "-b" ∷ display ctx.staging ∷ kernel_version ∷ [])
        "depmod failed. Install: sudo dnf install kmod"

  abbrev pub custom_modules_base : FilePath
  custom_modules_base = join ctx.output "staging/usr/lib/modules"

  abbrev pub rocky_modules_base : FilePath
  rocky_modules_base = join ctx.source "usr/lib/modules"

  -- Whether the modules are those of a kernel of its own.
  unfoldable pub is_custom_kernel : Fs → Bool
  unfolding read_dir
  is_custom_kernel fs =
      exists fs custom_modules_base && some_entry (read_dir custom_modules_base fs).0

  abbrev copy_modules_of : Bool → FilePath → FilePath → Exec Fs (Unit {0})
  copy_modules_of true src_modules dst_modules = copy_modules_recursive fuel src_modules dst_modules
  copy_modules_of false src_modules dst_modules =
      copy_modules_from_config (all_modules (load host.env_var)) src_modules dst_modules

  abbrev copy_modules_below : Bool → FilePath → Exec Fs (Unit {0})
  copy_modules_below is_custom modules_base = do
    kernel_version ← find_kernel_version modules_base
    let src_modules = join modules_base kernel_version
    let dst_modules = join (join ctx.staging "lib/modules") kernel_version
    create_dir_all dst_modules
    copy_modules_of is_custom src_modules dst_modules
    for_each (copy_metadata_file src_modules dst_modules) module_metadata_files
    depmod kernel_version

  unfoldable pub copy_modules : Exec Fs (Unit {0})
  unfolding find_kernel_version copy_modules_recursive copy_modules_from_config all_modules load
      is_custom_kernel create_dir_all copy
  copy_modules fs =
      if is_custom_kernel fs
      then copy_modules_below true custom_modules_base fs
      else copy_modules_below false rocky_modules_base fs

  unfoldable pub run_depmod : Exec Fs (Unit {0})
  unfolding find_kernel_version
  run_depmod = find_kernel_version (join ctx.staging "lib/modules") >>= depmod
