-- ===== src/Build.antt =====
-- src/build/context.rs: the paths of a build; and the world that its steps change.
pub mod Filesystem
pub mod Steady
pub mod Libdeps
use leviso.Base.{String, List, Bool, Option, ◌∷◌, ℕ, [], if◌then◌else◌, not, true, false}
use leviso.Fs.Path.{FilePath, join}
use leviso.Fs.State.{Fs}
use leviso.Error.{Result, Error, ok, message, err}
use leviso.Exec.{Exec}
use leviso.Fs.Ops.{exists}

-- `BuildContext`
pub record BuildContext : Type 0 where
  pub source : FilePath
  pub staging : FilePath
  pub base_dir : FilePath
  pub output : FilePath

-- A call of a `LicenseTracker` of distro-builder. What the tracker knows is the calls so far, the
-- last first.
pub data Registration : Type 0 where
  of_binary : String → Registration
  of_library : String → Registration
  of_package : String → Registration

pub record World : Type 0 where
  pub fs : Fs
  pub registered : List Registration

abbrev pub beside {ℓ} : {A : Type ℓ} → List Registration → Result A × Fs → Result A × World
beside l (r, s) = (r, record { fs = s; registered = l })

abbrev pub get_fs : Exec World Fs
get_fs w = (ok w.fs, w)

-- A step on the file system.
abbrev pub on_fs : {A : Type 0} → Exec Fs A → Exec World A
on_fs m w = beside w.registered (m w.fs)

abbrev pub register : Registration → Exec World (Unit {0})
register r w = (ok tt, record w { registered = r ∷ w.registered })

-- `if let Some(t) = tracker { … }`
abbrev pub register_if : Bool → Registration → Exec World (Unit {0})
register_if true r w = register r w
register_if false r w = (ok tt, w)

-- What the build calls that is not in this repository.
pub record Externals : Type 0 where
  -- leviso-elf
  pub find_binary : Fs → FilePath → String → Option FilePath
  pub find_sbin_binary : Fs → FilePath → String → Option FilePath
  pub get_all_dependencies : FilePath → FilePath → List String → Exec Fs (List String)
  pub make_executable : FilePath → Exec Fs (Unit {0})
  pub create_symlink_if_missing : String → FilePath → Exec Fs (Unit {0})
  -- the source, the library, the staging tree, its library directories, the extra paths and the
  -- private directories
  pub copy_library_to :
      FilePath
      → String
      → FilePath
      → String
      → String
      → List String
      → List String
      → Exec Fs (Unit {0})
  -- distro-builder
  pub output_dir : FilePath → FilePath
  pub shell_in : String → FilePath → Exec Fs (Unit {0})
  pub handle_dir : FilePath → String → Exec Fs (Unit {0})
  pub handle_dirmode : FilePath → String → ℕ → Exec Fs (Unit {0})
  pub handle_dirs : FilePath → List String → Exec Fs (Unit {0})
  pub handle_writefile : FilePath → String → String → Exec Fs (Unit {0})
  pub handle_writefilemode : FilePath → String → String → ℕ → Exec Fs (Unit {0})
  pub handle_symlink : FilePath → String → String → Exec Fs (Unit {0})
  pub copy_licenses : List Registration → FilePath → FilePath → Exec Fs ℕ

abbrev pub rootfs_missing : Error
rootfs_missing = message "Rocky rootfs not found" []

-- `BuildContext::new`
unfoldable pub new : Externals → FilePath → FilePath → Exec Fs BuildContext
new ext base_dir staging fs =
    let source = join (join base_dir "downloads") "rootfs" in
    let ctx : BuildContext = record {
      source = source;
      staging = staging;
      base_dir = base_dir;
      output = ext.output_dir base_dir;
    } in
    if not (exists fs source) then (err rootfs_missing, fs) else (ok ctx, fs)

-- `BuildContext::for_testing`
abbrev pub for_testing : FilePath → FilePath → FilePath → BuildContext
for_testing source staging base_dir = record {
  source = source;
  staging = staging;
  base_dir = base_dir;
  output = join base_dir "output";
}
