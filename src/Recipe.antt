-- ===== src/Recipe.antt =====
-- src/recipe: the dependencies that the recipe program makes. The change of `PATH` after the host
-- tools are built is a change of the process, and not in the state.
pub mod Qemu
pub mod Paths
use leviso.Base.{String, ◌<>◌, List, [], ◌∷◌, Bool, not, ◌&&◌, Option, none, some, if◌then◌else◌}
use leviso.Error.{Error, ok, err, message}
use leviso.Exec.{Exec, ◌>>=◌, ◌>>◌, for_each, with_context}
use leviso.Fs.Path.{FilePath, join, drop_last, display, components}
use leviso.Fs.State.{Fs}
use leviso.Fs.Ops.{exists}

-- `LinuxPaths`, of which the version is used.
pub record LinuxPaths : Type 0 where
  pub version : String

pub record RecipeKit : Type 0 where
  -- distro-spec
  pub levitate_cargo_tools : List String
  -- distro-builder
  pub output_dir : FilePath → FilePath
  pub ensure_exists : FilePath → String → Exec Fs (Unit {0})
  pub find_recipe : FilePath → Exec Fs FilePath
  pub linux : FilePath → Exec Fs LinuxPaths
  pub has_linux_source : Fs → FilePath → Bool
  -- the program, the recipe and the directory of downloads
  pub run : FilePath → FilePath → FilePath → Exec Fs (Unit {0})
  -- the same, with the directory in which recipes are searched
  pub run_with_recipes_path : FilePath → FilePath → FilePath → FilePath → Exec Fs (Unit {0})
  -- the same; it returns the texts of the values that the recipe sets
  pub run_json : FilePath → FilePath → FilePath → FilePath → Exec Fs (String → Option String)

-- `map_err` to an error of the caller's own
abbrev replace_err : Error → Error → Error
replace_err e _ = e

abbrev pub recipe_missing : String → FilePath → Error
recipe_missing what p = message "recipe not found" (what ∷ display p ∷ [])

-- `RockyPaths`
pub record RockyPaths : Type 0 where
  pub iso : FilePath
  pub rootfs : FilePath
  pub iso_contents : FilePath

-- `RockyPaths::exists`
abbrev pub all_exist : Fs → RockyPaths → Bool
all_exist fs paths = exists fs paths.iso && exists fs paths.rootfs && exists fs paths.iso_contents

module _ (kit : RecipeKit) (base_dir : FilePath) where
  abbrev pub monorepo_dir : FilePath
  monorepo_dir = drop_last base_dir

  abbrev pub downloads_dir : FilePath
  downloads_dir = join base_dir "downloads"

  abbrev require_recipe : FilePath → String → Exec Fs (Unit {0})
  require_recipe recipe_path what =
      with_context (replace_err (recipe_missing what recipe_path))
        (kit.ensure_exists recipe_path what)

  -- What follows the run of a tool's recipe
  abbrev require_installed : String → FilePath → Exec Fs (Unit {0})
  require_installed tool installed_path fs =
      if not (exists fs installed_path)
      then (
        err (message "Recipe completed but tool not found" (tool ∷ display installed_path ∷ [])),
        fs,
      )
      else (ok tt, fs)

  abbrev run_tool_recipe : FilePath → FilePath → String → Exec Fs (Unit {0})
  run_tool_recipe recipe_bin installed_path tool = do
    let recipe_path = join base_dir ("deps/" <> tool <> ".rhai")
    require_recipe recipe_path tool
    kit.run recipe_bin recipe_path downloads_dir
    require_installed tool installed_path

  unfoldable pub install_tool : FilePath → String → Exec Fs (Unit {0})
  install_tool recipe_bin tool fs =
      let installed_path = join (join (kit.output_dir base_dir) "staging/usr/bin") tool in
      if exists fs installed_path
      then (ok tt, fs)
      else run_tool_recipe recipe_bin installed_path tool fs

  unfoldable pub install_tools : Exec Fs (Unit {0})
  unfolding install_tool
  install_tools = do
    recipe_bin ← kit.find_recipe monorepo_dir
    for_each (install_tool recipe_bin) kit.levitate_cargo_tools

  abbrev require_path : FilePath → Error → Exec Fs (Unit {0})
  require_path p missing fs = if not (exists fs p) then (err missing, fs) else (ok tt, fs)

  abbrev rootfs_missing : Error
  rootfs_missing = message "rootfs not found" (display (join downloads_dir "rootfs") ∷ [])

  abbrev run_recipe : FilePath → Exec Fs (Unit {0})
  run_recipe recipe_path = do
    recipe_bin ← kit.find_recipe monorepo_dir
    kit.run recipe_bin recipe_path downloads_dir

  unfoldable pub packages : Exec Fs (Unit {0})
  packages = do
    let recipe_path = join base_dir "deps/packages.rhai"
    require_recipe recipe_path "Packages recipe"
    require_path (join (join downloads_dir "rootfs") "usr") rootfs_missing
    require_path (join (join downloads_dir "iso-contents") "BaseOS/Packages")
        (message "iso-contents not found" (display (join downloads_dir "iso-contents") ∷ []))
    run_recipe recipe_path

  unfoldable pub epel : Exec Fs (Unit {0})
  epel = do
    let recipe_path = join base_dir "deps/epel.rhai"
    require_recipe recipe_path "EPEL recipe"
    require_path (join (join downloads_dir "rootfs") "usr") rootfs_missing
    run_recipe recipe_path

  abbrev path_or : Option String → FilePath → FilePath
  path_or (some p) d = components p
  path_or none d = d

  abbrev paths_of : (String → Option String) → RockyPaths
  paths_of values = record {
    iso = path_or (values "iso_path") (join downloads_dir "Rocky-10.1-x86_64-dvd1.iso");
    rootfs = path_or (values "rootfs_path") (join downloads_dir "rootfs");
    iso_contents = path_or (values "iso_contents_path") (join downloads_dir "iso-contents");
  }

  abbrev check_paths : RockyPaths → Exec Fs RockyPaths
  check_paths paths fs =
      if not (all_exist fs paths)
      then (err (message "Recipe completed but expected paths are missing" []), fs)
      else (ok paths, fs)

  unfoldable pub rocky : Exec Fs RockyPaths
  rocky = do
    let recipe_path = join base_dir "deps/rocky.rhai"
    require_recipe recipe_path "Rocky recipe"
    recipe_bin ← kit.find_recipe monorepo_dir
    values ←
        kit.run_json recipe_bin recipe_path downloads_dir
          (join monorepo_dir "distro-builder/recipes")
    check_paths (paths_of values)

  unfoldable pub ensure_host_tools : Exec Fs (Unit {0})
  ensure_host_tools = do
    let recipe_path = join base_dir "deps/host-tools.rhai"
    require_recipe recipe_path "Host tools recipe"
    recipe_bin ← kit.find_recipe monorepo_dir
    kit.run_with_recipes_path recipe_bin recipe_path downloads_dir
        (join monorepo_dir "distro-builder/recipes")
