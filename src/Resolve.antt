-- ===== src/Resolve.antt =====
-- src/resolve.rs: dependencies that the recipe program resolves.
use leviso.Base.{
  String, List, [], ◌∷◌, Bool, not, Option, none, some, if◌then◌else◌, ◌==◌, string_eq, true,
}
use leviso.Error.{Result, ok, err, message, context}
use leviso.Exec.{Exec, ◌>>=◌, ◌>>◌, pure, fail, with_context}
use leviso.Text.{trim_of}
use leviso.Fs.Path.{FilePath, join, components, drop_last, display}
use leviso.Fs.State.{Fs}
use leviso.Fs.Ops.{exists, create_dir_all, resolve}

pub record Resolver : Type 0 where
  pub env_var : String → Option String
  pub which : String → Option String
  pub manifest_dir : FilePath
  -- `KERNEL_SOURCE.source_dir_name()` of distro-spec
  pub source_dir_name : String
  -- the program, its arguments and its directory: whether it succeeded, and what it printed
  pub output : FilePath → List String → FilePath → Exec Fs (Bool × String × String)

module _ (r : Resolver) where
  abbrev or_which : Option String → Exec Fs FilePath
  or_which none = fail (message "recipe binary not found." [])
  or_which (some p) = pure (components p)

  abbrev from_workspace : Exec Fs FilePath
  from_workspace fs =
      let release_bin = join (drop_last r.manifest_dir) "target/release/recipe" in
      let debug_bin = join (drop_last r.manifest_dir) "target/debug/recipe" in
      if exists fs release_bin
      then (ok release_bin, fs)
      else if exists fs debug_bin
      then (ok debug_bin, fs)
      else or_which (r.which "recipe") fs

  abbrev from_env : Option String → Exec Fs FilePath
  from_env none fs = from_workspace fs
  from_env (some path) fs =
      if exists fs (components path) then (ok (components path), fs) else from_workspace fs

  unfoldable pub find_recipe_binary : Exec Fs FilePath
  find_recipe_binary = from_env (r.env_var "RECIPE_BINARY")

  unfoldable pub get_output_path_by_convention : String → FilePath → Result FilePath
  get_output_path_by_convention name build_dir =
      if name == "rocky"
      then ok (join build_dir "rootfs")
      else if name == "linux"
      then ok (join build_dir r.source_dir_name)
      else err (message "Unknown dependency" (name ∷ []))

  abbrev require_deps : FilePath → Exec Fs (Unit {0})
  require_deps deps_dir fs =
      if not (exists fs deps_dir)
      then (err (message "Deps directory not found" (display deps_dir ∷ [])), fs)
      else (ok tt, fs)

  abbrev check_output : String → Bool × String × String → Exec Fs (Unit {0})
  check_output name (success, stdout, stderr) =
      if not success
      then fail (message "Failed to execute recipe" (name ∷ trim_of stderr ∷ trim_of stdout ∷ []))
      else pure tt

  -- `canonicalize` of a path that is there
  abbrev canonical : FilePath → Option FilePath → Exec Fs FilePath
  canonical path none = fail (message "Dependency output not found" (display path ∷ []))
  canonical path (some p) = pure p

  abbrev require_output : FilePath → Exec Fs FilePath
  require_output path fs =
      if not (exists fs path)
      then (err (message "Dependency output not found" (display path ∷ [])), fs)
      else canonical path (resolve fs true path) fs

  unfoldable pub resolve_dep : String → Exec Fs FilePath
  unfolding find_recipe_binary get_output_path_by_convention create_dir_all resolve
  resolve_dep name = do
    recipe_bin ← find_recipe_binary
    require_deps (join r.manifest_dir "deps")
    let build_dir = join r.manifest_dir "downloads"
    with_context (context "Failed to create build directory") (create_dir_all build_dir)
    out ← with_context (context "Failed to run recipe install") (
        r.output recipe_bin
          ("install"
            ∷ name
            ∷ "-r"
            ∷ display (join r.manifest_dir "deps")
            ∷ "-b"
            ∷ display build_dir
            ∷ "-p"
            ∷ display (join build_dir "prefix")
            ∷ [])
          r.manifest_dir)
    check_output name out
    output_path ← λ fs. (get_output_path_by_convention name build_dir, fs)
    require_output output_path
