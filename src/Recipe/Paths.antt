-- ===== src/Recipe/Paths.antt =====
-- src/recipe/rocky.rs: the paths that the recipe of Rocky Linux returns.
use leviso.Base.{◌≡◌, true, arith}
use leviso.Error.{ok}
use leviso.Exec.Loops.{through, both}
use leviso.Fs.Path.{FilePath, join}
use leviso.Fs.State.{Fs}
use leviso.Recipe.{
  monorepo_dir, RecipeKit, RockyPaths, all_exist, rocky, check_paths, require_recipe, monorepo_dir,
  downloads_dir, paths_of,
}

module _ (kit : RecipeKit) (base_dir : FilePath) where
  check_paths-all_exist :
      (given paths : RockyPaths) (fs t : Fs)
      → check_paths kit base_dir given fs ≡ (ok paths, t)
      → all_exist t paths ≡ true
  check_paths-all_exist given paths fs t h = ground arith

  -- The paths that are returned for Rocky Linux are there when they are returned.
  pub rocky-all_exist :
      (fs t : Fs) (paths : RockyPaths)
      → rocky kit base_dir fs ≡ (ok paths, t)
      → all_exist t paths ≡ true
  unfolding rocky
  rocky-all_exist fs t paths h =
      let (_, a, _, h) =
        both (require_recipe kit base_dir (join base_dir "deps/rocky.rhai") "Rocky recipe") _ h in
      let (recipe_bin, b, _, h) = through (kit.find_recipe (monorepo_dir kit base_dir)) _ h in
      let (values, c, _, h) =
        through
          (kit.run_json recipe_bin (join base_dir "deps/rocky.rhai") (downloads_dir kit base_dir)
            (join (monorepo_dir kit base_dir) "distro-builder/recipes"))
          _ h in
      check_paths-all_exist (paths_of kit base_dir values) paths c t h
