-- ===== src/Recipe/Qemu.antt =====
-- src/recipe/qemu.rs: QEMU and its firmware. The variables of the process that the function sets are
-- part of its state.
use leviso.Base.{
  String, ◌<>◌, List, [], ◌∷◌, ◌++◌, not, ◌&&◌, Option, none, some, if◌then◌else◌, is_empty, ◌==◌,
  string_eq,
}
use leviso.Error.{Result, ok}
use leviso.Exec.{Exec, ◌>>=◌, ◌>>◌}
use leviso.Text.{codes, contains_text}
use leviso.Fs.Path.{FilePath, join, display}
use leviso.Fs.State.{Fs}
use leviso.Fs.Ops.{exists}
use leviso.Recipe.{RecipeKit, monorepo_dir, downloads_dir, require_recipe}

pub record Vars : Type 0 where
  pub path : Option String
  pub ovmf_path : Option String
  pub ld_library_path : Option String

abbrev pub or_empty : Option String → String
or_empty none = ""
or_empty (some s) = s

-- `join(":")`
abbrev pub join_paths : List String → String
join_paths [] = ""
join_paths (p ∷ []) = p
join_paths (p ∷ q ∷ ps) = p <> (":" <> join_paths (q ∷ ps))

-- The directories that are there and not in the path yet
abbrev pub new_paths : Fs → String → List FilePath → List String
new_paths fs current [] = []
new_paths fs current (dir ∷ dirs) =
    let rest = new_paths fs current dirs in
    if exists fs dir && not (contains_text (codes (display dir)) (codes current))
    then display dir ∷ rest
    else rest

unfoldable pub path_with : Fs → FilePath → Option String → Option String
unfolding contains_text
path_with fs tools_prefix path =
    let dirs = join tools_prefix "usr/bin" ∷ join tools_prefix "usr/libexec" ∷ [] in
    let new = new_paths fs (or_empty path) dirs in
    if is_empty new then path else some (join_paths (new ++ (or_empty path ∷ [])))

abbrev pub ovmf_with : Fs → FilePath → Option String → Option String
ovmf_with fs tools_prefix old =
    let ovmf = join tools_prefix "usr/share/edk2/ovmf/OVMF_CODE.fd" in
    if exists fs ovmf then some (display ovmf) else old

abbrev pub before_libraries : String → String → String
before_libraries dir current = if current == "" then dir else dir <> (":" <> current)

unfoldable pub libraries_with : Fs → FilePath → Option String → Option String
unfolding contains_text
libraries_with fs tools_prefix old =
    let lib64 = join tools_prefix "usr/lib64" in
    if exists fs lib64 && not (contains_text (codes (display lib64)) (codes (or_empty old)))
    then some (before_libraries (display lib64) (or_empty old))
    else old

abbrev pub set_vars : FilePath → Exec (Fs × Vars) (Unit {0})
set_vars tools_prefix (fs, vars) = (
  ok tt,
  (
    fs,
    record {
      path = path_with fs tools_prefix vars.path;
      ovmf_path = ovmf_with fs tools_prefix vars.ovmf_path;
      ld_library_path = libraries_with fs tools_prefix vars.ld_library_path;
    },
  ),
)

-- A step on the file system as one on the process
abbrev keep_vars : {A : Type 0} → Vars → Result A × Fs → Result A × (Fs × Vars)
keep_vars vars (r, fs) = (r, (fs, vars))

abbrev pub on_disk : {A : Type 0} → Exec Fs A → Exec (Fs × Vars) A
on_disk m (fs, vars) = keep_vars vars (m fs)

module _ (kit : RecipeKit) (base_dir : FilePath) where
  abbrev install_qemu : Exec Fs (Unit {0})
  install_qemu = do
    let recipe_path = join base_dir "deps/qemu.rhai"
    require_recipe kit base_dir recipe_path "QEMU recipe"
    recipe_bin ← kit.find_recipe (monorepo_dir kit base_dir)
    kit.run_with_recipes_path recipe_bin recipe_path (downloads_dir kit base_dir)
        (join (monorepo_dir kit base_dir) "distro-builder/recipes")

  unfoldable pub ensure_qemu : Exec (Fs × Vars) (Unit {0})
  unfolding path_with libraries_with
  ensure_qemu = on_disk install_qemu >> set_vars (join (downloads_dir kit base_dir) ".tools")
