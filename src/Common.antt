-- ===== src/Common.antt =====
-- src/common: what several parts do with paths and files.
use leviso.Base.{String, List, [], ◌∷◌, ℕ, not, ◌&&◌, if◌then◌else◌, ◌<>◌}
use leviso.Error.{ok, err, message, context}
use leviso.Exec.{Exec, ◌>>◌, pure, with_context, forget}
use leviso.Text.{Text}
use leviso.Fs.Path.{FilePath, join, drop_last, display}
use leviso.Fs.State.{Fs}
use leviso.Fs.Ops.{exists, is_dir, write, read, create_dir_all, remove_dir_all}
use leviso.Fs.Copy.{set_permissions}

unfoldable pub write_file_with_dirs : FilePath → Text → Exec Fs (Unit {0})
unfolding create_dir_all write
write_file_with_dirs path content = create_dir_all (drop_last path) >> write path content

unfoldable pub write_file_mode : FilePath → Text → ℕ → Exec Fs (Unit {0})
unfolding write_file_with_dirs set_permissions
write_file_mode path content mode = write_file_with_dirs path content >> set_permissions path mode

-- Nothing is copied by the function of this name.
unfoldable pub find_and_copy_dir : FilePath → FilePath → FilePath → String → Exec Fs (Unit {0})
unfolding create_dir_all
find_and_copy_dir primary fallback destination error_msg fs =
    if not (is_dir fs primary) && not (is_dir fs fallback)
    then (err (message error_msg []), fs)
    else create_dir_all destination fs

unfoldable pub find_dir : List FilePath → String → Exec Fs FilePath
find_dir [] error_msg fs = (err (message error_msg []), fs)
find_dir (loc ∷ locations) error_msg fs =
    let rest = find_dir locations error_msg fs in if is_dir fs loc then (ok loc, fs) else rest

unfoldable pub ensure_dir_exists : FilePath → Exec Fs (Unit {0})
unfolding create_dir_all
ensure_dir_exists path = create_dir_all path

unfoldable pub ensure_parent_exists : FilePath → Exec Fs (Unit {0})
unfolding create_dir_all
ensure_parent_exists path = create_dir_all (drop_last path)

-- `if path.exists() { fs::remove_dir_all(&path)?; }`
abbrev pub remove_dir_if_exists : FilePath → Exec Fs (Unit {0})
remove_dir_if_exists path fs = if exists fs path then remove_dir_all path fs else (ok tt, fs)

unfoldable pub prepare_work_dir : FilePath → String → Exec Fs FilePath
unfolding create_dir_all remove_dir_all
prepare_work_dir parent_dir name =
    let work_dir = join parent_dir name in
    remove_dir_if_exists work_dir >> create_dir_all work_dir >> pure work_dir

unfoldable pub cleanup_work_dir : FilePath → Exec Fs (Unit {0})
unfolding remove_dir_all
cleanup_work_dir path fs = forget (remove_dir_all path fs)

-- `manifest_dir` is the directory of the crate's sources.
unfoldable pub read_manifest_file : FilePath → String → String → Exec Fs Text
read_manifest_file manifest_dir subdir path =
    let file_path = join (join (join manifest_dir "src/component/custom") subdir) path in
    with_context (context ("Failed to read " <> path <> " from " <> display file_path))
      (read file_path)
