-- ===== src/Executor/Files.antt =====
-- src/component/executor/files.rs
use leviso.Base.{ℕ, String, if◌then◌else◌, not, ◌∷◌, []}
use leviso.Exec.{◌>>=◌, ◌>>◌, Exec, pure, fail}
use leviso.Build.{BuildContext}
use leviso.Build.Libdeps.Trees.{copy_dir_tree, copy_file}
use leviso.Fs.State.{Fs}
use leviso.Build.Libdeps.Trees.{copy_file, copy_dir_tree}
use leviso.Error.{message}

module _ (ctx : BuildContext) where
  unfoldable pub handle_copyfile : String → Exec Fs (Unit {0})
  unfolding copy_file
  handle_copyfile path = do
    found ← copy_file ctx path
    if not found then fail (message "not found" (path ∷ [])) else pure tt

  unfoldable pub handle_copytree : ℕ → String → Exec Fs (Unit {0})
  unfolding copy_dir_tree
  handle_copytree fuel path = copy_dir_tree ctx fuel path >> pure tt
