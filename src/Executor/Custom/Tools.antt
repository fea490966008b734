-- ===== src/Executor/Custom/Tools.antt =====
-- src/component/custom/mod.rs: `install_docs_tui` and `install_stage_tests`.
use leviso.Base.{String, [], ◌∷◌, ◌&&◌, not, is_empty, some, if◌then◌else◌, false}
use leviso.Error.{ok, err, message, context}
use leviso.Exec.{Exec, ◌>>=◌, ◌>>◌, pure, fail, for_each, with_context}
use leviso.Fs.Path.{FilePath, join, drop_last, display, has_extension}
use leviso.Fs.State.{Fs}
use leviso.Fs.Ops.{exists, is_file, create_dir_all, metadata}
use leviso.Fs.Copy.{copy, read_dir, set_permissions}
use leviso.Build.{BuildContext, Externals, World, on_fs}
use leviso.Build.Libdeps.{copy_library}
use leviso.Executor.Custom.Outside.{Host}
use leviso.Executor.Custom.Etc.{change_mode}

module _ (ext : Externals) (host : Host) (ctx : BuildContext) where
  abbrev docs_tui_dir : FilePath
  docs_tui_dir = join (drop_last ctx.base_dir) "docs/tui"

  abbrev docs_tui_binary : FilePath
  docs_tui_binary = join docs_tui_dir "levitate-docs"

  abbrev rebuild_docs : Exec Fs (Unit {0})
  rebuild_docs = do
    success ← with_context (context "Failed to run bun build for levitate-docs") (
        host.status "bun"
          ("build" ∷ "--compile" ∷ "--minify" ∷ "--outfile" ∷ "levitate-docs" ∷ "src/index.ts" ∷ [])
          (some docs_tui_dir))
    if success then pure tt else fail (message "Failed to build levitate-docs." [])

  abbrev require_binary : Exec Fs (Unit {0})
  require_binary fs =
      if not (exists fs docs_tui_binary)
      then (err (message "levitate-docs binary not found" (display docs_tui_binary ∷ [])), fs)
      else (ok tt, fs)

  abbrev install_docs_binary : Exec Fs (Unit {0})
  install_docs_binary = do
    let bin_dir = join ctx.staging "usr/bin"
    create_dir_all bin_dir
    let dest = join bin_dir "levitate-docs"
    rebuild_docs
    require_binary
    with_context (context "Failed to copy levitate-docs to staging") (copy docs_tui_binary dest)
    ext.make_executable dest
    metadata dest
    pure tt

  unfoldable pub install_docs_tui : Exec World (Unit {0})
  unfolding create_dir_all copy copy_library
  install_docs_tui = do
    on_fs install_docs_binary
    libs ← on_fs (
        with_context (context "Failed to get levitate-docs library dependencies")
          (ext.get_all_dependencies ctx.source docs_tui_binary []))
    for_each
        (λ lib.
          with_context (context "levitate-docs requires missing library")
            (copy_library ext ctx lib false))
        libs

module _ (ctx : BuildContext) where
  abbrev install_file : FilePath → FilePath → String → Exec Fs (Unit {0})
  install_file src dst name =
      copy (join src name) (join dst name) >> change_mode (join dst name) 493

  abbrev install_script : FilePath → FilePath → String → Exec Fs (Unit {0})
  install_script src dst name fs =
      if is_file fs (join src name) && has_extension "sh" name
      then install_file src dst name fs
      else (ok tt, fs)

  abbrev install_lib_file : FilePath → FilePath → String → Exec Fs (Unit {0})
  install_lib_file src dst name fs =
      if is_file fs (join src name) then install_file src dst name fs else (ok tt, fs)

  abbrev install_lib : FilePath → FilePath → Exec Fs (Unit {0})
  install_lib lib_src lib_dst fs =
      if exists fs lib_src
      then (read_dir lib_src >>= for_each (install_lib_file lib_src lib_dst)) fs
      else (ok tt, fs)

  abbrev install_scripts_from : FilePath → Exec Fs (Unit {0})
  install_scripts_from test_scripts_src = do
    let bin_dst = join ctx.staging "usr/local/bin"
    let lib_dst = join ctx.staging "usr/local/lib/stage-tests"
    create_dir_all bin_dst
    create_dir_all lib_dst
    names ← read_dir test_scripts_src
    for_each (install_script test_scripts_src bin_dst) names
    install_lib (join test_scripts_src "lib") lib_dst

  -- The root of the file system has no parent.
  unfoldable pub install_stage_tests : Exec Fs (Unit {0})
  unfolding create_dir_all read_dir copy set_permissions
  install_stage_tests fs =
      let test_scripts_src = join (drop_last ctx.base_dir) "testing/install-tests/test-scripts" in
      if is_empty ctx.base_dir
      then (err (message "Cannot determine monorepo root" []), fs)
      else if not (exists fs test_scripts_src)
      then (err (message "Test scripts not found" (display test_scripts_src ∷ [])), fs)
      else install_scripts_from test_scripts_src fs
