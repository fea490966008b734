-- ===== src/Executor/Binaries.antt =====
-- src/component/executor/binaries.rs
pub mod Missing
pub mod Tracked
use leviso.Base.{List, ℕ, String, Bool, if◌then◌else◌, true, not, ◌∷◌, is_empty, ◌&&◌, ◌||◌, []}
use leviso.Exec.{◌>>=◌, ◌>>◌, Exec, pure, for_each, fail, continue}
use leviso.Fs.Ops.{symlink, create_dir_all, remove_file, exists, is_file, is_symlink, read_link}
use leviso.Component.Types.{Dest, bin, sbin}
use leviso.Build.{Externals, BuildContext, World, register, of_binary, on_fs}
use leviso.Build.Libdeps.{copy_bash, copy_binary_with_libs, copy_sbin_binary_with_libs}
use leviso.Fs.Path.{FilePath, join, drop_last}
use leviso.Fs.State.{Fs}
use leviso.Fs.Copy.{copy, read_dir}
use leviso.Text.{starts_with, codes, ends_with}
use leviso.Error.{Result, ok, err, message}

module _ (ext : Externals) (fuel : ℕ) (ctx : BuildContext) where
  -- `match dest { … }`
  unfoldable pub copy_to_dest : Dest → String → Exec World Bool
  unfolding copy_binary_with_libs copy_sbin_binary_with_libs
  copy_to_dest bin name = copy_binary_with_libs ext ctx fuel name "usr/bin" true
  copy_to_dest sbin name = copy_sbin_binary_with_libs ext ctx fuel name true

  unfoldable pub handle_bin : String → Dest → Exec World (Unit {0})
  unfolding copy_to_dest
  handle_bin name dest = do
    found ← copy_to_dest dest name
    if not found then fail (message "not found" (name ∷ [])) else pure tt

  -- The loop of `handle_bins`: the names that are not found, in their order.
  unfoldable pub copy_all : Dest → List String → Exec World (List String)
  unfolding copy_to_dest
  copy_all dest [] = pure []
  copy_all dest (name ∷ names) = do
    found ← copy_to_dest dest name
    missing ← copy_all dest names
    pure (if not found then name ∷ missing else missing)

  unfoldable pub handle_bins : List String → Dest → Exec World (Unit {0})
  unfolding copy_all
  handle_bins names dest = do
    missing ← copy_all dest names
    if not (is_empty missing) then fail (message "Missing binaries" missing) else pure tt

module _ (ext : Externals) (ctx : BuildContext) where
  unfoldable pub handle_bash : Exec World (Unit {0})
  unfolding copy_bash
  handle_bash = copy_bash ext ctx true

  -- 0o755 through leviso-elf
  abbrev install : FilePath → FilePath → Exec Fs (Unit {0})
  install src dst = copy src dst >> ext.make_executable dst

  abbrev install_if_there : FilePath → FilePath → Exec Fs (Unit {0})
  install_if_there src dst fs = if exists fs src then install src dst fs else (ok tt, fs)

  abbrev copy_main_binary : Exec Fs (Unit {0})
  copy_main_binary fs =
      let src = join ctx.source "usr/lib/systemd/systemd" in
      let dst = join ctx.staging "usr/lib/systemd/systemd" in
      if exists fs src then (create_dir_all (drop_last dst) >> install src dst) fs else (ok tt, fs)

  abbrev copy_helper : String → Exec Fs (Unit {0})
  copy_helper binary =
      install_if_there (join (join ctx.source "usr/lib/systemd") binary)
        (join (join ctx.staging "usr/lib/systemd") binary)

  abbrev is_private_lib : String → Bool
  is_private_lib name =
      starts_with (codes "libsystemd-") (codes name) && ends_with (codes ".so") (codes name)

  abbrev copy_private_lib : FilePath → String → Exec Fs (Unit {0})
  copy_private_lib src_dir name fs =
      if is_private_lib name
      then copy (join src_dir name) (join (join ctx.staging "usr/lib64/systemd") name) fs
      else (ok tt, fs)

  abbrev copy_private_libs : Exec Fs (Unit {0})
  copy_private_libs fs =
      let src_dir = join ctx.source "usr/lib64/systemd" in
      let body : Exec Fs (Unit {0}) =
        create_dir_all (join ctx.staging "usr/lib64/systemd") >> read_dir src_dir >>= λ names.
        for_each (copy_private_lib src_dir) names in
      if exists fs src_dir then body fs else (ok tt, fs)

  abbrev copy_generator : FilePath → FilePath → String → Exec Fs (Unit {0})
  copy_generator src_dir dst_dir name fs =
      let src = join src_dir name in
      let dst = join dst_dir name in
      if is_file fs src && not (exists fs dst) then install src dst fs else (ok tt, fs)

  abbrev copy_generators : Exec Fs (Unit {0})
  copy_generators fs =
      let src_dir = join ctx.source "usr/lib/systemd/system-generators" in
      let dst_dir = join ctx.staging "usr/lib/systemd/system-generators" in
      let body : Exec Fs (Unit {0}) = create_dir_all dst_dir >> read_dir src_dir >>= λ names.
      for_each (copy_generator src_dir dst_dir) names in
      if exists fs src_dir then body fs else (ok tt, fs)

  unfoldable pub handle_systemd_binaries : List String → Exec World (Unit {0})
  unfolding create_dir_all copy read_dir
  handle_systemd_binaries binaries =
      register (of_binary "systemd")
      >> on_fs (
          copy_main_binary >> for_each copy_helper binaries >> copy_private_libs >> copy_generators)

module _ (ctx : BuildContext) where
  abbrev replace_link : FilePath → FilePath → Exec Fs (Unit {0})
  replace_link src dst fs =
      let make : String → Exec Fs (Unit {0}) = λ target s.
        let removed : Result (Unit {0}) × Fs =
          if exists s dst || is_symlink s dst then remove_file dst s else (ok tt, s) in
        continue removed (λ _. symlink target dst) in
      (read_link src >>= make) fs

  abbrev copy_sudo_lib : FilePath → FilePath → String → Exec Fs (Unit {0})
  copy_sudo_lib src_dir dst_dir lib fs =
      let src = join src_dir lib in
      let dst = join dst_dir lib in
      if is_symlink fs src
      then replace_link src dst fs
      else if exists fs src
      then copy src dst fs
      else (ok tt, fs)

  abbrev copy_sudo_libs : List String → Exec Fs (Unit {0})
  copy_sudo_libs libs fs =
      let src_dir = join ctx.source "usr/libexec/sudo" in
      let dst_dir = join ctx.staging "usr/libexec/sudo" in
      if not (exists fs src_dir)
      then (err (message "sudo libexec not found at" src_dir), fs)
      else (create_dir_all dst_dir >> for_each (copy_sudo_lib src_dir dst_dir) libs) fs

  unfoldable pub handle_sudo_libs : List String → Exec World (Unit {0})
  unfolding create_dir_all copy symlink remove_file
  handle_sudo_libs libs = register (of_binary "sudo") >> on_fs (copy_sudo_libs libs)
