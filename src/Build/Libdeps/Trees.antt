-- ===== src/Build/Libdeps/Trees.antt =====
-- src/build/libdeps.rs: `copy_systemd_units`, `copy_dir_tree` and `copy_file`.
pub mod Kept
pub mod Landed
use leviso.Base.{
  List, String, ℕ, Bool, if◌then◌else◌, ◌∷◌, suc, not, ◌+◌, ◌&&◌, ◌<>◌, false, true, zero, [],
}
use leviso.Exec.{◌>>=◌, ◌>>◌, Exec, pure}
use leviso.Fs.Ops.{symlink, create_dir_all, exists, is_dir, is_symlink, read_link}
use leviso.Build.Libdeps.{out_of_fuel}
use leviso.Build.{BuildContext, FilePath, join, Exec, Fs, exists, ok}
use leviso.Fs.Path.{FilePath, join, drop_last}
use leviso.Fs.Copy.{copy, read_dir}
use leviso.Fs.State.{Fs}
use leviso.Error.{ok, err}

module _ (ctx : BuildContext) where
  abbrev units_dir : FilePath → FilePath
  units_dir root = join root "usr/lib/systemd/system"

  -- One turn of the loop of `copy_systemd_units`: how many units it copies.
  abbrev copy_unit : String → Exec Fs ℕ
  copy_unit unit fs =
      let src = join (units_dir ctx.source) unit in
      let dst = join (units_dir ctx.staging) unit in
      if exists fs src && not (exists fs dst) then (copy src dst >> pure 1) fs else (ok 0, fs)

  unfoldable pub copy_units : List String → Exec Fs ℕ
  unfolding copy
  copy_units [] = pure 0
  copy_units (unit ∷ units) = do n ← copy_unit unit; copied ← copy_units units; pure (n + copied)

  unfoldable pub copy_systemd_units : List String → Exec Fs ℕ
  unfolding copy_units create_dir_all
  copy_systemd_units units = create_dir_all (units_dir ctx.staging) >> copy_units units

  -- One entry of a directory; `again` copies a directory below.
  abbrev pub copy_entry : (String → Exec Fs ℕ) → String → String → Exec Fs ℕ
  copy_entry again rel_path name fs =
      let src_path = join (join ctx.source rel_path) name in
      let dst_path = join (join ctx.staging rel_path) name in
      if is_dir fs src_path
      then again (rel_path <> "/" <> name) fs
      else if is_symlink fs src_path
      then if not (exists fs dst_path) && not (is_symlink fs dst_path)
        then (read_link src_path >>= λ target. symlink target dst_path >> pure 1) fs
        else (ok 0, fs)
      else if not (exists fs dst_path)
      then (copy src_path dst_path >> pure 1) fs
      else (ok 0, fs)

  unfoldable pub copy_entries : (String → Exec Fs ℕ) → String → List String → Exec Fs ℕ
  unfolding copy symlink
  copy_entries again rel_path [] = pure 0
  copy_entries again rel_path (name ∷ names) = do
    n ← copy_entry again rel_path name
    count ← copy_entries again rel_path names
    pure (n + count)

  -- The fuel bounds how deep directories are nested.
  unfoldable pub copy_dir_tree : ℕ → String → Exec Fs ℕ
  unfolding copy_entries create_dir_all read_dir
  copy_dir_tree zero rel_path fs = (err out_of_fuel, fs)
  copy_dir_tree (suc fuel) rel_path fs =
      let again : String → Exec Fs ℕ = λ sub_rel. copy_dir_tree fuel sub_rel in
      let src = join ctx.source rel_path in
      let dst = join ctx.staging rel_path in
      let body : Exec Fs ℕ =
        create_dir_all dst >> read_dir src >>= λ names. copy_entries again rel_path names in
      if not (is_dir fs src) then (ok 0, fs) else body fs

  -- The part of `copy_file` behind the parent's directories.
  abbrev pub copy_missing : FilePath → FilePath → Exec Fs (Unit {0})
  copy_missing src dst fs =
      if exists fs dst
      then (ok tt, fs)
      else if is_symlink fs src
      then (read_link src >>= λ target. symlink target dst) fs
      else copy src dst fs

  unfoldable pub copy_file : String → Exec Fs Bool
  unfolding copy symlink create_dir_all
  copy_file rel_path fs =
      let src = join ctx.source rel_path in
      let dst = join ctx.staging rel_path in
      if not (exists fs src)
      then (ok false, fs)
      else (create_dir_all (drop_last dst) >> copy_missing src dst >> pure true) fs
