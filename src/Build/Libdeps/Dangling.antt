-- ===== src/Build/Libdeps/Dangling.antt =====
-- src/build/libdeps.rs: `copy_file` where a link is in the way.
use leviso.Base.{String, ◌≡◌, refl, true, false, Option, none, some, clash, sym}
use leviso.Error.{io, ok, err, already_exists}
use leviso.Fs.Path.{FilePath, join, drop_last}
use leviso.Fs.State.{Fs, link}
use leviso.Fs.Ops.{
  exists, lexists, lstat, resolve, symlink, symlink_at, create_dir_all, at_place, is_some,
}
use leviso.Build.{BuildContext}
use leviso.Build.Libdeps.Trees.{copy_file, copy_missing}

symlink_at_occupied :
    (target : String) (o : Option FilePath) (fs : Fs)
    → is_some (at_place fs o) ≡ true
    → symlink_at target o fs ≡ (err (io already_exists), fs)
symlink_at_occupied target none fs h = clash (sym h)
symlink_at_occupied target (some q) fs h = rw h refl

-- Nothing is linked over what is there.
symlink_occupied :
    (target : String) (p : FilePath) (fs : Fs)
    → lexists fs p ≡ true
    → symlink target p fs ≡ (err (io already_exists), fs)
unfolding symlink lstat
symlink_occupied target p fs h = symlink_at_occupied target (resolve fs false p) fs h

copy_missing_dangling :
    (ctx : BuildContext) (src dst : FilePath) (fs : Fs) (target : String)
    → lstat fs src ≡ some (link target)
    → lexists fs dst ≡ true
    → exists fs dst ≡ false
    → copy_missing ctx src dst fs ≡ (err (io already_exists), fs)
copy_missing_dangling ctx src dst fs target l there gone =
    rw (gone, l) (symlink_occupied target dst fs there)

-- The defect of the test by `exists`: where the source is a link and the staging tree has a link at
-- the same path that leads nowhere, as a first copy leaves it, `copy_file` fails instead of keeping
-- that link. The directory of the path is there.
pub copy_file_dangling :
    (ctx : BuildContext) (rel_path target : String) (fs : Fs)
    → exists fs (join ctx.source rel_path) ≡ true
    → lstat fs (join ctx.source rel_path) ≡ some (link target)
    → create_dir_all (drop_last (join ctx.staging rel_path)) fs ≡ (ok tt, fs)
    → lexists fs (join ctx.staging rel_path) ≡ true
    → exists fs (join ctx.staging rel_path) ≡ false
    → copy_file ctx rel_path fs ≡ (err (io already_exists), fs)
unfolding copy_file
copy_file_dangling ctx rel_path target fs e l made there gone =
    rw
      (
        e,
        made,
        copy_missing_dangling ctx (join ctx.source rel_path) (join ctx.staging rel_path) fs target l
            there gone,
      )
      refl
