-- ===== src/Extract.antt =====
-- src/extract.rs and src/commands/extract.rs: the extraction of the image of Rocky Linux.
pub mod Rerun
use leviso.Base.{
  String, ◌<>◌, List, [], ◌∷◌, Bool, true, false, not, ◌&&◌, Option, none, some, if◌then◌else◌,
}
use leviso.Error.{Error, Result, ok, err, message}
use leviso.Exec.{Exec, ◌>>=◌, ◌>>◌, pure, fail}
use leviso.Fs.Path.{FilePath, join, display}
use leviso.Fs.State.{Fs}
use leviso.Fs.Ops.{exists, create_dir_all}
use leviso.Recipe.{RecipeKit, rocky}
use leviso.Executor.Custom.Outside.{Host}

-- `Cmd` of distro-builder: a run that fails with a message, and one that returns whether the program
-- succeeded and what it printed as an error.
pub record Programs : Type 0 where
  pub run_interactive : String → List String → String → Exec Fs (Unit {0})
  pub run_allow_fail : String → List String → Exec Fs (Bool × String)

abbrev pub find_first : Fs → List FilePath → Option FilePath
find_first fs [] = none
find_first fs (p ∷ ps) = let rest = find_first fs ps in if exists fs p then some p else rest

module _ (programs : Programs) (base_dir : FilePath) where
  abbrev pub iso_contents : FilePath
  iso_contents = join (join base_dir "downloads") "iso-contents"

  abbrev pub rootfs_dir : FilePath
  rootfs_dir = join (join base_dir "downloads") "rootfs"

  abbrev pub extract_iso : FilePath → Exec Fs (Unit {0})
  extract_iso iso_path = do
    create_dir_all iso_contents
    programs.run_interactive "7z"
        ("x" ∷ "-y" ∷ display iso_path ∷ ("-o" <> display iso_contents) ∷ [])
        "7z extraction failed. Install: sudo dnf install p7zip-plugins"

  abbrev pub extract_contents : FilePath → Exec Fs (Unit {0})
  extract_contents iso_path fs =
      if not (exists fs iso_contents) then extract_iso iso_path fs else (ok tt, fs)

  abbrev pub squashfs_candidates : List FilePath
  squashfs_candidates =
      join iso_contents "images/install.img"
      ∷ join iso_contents "LiveOS/squashfs.img"
      ∷ join iso_contents "LiveOS/rootfs.img"
      ∷ []

  abbrev pub check_unsquashed : Bool × String → Exec Fs (Unit {0})
  check_unsquashed (success, stderr) fs =
      if not success && not (exists fs (join rootfs_dir "usr"))
      then (err (message "unsquashfs failed." (stderr ∷ [])), fs)
      else (ok tt, fs)

  abbrev pub check_chmod : Bool × String → Exec Fs (Unit {0})
  check_chmod (success, stderr) =
      if not success
      then fail (message "Could not fix permissions on extracted rootfs." (display rootfs_dir ∷ []))
      else pure tt

  abbrev pub unsquash : Option FilePath → Exec Fs (Unit {0})
  unsquash none = fail (message "Could not find squashfs image in ISO" [])
  unsquash (some squashfs_path) = do
    create_dir_all rootfs_dir
    result ←
        programs.run_allow_fail "unsquashfs"
          ("-d" ∷ display rootfs_dir ∷ "-f" ∷ "-no-xattrs" ∷ display squashfs_path ∷ [])
    check_unsquashed result
    chmod_result ← programs.run_allow_fail "chmod" ("-R" ∷ "u+rwX" ∷ display rootfs_dir ∷ [])
    check_chmod chmod_result

  abbrev pub extract_rootfs : Exec Fs (Unit {0})
  extract_rootfs fs =
      if not (exists fs rootfs_dir)
      then unsquash (find_first fs squashfs_candidates) fs
      else (ok tt, fs)

  unfoldable pub extract_rocky_iso : FilePath → Exec Fs (Unit {0})
  unfolding create_dir_all
  extract_rocky_iso iso_path fs =
      if not (exists fs iso_path)
      then (err (message "Rocky DVD ISO not found" (display iso_path ∷ [])), fs)
      else (extract_contents iso_path >> extract_rootfs) fs

-- `ExtractTarget`
pub data ExtractTarget : Type 0 where
  rocky_iso : ExtractTarget
  rootfs : Option FilePath → ExtractTarget

module _ (programs : Programs) (kit : RecipeKit) (rootfs_name : String) (base_dir : FilePath) where
  abbrev output_or : Option FilePath → FilePath
  output_or (some output) = output
  output_or none = join (kit.output_dir base_dir) "rootfs-extracted"

  abbrev extract_image : FilePath → Exec Fs (Unit {0})
  extract_image output fs =
      let image = join (kit.output_dir base_dir) rootfs_name in
      if not (exists fs image)
      then (err (message "Rootfs not found. Run 'leviso build rootfs' first." []), fs)
      else programs.run_interactive "fsck.erofs" ("--extract" ∷ display output ∷ display image ∷ [])
          "fsck.erofs failed. Install: sudo dnf install erofs-utils" fs

  unfoldable pub cmd_extract : ExtractTarget → Exec Fs (Unit {0})
  unfolding rocky extract_rocky_iso
  cmd_extract rocky_iso =
      rocky kit base_dir >>= λ paths. extract_rocky_iso programs base_dir paths.iso
  cmd_extract (rootfs output) = extract_image (output_or output)
