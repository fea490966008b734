-- ===== src/Tests/Cleaning.antt =====
-- Cleaning a small project.
use leviso.Base.{◌++◌, ◌∷◌, [], ◌≡◌, refl, true}
use leviso.Clean.{Env, clean_iso, remove_if_exists, clean_outputs, CleanTarget, cmd_clean}
use leviso.Fs.Path.{FilePath}
use leviso.Clean.Gone.{Cleans, clean_outputs-keeps, removals_of, cmd_clean-Cleans}
use leviso.Fs.Ops.{resolve, remove_file, remove_dir_all, stat, lstat, lexists}
use leviso.Fs.Walk.{walk}
use leviso.Fs.State.{node_at}
use leviso.Error.{ok}
use leviso.Tests.Data.{disk}
use leviso.Fs.Table.{erase, erase_tree}
use leviso.Fs.Removal.{Within-refl}

abbrev env : Env
env = record {
  efiboot_filename = "efiboot.img";
  initramfs_build_dir = "initramfs-live-root";
  initramfs_filename = "initramfs.img";
  initramfs_live_output = "initramfs-live.cpio.gz";
  iso_checksum_suffix = ".sha512";
  iso_filename = "levitateos.iso";
  rootfs_name = "filesystem.erofs";
  output_dir = λ base. base ++ ("output" ∷ []);
  clear_cache = λ s. (ok tt, s);
}

abbrev base : FilePath
base = "base" ∷ []

cmd_clean-Cleans_example :
    Cleans (removals_of env base CleanTarget.iso) disk (cmd_clean env base CleanTarget.iso disk)
cmd_clean-Cleans_example = cmd_clean-Cleans env base CleanTarget.iso disk (λ u. Within-refl u)

clean_outputs-keeps_example :
    node_at (clean_outputs env base disk).1 ("base" ∷ "downloads" ∷ "rocky.iso" ∷ [])
    ≡ node_at disk ("base" ∷ "downloads" ∷ "rocky.iso" ∷ [])
unfolding resolve walk node_at
clean_outputs-keeps_example =
    clean_outputs-keeps env base ("base" ∷ "output" ∷ []) ("base" ∷ "downloads" ∷ "rocky.iso" ∷ [])
      disk refl refl

-- The ISO goes, and the checksum link that led to it is left, since it leads nowhere by then.
iso_cleaned :
    lexists (clean_iso env base disk).1 ("base" ∷ "output" ∷ "levitateos.sha512" ∷ []) ≡ true
unfolding clean_iso remove_if_exists remove_file remove_dir_all resolve walk node_at stat lstat
    erase erase_tree
iso_cleaned = refl
