-- ===== src/Rebuild/Iso.antt =====
-- src/rebuild.rs: when the ISO image is built again.
use leviso.Base.{List, [], ◌∷◌, ◌≡◌, ◌↔◌, true, false, All, arith}
use leviso.Fs.Ops.{exists}
use leviso.Rebuild.{Cache, Names, iso_needs_rebuild, rootfs, live, initramfs, iso, vmlinuz}
use leviso.Fs.Path.{FilePath}
use leviso.Fs.State.{Fs}

module _ (cache : Cache) (names : Names) (base_dir : FilePath) where
  -- What goes into the image.
  abbrev pub iso_parts : List FilePath
  iso_parts =
      rootfs cache names base_dir
      ∷ initramfs cache names base_dir
      ∷ vmlinuz cache names base_dir
      ∷ []

  abbrev pub overlay_parts : List FilePath
  overlay_parts =
      live cache names base_dir "etc/shadow"
      ∷ live cache names base_dir "etc/systemd/system/getty@tty1.service.d/autologin.conf"
      ∷ live cache names base_dir "etc/systemd/system/serial-getty@.service.d/zz-autologin.conf"
      ∷ live cache names base_dir "etc/profile.d/live-docs.sh"
      ∷ live cache names base_dir "etc/profile.d/00-levitate-test.sh"
      ∷ []

  -- The image and its parts are there, and no part or file below profile/live-overlay is newer than the image.
  pub IsCurrent : Fs → Type 0
  IsCurrent fs =
      (exists fs (iso cache names base_dir) ≡ true)
      × All (λ p. exists fs p ≡ true) iso_parts
      × All (λ p. cache.is_newer fs p (iso cache names base_dir) ≡ false) iso_parts
      × All (λ p. cache.is_newer fs p (iso cache names base_dir) ≡ false) overlay_parts

  -- The image is built again exactly if it is not there, a part of it is not there, or a part or one
  -- of the five files below profile/live-overlay is newer. The overlay of the image is made from
  -- other files.
  pub iso_needs_rebuild-IsCurrent :
      (fs : Fs) → (iso_needs_rebuild cache names base_dir fs ≡ false) ↔ IsCurrent fs
  unfolding iso_needs_rebuild IsCurrent
  iso_needs_rebuild-IsCurrent fs = ground arith
