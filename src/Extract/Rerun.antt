-- ===== src/Extract/Rerun.antt =====
-- src/extract.rs: what a second extraction does after one in which unsquashfs failed. The directories
-- are made before the programs that fill them run.
use leviso.Base.{
  String, List, ◌≡◌, true, false, Bool-cases, inl, inr, ap, ◌∙◌, some, [], ◌∷◌, ◌<>◌, refl,
}
use leviso.Error.{Result, ok, err, message}
use leviso.Exec.{continue, Exec}
use leviso.Exec.Loops.{both}
use leviso.Fs.Path.{FilePath, join, display}
use leviso.Fs.State.{Fs}
use leviso.Fs.Ops.{exists, create_dir_all}
use leviso.Fs.Kept.{exists-Keeps}
use leviso.Fs.Kept.Steps.{create_dir_all-Keeping}
use leviso.Fs.Kept.Directories.{create_dir_all-there}
use leviso.Extract.{
  Programs, extract_rocky_iso, iso_contents, rootfs_dir, extract_contents, extract_rootfs,
  find_first, squashfs_candidates, unsquash,
}
use mathlib.Core.Path.{subst}

-- `7z` and `unsquashfs` remove nothing.
pub record RemoveNothing (programs : Programs) : Type 0 where
  pub interactive :
      (program : String) (args : List String) (msg : String) (s : Fs) (p : FilePath)
      → exists s p ≡ true
      → exists (programs.run_interactive program args msg s).1 p ≡ true
  pub allow_fail :
      (program : String) (args : List String) (s : Fs) (p : FilePath)
      → exists s p ≡ true
      → exists (programs.run_allow_fail program args s).1 p ≡ true

module _ (programs : Programs) (base_dir iso_path : FilePath) (laws : RemoveNothing programs) where
  abbrev contents : FilePath
  contents = iso_contents programs base_dir

  abbrev rootfs : FilePath
  rootfs = rootfs_dir programs base_dir

  abbrev unpack : Exec Fs (Unit {0})
  unpack =
      programs.run_interactive "7z"
        ("x" ∷ "-y" ∷ display iso_path ∷ ("-o" <> display contents) ∷ [])
        "7z extraction failed. Install: sudo dnf install p7zip-plugins"

  abbrev unsquash_args : FilePath → List String
  unsquash_args image = "-d" ∷ display rootfs ∷ "-f" ∷ "-no-xattrs" ∷ display image ∷ []

  -- After the first step the contents are there, and what was there before.
  after_contents :
      (fs a : Fs)
      → extract_contents programs base_dir iso_path fs ≡ (ok tt, a)
      → (exists a contents ≡ true) × ((p : FilePath) → exists fs p ≡ true → exists a p ≡ true)
  after_contents fs a h = elim (Bool-cases (exists fs contents)) [
    | inl e ↦
        let k = rw e at h in
        let same = ap (λ r. r.1) k in
        (subst (λ u. exists u contents ≡ true) same e, λ p x. subst (λ u. exists u p ≡ true) same x)
    | inr e ↦
        let k = rw e at h in
        let (_, m, d, r) = both (create_dir_all contents) unpack k in
        let last = ap (λ r. r.1) r in
        let made = ap (λ r. r.1) d in
        (
          subst (λ u. exists u contents ≡ true) last
              (laws.interactive _ _ _ m contents (create_dir_all-there contents fs m d)),
          λ p x.
              subst (λ u. exists u p ≡ true) last
                (laws.interactive _ _ _ m p (
                  subst (λ u. exists u p ≡ true) made
                    (exists-Keeps fs _ (create_dir_all-Keeping contents fs) p x))),
        )
  ]

  all_there :
      (c : Fs)
      → exists c iso_path ≡ true
      → exists c contents ≡ true
      → exists c rootfs ≡ true
      → extract_rocky_iso programs base_dir iso_path c ≡ (ok tt, c)
  unfolding extract_rocky_iso
  all_there c i d r = rw (i, d, r) refl

  module _ (fs a b c : Fs) (image : FilePath) (stderr : String) where
    unsquash_fails :
        create_dir_all rootfs a ≡ (ok tt, b)
        → programs.run_allow_fail "unsquashfs" (unsquash_args image) b ≡ (ok (false, stderr), c)
        → exists c (join rootfs "usr") ≡ false
        → unsquash programs base_dir (some image) a
          ≡ (err (message "unsquashfs failed." (stderr ∷ [])), c)
    unsquash_fails m u x = rw (m, u, x) refl

    rootfs_fails :
        exists a rootfs ≡ false
        → find_first a (squashfs_candidates programs base_dir) ≡ some image
        → {r : Result (Unit {0}) × Fs} → unsquash programs base_dir (some image) a ≡ r
        → extract_rootfs programs base_dir a ≡ r
    rootfs_fails n f h = rw n (ap (λ o. unsquash programs base_dir o a) f ∙ h)

    fails :
        exists fs iso_path ≡ true
        → extract_contents programs base_dir iso_path fs ≡ (ok tt, a)
        → exists a rootfs ≡ false
        → find_first a (squashfs_candidates programs base_dir) ≡ some image
        → create_dir_all rootfs a ≡ (ok tt, b)
        → programs.run_allow_fail "unsquashfs" (unsquash_args image) b ≡ (ok (false, stderr), c)
        → exists c (join rootfs "usr") ≡ false
        → extract_rocky_iso programs base_dir iso_path fs
          ≡ (err (message "unsquashfs failed." (stderr ∷ [])), c)
    unfolding extract_rocky_iso
    fails i e n f m u x = rw i (
        ap (λ r. continue r (λ _. extract_rootfs programs base_dir)) e
        ∙ rootfs_fails n f (unsquash_fails m u x))

    -- The defect of the test by the directories alone. The programs remove nothing. In an extraction
    -- that finds no root file system, `unsquashfs` fails and leaves no `usr`: the extraction ends
    -- with that error, and the next one, on the disk that is left, runs no program, changes nothing
    -- and returns `ok`.
    pub extract_rocky_iso_again :
        exists fs iso_path ≡ true
        → extract_contents programs base_dir iso_path fs ≡ (ok tt, a)
        → exists a rootfs ≡ false
        → find_first a (squashfs_candidates programs base_dir) ≡ some image
        → create_dir_all rootfs a ≡ (ok tt, b)
        → programs.run_allow_fail "unsquashfs" (unsquash_args image) b ≡ (ok (false, stderr), c)
        → exists c (join rootfs "usr") ≡ false
        → (extract_rocky_iso programs base_dir iso_path fs
            ≡ (err (message "unsquashfs failed." (stderr ∷ [])), c))
          × (extract_rocky_iso programs base_dir iso_path c ≡ (ok tt, c))
    extract_rocky_iso_again i e n f m u x =
        let (d, keep) = after_contents fs a e in
        let there : (p : FilePath) → exists b p ≡ true → exists c p ≡ true =
          λ p y. subst (λ v. exists v p ≡ true) (ap (λ r. r.1) u) (laws.allow_fail _ _ b p y) in
        let made : (p : FilePath) → exists a p ≡ true → exists b p ≡ true = λ p y.
          subst (λ v. exists v p ≡ true) (ap (λ r. r.1) m)
            (exists-Keeps a _ (create_dir_all-Keeping rootfs a) p y) in
        (
          fails i e n f m u x,
          all_there c (there iso_path (made iso_path (keep iso_path i)))
              (there contents (made contents d)) (there rootfs (create_dir_all-there rootfs a b m)),
        )
