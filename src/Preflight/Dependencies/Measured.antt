-- ===== src/Preflight/Dependencies/Measured.antt =====
-- src/preflight/dependencies.rs: when the image of Rocky Linux passes, spelled out.
use leviso.Base.{
  String, [], ◌∷◌, ◌≡◌, refl, true, false, ◌&&◌, Option, none, some, ◌≤◌, ◌*◌, ◌^◌, arith, sym, ◌∙◌,
  ap, Bool, Bool-cases, inl, inr, ◌++◌, if◌then◌else◌,
}
use leviso.Fs.Path.{FilePath, join, components}
use leviso.Fs.State.{Fs, Node}
use leviso.Fs.Ops.{exists, stat}
use leviso.Preflight.{warn_with, note}
use leviso.Preflight.HostTools.Required.{is_failed}
use leviso.Preflight.Validators.{good}
use leviso.Preflight.Dependencies.{
  Dependencies, check_rocky, validate_rocky_iso_size, len_of, iso_of, of_iso_size, size_of, size_at,
}

append-append : (p : FilePath) (x y : String) → (p ++ (x ∷ [])) ++ (y ∷ []) ≡ p ++ (x ∷ y ∷ [])
append-append [] x y = refl
append-append (z ∷ p) x y = ap (λ r. z ∷ r) (append-append p x y)

module _ (deps : Dependencies) (base_dir : FilePath) (fs : Fs) where
  abbrev pub rocky_iso : FilePath
  rocky_iso = join base_dir "downloads/Rocky-10.1-x86_64-dvd1.iso"

  -- The image and both of its extracted trees are there.
  abbrev pub is_extracted : Bool
  is_extracted =
      exists fs rocky_iso
      && exists fs (join base_dir "downloads/rootfs")
      && exists fs (join base_dir "downloads/iso-contents")

  -- The image that is measured: the one that the environment names, or the one in downloads.
  abbrev pub measured_iso : Option String → FilePath
  measured_iso (some path) = components path
  measured_iso none = rocky_iso

  -- An extracted image has at least seven gigabytes; one that is not extracted is not measured.
  pub data IsRocky : Type 0 where
    unextracted : is_extracted ≡ false → IsRocky
    whole :
        (n : Node)
        → is_extracted ≡ true
        → stat fs (measured_iso (deps.env_var "ROCKY_ISO_PATH")) ≡ some n
        → 7 * 2 ^ 30 ≤ len_of deps n
        → IsRocky

  there : is_extracted ≡ true → exists fs rocky_iso ≡ true
  there h = ground arith

  in_downloads : join (join base_dir "downloads") "Rocky-10.1-x86_64-dvd1.iso" ≡ rocky_iso
  in_downloads = append-append base_dir _ _

  iso_known :
      (env : Option String)
      → is_extracted ≡ true
      → iso_of deps env (join base_dir "downloads") fs ≡ good (measured_iso env)
  iso_known (some path) h = refl
  iso_known none h = rw in_downloads (rw (there h) refl)

  abbrev SizeIsGood : Option Node → Type 0
  SizeIsGood o = is_failed (of_iso_size deps (size_of deps o)) ≡ false

  measured :
      (o : Option Node) → SizeIsGood o → (n : Node) × (o ≡ some n) × (7 * 2 ^ 30 ≤ len_of deps n)
  measured none h = absurd cc
  measured (some n) h = (n, refl, at_least n h)
    where
      at_least : (n : Node) → SizeIsGood (some n) → 7 * 2 ^ 30 ≤ len_of deps n
      at_least n h = ground arith

  large : (n : Node) → 7 * 2 ^ 30 ≤ len_of deps n → SizeIsGood (some n)
  large n h = ground arith

  rocky_measured :
      is_extracted ≡ true
      → check_rocky deps base_dir fs
        ≡ of_iso_size deps (size_of deps (stat fs (measured_iso (deps.env_var "ROCKY_ISO_PATH"))))
  unfolding check_rocky validate_rocky_iso_size
  rocky_measured h =
      rw h (
        ap (λ v. of_iso_size deps (size_at deps v fs))
          (iso_known (deps.env_var "ROCKY_ISO_PATH") h))

  only_warned :
      (b : Bool)
      → is_failed (
          if b
          then warn_with "Rocky (recipe)" (note "ISO found but not extracted")
          else warn_with "Rocky (recipe)" (note "Not found - run 'leviso download rocky'"))
        ≡ false
  only_warned true = refl
  only_warned false = refl

  rocky_unmeasured : is_extracted ≡ false → is_failed (check_rocky deps base_dir fs) ≡ false
  unfolding check_rocky
  rocky_unmeasured h = rw h (only_warned (exists fs rocky_iso))

  pub rocky-IsRocky : is_failed (check_rocky deps base_dir fs) ≡ false → IsRocky
  rocky-IsRocky h = elim (Bool-cases is_extracted) [
    | inl e ↦
        let (n, s, l) = measured _ (ap is_failed (sym (rocky_measured e)) ∙ h) in whole n e s l
    | inr e ↦ unextracted e
  ]

  pub IsRocky-rocky : IsRocky → is_failed (check_rocky deps base_dir fs) ≡ false
  IsRocky-rocky (unextracted h) = rocky_unmeasured h
  IsRocky-rocky (whole n x s l) =
      ap is_failed (rocky_measured x)
      ∙ ap (λ o. is_failed (of_iso_size deps (size_of deps o))) s
      ∙ large n l
