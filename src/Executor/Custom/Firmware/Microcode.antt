-- ===== src/Executor/Custom/Firmware/Microcode.antt =====
-- src/component/custom/firmware.rs: an image without microcode is refused.
use leviso.Base.{
  ◌≡◌, refl, String, List, [], ◌∷◌, true, arith, Bool-cases, inl, inr, not, ap, if◌then◌else◌, ◌∙◌,
}
use leviso.Error.{Error, Result, ok, err}
use leviso.Exec.{◌>>◌}
use leviso.Exec.Loops.{both, Reading}
use leviso.Fs.Path.{FilePath}
use leviso.Fs.State.{Fs}
use leviso.Fs.Ops.{exists}
use leviso.Fs.Copy.{read_dir}
use leviso.Build.{BuildContext}
use leviso.Executor.Custom.Outside.{Host}
use leviso.Executor.Custom.Firmware.{
  check_names, check_microcode, check_amd, check_intel, amd_ucode, intel_ucode, find_firmware,
  copy_all_firmware,
}
use mathlib.Core.Path.{subst}

-- A directory that is there and has an entry.
pub record Filled (fs : Fs) (dir : FilePath) : Type 0 where
  pub there : exists fs dir ≡ true
  pub name : String
  pub more : List String
  pub lists : (read_dir dir fs).0 ≡ ok (name ∷ more)

module _ (missing empty : Error) (dir : FilePath) where
  check_names-kept :
      (r : Result (List String)) (a b : Fs) → check_names empty (r, a) ≡ (ok tt, b) → a ≡ b
  check_names-kept (err e) a b h = cc
  check_names-kept (ok []) a b h = cc
  check_names-kept (ok (name ∷ more)) a b h = ap (λ p. p.1) h

  check_microcode-Reading : Reading (check_microcode missing empty dir)
  unfolding read_dir
  check_microcode-Reading a b h = ground (arith, check_names-kept (read_dir dir a).0 a b)

  filled :
      (r : Result (List String)) (fs t : Fs)
      → (read_dir dir fs).0 ≡ r
      → exists fs dir ≡ true
      → check_names empty (r, fs) ≡ (ok tt, t)
      → Filled fs dir
  filled (err e) fs t r x h = cc
  filled (ok []) fs t r x h = cc
  filled (ok (name ∷ more)) fs t r x h = record { there = x; name = name; more = more; lists = r }

  check_microcode-Filled :
      (fs t : Fs) → check_microcode missing empty dir fs ≡ (ok tt, t) → Filled fs dir
  unfolding read_dir
  check_microcode-Filled fs t h = elim (Bool-cases (exists fs dir)) [
    | inl x ↦ filled (read_dir dir fs).0 fs t refl x (
        subst
          (λ b.
            (if not b then (err missing, fs) else check_names empty (read_dir dir fs)) ≡ (ok tt, t))
          x h)
    | inr x ↦ ground arith
  ]

module _ (host : Host) (ctx : BuildContext) where
  -- Where the copy of all firmware returns `ok`, the microcode directories of both vendors are in
  -- the staging tree, and neither is empty.
  pub copy_all_firmware-Filled :
      (fs t : Fs)
      → copy_all_firmware host ctx fs ≡ (ok tt, t)
      → Filled t (amd_ucode host ctx) × Filled t (intel_ucode host ctx)
  unfolding copy_all_firmware
  copy_all_firmware-Filled fs t h =
      let amd = amd_ucode host ctx in
      let intel = intel_ucode host ctx in
      let (_, c, h, i) =
        both (find_firmware host ctx >> check_amd host ctx) (check_intel host ctx) h in
      let (_, b, _, a) = both (find_firmware host ctx) (check_amd host ctx) h in
      let kept = check_microcode-Reading _ _ intel c t i in
      (
        subst (λ s. Filled s amd) (check_microcode-Reading _ _ amd b c a ∙ kept)
            (check_microcode-Filled _ _ amd b c a),
        subst (λ s. Filled s intel) kept (check_microcode-Filled _ _ intel c t i),
      )
