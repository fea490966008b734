-- ===== src/Artifact/Iso/Accepted.antt =====
-- src/artifact/iso.rs: an image that is made without an error was accepted.
use leviso.Base.{◌≡◌, ◌↔◌, refl, true, ap, ◌∙◌, sym, arith}
use leviso.Error.{ok}
use leviso.Exec.{continue, Exec}
use leviso.Exec.Loops.{both, reads-ok}
use leviso.Fs.Path.{FilePath}
use leviso.Fs.State.{Fs}
use leviso.Executor.Custom.Outside.{Host}
use leviso.Artifact.Kit.{Kit, Opened, unreadable, checked, Report}
use leviso.Artifact.Iso.{create_iso, place_iso, verify_iso, verdict_of, paths}

-- The image could be read, and every item of the checklist is in it.
pub data IsAccepted : Opened → Type 0 where
  accepted : (report : Report) → report.is_success ≡ true → IsAccepted (checked report)

verdict_of-IsAccepted : (o : Opened) → verdict_of o ≡ ok tt → IsAccepted o
verdict_of-IsAccepted (unreadable e) h = ground arith
verdict_of-IsAccepted (checked report) h = accepted report (ground arith)

IsAccepted-verdict_of : (o : Opened) → IsAccepted o → verdict_of o ≡ ok tt
IsAccepted-verdict_of o (accepted report h) = rw h refl

module _ (kit : Kit) (host : Host) (base_dir : FilePath) where
  abbrev pub opened : Fs → Opened
  opened fs = kit.check_iso fs (paths kit host base_dir).iso_output

  abbrev verify : Exec Fs (Unit {0})
  verify = verify_iso kit (paths kit host base_dir).iso_output

  verify_iso-verdict : (t : Fs) → verify t ≡ (verdict_of (opened t), t)
  unfolding verify_iso
  verify_iso-verdict t = refl

  create_iso-verified :
      (fs t : Fs)
      → create_iso kit host base_dir fs ≡ (ok tt, t)
      → (s : Fs) × (place_iso kit host base_dir fs ≡ (ok tt, s)) × (verify s ≡ (ok tt, t))
  unfolding create_iso
  create_iso-verified fs t h =
      let (_, s, p, v) = both (place_iso kit host base_dir) verify h in (s, p, v)

  -- Once the image is in its place, `create_iso` returns what the verification says of it.
  pub create_iso-placed :
      (fs t : Fs)
      → place_iso kit host base_dir fs ≡ (ok tt, t)
      → create_iso kit host base_dir fs ≡ (verdict_of (opened t), t)
  unfolding create_iso
  create_iso-placed fs t p = ap (λ r. continue r (λ _. verify)) p ∙ verify_iso-verdict t

  create_iso-checked :
      (fs t : Fs)
      → create_iso kit host base_dir fs ≡ (ok tt, t)
      → (place_iso kit host base_dir fs ≡ (ok tt, t)) × IsAccepted (opened t)
  create_iso-checked fs t h =
      let (s, p, v) = create_iso-verified fs t h in
      let (passed, same) = reads-ok (sym (verify_iso-verdict s) ∙ v) in
      (
        p ∙ ap (λ u. (ok tt, u)) same,
        verdict_of-IsAccepted (opened t) (ap (λ u. verdict_of (opened u)) (sym same) ∙ passed),
      )

  -- The ISO is made without an error exactly if its stages up to the move to the final place
  -- succeed, and then the image in that place can be read and holds every item of the checklist.
  pub create_iso-IsAccepted :
      (fs t : Fs)
      → (create_iso kit host base_dir fs ≡ (ok tt, t))
        ↔ ((place_iso kit host base_dir fs ≡ (ok tt, t)) × IsAccepted (opened t))
  create_iso-IsAccepted fs t = (
    create_iso-checked fs t,
    λ (p, a). create_iso-placed fs t p ∙ ap (λ r. (r, t)) (IsAccepted-verdict_of (opened t) a),
  )
