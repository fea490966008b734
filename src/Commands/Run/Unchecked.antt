-- ===== src/Commands/Run/Unchecked.antt =====
-- src/commands/run.rs: `leviso run` takes an image that its verification has rejected.
use leviso.Base.{◌≡◌, refl, true, ap, ◌∙◌}
use leviso.Error.{Error, ok, err}
use leviso.Fs.Path.{FilePath}
use leviso.Fs.State.{Fs}
use leviso.Fs.Ops.{exists}
use leviso.Artifact.Iso.{create_iso, place_iso, verdict_of}
use leviso.Artifact.Iso.Accepted.{opened, create_iso-placed}
use leviso.Commands.Build.{System, out}
use leviso.Commands.Run.{ensure_iso_built}

module _ (sys : System) (base_dir : FilePath) where
  ensure_iso_built-there :
      (t : Fs)
      → exists t (out sys base_dir sys.kit.names.iso_filename) ≡ true
      → ensure_iso_built sys base_dir t ≡ (ok tt, t)
  unfolding ensure_iso_built
  ensure_iso_built-there t h = rw h refl

  -- The defect of the order of the move and the verification: where the image is in its final place
  -- and its verification fails, `create_iso` returns that error and leaves the image there, and the
  -- next `leviso run` takes it as it is.
  pub create_iso_rejected :
      (fs t : Fs) (e : Error)
      → place_iso sys.kit sys.host base_dir fs ≡ (ok tt, t)
      → exists t (out sys base_dir sys.kit.names.iso_filename) ≡ true
      → verdict_of (opened sys.kit sys.host base_dir t) ≡ err e
      → (create_iso sys.kit sys.host base_dir fs ≡ (err e, t))
        × (ensure_iso_built sys base_dir t ≡ (ok tt, t))
  create_iso_rejected fs t e p there rejected = (
    create_iso-placed sys.kit sys.host base_dir fs t p ∙ ap (λ r. (r, t)) rejected,
    ensure_iso_built-there t there,
  )
