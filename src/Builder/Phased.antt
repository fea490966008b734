-- ===== src/Builder/Phased.antt =====
-- src/component/builder.rs: what a build that fails has installed, by phases.
use leviso.Base.{◌≡◌, All, ℕ}
use leviso.Error.{Error, ok, err}
use leviso.Exec.Loops.{Stopped}
use leviso.Component.Types.{◌≤ᵖ◌}
use leviso.Component.Spec.{Spec}
use leviso.Builder.{all_installables, build_system}
use leviso.Builder.Order.{Ascending, Ascending-split, all_installables-Ascending}
use leviso.Builder.Run.{
  install_one, install_all, licenses, Failure, in_op, in_licenses, build_system-Failure,
}
use leviso.Build.{Externals, BuildContext, World}
use leviso.Executor.Custom.Outside.{Host}
use mathlib.Core.Path.{subst}

module _ (ext : Externals) (host : Host) (fuel : ℕ) (spec : Spec) (ctx : BuildContext) where
  -- The two ends of a build that fails, with the phases of the components.
  pub data PhasedFailure (w : World) (e : Error) (t : World) : Type 0 where
    in_component :
        (c : Stopped (install_one ext host fuel spec ctx) (all_installables spec) w e t)
        → All (λ d. d.phase ≤ᵖ c.culprit.phase) c.before
        → All (λ d. c.culprit.phase ≤ᵖ d.phase) c.after
        → PhasedFailure w e t
    only_licenses :
        (mid : World)
        → install_all ext host fuel spec ctx w ≡ (ok tt, mid)
        → licenses ext host fuel spec ctx mid ≡ (err e, t)
        → PhasedFailure w e t

  from_Failure :
      (w t : World) (e : Error) → Failure ext host fuel spec ctx w e t → PhasedFailure w e t
  from_Failure w t e (in_op c o cause f n) =
      let (b, a) =
        Ascending-split c.before c.culprit c.after
          (subst Ascending c.split (all_installables-Ascending spec).0) in
      in_component c b a
  from_Failure w t e (in_licenses mid i l) = only_licenses mid i l

  -- When a build fails in a component, the components before it have run, and none of them is of a
  -- later phase; none behind it has run, and none of these is of an earlier phase. Or every component
  -- is installed, and the licenses fail.
  pub build_system-PhasedFailure :
      (w t : World) (e : Error)
      → build_system ext host fuel spec ctx w ≡ (err e, t)
      → PhasedFailure w e t
  build_system-PhasedFailure w t e h =
      from_Failure w t e (build_system-Failure ext host fuel spec ctx w t e h)
