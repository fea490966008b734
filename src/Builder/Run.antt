-- ===== src/Builder/Run.antt =====
-- src/component/builder.rs: what a build runs, and where it ends.
use leviso.Base.{List, [], ◌∷◌, ◌≡◌, refl, sym, ◌∙◌, ℕ, String, ap}
use leviso.Error.{Error, Result, ok, err, in_component}
use leviso.Exec.{Exec, continue, for_each, with_context, ◌>>◌}
use leviso.Exec.Loops.{sequence-for_each, Stopped, for_each-Stopped, wrap-err}
use leviso.Component.Definitions.{filesystem}
use leviso.Builder.{as_component}
use leviso.Component.Types.{component_installable, Component, Op}
use leviso.Component.Service.{service_installable}
use leviso.Builder.{all_installables, install, build_system, copy_licenses}
use leviso.Build.{Externals, BuildContext, World}
use leviso.Executor.Custom.Outside.{Host}
use leviso.Component.Spec.{Spec}
use leviso.Executor.{execute, execute_op}

abbrev rest : List Component → List Component
rest [] = []
rest (c ∷ cs) = cs

module _ (ext : Externals) (host : Host) (fuel : ℕ) (spec : Spec) (ctx : BuildContext) where
  abbrev pub install_one : Component → Exec World (Unit {0})
  install_one = install ext host fuel spec ctx

  abbrev pub install_all : Exec World (Unit {0})
  install_all = for_each install_one (all_installables spec)

  abbrev pub licenses : Exec World (Unit {0})
  licenses = copy_licenses ext host fuel spec ctx

  -- A build is one loop over the installables in their order, and the licenses at its end.
  pub build_system-for_each :
      (w : World) → build_system ext host fuel spec ctx w ≡ (install_all >> licenses) w
  unfolding build_system service_installable execute all_installables
  build_system-for_each w =
      ap (λ r. continue r (λ _. licenses))
        (sequence-for_each install_one (install_one (as_component (filesystem spec)))
          (rest (all_installables spec)) w)

  abbrev run_op : String → Op → Exec World (Unit {0})
  run_op name op = with_context (in_component name op) (execute_op ext host fuel ctx op)

  -- The two ends of a build that fails.
  pub data Failure (w : World) (e : Error) (t : World) : Type 0 where
    in_op :
        (c : Stopped install_one (all_installables spec) w e t)
        → (o : Stopped (run_op c.culprit.name) c.culprit.ops c.mid e t) → (cause : Error)
        → execute_op ext host fuel ctx o.culprit o.mid ≡ (err cause, t)
        → e ≡ in_component c.culprit.name o.culprit cause
        → Failure w e t
    in_licenses :
        (mid : World) → install_all w ≡ (ok tt, mid) → licenses mid ≡ (err e, t) → Failure w e t

  failed_op :
      (w t : World) (e : Error) (c : Stopped install_one (all_installables spec) w e t)
      → Stopped (run_op c.culprit.name) c.culprit.ops c.mid e t
      → Failure w e t
  failed_op w t e c o =
      let (cause, failed, named) =
        wrap-err (in_component c.culprit.name o.culprit)
          (execute_op ext host fuel ctx o.culprit o.mid) e t o.failed in
      in_op c o cause failed named

  after_install :
      (w t : World) (e : Error) (r : Result (Unit {0}) × World)
      → install_all w ≡ r
      → continue r (λ _. licenses) ≡ (err e, t)
      → Failure w e t
  unfolding execute
  after_install w t e (err f, v) i h =
      let c = for_each-Stopped install_one (all_installables spec) w t e (i ∙ h) in
      failed_op w t e c (for_each-Stopped (run_op c.culprit.name) c.culprit.ops c.mid t e c.failed)
  after_install w t e (ok x, v) i h = in_licenses v i h

  -- A build that fails ends in the first operation that fails, of the first component that does,
  -- and its error names both; the components and the operations before have run, nothing behind
  -- has. Or every component is installed, and the licenses fail.
  pub build_system-Failure :
      (w t : World) (e : Error) → build_system ext host fuel spec ctx w ≡ (err e, t) → Failure w e t
  build_system-Failure w t e h =
      after_install w t e (install_all w) refl (sym (build_system-for_each w) ∙ h)
