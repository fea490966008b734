-- ===== src/Executor/Binaries/Tracked.antt =====
-- src/component/executor/binaries.rs: the license tracker knows of every binary that is installed.
use leviso.Base.{
  List, [], ◌∷◌, ◌++◌, ◌≡◌, refl, sym, ap, ◌∙◌, true, All, append_assoc, ℕ, String, Bool,
}
use leviso.Error.{Result, ok}
use leviso.Build.{World, Registration, of_binary, Externals, BuildContext}
use leviso.Build.Libdeps.Licenses.{Registers, copy_executable-Steady, copy_executable-Registers}
use leviso.Build.Steady.{Grows, Steady, Grows-refl, Grows-trans}
use leviso.Component.Types.{Dest, bin, sbin}
use leviso.Executor.Binaries.{copy_to_dest, handle_bins}
use leviso.Executor.Binaries.Missing.{BinsOutcome, handle_bins-BinsOutcome}
use leviso.Exec.Missing.{Tried, done, found, absent, all_found, some_missing, broken}
use mathlib.Core.Path.{subst}

-- The binary is among the registrations.
pub IsTracked : World → String → Type 0
IsTracked w name =
    (after : List Registration) × (before : List Registration) × (w.registered
      ≡ after ++ (of_binary name ∷ before))

Registers-IsTracked :
    (name : String) (w v t : World) → Registers name w v → Grows v t → IsTracked t name
unfolding Registers Grows IsTracked
Registers-IsTracked name w v t (more, h) (later, g) = (
  later ++ more,
  w.registered,
  g ∙ ap (λ l. later ++ l) h ∙ sym (append_assoc later more (of_binary name ∷ w.registered)),
)

module _ (ext : Externals) (fuel : ℕ) (ctx : BuildContext) (dest : Dest) where
  copy_to_dest-Steady : (d : Dest) (name : String) → Steady (copy_to_dest ext fuel ctx d name)
  unfolding copy_to_dest
  copy_to_dest-Steady bin name =
      copy_executable-Steady ext ctx ext.find_binary "usr/bin" fuel name true
  copy_to_dest-Steady sbin name =
      copy_executable-Steady ext ctx ext.find_sbin_binary "usr/sbin" fuel name true

  copy_to_dest-Registers :
      (d : Dest) (name : String) (w v : World)
      → copy_to_dest ext fuel ctx d name w ≡ (ok true, v)
      → Registers name w v
  unfolding copy_to_dest
  copy_to_dest-Registers bin name w v h =
      copy_executable-Registers ext ctx ext.find_binary "usr/bin" name fuel w v h
  copy_to_dest-Registers sbin name w v h =
      copy_executable-Registers ext ctx ext.find_sbin_binary "usr/sbin" name fuel w v h

  step-Grows :
      (name : String) (w v : World) (r : Result Bool)
      → copy_to_dest ext fuel ctx dest name w ≡ (r, v)
      → Grows w v
  unfolding Steady
  step-Grows name w v r h = subst (Grows w) (ap (λ x. x.1) h) (copy_to_dest-Steady dest name w)

  Tried-Grows :
      (w t : World) (names missing : List String)
      → Tried (copy_to_dest ext fuel ctx dest) w names missing t
      → Grows w t
  Tried-Grows w t names missing (done _) = Grows-refl w w refl
  Tried-Grows w t names missing (found _ v _ name more _ h c) =
      Grows-trans w v t (step-Grows name w v _ h) (Tried-Grows v t more missing c)
  Tried-Grows w t names missing (absent _ v _ name more others h c) =
      Grows-trans w v t (step-Grows name w v _ h) (Tried-Grows v t more others c)

  Tried-IsTracked :
      (w t : World) (names missing : List String)
      → Tried (copy_to_dest ext fuel ctx dest) w names missing t
      → missing ≡ []
      → All (IsTracked t) names
  Tried-IsTracked w t names missing (done _) e = tt
  Tried-IsTracked w t names missing (found _ v _ name more _ h c) e = (
    Registers-IsTracked name w v t (copy_to_dest-Registers dest name w v h)
        (Tried-Grows v t more missing c),
    Tried-IsTracked v t more missing c e,
  )
  Tried-IsTracked w t names missing (absent _ v _ name more others h c) e = absurd cc

  BinsOutcome-IsTracked :
      (names : List String) (w t : World) (r : Result (Unit {0}) × World)
      → BinsOutcome ext fuel ctx dest w names r
      → r ≡ (ok tt, t)
      → All (IsTracked t) names
  BinsOutcome-IsTracked names w t r (all_found v c) e =
      subst (λ u. All (IsTracked u) names) (ap (λ x. x.1) e) (Tried-IsTracked w v names [] c refl)
  BinsOutcome-IsTracked names w t r (some_missing v name missing c) e = absurd cc
  BinsOutcome-IsTracked names w t r (broken v f b) e = absurd cc

  -- When `handle_bins` succeeds, every binary of its list is registered with the license tracker.
  pub handle_bins-IsTracked :
      (names : List String) (w t : World)
      → handle_bins ext fuel ctx names dest w ≡ (ok tt, t)
      → All (IsTracked t) names
  handle_bins-IsTracked names w t h =
      BinsOutcome-IsTracked names w t _ (handle_bins-BinsOutcome ext fuel ctx dest names w) h
