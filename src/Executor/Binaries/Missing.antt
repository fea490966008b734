-- ===== src/Executor/Binaries/Missing.antt =====
-- src/component/executor/binaries.rs: `handle_bins` reports every binary that is missing.
use leviso.Base.{List, [], ◌∷◌, refl, ℕ, String}
use leviso.Error.{message, Result}
use leviso.Exec.Missing.{Loop, ended, done, push, finish, Reported}
use leviso.Build.{World, Externals, BuildContext}
use leviso.Component.Types.{Dest}
use leviso.Executor.Binaries.{copy_to_dest, copy_all, handle_bins}

module _ (ext : Externals) (fuel : ℕ) (ctx : BuildContext) (dest : Dest) where
  -- What `handle_bins` returns for names.
  abbrev pub BinsOutcome : World → List String → Result (Unit {0}) × World → Type 0
  BinsOutcome = Reported (copy_to_dest ext fuel ctx dest) (message "Missing binaries")

  copy_all-Loop :
      (names : List String) (w : World)
      → Loop (copy_to_dest ext fuel ctx dest) w names (copy_all ext fuel ctx dest names w)
  unfolding copy_all
  copy_all-Loop [] w = ended w [] (done w)
  copy_all-Loop (name ∷ names) w =
      push (copy_to_dest ext fuel ctx dest) (copy_all ext fuel ctx dest names) w name names
        (copy_to_dest ext fuel ctx dest name w) refl (copy_all-Loop names)

  -- `handle_bins` tries every name in its order: it returns if all are found; if some are not, it
  -- fails with a message that lists them all, in their order; any other error of a copy ends it at
  -- that name.
  pub handle_bins-BinsOutcome :
      (names : List String) (w : World)
      → BinsOutcome w names (handle_bins ext fuel ctx names dest w)
  unfolding handle_bins
  handle_bins-BinsOutcome names w =
      finish (copy_to_dest ext fuel ctx dest) (message "Missing binaries") w names
        (copy_all ext fuel ctx dest names w) (copy_all-Loop names w)
