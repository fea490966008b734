-- ===== src/Executor/Custom/Modules/Missing.antt =====
-- src/component/custom/modules.rs: which modules of the configuration are copied, and that those that
-- are missing are reported.
use leviso.Base.{
  List, [], String, ◌≡◌, ◌<>◌, true, false, Bool, Option, none, some, refl, if◌then◌else◌,
}
use leviso.Error.{Error, Result, ok, err, message}
use leviso.Exec.{continue, pure}
use leviso.Exec.Missing.{each_missing-Loop, each_missing, finish, Reported}
use leviso.Fs.Path.{FilePath, join, last_of, components}
use leviso.Fs.State.{Fs}
use leviso.Fs.Ops.{exists}
use leviso.Fs.Copy.{copy}
use leviso.Executor.Custom.Modules.{
  copy_module, copy_listed_modules, modules_missing, copy_modules_from_config, base_path,
  copy_found_module, find_module, module_extensions,
}

module _ (src_modules dst_modules : FilePath) where
  abbrev is_there : Fs → String → Bool
  is_there fs name = exists fs (join src_modules name)

  -- The file of a module: the first that is there of the names with `.ko`, `.ko.xz` and `.ko.gz`.
  pub data Found (fs : Fs) (base : String) : String → Type 0 where
    ko : is_there fs (base <> ".ko") ≡ true → Found fs base (base <> ".ko")
    xz :
        is_there fs (base <> ".ko") ≡ false
        → is_there fs (base <> ".ko.xz") ≡ true
        → Found fs base (base <> ".ko.xz")
    gz :
        is_there fs (base <> ".ko") ≡ false
        → is_there fs (base <> ".ko.xz") ≡ false
        → is_there fs (base <> ".ko.gz") ≡ true
        → Found fs base (base <> ".ko.gz")

  -- What one module comes to: its file is copied under its own name, or there is none and nothing is
  -- done, or the copy fails, or the file has no name.
  pub data ModuleStep (fs : Fs) (base : String) : Result Bool × Fs → Type 0 where
    copied :
        (full name : String) (t : Fs)
        → Found fs base full
        → last_of (components full) ≡ some name
        → copy (join src_modules full) (join dst_modules name) fs ≡ (ok tt, t)
        → ModuleStep fs base (ok true, t)
    absent :
        is_there fs (base <> ".ko") ≡ false
        → is_there fs (base <> ".ko.xz") ≡ false
        → is_there fs (base <> ".ko.gz") ≡ false
        → ModuleStep fs base (ok false, fs)
    failed :
        (full name : String) (t : Fs) (e : Error)
        → Found fs base full
        → last_of (components full) ≡ some name
        → copy (join src_modules full) (join dst_modules name) fs ≡ (err e, t)
        → ModuleStep fs base (err e, t)
    unnamed :
        (full : String)
        → Found fs base full
        → last_of (components full) ≡ none
        → ModuleStep fs base (err (message "Invalid module path" []), fs)

  module _ (fs : Fs) (base full : String) (found : Found fs base full) where
    after_copy :
        (name : String) (r : Result (Unit {0}) × Fs)
        → last_of (components full) ≡ some name
        → copy (join src_modules full) (join dst_modules name) fs ≡ r
        → ModuleStep fs base (continue r (λ _. pure true))
    after_copy name (ok tt, t) n h = copied full name t found n h
    after_copy name (err e, t) n h = failed full name t e found n h

    with_name :
        (name : Option String)
        → last_of (components full) ≡ name
        → ModuleStep fs base
            (continue (copy_found_module src_modules dst_modules full name fs) (λ _. pure true))
    with_name none n = unnamed full found n
    with_name (some name) n = after_copy name _ n refl

    step_found : ModuleStep fs base (
        continue
          (copy_found_module src_modules dst_modules full (last_of (components full)) fs)
          (λ _. pure true))
    step_found = with_name (last_of (components full)) refl

  -- What the search for the file of a module finds.
  data Picked (fs : Fs) (base : String) : Option String → Type 0 where
    one : (full : String) → Found fs base full → Picked fs base (some full)
    nothing :
        is_there fs (base <> ".ko") ≡ false
        → is_there fs (base <> ".ko.xz") ≡ false
        → is_there fs (base <> ".ko.gz") ≡ false
        → Picked fs base none

  choose :
      (fs : Fs) (base : String) (a b c : Bool)
      → is_there fs (base <> ".ko") ≡ a
      → is_there fs (base <> ".ko.xz") ≡ b
      → is_there fs (base <> ".ko.gz") ≡ c
      → Picked fs base (
          if a
          then some (base <> ".ko")
          else if b
          then some (base <> ".ko.xz")
          else if c
          then some (base <> ".ko.gz")
          else none)
  choose fs base true b c k x g = one (base <> ".ko") (ko k)
  choose fs base false true c k x g = one (base <> ".ko.xz") (xz k x)
  choose fs base false false true k x g = one (base <> ".ko.gz") (gz k x g)
  choose fs base false false false k x g = nothing k x g

  after_search :
      (fs : Fs) (base : String) (o : Option String)
      → Picked fs base o
      → ModuleStep fs base (elim o as (λ _. Result Bool × Fs) [
        | none ↦ (ok false, fs)
        | some full ↦
            continue
              (copy_found_module src_modules dst_modules full (last_of (components full)) fs)
              (λ _. pure true)
      ])
  after_search fs base (some _) (one full found) = step_found fs base full found
  after_search fs base none (nothing k x g) = absent k x g

  copy_module-ModuleStep :
      (m : String) (fs : Fs)
      → ModuleStep fs (base_path m) (copy_module src_modules dst_modules m fs)
  copy_module-ModuleStep m fs =
      after_search fs (base_path m) (find_module fs src_modules (base_path m) module_extensions)
        (choose fs (base_path m) _ _ _ refl refl refl)

  -- What the copy of the modules of a configuration returns: the steps of its loop, and what each
  -- step does.
  pub record ModulesOutcome (fs : Fs) (modules : List String) (out : Result (Unit {0}) × Fs)
      : Type 0 where
    pub reported : Reported (copy_module src_modules dst_modules) modules_missing fs modules out
    pub steps :
        (m : String) (s : Fs) → ModuleStep s (base_path m) (copy_module src_modules dst_modules m s)

  -- Every module of the configuration is tried in its order: the first file of it that is there, with
  -- `.ko`, `.ko.xz` or `.ko.gz`, is copied under its own name. The copy returns if all are there; if
  -- some are not, it fails with a report that lists exactly these, in their order; a copy that
  -- fails ends it at that module.
  pub copy_modules_from_config-ModulesOutcome :
      (modules : List String) (fs : Fs)
      → ModulesOutcome fs modules (copy_modules_from_config modules src_modules dst_modules fs)
  unfolding copy_modules_from_config copy_listed_modules
  copy_modules_from_config-ModulesOutcome modules fs = record {
    reported =
        finish (copy_module src_modules dst_modules) modules_missing fs modules
          (each_missing (copy_module src_modules dst_modules) modules fs)
          (each_missing-Loop (copy_module src_modules dst_modules) modules fs);
    steps = copy_module-ModuleStep;
  }
