-- ===== src/Preflight/HostTools/Required.antt =====
-- src/preflight/host_tools.rs: which hosts pass.
use leviso.Base.{
  String, List, [], ◌∷◌, ◌++◌, ◌≡◌, ◌↔◌, refl, true, false, Bool, Option, none, some, any, map, All,
  arith, ◌||◌,
}
use leviso.Fs.Ops.{exists, is_some}
use leviso.Preflight.{
  CheckResult, CheckStatus, is_status, all_passed, pass_with, note, fail_with, of_string,
}
use leviso.Preflight.HostTools.{
  Tool, check_tool_exists, check_host_tools, required_tools, optional_tools,
}
use leviso.Fs.State.{Fs}
use leviso.Fs.Path.{join}

abbrev pub is_failed : CheckResult → Bool
is_failed c = is_status c.status CheckStatus.fail

pub any-append :
    (cs ds : List CheckResult) → any is_failed (cs ++ ds) ≡ (any is_failed cs || any is_failed ds)
any-append [] ds = refl
any-append (c ∷ cs) ds = ground (arith, any-append cs ds)

module _ (which : String → Option String) where
  required_failed :
      (t : Tool)
      → (is_failed (check_tool_exists which t true) ≡ false) ↔ (is_some (which t.0) ≡ true)
  unfolding check_tool_exists
  required_failed (tool, pkg, purpose) =
      elim (which tool)
        as (λ o.
          (is_failed (elim o [
            | some path ↦ pass_with tool (note path)
            | none ↦ fail_with tool (record {
              format = "Not found. Install '{}' package. {}";
              args = of_string pkg ∷ of_string purpose ∷ [];
            })
          ])
            ≡ false)
          ↔ (is_some o ≡ true)) [ none ↦ ground arith | some path ↦ ground arith ]

  optional_failed : (t : Tool) → is_failed (check_tool_exists which t false) ≡ false
  unfolding check_tool_exists
  optional_failed (tool, pkg, purpose) = ground arith

  every_required :
      (ts : List Tool)
      → (any is_failed (map (λ t. check_tool_exists which t true) ts) ≡ false)
        ↔ All (λ t. is_some (which t.0) ≡ true) ts
  every_required [] = ground arith
  every_required (t ∷ ts) = ground (arith, required_failed t, every_required ts)

  every_optional :
      (ts : List Tool) → any is_failed (map (λ t. check_tool_exists which t false) ts) ≡ false
  every_optional [] = refl
  every_optional (t ∷ ts) = ground (arith, optional_failed t, every_optional ts)

  -- The checks of the host pass exactly if every required tool is found and the boot stub is there:
  -- the optional tools and the firmware only warn.
  pub check_host_tools-all_passed :
      (boot : String) (fs : Fs)
      → (all_passed (record { checks = check_host_tools which boot fs }) ≡ true)
        ↔ (All (λ t. is_some (which t.0) ≡ true) required_tools × (exists fs (join [] boot) ≡ true))
  unfolding all_passed check_host_tools
  check_host_tools-all_passed boot fs = ground (
    arith,
    every_required required_tools,
    every_optional optional_tools,
    any-append (map (λ t. check_tool_exists which t true) required_tools),
    any-append (map (λ t. check_tool_exists which t false) optional_tools),
  )
