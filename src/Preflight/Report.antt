-- ===== src/Preflight/Report.antt =====
-- src/preflight/types.rs: what the counts of a report tell.
use leviso.Base.{
  List, [], ◌∷◌, ℕ, ◌+◌, ◌≡◌, ◌↔◌, refl, true, length, filterb, if◌then◌else◌, arith, not, any,
}
use leviso.Preflight.{
  CheckStatus, CheckResult, PreflightReport, is_status, all_passed, summary, count_status,
}

abbrev of_status : CheckStatus → List CheckResult → ℕ
of_status s cs = length (filterb (λ c. is_status c.status s) cs)

tally : CheckStatus → CheckStatus → ℕ
tally s r = if is_status s r then 1 else 0

of_status-tally :
    (s : CheckStatus) (c : CheckResult) (cs : List CheckResult)
    → of_status s (c ∷ cs) ≡ tally c.status s + of_status s cs
unfolding tally
of_status-tally s c cs = ground arith

one_status :
    (s : CheckStatus)
    → tally s CheckStatus.pass
        + tally s CheckStatus.fail
        + tally s CheckStatus.warn
        + tally s CheckStatus.skip
      ≡ 1
unfolding tally
one_status CheckStatus.pass = refl
one_status CheckStatus.fail = refl
one_status CheckStatus.warn = refl
one_status CheckStatus.skip = refl

statuses-length :
    (cs : List CheckResult)
    → of_status CheckStatus.pass cs
        + of_status CheckStatus.fail cs
        + of_status CheckStatus.warn cs
        + of_status CheckStatus.skip cs
      ≡ length cs
statuses-length [] = refl
statuses-length (c ∷ cs) = omega (
  arith,
  statuses-length cs,
  one_status c.status,
  of_status-tally CheckStatus.pass c cs,
  of_status-tally CheckStatus.fail c cs,
  of_status-tally CheckStatus.warn c cs,
  of_status-tally CheckStatus.skip c cs,
)

none_failed :
    (cs : List CheckResult)
    → (not (any (λ c. is_status c.status CheckStatus.fail) cs) ≡ true)
      ↔ (of_status CheckStatus.fail cs ≡ 0)
none_failed [] = ground arith
none_failed (c ∷ cs) = ground (arith, none_failed cs)

-- A report passes exactly if no check of it failed; and every check is counted once: those that
-- passed, failed, were warned of or skipped are all the checks.
pub summary-all_passed :
    (r : PreflightReport)
    → ((all_passed r ≡ true) ↔ ((summary r).2 ≡ 0))
      × ((summary r).0 + (summary r).2 + (summary r).3 + count_status CheckStatus.skip r
          ≡ (summary r).1)
unfolding summary all_passed
summary-all_passed r = (none_failed r.checks, statuses-length r.checks)
