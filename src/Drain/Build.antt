-- ===== src/Drain/Build.antt =====
-- retinue/adhoc_drain.py: the metered builds.
use the_retinue.Base.{
  ℕ, suc, Bool, true, false, not, ◌&&◌, ◌||◌, Option, none, some, List, [], ◌∷◌, ◌++◌, nat_beq,
  if◌then◌else◌, ◌==◌, nat_eq, list_beq, list_eq, filter, Text, Exn, Result, ok, err,
}
use the_retinue.Drain.Types.{Seams, DrainState, record_best_effort}
use the_retinue.Exec.{Exec}
use the_retinue.AdhocIssue.{AdhocIssue}
use the_retinue.Budget.{BudgetLedger, record_charge, meter_adhoc}
use the_retinue.RunLedger.{building}

-- `record_charge`, for each of these.
unfoldable pub charge_all : BudgetLedger → List (ℕ × ℕ) → BudgetLedger
charge_all l [] = l
charge_all l ((now, amount) ∷ charges) = charge_all (record_charge l now amount) charges

-- `build_one`, the task that meters as the `turn`-th: whether the issue was built, or what its build
-- raised. What the builds that run charge before the next call of the meter is charged in this step.
unfoldable pub build_one : Seams → Text → ℕ → ℕ → AdhocIssue → Exec DrainState Bool
unfolding charge_all
build_one seams repo estimated_amount turn issue s =
    let now = seams.metered turn in
    let (budget, admitted) = meter_adhoc s.budget now estimated_amount in
    let paid = record s { budget = charge_all budget (seams.unchecked turn) } in
    let started = record_best_effort seams repo now issue.issue_number building paid in
    let called = record started { begun = started.begun ++ issue ∷ [] } in
    if not admitted
    then (ok false, paid)
    else elim (seams.build issue) [ err e ↦ (err e, called) | ok _ ↦ (ok true, called) ]

-- What `gather` knows in the end: who was built, and the first exception.
pub record Gathered : Type 0 where
  pub built : List AdhocIssue
  pub first_error : Option Exn

unfoldable pub note : AdhocIssue → Result Bool → Gathered → Gathered
note issue (ok true) g = record g { built = issue ∷ g.built }
note issue (ok false) g = g
note issue (err e) g = record g { first_error = some e }

-- The tasks, in the order in which they reach the meter. A task that raises stops no other.
unfoldable pub run_tasks :
    Seams → Text → ℕ → ℕ → List AdhocIssue → DrainState → Gathered × DrainState
unfolding build_one note
run_tasks seams repo estimated_amount turn [] s = (record { built = []; first_error = none }, s)
run_tasks seams repo estimated_amount turn (issue ∷ issues) s =
    let (result, s1) = build_one seams repo estimated_amount turn issue s in
    let (gathered, s2) = run_tasks seams repo estimated_amount (suc turn) issues s1 in
    (note issue result gathered, s2)

unfoldable pub adhoc_beq : AdhocIssue → AdhocIssue → Bool
unfolding list_beq
adhoc_beq a b =
    a.repo_full_name == b.repo_full_name
    && (nat_beq a.issue_number b.issue_number && nat_beq a.chain_depth b.chain_depth)

unfoldable pub is_among : List AdhocIssue → AdhocIssue → Bool
unfolding adhoc_beq
is_among [] a = false
is_among (b ∷ bs) a = adhoc_beq b a || is_among bs a

-- `_build_metered`. `arrange` is the order in which the concurrent tasks reach the meter. The
-- semaphore never blocks: no more issues are selected than it admits.
unfoldable pub build_metered :
    Seams
    → (List AdhocIssue → List AdhocIssue)
    → Text
    → ℕ
    → List AdhocIssue
    → Exec DrainState (List AdhocIssue)
unfolding run_tasks is_among filter
build_metered seams arrange repo estimated_amount issues s =
    let (gathered, s') = run_tasks seams repo estimated_amount 0 (arrange issues) s in
    elim gathered.first_error [
      | some e ↦ (err e, s')
      | none ↦ (ok (filter (is_among gathered.built) issues), s')
    ]
