-- ===== src/Drain/Plan.antt =====
-- retinue/adhoc_drain.py: which admitted issues are ready, and their split by flight state.
use the_retinue.Base.{
  ℕ, List, [], ◌∷◌, map, nat_eq, contains, list_eq, filter, Unicode, Dict, insert, Result, ok, err,
  ◌>>=◌, get_item,
}
use the_retinue.Drain.Types.{
  ReadyIssue, FlightState, absent, stranded, in_flight, state_for, FlightGh, with_snapshot,
  per_issue,
}
use the_retinue.Readiness.{ReadinessGh, resolve_ready}

-- `_filter_ready`
unfoldable pub filter_ready : Unicode → ReadinessGh → List ReadyIssue → Result (List ReadyIssue)
unfolding filter contains
filter_ready tables gh issues = do
  ready_numbers ←
      resolve_ready tables gh
        (map (λ issue. record { number = issue.number; body = issue.body }) issues)
  ok (filter (λ issue. contains ready_numbers issue.number) issues)

-- The loop of the fallback in `_flight_states`.
unfoldable pub ask_each :
    (ℕ → Result FlightState) → Dict ℕ FlightState → List ReadyIssue → Result (Dict ℕ FlightState)
unfolding insert
ask_each ask states [] = ok states
ask_each ask states (issue ∷ issues) = do
  state ← ask issue.number
  ask_each ask (insert issue.number state states) issues

-- `_flight_states`
unfoldable pub flight_states : FlightGh → List ReadyIssue → Result (Dict ℕ FlightState)
unfolding ask_each state_for
flight_states (with_snapshot (err e)) issues = err e
flight_states (with_snapshot (ok snapshot)) issues =
    ask_each (λ n. ok (state_for snapshot n)) [] issues
flight_states (per_issue ask) issues = ask_each ask [] issues

pub record DrainPlan : Type 0 where
  pub buildable : List ReadyIssue
  pub stranded_issues : List ReadyIssue

unfoldable pub place : ReadyIssue → FlightState → DrainPlan → DrainPlan
place issue absent plan = record plan { buildable = issue ∷ plan.buildable }
place issue stranded plan = record plan { stranded_issues = issue ∷ plan.stranded_issues }
place issue in_flight plan = plan

-- The loop of `_partition_candidates`, in the order of the issues.
unfoldable pub partition_by : Dict ℕ FlightState → List ReadyIssue → Result DrainPlan
unfolding get_item place
partition_by states [] = ok (record { buildable = []; stranded_issues = [] })
partition_by states (issue ∷ issues) = do
  state ← get_item issue.number states
  plan ← partition_by states issues
  ok (place issue state plan)

-- `_partition_candidates`
unfoldable pub partition_candidates : FlightGh → List ReadyIssue → Result DrainPlan
unfolding flight_states partition_by
partition_candidates gh issues = do states ← flight_states gh issues; partition_by states issues
