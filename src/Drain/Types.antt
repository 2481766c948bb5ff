-- ===== src/Drain/Types.antt =====
-- retinue/adhoc_drain.py: the issues of a drain, their flight states, its seams and its state.
use the_retinue.Base.{
  ℕ, Bool, false, not, none, List, [], ◌∷◌, if◌then◌else◌, nat_eq, contains, list_beq, list_eq,
  Text, Result,
}
use the_retinue.Vocab.{hitl_label, issue_branch}
use the_retinue.RepoConfig.{RepoConfig}
use the_retinue.Readiness.{ReadinessGh}
use the_retinue.AdhocIssue.{AdhocIssue}
use the_retinue.Budget.{BudgetLedger}
use the_retinue.RunLedger.{RunState, queued, RunLedgerRow, record_state}

pub record ReadyIssue : Type 0 where
  pub number : ℕ
  pub labels : List Text
  pub body : Text

unfoldable pub is_admissible : RepoConfig → ReadyIssue → Bool
unfolding contains list_beq
is_admissible config issue =
    if not (contains issue.labels config.trigger_label)
    then false
    else not (contains issue.labels hitl_label)

pub data FlightState : Type 0 where
  absent stranded in_flight : FlightState

pub record FlightSnapshot : Type 0 where
  pub open_pr_heads : List Text
  pub issue_branches : List Text

-- `FlightSnapshot.state_for`
unfoldable pub state_for : FlightSnapshot → ℕ → FlightState
unfolding contains list_beq issue_branch
state_for snapshot issue_number =
    let branch = issue_branch issue_number in
    if not (contains snapshot.issue_branches branch)
    then absent
    else if contains snapshot.open_pr_heads branch
    then in_flight
    else stranded

-- The two kinds of gh seam: with the whole-repository prefetch, and without it.
pub data FlightGh : Type 0 where
  with_snapshot : Result FlightSnapshot → FlightGh
  per_issue : (ℕ → Result FlightState) → FlightGh

-- What the world answers in one pass, the instant at which it starts, and the instant of its first,
-- second, … call of the meter. A build classifies its issue and charges that to the shared budget
-- with no check: `unchecked` gives these charges, each an instant and an amount, between a call of
-- the meter and the next one, whichever builds make them.
pub record Seams : Type 0 where
  pub list_ready : Text → Result (List ReadyIssue)
  pub flight : FlightGh
  pub readiness : ReadinessGh
  pub open_pr : AdhocIssue → Result (Unit {0})
  pub build : AdhocIssue → Result (Unit {0})
  pub ledger_writes : ℕ → RunState → Bool
  pub started : ℕ
  pub metered : ℕ → ℕ
  pub unchecked : ℕ → List (ℕ × ℕ)

pub record DrainState : Type 0 where
  pub held : Bool
  pub budget : BudgetLedger
  pub runs : List RunLedgerRow
  pub opened : List AdhocIssue
  pub begun : List AdhocIssue

-- `_record_run_state_best_effort`: a failed write is swallowed.
unfoldable pub record_best_effort : Seams → Text → ℕ → ℕ → RunState → DrainState → DrainState
record_best_effort seams repo now issue state s =
    if seams.ledger_writes issue state
    then record s { runs = record_state now repo issue state none s.runs }
    else s

-- The `for` loop over the admitted issues.
unfoldable pub record_queued : Seams → Text → List ReadyIssue → DrainState → DrainState
unfolding record_best_effort
record_queued seams repo [] s = s
record_queued seams repo (issue ∷ issues) s =
    record_queued seams repo issues
      (record_best_effort seams repo seams.started issue.number queued s)
