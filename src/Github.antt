-- ===== src/Github.antt =====
-- What the escalations (retinue/notify.py), the pull requests (retinue/pr_opener.py) and the reaping
-- of merges (retinue/handoff.py) ask of GitHub and of the push service, and the stores beside them.
-- Every answer may depend on all that was done before it.
use the_retinue.Base.{ℕ, Bool, Option, List, ◌∷◌, nat_eq, list_eq, Text, Result, ok, err}
use the_retinue.Exec.{Exec}
use the_retinue.RunLedger.{RunLedgerRow, RunState, record_state}

pub record Notification : Type 0 where
  pub repo_full_name : Text
  pub issue_number : ℕ
  pub title : Text
  pub body : Text
  pub label : Text

-- `retinue/issues.py: IssueDraft`, the fields that the gate's filing sets.
pub record IssueDraft : Type 0 where
  pub title : Text
  pub body : Text
  pub labels : List Text

pub record OpenPrRequest : Type 0 where
  pub repo_full_name : Text
  pub head : Text
  pub base : Text
  pub title : Text
  pub body : Text

pub record PullRequest : Type 0 where
  pub number : ℕ
  pub url : Text

pub record ChildIssue : Type 0 where
  pub number : ℕ
  pub closed : Bool
  pub hitl : Bool

-- The calls, in the order in which they are made. A call that raises is one of them.
pub data Call : Type 0 where
  pushed_out : Text → Text → Call
  commented : Text → ℕ → Text → Call
  labelled : Text → ℕ → Text → Call
  filed : IssueDraft → Call
  looked_up : Text → Text → Call
  searched : Text → Text → Text → Call
  synced : Text → Text → Text → Call
  opened : OpenPrRequest → Call
  closed_issue : Text → ℕ → Call
  listed : Text → ℕ → Call

-- The newest call first.
abbrev pub CallLog : Type 0
CallLog = List Call

-- `RunStateStore`: a row of the table.
pub record RunStateRow : Type 0 where
  pub prd_key : Text
  pub slices : Text
  pub pr_number : Option ℕ

pub record PipelineState : Type 0 where
  pub log : CallLog
  pub run_state : List RunStateRow
  pub ledger : List RunLedgerRow

pub record PipelineSeams : Type 0 where
  pub push : CallLog → Text → Text → Result (Unit {0})
  pub comment : CallLog → Text → ℕ → Text → Result (Unit {0})
  pub label : CallLog → Text → ℕ → Text → Result (Unit {0})
  pub create_issue : CallLog → IssueDraft → Result (Unit {0})
  pub staging_exists : CallLog → Text → Text → Result Bool
  pub existing_open_pr : CallLog → Text → Text → Text → Result (Option PullRequest)
  pub bring_up_to_date : CallLog → Text → Text → Text → Result (Unit {0})
  pub open_pr : CallLog → OpenPrRequest → Result PullRequest
  pub close_issue : CallLog → Text → ℕ → Result (Unit {0})
  pub children_of : CallLog → Text → ℕ → Result (List ChildIssue)
  pub now : CallLog → ℕ
  pub ledger_write : CallLog → Result (Unit {0})

-- One call.
unfoldable pub call : {A : Type 0} → (CallLog → Result A) → Call → Exec PipelineState A
call answer event s = (answer s.log, record s { log = event ∷ s.log })

-- `run_ledger.record(…)`, which raises where SQLite refuses the write.
unfoldable pub note_state :
    PipelineSeams → Text → ℕ → RunState → Option Text → Exec PipelineState (Unit {0})
note_state seams repo issue state url s = elim (seams.ledger_write s.log) [
  | err e ↦ (err e, s)
  | ok _ ↦
      (ok tt, record s { ledger = record_state (seams.now s.log) repo issue state url s.ledger })
]
