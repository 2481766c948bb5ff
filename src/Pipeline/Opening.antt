-- ===== src/Pipeline/Opening.antt =====
-- When the pipeline (retinue/pipeline.py) opens a pull request.
pub mod Step
unfoldable pub use the_retinue.Pipeline.Opening.Step.{opens, Opened}
use the_retinue.Pipeline.Opening.Step.{Unopened, quiet, stores, unopened, step-Opened}
use the_retinue.Base.{
  ℕ, ◌+◌, ◌≡◌, refl, sym, ap, ◌∙◌, ◌⊎◌, inl, inr, Bool, true, false, Option, none, some, List, [],
  ◌∷◌, arith, leb, Bool-cases, nat_eq, list_eq, Text, ok,
}
use the_retinue.RepoConfig.{RepoConfig}
use the_retinue.AdhocIssue.{AdhocIssue}
use the_retinue.RunLedger.{RunLedgerRow, failed}
use the_retinue.Exec.{
  pure, Keeps, Keeps-then, Keeps-if, continue-keeps, Takes, Takes-then, then-Takes, ◌>>=◌, ◌>>◌,
}
use the_retinue.Container.{ReviewFinding}
use the_retinue.Gate.{require_target_branch, ReviewGateOutcome}
use the_retinue.AdhocBuild.{AdhocBuildResult}
use the_retinue.Github.{
  PullRequest, RunStateRow, Call, filed, looked_up, searched, synced, opened, CallLog,
  PipelineState, PipelineSeams, call, note_state,
}
use the_retinue.Notify.{notify}
use the_retinue.PrOpener.{
  PrOpenResult, staging_note, escalate_staging, sync_branch, create_pr, opened_result,
  bring_up_to_date_and_open, reuse_or_open, open_checked, open_staging_pr,
}
use the_retinue.Pipeline.{
  nit_draft, escalate_blocking, file_each, file_backlog, note_pr, open_pr_step, some_result,
  process_gated, process_green, process_adhoc_pr,
}
use the_retinue.Gate.Steps.{require_target_branch-ok}
use the_retinue.Pipeline.Steps.{
  is_quiet, Keeps-call, Keeps-notify, Keeps-note_state, Keeps-escalate_blocking, Keeps-note_pr,
  Keeps-file_each,
}

module _ (seams : PipelineSeams) (n : ℕ) where
  filed-Unopened :
      (finding : ReviewFinding) (depth : ℕ)
      → Keeps (Unopened seams n) (
          call
            (λ log. seams.create_issue log (nit_draft depth finding))
            (filed (nit_draft depth finding)))
  unfolding call Unopened
  filed-Unopened finding depth s p = p

  module _ (config : RepoConfig) (issue : AdhocIssue) (head : Text) where
    backlog-Unopened :
        (backlog : List ReviewFinding)
        → Keeps (Unopened seams n) (file_backlog seams config issue backlog)
    unfolding file_backlog
    backlog-Unopened backlog =
        Keeps-if (Unopened seams n) (leb config.retry_cap (issue.chain_depth + 1)) (pure tt)
          (file_each seams config issue (issue.chain_depth + 1) backlog) (λ s p. p)
          (Keeps-file_each (Unopened seams n) seams (quiet seams n) (stores seams n) config issue
            filed-Unopened (issue.chain_depth + 1) backlog)

    blocked-Unopened :
        (gate : ReviewGateOutcome)
        → Keeps
            (Unopened seams n)
            (escalate_blocking seams config issue gate >> pure {A = Option PrOpenResult} none)
    blocked-Unopened gate =
        Keeps-then (Unopened seams n) (escalate_blocking seams config issue gate) (λ a. pure none)
          (Keeps-escalate_blocking (Unopened seams n) seams (quiet seams n) (stores seams n) config
            issue gate)
          (λ a s p. p)

    -- What a green build may do, by what blocks it.
    Allowed : Option ReviewGateOutcome → PipelineState → Type 0
    Allowed gate s =
        (opens s.log ≡ n)
        ⊎ (((g : ReviewGateOutcome) → gate ≡ some g → g.blocking ≡ [])
            × (Opened seams n config issue head) s)

    gated-Allowed :
        (gate : ReviewGateOutcome) (blocking : List ReviewFinding)
        → gate.blocking ≡ blocking
        → Takes
            (Unopened seams n)
            (Allowed (some gate))
            (process_gated seams config issue head gate blocking)
    unfolding process_gated Allowed Unopened
    gated-Allowed gate [] e s p = inr (
      (λ g h. ap (λ o. elim o [ none ↦ [] | some g ↦ g.blocking ]) (sym h) ∙ e),
      then-Takes (Unopened seams n) (Opened seams n config issue head)
          (file_backlog seams config issue gate.backlog)
          (λ a. open_pr_step seams config issue head >>= some_result seams config issue)
          (backlog-Unopened gate.backlog) (unopened seams n config issue head)
          (λ a. (step-Opened seams n config issue head)) s p,
    )
    gated-Allowed gate (f ∷ fs) e s p = inl (blocked-Unopened gate s p)

    green-Allowed :
        (gate : Option ReviewGateOutcome)
        → Takes (Unopened seams n) (Allowed gate) (process_green seams config issue head gate)
    unfolding process_green Allowed
    green-Allowed none =
        λ s p. inr ((λ g h. absurd (cc)), (step-Opened seams n config issue head) s p)
    green-Allowed (some gate) = gated-Allowed gate gate.blocking refl

  red-Unopened :
      (repo : Text) (issue_number : ℕ)
      → Keeps
          (Unopened seams n)
          (note_state seams repo issue_number failed none >> pure {A = Option PrOpenResult} none)
  red-Unopened repo issue_number =
      Keeps-then (Unopened seams n) (note_state seams repo issue_number failed none)
        (λ a. pure none)
        (Keeps-note_state (Unopened seams n) seams (quiet seams n) (stores seams n) repo
          issue_number failed none)
        (λ a s p. p)

-- `process_adhoc_pr` opens at most one pull request. If it opens one, the build was green, its gate, if
-- it has one, has nothing blocking, and when GitHub was asked for an open pull request from the build's
-- branch into the target branch, there was none.
pub process_adhoc_pr-opens :
    (seams : PipelineSeams) (config : RepoConfig) (issue : AdhocIssue) (build : AdhocBuildResult)
    (s : PipelineState)
    → (opens (process_adhoc_pr seams config issue build s).1.log ≡ opens s.log)
      ⊎ ((build.passed ≡ true)
          × ((gate : ReviewGateOutcome) → build.gate ≡ some gate → gate.blocking ≡ [])
          × Opened seams
              (opens s.log)
              config
              issue
              build.branch
              (process_adhoc_pr seams config issue build s).1)
unfolding process_adhoc_pr Allowed Unopened
process_adhoc_pr-opens seams config issue build s = elim (Bool-cases build.passed) [
  | inr red ↦
      rw (red, process_adhoc_pr)
        (inl (red-Unopened seams (opens s.log) issue.repo_full_name issue.issue_number s refl))
  | inl green ↦
      elim (green-Allowed seams (opens s.log) config issue build.branch build.gate s refl) [
        | inl none_more ↦ inl (rw (green, process_adhoc_pr) none_more)
        | inr (clear, more) ↦ inr (green, clear, rw (green, process_adhoc_pr) more)
      ]
]
