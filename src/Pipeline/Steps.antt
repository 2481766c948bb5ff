-- ===== src/Pipeline/Steps.antt =====
-- What the steps of retinue/pipeline.py keep: any property of the state that each call keeps.
use the_retinue.Base.{
  ℕ, ◌≡◌, refl, inl, inr, Bool, true, false, Option, none, some, List, [], ◌∷◌, Option-cases,
  nat_eq, list_eq, Text, Result, Result-cases,
}
use the_retinue.RepoConfig.{RepoConfig}
use the_retinue.AdhocIssue.{AdhocIssue}
use the_retinue.RunLedger.{RunState, RunLedgerRow, escalated, pr_opened, record_state}
use the_retinue.RunStateStore.{record_pr}
use the_retinue.Exec.{pure, lift, Keeps, Keeps-then, ◌>>=◌, ◌>>◌}
use the_retinue.Container.{ReviewFinding}
use the_retinue.Gate.{require_target_branch, ReviewGateOutcome}
use the_retinue.Github.{
  Notification, PullRequest, RunStateRow, Call, pushed_out, commented, labelled, filed, looked_up,
  searched, synced, opened, CallLog, PipelineState, PipelineSeams, call, note_state,
}
use the_retinue.Notify.{try_push, post_comment, apply_label, notify}
use the_retinue.PrOpener.{
  PrOpenResult, staging_note, escalate_staging, sync_branch, create_pr, opened_result,
  bring_up_to_date_and_open, reuse_or_open, open_checked, open_staging_pr,
}
use the_retinue.Pipeline.{
  blocking_note, nit_draft, escalate_blocking, file_each, note_pr, open_pr_step, some_result,
}

-- A call that neither files an issue nor opens a pull request.
abbrev pub is_quiet : Call → Bool
is_quiet (filed draft) = false
is_quiet (opened request) = false
is_quiet _ = true

module _ (P : PipelineState → Type 0) (seams : PipelineSeams)
    (quiet : (event : Call) (s : PipelineState)
      → is_quiet event ≡ true
      → P s
      → P (record s { log = event ∷ s.log }))
    (stores : (run_state : List RunStateRow) (ledger : List RunLedgerRow) (s : PipelineState)
      → P s
      → P (record s { run_state = run_state; ledger = ledger })) where
  pub Keeps-call :
      {A : Type 0} (answer : CallLog → Result A) (event : Call)
      → is_quiet event ≡ true
      → Keeps P (call answer event)
  unfolding call
  Keeps-call answer event h s = quiet event s h

  Keeps-try_push : (note : Notification) → Keeps P (try_push seams note)
  unfolding try_push call
  Keeps-try_push note s = quiet (pushed_out note.title note.body) s refl

  Keeps-post_comment : (note : Notification) → Keeps P (post_comment seams note)
  unfolding post_comment call
  Keeps-post_comment note s =
      quiet (commented note.repo_full_name note.issue_number note.body) s refl

  Keeps-apply_label : (note : Notification) → Keeps P (apply_label seams note)
  unfolding apply_label call
  Keeps-apply_label note s =
      quiet (labelled note.repo_full_name note.issue_number note.label) s refl

  pub Keeps-notify : (note : Notification) → Keeps P (notify seams note)
  unfolding notify
  Keeps-notify note =
      Keeps-then P (try_push seams note) (λ a. post_comment seams note >> apply_label seams note)
        (Keeps-try_push note)
        (λ a.
          Keeps-then P (post_comment seams note) (λ b. apply_label seams note)
            (Keeps-post_comment note) (λ b. Keeps-apply_label note))

  pub Keeps-note_state :
      (repo : Text) (issue : ℕ) (state : RunState) (url : Option Text)
      → Keeps P (note_state seams repo issue state url)
  unfolding note_state
  Keeps-note_state repo issue state url s p = elim (Result-cases (seams.ledger_write s.log)) [
    | inl (written, e) ↦
        rw (e, note_state)
          (stores s.run_state (record_state (seams.now s.log) repo issue state url s.ledger) s p)
    | inr (refused, e) ↦ rw (e, note_state) p
  ]

  module _ (config : RepoConfig) (issue : AdhocIssue) where
    pub Keeps-escalate_blocking :
        (gate : ReviewGateOutcome) → Keeps P (escalate_blocking seams config issue gate)
    unfolding escalate_blocking
    Keeps-escalate_blocking gate =
        Keeps-then P (notify seams (blocking_note issue gate)) _
          (Keeps-notify (blocking_note issue gate))
          (λ a. Keeps-note_state issue.repo_full_name issue.issue_number escalated _)

    pub Keeps-note_pr : (result : PrOpenResult) → Keeps P (note_pr seams config issue result)
    unfolding note_pr
    Keeps-note_pr result s p = elim (Option-cases result.pull_request) [
      | inl e ↦ rw (e, note_pr) p
      | inr (pull_request, e) ↦
          let rounds =
            record_pr issue.repo_full_name issue.issue_number pull_request.number s.run_state in
          rw (e, note_pr)
            (Keeps-then P
              (note_state seams issue.repo_full_name issue.issue_number pr_opened
                (some pull_request.url))
              (λ a. pure result)
              (Keeps-note_state issue.repo_full_name issue.issue_number pr_opened
                (some pull_request.url))
              (λ a t q. q) (record s { run_state = rounds }) (stores rounds s.ledger s p))
    ]

    pub Keeps-file_each :
        (fresh : (finding : ReviewFinding) (depth : ℕ)
          → Keeps P (
              call
                (λ log. seams.create_issue log (nit_draft depth finding))
                (filed (nit_draft depth finding))))
        (depth : ℕ) (findings : List ReviewFinding)
        → Keeps P (file_each seams config issue depth findings)
    unfolding file_each
    Keeps-file_each fresh depth [] = λ s p. p
    Keeps-file_each fresh depth (finding ∷ findings) =
        Keeps-then P
          (call (λ log. seams.create_issue log (nit_draft depth finding))
            (filed (nit_draft depth finding)))
          _ (fresh finding depth) (λ a. Keeps-file_each fresh depth findings)

    module _ (head : Text)
        (create : (staging : Text)
          → Keeps P (create_pr seams issue.repo_full_name issue.issue_number head staging)) where
      Keeps-bring :
          (staging : Text)
          → Keeps P
              (bring_up_to_date_and_open seams issue.repo_full_name issue.issue_number head staging)
      unfolding bring_up_to_date_and_open sync_branch
      Keeps-bring staging =
          let finish = λ (pull_request : PullRequest).
            pure (opened_result seams issue.repo_full_name issue.issue_number head pull_request) in
          Keeps-then P (sync_branch seams issue.repo_full_name issue.issue_number head staging)
            (λ a. create_pr seams issue.repo_full_name issue.issue_number head staging >>= finish)
            (Keeps-call (λ log. seams.bring_up_to_date log issue.repo_full_name head staging)
              (synced issue.repo_full_name head staging) refl)
            (λ a.
              Keeps-then P (create_pr seams issue.repo_full_name issue.issue_number head staging)
                finish (create staging) (λ r s p. p))

      Keeps-reuse :
          (staging : Text) (found : Option PullRequest)
          → Keeps P (reuse_or_open seams issue.repo_full_name issue.issue_number head staging found)
      unfolding reuse_or_open
      Keeps-reuse staging (some existing) = λ s p. p
      Keeps-reuse staging none = Keeps-bring staging

      Keeps-checked :
          (staging : Text) (exists : Bool)
          → Keeps P (open_checked seams issue.repo_full_name issue.issue_number head staging exists)
      unfolding open_checked escalate_staging
      Keeps-checked staging false =
          let note = staging_note issue.repo_full_name issue.issue_number head staging in
          Keeps-then P (notify seams note) (λ a. pure _) (Keeps-notify note) (λ a s p. p)
      Keeps-checked staging true =
          Keeps-then P
            (call (λ log. seams.existing_open_pr log issue.repo_full_name head staging)
              (searched issue.repo_full_name head staging))
            (reuse_or_open seams issue.repo_full_name issue.issue_number head staging)
            (Keeps-call (λ log. seams.existing_open_pr log issue.repo_full_name head staging)
              (searched issue.repo_full_name head staging) refl)
            (Keeps-reuse staging)

      Keeps-open_staging_pr :
          Keeps P (open_staging_pr seams issue.repo_full_name issue.issue_number head config)
      unfolding open_staging_pr
      Keeps-open_staging_pr =
          let exists = λ (staging : Text).
            call (λ log. seams.staging_exists log issue.repo_full_name staging)
              (looked_up issue.repo_full_name staging) in
          Keeps-then P (lift (require_target_branch config))
            (λ staging.
              exists staging
              >>= open_checked seams issue.repo_full_name issue.issue_number head staging)
            (λ s p. p)
            (λ staging.
              Keeps-then P (exists staging)
                (open_checked seams issue.repo_full_name issue.issue_number head staging)
                (Keeps-call (λ log. seams.staging_exists log issue.repo_full_name staging)
                  (looked_up issue.repo_full_name staging) refl)
                (Keeps-checked staging))

      pub Keeps-step :
          Keeps P (open_pr_step seams config issue head >>= some_result seams config issue)
      unfolding open_pr_step some_result
      Keeps-step =
          Keeps-then P (open_pr_step seams config issue head) (some_result seams config issue)
            (Keeps-then P
              (open_staging_pr seams issue.repo_full_name issue.issue_number head config)
              (note_pr seams config issue) Keeps-open_staging_pr Keeps-note_pr)
            (λ r s p. p)
