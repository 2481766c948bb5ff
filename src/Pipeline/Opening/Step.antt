-- ===== src/Pipeline/Opening/Step.antt =====
-- The step of retinue/pipeline.py that opens the pull request (retinue/pr_opener.py).
use the_retinue.Base.{
  ℕ, ◌+◌, ◌≡◌, refl, ◌⊎◌, inl, inr, Bool, true, false, Option, none, some, List, [], ◌∷◌, arith,
  nat_eq, list_eq, Text, ok,
}
use the_retinue.RepoConfig.{RepoConfig}
use the_retinue.AdhocIssue.{AdhocIssue}
use the_retinue.RunLedger.{RunLedgerRow}
use the_retinue.Exec.{pure, Keeps, Keeps-then, continue-keeps, Takes, Takes-then, ◌>>=◌}
use the_retinue.Gate.{require_target_branch}
use the_retinue.Github.{
  PullRequest, RunStateRow, Call, looked_up, searched, synced, opened, CallLog, PipelineState,
  PipelineSeams, call,
}
use the_retinue.Notify.{notify}
use the_retinue.PrOpener.{
  staging_note, escalate_staging, sync_branch, create_pr, opened_result, bring_up_to_date_and_open,
  reuse_or_open, open_checked, open_staging_pr,
}
use the_retinue.Pipeline.{note_pr, open_pr_step, some_result}
use the_retinue.Gate.Steps.{require_target_branch-ok}
use the_retinue.Pipeline.Steps.{is_quiet, Keeps-call, Keeps-notify, Keeps-note_pr}

-- The calls of `open_pr`.
abbrev pub opens : CallLog → ℕ
opens [] = 0
opens (opened request ∷ log) = opens log + 1
opens (event ∷ log) = opens log

module _ (seams : PipelineSeams) (n : ℕ) where
  -- As many pull requests as at first.
  unfoldable pub Unopened : PipelineState → Type 0
  Unopened s = opens s.log ≡ n

  pub quiet :
      (event : Call) (s : PipelineState)
      → is_quiet event ≡ true
      → Unopened s
      → Unopened (record s { log = event ∷ s.log })
  unfolding Unopened
  quiet (opened request) s h p = absurd (ground (arith, h))
  quiet event s h p = p

  pub stores :
      (run_state : List RunStateRow) (ledger : List RunLedgerRow) (s : PipelineState)
      → Unopened s
      → Unopened (record s { run_state = run_state; ledger = ledger })
  unfolding Unopened
  stores run_state ledger s p = p

  module _ (config : RepoConfig) (issue : AdhocIssue) (head : Text) where
    -- No pull request more, or one more, where there was none for the head.
    unfoldable pub Opened : PipelineState → Type 0
    Opened s =
        (opens s.log ≡ n)
        ⊎ ((opens s.log ≡ n + 1)
            × (before : CallLog) × (staging : Text) × (config.target_branch ≡ some staging)
            × (seams.existing_open_pr before issue.repo_full_name head staging ≡ ok none))

    pub unopened : (s : PipelineState) → Unopened s → Opened s
    unfolding Opened Unopened
    unopened s p = inl p

    create-Opened :
        (staging : Text) (before : CallLog) (s : PipelineState)
        → Unopened s
        → config.target_branch ≡ some staging
        → seams.existing_open_pr before issue.repo_full_name head staging ≡ ok none
        → Opened (create_pr seams issue.repo_full_name issue.issue_number head staging s).1
    unfolding Opened Unopened create_pr call
    create-Opened staging before s p target absent =
        inr (omega (arith, p), before, staging, target, absent)

    bring-Opened :
        (staging : Text) (before : CallLog) (s : PipelineState)
        → Unopened s
        → config.target_branch ≡ some staging
        → seams.existing_open_pr before issue.repo_full_name head staging ≡ ok none
        → Opened
            (bring_up_to_date_and_open seams issue.repo_full_name issue.issue_number head staging
              s).1
    unfolding bring_up_to_date_and_open sync_branch
    bring-Opened staging before s p target absent =
        let sync = sync_branch seams issue.repo_full_name issue.issue_number head staging in
        let create = create_pr seams issue.repo_full_name issue.issue_number head staging in
        let synced_up =
          Keeps-call Unopened seams quiet stores
            (λ log. seams.bring_up_to_date log issue.repo_full_name head staging)
            (synced issue.repo_full_name head staging) refl s p in
        continue-keeps Opened (sync s).0
          (λ a. create >>= (λ pull_request.
            pure (opened_result seams issue.repo_full_name issue.issue_number head pull_request)))
          (sync s).1 (unopened (sync s).1 synced_up)
          (λ a e.
            Keeps-then Opened (λ t. create (sync s).1)
              (λ pull_request.
                pure
                  (opened_result seams issue.repo_full_name issue.issue_number head pull_request))
              (λ t q. create-Opened staging before (sync s).1 synced_up target absent) (λ r t q. q)
              (sync s).1 (unopened (sync s).1 synced_up))

    reuse-Opened :
        (staging : Text) (found : Option PullRequest) (before : CallLog) (s : PipelineState)
        → Unopened s
        → config.target_branch ≡ some staging
        → seams.existing_open_pr before issue.repo_full_name head staging ≡ ok found
        → Opened
            (reuse_or_open seams issue.repo_full_name issue.issue_number head staging found s).1
    unfolding reuse_or_open
    reuse-Opened staging (some existing) before s p target found = unopened s p
    reuse-Opened staging none before s p target absent =
        bring-Opened staging before s p target absent

    escalated-Unopened :
        (staging : Text)
        → Keeps Unopened
            (escalate_staging seams issue.repo_full_name issue.issue_number head staging)
    unfolding escalate_staging
    escalated-Unopened staging =
        let note = staging_note issue.repo_full_name issue.issue_number head staging in
        Keeps-then Unopened (notify seams note) (λ a. pure _)
          (Keeps-notify Unopened seams quiet stores note) (λ a s p. p)

    checked-Opened :
        (staging : Text) (exists : Bool) (s : PipelineState)
        → Unopened s
        → config.target_branch ≡ some staging
        → Opened
            (open_checked seams issue.repo_full_name issue.issue_number head staging exists s).1
    unfolding open_checked call
    checked-Opened staging false s p target =
        unopened (escalate_staging seams issue.repo_full_name issue.issue_number head staging s).1
          (escalated-Unopened staging s p)
    checked-Opened staging true s p target =
        let event = searched issue.repo_full_name head staging in
        let t : PipelineState = record s { log = event ∷ s.log } in
        let q = quiet event s refl p in
        continue-keeps Opened (seams.existing_open_pr s.log issue.repo_full_name head staging)
          (reuse_or_open seams issue.repo_full_name issue.issue_number head staging) t
          (unopened t q) (λ found e. reuse-Opened staging found s.log t q target e)

    open_staging_pr-Opened :
        (s : PipelineState)
        → Unopened s
        → Opened (open_staging_pr seams issue.repo_full_name issue.issue_number head config s).1
    unfolding open_staging_pr call
    open_staging_pr-Opened s p =
        let look = λ (staging : Text).
          call (λ log. seams.staging_exists log issue.repo_full_name staging)
            (looked_up issue.repo_full_name staging)
          >>= open_checked seams issue.repo_full_name issue.issue_number head staging in
        continue-keeps Opened (require_target_branch config) look s (unopened s p) (λ staging e.
          let event = looked_up issue.repo_full_name staging in
          let t : PipelineState = record s { log = event ∷ s.log } in
          let q = quiet event s refl p in
          continue-keeps Opened (seams.staging_exists s.log issue.repo_full_name staging)
            (open_checked seams issue.repo_full_name issue.issue_number head staging) t
            (unopened t q)
            (λ exists f.
              checked-Opened staging exists t q (require_target_branch-ok config staging e)))

    stores_Opened :
        (run_state : List RunStateRow) (ledger : List RunLedgerRow) (s : PipelineState)
        → Opened s
        → Opened (record s { run_state = run_state; ledger = ledger })
    unfolding Opened
    stores_Opened run_state ledger s p = p

    quiet_Opened :
        (event : Call) (s : PipelineState)
        → is_quiet event ≡ true
        → Opened s
        → Opened (record s { log = event ∷ s.log })
    unfolding Opened
    quiet_Opened (opened request) s h p = absurd (ground (arith, h))
    quiet_Opened event s h p = p

    pub step-Opened :
        Takes Unopened Opened
          (open_pr_step seams config issue head >>= some_result seams config issue)
    unfolding open_pr_step some_result
    step-Opened =
        Takes-then Unopened Opened (open_pr_step seams config issue head)
          (some_result seams config issue)
          (Takes-then Unopened Opened
            (open_staging_pr seams issue.repo_full_name issue.issue_number head config)
            (note_pr seams config issue) open_staging_pr-Opened
            (Keeps-note_pr Opened seams quiet_Opened stores_Opened config issue))
          (λ r t q. q)
