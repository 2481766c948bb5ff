-- ===== src/Pipeline/Filing.antt =====
-- The follow-up issues that the pipeline files (retinue/pipeline.py), and the chains that they make.
use the_retinue.Base.{
  ℕ, ◌+◌, ◌<◌, ◌≡◌, refl, sym, inl, inr, true, Option, none, some, List, [], ◌∷◌, ◌++◌, arith, leb,
  Bool-cases, nat_eq, list_eq, Text, Unicode, HasAsciiDigits, snoc_append,
}
use mathlib.Core.Path.{subst}
use the_retinue.RepoConfig.{RepoConfig}
use the_retinue.AdhocIssue.{AdhocIssue}
use the_retinue.RunLedger.{RunLedgerRow, failed}
use the_retinue.Exec.{pure, Keeps, Keeps-then, Keeps-if, ◌>>=◌, ◌>>◌}
use the_retinue.Container.{ReviewFinding}
use the_retinue.Gate.{ReviewGateOutcome}
use the_retinue.AdhocBuild.{AdhocBuildResult}
use the_retinue.Github.{
  IssueDraft, RunStateRow, Call, filed, CallLog, PipelineState, PipelineSeams, call, note_state,
}
use the_retinue.PrOpener.{create_pr}
use the_retinue.Pipeline.{
  nit_draft, escalate_blocking, file_each, file_backlog, open_pr_step, some_result, process_gated,
  process_green, process_adhoc_pr,
}
use the_retinue.AdhocIssue.{parse_chain_depth, render_chain_depth}
use the_retinue.AdhocIssue.Depth.{parse_chain_depth-render}
use the_retinue.Pipeline.Steps.{is_quiet, Keeps-note_state, Keeps-escalate_blocking, Keeps-step}

-- The body that is filed for a finding is read back as the depth that it was filed with.
nit_draft-depth :
    (tables : Unicode) (depth : ℕ) (finding : ReviewFinding)
    → HasAsciiDigits tables
    → parse_chain_depth tables (nit_draft depth finding).body ≡ depth
unfolding nit_draft
nit_draft-depth tables depth finding ascii =
    subst (λ body. parse_chain_depth tables body ≡ depth)
      (snoc_append finding.body 10 (10 ∷ render_chain_depth depth))
      (parse_chain_depth-render tables (finding.body ++ 10 ∷ []) depth ascii)

module _ (tables : Unicode) (config : RepoConfig) (issue : AdhocIssue) where
  -- The issue that a draft becomes is one deeper, and not as deep as the cap.
  abbrev pub IsDeeper : IssueDraft → Type 0
  IsDeeper draft =
      (parse_chain_depth tables draft.body ≡ issue.chain_depth + 1)
      × (issue.chain_depth + 1 < config.retry_cap)

  abbrev pub AllDeeper : CallLog → Type 0
  AllDeeper [] = Unit
  AllDeeper (filed draft ∷ log) = IsDeeper draft × AllDeeper log
  AllDeeper (event ∷ log) = AllDeeper log

  tail_of : (event : Call) (log : CallLog) → AllDeeper (event ∷ log) → AllDeeper log
  tail_of (filed draft) log p = p.1
  tail_of event log p = p

  pub P : PipelineState → Type 0
  P s = AllDeeper s.log

  pub fresh-P : (s : PipelineState) → s.log ≡ [] → P s
  unfolding P
  fresh-P s e = subst AllDeeper (sym e) tt

  quiet :
      (event : Call) (s : PipelineState)
      → is_quiet event ≡ true
      → P s
      → P (record s { log = event ∷ s.log })
  unfolding P
  quiet (filed draft) s h p = absurd (ground (arith, h))
  quiet event s h p = p

  stores :
      (run_state : List RunStateRow) (ledger : List RunLedgerRow) (s : PipelineState)
      → P s
      → P (record s { run_state = run_state; ledger = ledger })
  unfolding P
  stores run_state ledger s p = p

  module _ (ascii : HasAsciiDigits tables) (seams : PipelineSeams) where
    filed-P :
        (finding : ReviewFinding)
        → issue.chain_depth + 1 < config.retry_cap
        → Keeps P (
            call
              (λ log. seams.create_issue log (nit_draft (issue.chain_depth + 1) finding))
              (filed (nit_draft (issue.chain_depth + 1) finding)))
    unfolding P call
    filed-P finding within s p =
        ((nit_draft-depth tables (issue.chain_depth + 1) finding ascii, within), p)

    each-P :
        (findings : List ReviewFinding)
        → issue.chain_depth + 1 < config.retry_cap
        → Keeps P (file_each seams config issue (issue.chain_depth + 1) findings)
    unfolding file_each
    each-P [] within = λ s p. p
    each-P (finding ∷ findings) within =
        let draft = nit_draft (issue.chain_depth + 1) finding in
        Keeps-then P (call (λ log. seams.create_issue log draft) (filed draft))
          (λ a. file_each seams config issue (issue.chain_depth + 1) findings)
          (filed-P finding within) (λ a. each-P findings within)

    backlog-P : (backlog : List ReviewFinding) → Keeps P (file_backlog seams config issue backlog)
    unfolding file_backlog
    backlog-P backlog = elim (Bool-cases (leb config.retry_cap (issue.chain_depth + 1))) [
      | inl capped ↦ rw (capped, file_backlog) (λ s p. p)
      | inr within ↦ rw (within, file_backlog) (each-P backlog (ground (arith, within)))
    ]

    opened-P :
        (staging head : Text)
        → Keeps P (create_pr seams issue.repo_full_name issue.issue_number head staging)
    unfolding P create_pr call
    opened-P staging head s p = p

    step-P :
        (head : Text)
        → Keeps P (open_pr_step seams config issue head >>= some_result seams config issue)
    step-P head =
        Keeps-step P seams quiet stores config issue head (λ staging. opened-P staging head)

    gated-P :
        (head : Text) (gate : ReviewGateOutcome) (blocking : List ReviewFinding)
        → Keeps P (process_gated seams config issue head gate blocking)
    unfolding process_gated
    gated-P head gate [] =
        Keeps-then P (file_backlog seams config issue gate.backlog)
          (λ a. open_pr_step seams config issue head >>= some_result seams config issue)
          (backlog-P gate.backlog) (λ a. step-P head)
    gated-P head gate (f ∷ fs) =
        Keeps-then P (escalate_blocking seams config issue gate) (λ a. pure none)
          (Keeps-escalate_blocking P seams quiet stores config issue gate) (λ a s p. p)

    green-P :
        (head : Text) (gate : Option ReviewGateOutcome)
        → Keeps P (process_green seams config issue head gate)
    unfolding process_green
    green-P head none = step-P head
    green-P head (some gate) = gated-P head gate gate.blocking

    pub process-P : (build : AdhocBuildResult) → Keeps P (process_adhoc_pr seams config issue build)
    unfolding process_adhoc_pr
    process-P build =
        Keeps-if P build.passed (process_green seams config issue build.branch build.gate)
          (note_state seams issue.repo_full_name issue.issue_number failed none >> pure none)
          (green-P build.branch build.gate)
          (Keeps-then P (note_state seams issue.repo_full_name issue.issue_number failed none)
            (λ a. pure none)
            (Keeps-note_state P seams quiet stores issue.repo_full_name issue.issue_number failed
              none)
            (λ a s p. p))

    -- What a log holds that was empty before.
    among :
        (log front back : CallLog) (draft : IssueDraft)
        → AllDeeper log
        → log ≡ front ++ filed draft ∷ back
        → IsDeeper draft
    among log [] back draft p e = (subst AllDeeper e p).0
    among log (event ∷ front) back draft p e =
        among (front ++ filed draft ∷ back) front back draft
          (tail_of event (front ++ filed draft ∷ back) (subst AllDeeper e p)) refl

    pub deeper :
        (s : PipelineState) (front back : CallLog) (draft : IssueDraft)
        → P s
        → s.log ≡ front ++ filed draft ∷ back
        → IsDeeper draft
    unfolding P
    deeper s = among s.log
