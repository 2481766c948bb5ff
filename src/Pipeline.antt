-- ===== src/Pipeline.antt =====
-- retinue/pipeline.py: what becomes of a build, and of a merge.
pub mod Steps
pub mod Opening
pub mod Filing
pub mod Chain
use the_retinue.Base.{
  ℕ, zero, suc, ◌+◌, ◌-◌, ◌*◌, ◌/◌, ◌%◌, ◌≤◌, ◌<◌, min, max, ◌≡◌, refl, sym, ap, ◌∙◌, ◌≢◌, ◌↔◌, ◌⊎◌,
  inl, inr, Bool, true, false, not, ◌&&◌, ◌||◌, Option, none, some, List, [], ◌∷◌, ◌++◌, map, arith,
  ltb, leb, nat_beq, if◌then◌else◌, leb→le, nat_beq_iff, Bool-cases, Option-cases, Eq, ◌==◌, nat_eq,
  contains, eq_refl, list_beq, list_beq_iff, list_eq, dedup_onto, dedup, length, take, drop,
  take-append-drop, All-append_left, All-append_right, filter, count, length-append, length-take,
  length-filter, count-append, count-le-length, take_all, All, All-filter, List-cases, All-append,
  All-take, All-imp, Text, text, strip_prefix, strip_prefix-append, strip_prefix-some, is_space,
  skip_spaces, Unicode, digits_onto, read_number, HasAsciiDigits, read_number-show_onto,
  skip_spaces-show_onto, IsDigit, show-All, show_onto, split_words, show, read_onto, read_onto-show,
  show-injective, insert_by, sort_by, sort_by-perm, IsSortedBy, sort_by-All, sort_by-IsSortedBy,
  Dict, keys, lookup, insert, lookup-insert, NodupKeys, insert-NodupKeys, Exn, gh_cli_error,
  value_error, key_error, drain_busy, cron_busy, other_error, Result, ok, err, >>=-eq-ok,
  ok-injective, Result-cases, get_item, get_item-eq-ok, lookup-nil, length-Permᴰ, length-drop,
  rstrip, strip, join, is_line_break, split_lines, replace,
}
use the_retinue.Vocab.{hitl_label, backlog_label, priority_label, lower_name, issue_web_url}
use the_retinue.RepoConfig.{RepoConfig, RoutingConfig}
use the_retinue.AdhocIssue.{AdhocIssue, branch, render_chain_depth}
use the_retinue.RunLedger.{RunState, escalated, pr_opened, failed, merged}
use the_retinue.Exec.{Exec, pure, modify, ◌>>=◌, ◌>>◌}
use the_retinue.Container.{ReviewFinding}
use the_retinue.Gate.{ReviewGateOutcome}
use the_retinue.AdhocBuild.{AdhocBuildResult}
use the_retinue.Github.{
  Notification, IssueDraft, PullRequest, filed, PipelineState, PipelineSeams, call, note_state,
}
use the_retinue.Notify.{notify}
use the_retinue.PrOpener.{PrOpenOutcome, opened_one, staging_missing, PrOpenResult, open_staging_pr}
use the_retinue.RunStateStore.{record_pr, delete_round, round_for_pr}
use the_retinue.Handoff.{MergedPullRequest, ReapResult, reap_merged_pr}

-- `_render_blocking_body`
unfoldable pub blocking_bullets : List ReviewFinding → List Text
unfolding rstrip
blocking_bullets [] = []
blocking_bullets (f ∷ findings) =
    (text "- **"
      ++ f.title
      ++ text "** ("
      ++ lower_name f.severity
      ++ text ")"
      ++ 10 ∷ 10 ∷ 32 ∷ 32 ∷ rstrip f.body)
    ∷ blocking_bullets findings

unfoldable pub render_blocking_body : AdhocIssue → ReviewGateOutcome → Text
unfolding show join blocking_bullets
render_blocking_body issue gate =
    text "The in-session review gate blocked issue #"
    ++ show issue.issue_number
    ++ text " from opening a PR: the reviewer found "
    ++ show (length gate.blocking)
    ++ text
        " blocking finding(s) it still saw after one fix pass. The green branch is pushed and left for a human."
    ++ 10 ∷ 10 ∷ join (10 ∷ []) (blocking_bullets gate.blocking)

unfoldable pub blocking_note : AdhocIssue → ReviewGateOutcome → Notification
unfolding show render_blocking_body
blocking_note issue gate = record {
  repo_full_name = issue.repo_full_name;
  issue_number = issue.issue_number;
  title = text "Review gate blocked issue #" ++ show issue.issue_number;
  body = render_blocking_body issue gate;
  label = hitl_label;
}

-- The draft of one finding.
unfoldable pub nit_draft : ℕ → ReviewFinding → IssueDraft
unfolding render_chain_depth priority_label
nit_draft depth finding = record {
  title = finding.title;
  body = finding.body ++ 10 ∷ 10 ∷ render_chain_depth depth;
  labels = backlog_label ∷ priority_label finding.severity ∷ [];
}

module _ (seams : PipelineSeams) (config : RepoConfig) (issue : AdhocIssue) where
  -- `_escalate_blocking`
  unfoldable pub escalate_blocking : ReviewGateOutcome → Exec PipelineState (Unit {0})
  unfolding blocking_note
  escalate_blocking gate =
      notify seams (blocking_note issue gate)
      >> note_state seams issue.repo_full_name issue.issue_number escalated
          (some (issue_web_url issue.repo_full_name issue.issue_number))

  -- The loop of `_file_backlog`.
  unfoldable pub file_each : ℕ → List ReviewFinding → Exec PipelineState (Unit {0})
  unfolding nit_draft
  file_each depth [] = pure tt
  file_each depth (finding ∷ findings) =
      call (λ log. seams.create_issue log (nit_draft depth finding))
        (filed (nit_draft depth finding))
      >> file_each depth findings

  -- `_file_backlog`
  unfoldable pub file_backlog : List ReviewFinding → Exec PipelineState (Unit {0})
  unfolding file_each
  file_backlog backlog =
      if leb config.retry_cap (issue.chain_depth + 1)
      then pure tt
      else file_each (issue.chain_depth + 1) backlog

  -- The records of a pull request that is open.
  unfoldable pub note_pr : PrOpenResult → Exec PipelineState PrOpenResult
  unfolding record_pr
  note_pr result = elim result.pull_request [
    | none ↦ pure result
    | some pull_request ↦
        modify (λ s. record s {
          run_state =
              record_pr issue.repo_full_name issue.issue_number pull_request.number s.run_state;
        })
        >> (note_state seams issue.repo_full_name issue.issue_number pr_opened
              (some pull_request.url)
            >> pure result)
  ]

  -- `_open_pr`. A result has a pull request exactly if its outcome is `OPENED`.
  unfoldable pub open_pr_step : Text → Exec PipelineState PrOpenResult
  unfolding open_staging_pr note_pr
  open_pr_step head =
      open_staging_pr seams issue.repo_full_name issue.issue_number head config >>= note_pr

  unfoldable pub some_result : PrOpenResult → Exec PipelineState (Option PrOpenResult)
  some_result result = pure (some result)

  -- A green build that was reviewed, by what blocks it.
  unfoldable pub process_gated :
      Text → ReviewGateOutcome → List ReviewFinding → Exec PipelineState (Option PrOpenResult)
  unfolding file_backlog escalate_blocking open_pr_step some_result
  process_gated head gate [] = file_backlog gate.backlog >> (open_pr_step head >>= some_result)
  process_gated head gate (_ ∷ _) = escalate_blocking gate >> pure none

  unfoldable pub process_green :
      Text → Option ReviewGateOutcome → Exec PipelineState (Option PrOpenResult)
  unfolding process_gated
  process_green head none = open_pr_step head >>= some_result
  process_green head (some gate) = process_gated head gate gate.blocking

  -- `process_adhoc_pr`
  unfoldable pub process_adhoc_pr : AdhocBuildResult → Exec PipelineState (Option PrOpenResult)
  unfolding process_green
  process_adhoc_pr build =
      if build.passed
      then process_green build.branch build.gate
      else note_state seams issue.repo_full_name issue.issue_number failed none >> pure none

-- `reap_pr`
unfoldable pub reap_pr : PipelineSeams → MergedPullRequest → Exec PipelineState ReapResult
unfolding reap_merged_pr delete_round
reap_pr seams done = reap_merged_pr seams done >>= (λ result.
    modify
      (λ s. record s { run_state = delete_round done.repo_full_name done.prd_number s.run_state })
    >> (note_state seams done.repo_full_name done.prd_number merged none >> pure result))

-- `bind_adhoc_pr_open`: the build that it makes up for a stranded branch.
unfoldable pub stranded_build : AdhocIssue → AdhocBuildResult
unfolding branch
stranded_build issue = record { branch = branch issue; passed = true; gate = none }
