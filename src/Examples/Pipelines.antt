-- ===== src/Examples/Pipelines.antt =====
-- The pipeline (retinue/pipeline.py) and what it uses of retinue/notify.py, retinue/pr_opener.py and
-- retinue/handoff.py, at concrete inputs.
use the_retinue.Base.{
  contains, filter, if◌then◌else◌, ◌==◌, ℕ, ◌+◌, ◌<◌, ◌≡◌, refl, ◌⊎◌, true, false, none, some, [],
  ◌∷◌, ◌++◌, nat_eq, list_eq, text, other_error, ok, err,
}
use the_retinue.Vocab.{high, low}
use the_retinue.RepoConfig.{RepoConfig, default_config}
use the_retinue.AdhocIssue.{AdhocIssue, from_fetched_issue}
use the_retinue.Container.{ReviewFinding}
use the_retinue.Gate.{ReviewGateOutcome}
use the_retinue.AdhocBuild.{AdhocBuildResult}
use the_retinue.Github.{PullRequest, filed, PipelineState, PipelineSeams, call}
use the_retinue.Handoff.{
  MergedPullRequest, ReapResult, reaped, close_slice_issues, close_issue, list_children,
  reap_or_keep, all_done, is_done, reap_merged_pr,
}
use the_retinue.Handoff.Reaped.{Reaped, reap_merged_pr-Reaped}
use the_retinue.Pipeline.{nit_draft, process_adhoc_pr}
use the_retinue.Pipeline.Opening.{opens, Opened, process_adhoc_pr-opens}
use the_retinue.Pipeline.Chain.{Hop, hop, ends, hops, Chain-ends}
use the_retinue.Examples.Builds.{issue}
use the_retinue.Examples.Labels.{ascii, ascii-HasAsciiDigits}

abbrev config : RepoConfig
config = record default_config { target_branch = some (text "main") }

-- The push service is down, and GitHub answers.
abbrev pub seams : PipelineSeams
seams = record {
  push = λ log title body. err other_error;
  comment = λ log repo number body. ok tt;
  label = λ log repo number label. ok tt;
  create_issue = λ log draft. ok tt;
  staging_exists = λ log repo branch. ok true;
  existing_open_pr = λ log repo head base. ok none;
  bring_up_to_date = λ log repo head base. ok tt;
  open_pr = λ log request. ok (record { number = 12; url = text "https://github.com/o/r/pull/12" });
  close_issue = λ log repo number. ok tt;
  children_of = λ log repo number. ok (record { number = 7; closed = false; hitl = true } ∷ []);
  now = λ log. 1000;
  ledger_write = λ log. ok tt;
}

abbrev pub before : PipelineState
before = record { log = []; run_state = []; ledger = [] }

abbrev nit : ReviewFinding
nit = record { title = text "Typo"; body = text "A comment."; severity = low }

abbrev blocker : ReviewFinding
blocker = record { title = text "Wrong sum"; body = text "It is off by one."; severity = high }

abbrev cleared : ReviewGateOutcome
cleared = record { blocking = []; backlog = nit ∷ []; regressed = false }

abbrev held : ReviewGateOutcome
held = record { blocking = blocker ∷ []; backlog = []; regressed = false }

abbrev green : AdhocBuildResult
green = record { branch = text "issue-5"; passed = true; gate = some cleared }

abbrev blocked : AdhocBuildResult
blocked = record { branch = text "issue-5"; passed = true; gate = some held }

process_adhoc_pr-opens_example :
    (opens (process_adhoc_pr seams config issue green before).1.log ≡ opens before.log)
    ⊎ ((green.passed ≡ true)
        × ((gate : ReviewGateOutcome) → green.gate ≡ some gate → gate.blocking ≡ [])
        × Opened seams
            (opens before.log)
            config
            issue
            green.branch
            (process_adhoc_pr seams config issue green before).1)
process_adhoc_pr-opens_example = process_adhoc_pr-opens seams config issue green before

-- No target branch: the finding is filed, and then the opening of the pull request raises.
filed_one :
    (process_adhoc_pr seams default_config issue green before).1.log
    ≡ [] ++ filed (nit_draft 1 nit) ∷ []
unfolding process_adhoc_pr the_retinue.Pipeline.process_green the_retinue.Pipeline.process_gated
    the_retinue.Pipeline.file_backlog the_retinue.Pipeline.file_each
    the_retinue.Pipeline.open_pr_step the_retinue.PrOpener.open_staging_pr
    the_retinue.Gate.require_target_branch the_retinue.Github.call
filed_one = refl

one-Hop :
    Hop ascii default_config issue
      (from_fetched_issue ascii issue.repo_full_name 501 (nit_draft 1 nit).body)
one-Hop = hop seams issue green before [] [] (nit_draft 1 nit) 501 refl filed_one

abbrev second : AdhocIssue
second = from_fetched_issue ascii issue.repo_full_name 501 (nit_draft 1 nit).body

abbrev one : ℕ
one = 1

Chain-ends_example :
    (second.chain_depth ≡ issue.chain_depth + one)
    × ((one ≡ 0) ⊎ (issue.chain_depth + one < default_config.retry_cap))
Chain-ends_example =
    Chain-ends ascii default_config ascii-HasAsciiDigits one issue second
      (hops one-Hop (ends second))

-- The close of issue 9 raises, and issue 7, which GitHub lists as open, is closed on the way.
abbrev merged : MergedPullRequest
merged = record {
  repo_full_name = text "o/r";
  pr_number = 12;
  prd_number = 5;
  slice_issues = 9 ∷ 7 ∷ [];
}

abbrev reap_seams : PipelineSeams
reap_seams = record seams {
  close_issue = λ log repo number. if number == 9 then err other_error else ok tt;
  children_of = λ log repo number. ok (record { number = 7; closed = false; hitl = false } ∷ []);
}

abbrev reap_result : ReapResult
reap_result = record { outcome = reaped; closed_slice_issues = 7 ∷ []; prd_closed = true }

reaps : (reap_merged_pr reap_seams merged before).0 ≡ ok reap_result
unfolding reap_merged_pr close_slice_issues close_issue list_children reap_or_keep all_done is_done
    call contains filter
reaps = refl

reap_merged_pr-Reaped_example :
    Reaped reap_seams merged before.log reap_result (reap_merged_pr reap_seams merged before).1.log
reap_merged_pr-Reaped_example = reap_merged_pr-Reaped reap_seams merged before reap_result reaps
