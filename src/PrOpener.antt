-- ===== src/PrOpener.antt =====
-- retinue/pr_opener.py: `open_staging_pr`.
use the_retinue.Base.{
  ℕ, Bool, true, false, Option, none, some, ◌++◌, nat_eq, list_eq, Text, text, show,
}
use the_retinue.RepoConfig.{RepoConfig}
use the_retinue.Vocab.{hitl_label}
use the_retinue.Gate.{require_target_branch}
use the_retinue.Exec.{Exec, pure, lift, ◌>>=◌, ◌>>◌}
use the_retinue.Github.{
  Notification, OpenPrRequest, PullRequest, looked_up, searched, synced, opened, PipelineState,
  PipelineSeams, call,
}
use the_retinue.Notify.{notify}

pub data PrOpenOutcome : Type 0 where
  opened_one staging_missing : PrOpenOutcome

pub record PrOpenResult : Type 0 where
  pub outcome : PrOpenOutcome
  pub integration_branch : Text
  pub pull_request : Option PullRequest

-- The notification of a missing target branch.
unfoldable pub staging_note : Text → ℕ → Text → Text → Notification
unfolding show
staging_note repo issue_number branch staging = record {
  repo_full_name = repo;
  issue_number = issue_number;
  title = text "Retinue cannot open the PR: target branch missing";
  body =
      text "Issue #"
      ++ show issue_number
      ++ text " built `"
      ++ branch
      ++ text "`, but the target branch `"
      ++ staging
      ++ text "` does not exist on `"
      ++ repo
      ++ text "`. Create it, then the retinue can open the PR. No PR was opened.";
  label = hitl_label;
}

module _ (seams : PipelineSeams) (repo : Text) (issue_number : ℕ) (head : Text) where
  -- `_escalate`
  unfoldable pub escalate_staging : Text → Exec PipelineState PrOpenResult
  unfolding staging_note
  escalate_staging staging =
      notify seams (staging_note repo issue_number head staging)
      >> pure (record { outcome = staging_missing; integration_branch = head; pull_request = none })

  unfoldable pub open_request : Text → OpenPrRequest
  unfolding show
  open_request staging = record {
    repo_full_name = repo;
    head = head;
    base = staging;
    title = text "Retinue: land " ++ head ++ text " into " ++ staging;
    body =
        text "Automated PR for issue #"
        ++ show issue_number
        ++ text ": merge `"
        ++ head
        ++ text "` into `"
        ++ staging
        ++ text "` after a full build.";
  }

  unfoldable pub sync_branch : Text → Exec PipelineState (Unit {0})
  sync_branch staging =
      call (λ log. seams.bring_up_to_date log repo head staging) (synced repo head staging)

  unfoldable pub create_pr : Text → Exec PipelineState PullRequest
  unfolding open_request
  create_pr staging =
      call (λ log. seams.open_pr log (open_request staging)) (opened (open_request staging))

  unfoldable pub opened_result : PullRequest → PrOpenResult
  opened_result pull_request = record {
    outcome = opened_one;
    integration_branch = head;
    pull_request = some pull_request;
  }

  -- `_bring_up_to_date_and_open`
  unfoldable pub bring_up_to_date_and_open : Text → Exec PipelineState PrOpenResult
  unfolding sync_branch create_pr opened_result
  bring_up_to_date_and_open staging =
      sync_branch staging
      >> (create_pr staging >>= (λ pull_request. pure (opened_result pull_request)))

  -- The pull request that is open for the head already, if there is one.
  unfoldable pub reuse_or_open : Text → Option PullRequest → Exec PipelineState PrOpenResult
  unfolding bring_up_to_date_and_open
  reuse_or_open staging (some existing) = pure (opened_result existing)
  reuse_or_open staging none = bring_up_to_date_and_open staging

  unfoldable pub open_checked : Text → Bool → Exec PipelineState PrOpenResult
  unfolding escalate_staging reuse_or_open
  open_checked staging false = escalate_staging staging
  open_checked staging true =
      call (λ log. seams.existing_open_pr log repo head staging) (searched repo head staging)
      >>= reuse_or_open staging

  unfoldable pub open_staging_pr : RepoConfig → Exec PipelineState PrOpenResult
  unfolding open_checked
  open_staging_pr config = lift (require_target_branch config) >>= (λ staging.
      call (λ log. seams.staging_exists log repo staging) (looked_up repo staging)
      >>= open_checked staging)
