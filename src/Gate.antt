-- ===== src/Gate.antt =====
-- The planner and the in-session review gate of retinue/adhoc_build.py.
pub mod Files
pub mod Steps
pub mod Cleared
use the_retinue.Base.{
  ℕ, zero, suc, ◌+◌, ◌-◌, ◌*◌, ◌/◌, ◌%◌, ◌≤◌, ◌<◌, min, max, ◌≡◌, refl, sym, ap, ◌∙◌, ◌≢◌, ◌↔◌, ◌⊎◌,
  inl, inr, Bool, true, false, not, ◌&&◌, ◌||◌, Option, none, some, List, [], ◌∷◌, ◌++◌, map, arith,
  ltb, leb, nat_beq, if◌then◌else◌, leb→le, nat_beq_iff, Bool-cases, Option-cases, Eq, ◌==◌, nat_eq,
  contains, eq_refl, list_beq, list_beq_iff, list_eq, dedup_onto, dedup, length, take, drop,
  take-append-drop, All-append_left, All-append_right, filter, count, length-append, length-take,
  length-filter, count-append, count-le-length, take_all, All, All-filter, List-cases, All-append,
  All-take, All-imp, Text, text, strip_prefix, strip_prefix-append, strip_prefix-some, is_space,
  skip_spaces, Unicode, digits_onto, read_number, HasAsciiDigits, read_number-show_onto,
  skip_spaces-show_onto, IsDigit, show-All, show_onto, split_words, show, read_onto, read_onto-show,
  show-injective, insert_by, sort_by, sort_by-perm, IsSortedBy, sort_by-All, sort_by-IsSortedBy,
  Dict, keys, lookup, insert, lookup-insert, NodupKeys, insert-NodupKeys, Exn, gh_cli_error,
  value_error, key_error, drain_busy, cron_busy, other_error, Result, ok, err, >>=-eq-ok,
  ok-injective, Result-cases, get_item, get_item-eq-ok, lookup-nil, length-Permᴰ, length-drop,
  rstrip, strip, join, is_line_break, split_lines, replace,
}
use the_retinue.Gate.Files.{materialize_plan, plan_file}
use the_retinue.Vocab.{Severity, high, severity_value, lower_name, issue_branch}
use the_retinue.RepoConfig.{RepoConfig}
use the_retinue.AdhocIssue.{AdhocIssue, branch}
use the_retinue.Exec.{Exec, pure, raise, lift, ◌>>=◌, ◌>>◌}
use the_retinue.Container.{
  RunResult, run_ok, ReviewFinding, Slice, BuildLog, BuildSeams, planning, diffing, run_command,
  ask_review,
}
use the_retinue.Build.{push_branch, run_done_check_commands, implement_env}
use the_retinue.Build.Implement.{ContainerImplementer, implement}

-- `RepoConfig.require_target_branch`
unfoldable pub require_target_branch : RepoConfig → Result Text
require_target_branch config = elim config.target_branch [
  | none ↦ err value_error
  | some target ↦ ok target
]

-- `_slice_for_issue`
unfoldable pub slice_for_issue : AdhocIssue → Slice
slice_for_issue issue = record {
  repo_full_name = issue.repo_full_name;
  issue_number = issue.issue_number;
  prd_number = issue.issue_number;
}

unfoldable pub issue_diff_command : Text → Text → List Text
issue_diff_command branch base =
    text "git" ∷ text "diff" ∷ (text "origin/" ++ base ++ text "..." ++ branch) ∷ []

-- `_issue_diff`
unfoldable pub issue_diff : BuildSeams → RepoConfig → AdhocIssue → Exec BuildLog Text
unfolding issue_diff_command require_target_branch branch
issue_diff seams config issue = lift (require_target_branch config) >>= (λ base.
    run_command seams diffing (issue_diff_command (branch issue) base) []
    >>= (λ result. if run_ok result then pure result.stdout else raise other_error))

pub record ReviewGateOutcome : Type 0 where
  pub blocking : List ReviewFinding
  pub backlog : List ReviewFinding
  pub regressed : Bool

-- `f.severity >= _BLOCKING_THRESHOLD`
unfoldable pub is_blocking : ReviewFinding → Bool
is_blocking finding = leb (severity_value high) (severity_value finding.severity)

-- `_partition_findings`
unfoldable pub partition_findings : List ReviewFinding → List ReviewFinding × List ReviewFinding
unfolding filter is_blocking
partition_findings findings =
    (filter is_blocking findings, filter (λ f. not (is_blocking f)) findings)

-- `_regression_finding`
abbrev pub regression_finding : ReviewFinding
regression_finding = record {
  title = text "Review fix pass regressed the done-check";
  body =
      text
        "The in-session review fix pass turned the repo's done-check red. The fix was not pushed, so the branch stays at its green pre-fix state, but the issue needs a human before it can proceed to a PR.";
  severity = high;
}

-- `_gate_error_finding`
unfoldable pub gate_error_finding : BuildSeams → Exn → ReviewFinding
gate_error_finding seams e = record {
  title = text "Review gate errored before it could clear the issue";
  body =
      text "The in-session review gate raised before it could finish reviewing the built issue ("
      ++ seams.repr e
      ++ text
          "). The build is green and pushed, but it was never fully reviewed, so the PR is held and the issue escalated to a human.";
  severity = high;
}

-- `_render_fix_plan`: the lines of the findings from `index` on.
unfoldable pub finding_lines : ℕ → List ReviewFinding → List Text
unfolding show rstrip
finding_lines index [] = []
finding_lines index (finding ∷ findings) =
    (show index
      ++ text ". **"
      ++ finding.title
      ++ text "** ("
      ++ lower_name finding.severity
      ++ text ")")
    ∷ []
    ∷ rstrip finding.body
    ∷ []
    ∷ finding_lines (index + 1) findings

unfoldable pub render_fix_plan : List ReviewFinding → Text
unfolding finding_lines join rstrip
render_fix_plan findings =
    rstrip (
      join (10 ∷ [])
        (text "Address these review findings before the PR opens:" ∷ [] ∷ finding_lines 1 findings))
    ++ 10 ∷ []

module _ (seams : BuildSeams) (config : RepoConfig) (commands : Result (List (List Text)))
    (implementer : ContainerImplementer) (issue : AdhocIssue) where
  -- The second review, behind a fix pass that was pushed.
  unfoldable pub second_review : Exec BuildLog ReviewGateOutcome
  second_review = issue_diff seams config issue >>= (λ diff. ask_review seams diff) >>= (λ findings.
      let (blocking, backlog) = partition_findings findings in
      pure (record { blocking = blocking; backlog = backlog; regressed = false }))

  -- The verdict on the fix pass.
  unfoldable pub judge_fix : Bool × Text → Exec BuildLog ReviewGateOutcome
  judge_fix (false, detail) =
      pure (record { blocking = regression_finding ∷ []; backlog = []; regressed = true })
  judge_fix (true, detail) = push_branch seams (branch issue) >> second_review

  unfoldable pub fix_pass : List ReviewFinding → Exec BuildLog ReviewGateOutcome
  fix_pass findings =
      materialize_plan seams (render_fix_plan findings)
      >> (implement seams implementer (slice_for_issue issue) (some plan_file)
          >> (lift commands
              >>= (λ commands. run_done_check_commands seams commands [] >>= judge_fix)))

  -- What follows the first review, by its findings that block.
  unfoldable pub judge_partition :
      List ReviewFinding → List ReviewFinding × List ReviewFinding → Exec BuildLog ReviewGateOutcome
  judge_partition findings ([], backlog) =
      pure (record { blocking = []; backlog = backlog; regressed = false })
  judge_partition findings (_ ∷ _, backlog) = fix_pass findings

  unfoldable pub judge_findings : List ReviewFinding → Exec BuildLog ReviewGateOutcome
  unfolding judge_partition
  judge_findings findings = judge_partition findings (partition_findings findings)

  -- `_review_gate_pass`. A review with no finding has no backlog either.
  unfoldable pub review_gate_pass : Exec BuildLog ReviewGateOutcome
  review_gate_pass =
      issue_diff seams config issue >>= (λ diff. ask_review seams diff) >>= judge_findings

  -- `_run_review_gate`
  unfoldable pub run_review_gate : Exec BuildLog ReviewGateOutcome
  run_review_gate log =
      let (result, after) = review_gate_pass log in
      elim result [
        | ok outcome ↦ (ok outcome, after)
        | err e ↦ (
          ok (record {
            blocking = gate_error_finding seams e ∷ [];
            backlog = [];
            regressed = false;
          }),
          after,
        )
      ]
