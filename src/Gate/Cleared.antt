-- ===== src/Gate/Cleared.antt =====
-- When the review gate of retinue/adhoc_build.py lets an issue through.
use the_retinue.Base.{
  ◌≡◌, refl, sym, ap, ◌∙◌, inl, inr, Bool, true, false, not, some, List, [], ◌∷◌, arith,
  if◌then◌else◌, Bool-cases, nat_eq, list_eq, filter, All, Text, other_error, Result, ok,
  ok-injective, Result-cases,
}
use mathlib.Core.Path.{subst}
use the_retinue.RepoConfig.{RepoConfig}
use the_retinue.AdhocIssue.{AdhocIssue, branch}
use the_retinue.Exec.{pure, raise, lift, Post, Post-then, Post-rest, ◌>>=◌}
use the_retinue.Container.{
  RunResult, run_ok, ReviewFinding, diffing, ran, reviewed, BuildLog, BuildSeams, run_command,
  ask_review,
}
use the_retinue.Build.{run_done_check_commands, push_branch}
use the_retinue.Build.Implement.{ContainerImplementer, implement}
use the_retinue.Gate.{
  require_target_branch, issue_diff_command, is_blocking, partition_findings, issue_diff,
  slice_for_issue, ReviewGateOutcome, regression_finding, gate_error_finding, second_review,
  judge_fix, fix_pass, judge_partition, judge_findings, review_gate_pass, run_review_gate,
  render_fix_plan,
}
use the_retinue.Gate.Steps.{require_target_branch-ok}
use the_retinue.Gate.Files.{materialize_plan, plan_file}

module _ (seams : BuildSeams) (config : RepoConfig) (issue : AdhocIssue) where
  -- The last thing that was done is a `git diff` of the issue's branch, which exited with 0.
  pub record DiffRead (diff : Text) (log : BuildLog) : Type 0 where
    pub base : Text
    pub before : BuildLog
    pub result : RunResult
    pub target : config.target_branch ≡ some base
    pub ended : log ≡ ran diffing (issue_diff_command (branch issue) base) [] ∷ before
    pub answered : seams.command before (issue_diff_command (branch issue) base) [] ≡ ok result
    pub exited : run_ok result ≡ true
    pub printed : diff ≡ result.stdout

  -- The last thing that was done is a review of such a diff, which found these.
  pub record Reviewed (findings : List ReviewFinding) (log : BuildLog) : Type 0 where
    pub diff : Text
    pub before : BuildLog
    pub read : DiffRead diff before
    pub ended : log ≡ reviewed diff ∷ before
    pub answered : seams.review before diff ≡ ok findings

  -- The last review found nothing that blocks, and the outcome's backlog is all that it found.
  unfoldable pub Cleared : ReviewGateOutcome → BuildLog → Type 0
  Cleared outcome log =
      outcome.blocking ≡ []
      → (findings : List ReviewFinding) × Reviewed findings log
        × (All (λ f. is_blocking f ≡ false) findings)
        × (outcome.backlog ≡ findings)

  target-Post :
      Post {S = BuildLog}
        (lift (require_target_branch config))
        (λ base log. config.target_branch ≡ some base)
  target-Post log base h = require_target_branch-ok config base h

  -- The command just run, and its result.
  JustRan : Text → RunResult → BuildLog → Type 0
  JustRan base result log =
      (before : BuildLog) × (log ≡ ran diffing (issue_diff_command (branch issue) base) [] ∷ before)
      × (seams.command before (issue_diff_command (branch issue) base) [] ≡ ok result)

  run-Post :
      (base : Text)
      → Post (run_command seams diffing (issue_diff_command (branch issue) base) []) (JustRan base)
  unfolding run_command JustRan
  run-Post base log result h = (log, refl, h)

  printed-Post :
      (base : Text) (result : RunResult) (log : BuildLog)
      → config.target_branch ≡ some base
      → JustRan base result log
      → (exited : Bool) → run_ok result ≡ exited
      → (diff : Text) → ((if exited then pure result.stdout else raise other_error) log).0 ≡ ok diff
      → DiffRead diff ((if exited then pure result.stdout else raise other_error) log).1
  unfolding JustRan
  printed-Post base result log target (before, ended, answered) true e diff h = record {
    base = base;
    before = before;
    result = result;
    target = target;
    ended = ended;
    answered = answered;
    exited = e;
    printed = sym (ok-injective h);
  }
  printed-Post base result log target just false e diff h = absurd (cc)

  issue_diff-Post : Post (issue_diff seams config issue) DiffRead
  unfolding issue_diff
  issue_diff-Post =
      Post-then (λ base log. config.target_branch ≡ some base) DiffRead
        (lift (require_target_branch config)) _ target-Post
        (λ base log target.
          Post-then (JustRan base) DiffRead
            (run_command seams diffing (issue_diff_command (branch issue) base) []) _
            (run-Post base)
            (λ result after just. printed-Post base result after target just (run_ok result) refl)
            log)

  review-Post : Post (issue_diff seams config issue >>= (λ diff. ask_review seams diff)) Reviewed
  unfolding ask_review
  review-Post =
      Post-then DiffRead Reviewed (issue_diff seams config issue) _ issue_diff-Post
        (λ diff log read findings h. record {
          diff = diff;
          before = log;
          read = read;
          ended = refl;
          answered = h;
        })

  none_blocking :
      (findings : List ReviewFinding)
      → filter is_blocking findings ≡ []
      → All (λ f. is_blocking f ≡ false) findings
        × (filter (λ f. not (is_blocking f)) findings ≡ findings)
  unfolding filter
  none_blocking [] h = (tt, refl)
  none_blocking (f ∷ fs) h = elim (Bool-cases (is_blocking f)) [
    | inl e ↦ absurd (ground (arith, e, h))
    | inr e ↦
        let rest = none_blocking fs (ground (arith, e, h)) in ground (arith, e, rest.0, rest.1)
  ]

  -- A review that is partitioned, and an outcome that is the partition.
  partition-Cleared :
      (findings : List ReviewFinding) (log : BuildLog)
      → Reviewed findings log
      → Cleared
          (record {
            blocking = (partition_findings findings).0;
            backlog = (partition_findings findings).1;
            regressed = false;
          })
          log
  unfolding Cleared partition_findings
  partition-Cleared findings log read clear =
      let split = none_blocking findings clear in (findings, read, split.0, split.1)

  blocked-Cleared :
      (finding : ReviewFinding) (backlog : List ReviewFinding) (regressed : Bool) (log : BuildLog)
      → Cleared (record { blocking = finding ∷ []; backlog = backlog; regressed = regressed }) log
  unfolding Cleared
  blocked-Cleared finding backlog regressed log h = absurd (cc)

  module _ (commands : Result (List (List Text))) (implementer : ContainerImplementer) where
    second_review-Cleared : Post (second_review seams config commands implementer issue) Cleared
    unfolding second_review
    second_review-Cleared =
        Post-then Reviewed Cleared
          (issue_diff seams config issue >>= (λ diff. ask_review seams diff)) _ review-Post
          (λ findings log read outcome h.
            subst (λ o. Cleared o log) (ok-injective h) (partition-Cleared findings log read))

    judge_fix-Cleared :
        (verdict : Bool × Text)
        → Post (judge_fix seams config commands implementer issue verdict) Cleared
    unfolding judge_fix Cleared
    judge_fix-Cleared (false, detail) = λ log outcome h.
        subst (λ o. Cleared o log) (ok-injective h) (blocked-Cleared regression_finding [] true log)
    judge_fix-Cleared (true, detail) =
        Post-rest Cleared (push_branch seams (branch issue)) _ (λ a. second_review-Cleared)

    fix_pass-Cleared :
        (findings : List ReviewFinding)
        → Post (fix_pass seams config commands implementer issue findings) Cleared
    unfolding fix_pass
    fix_pass-Cleared findings =
        Post-rest Cleared (materialize_plan seams (render_fix_plan findings)) _ (λ a.
          Post-rest Cleared (implement seams implementer (slice_for_issue issue) (some plan_file)) _
            (λ b.
              Post-rest Cleared (lift commands) _ (λ cs.
                Post-rest Cleared (run_done_check_commands seams cs []) _ judge_fix-Cleared)))

    judge_partition-Cleared :
        (findings : List ReviewFinding) (log : BuildLog)
        → Reviewed findings log
        → (split : List ReviewFinding × List ReviewFinding) → partition_findings findings ≡ split
        → (outcome : ReviewGateOutcome)
        → (judge_partition seams config commands implementer issue findings split log).0
          ≡ ok outcome
        → Cleared outcome
            (judge_partition seams config commands implementer issue findings split log).1
    unfolding judge_partition
    judge_partition-Cleared findings log read ([], backlog) e = λ outcome h.
        subst (λ o. Cleared o log)
          (ap (λ p. record { blocking = p.0; backlog = p.1; regressed = false }) e ∙ ok-injective h)
          (partition-Cleared findings log read)
    judge_partition-Cleared findings log read (f ∷ fs, backlog) e = fix_pass-Cleared findings log

    pass-Cleared : Post (review_gate_pass seams config commands implementer issue) Cleared
    unfolding review_gate_pass judge_findings
    pass-Cleared =
        Post-then Reviewed Cleared
          (issue_diff seams config issue >>= (λ diff. ask_review seams diff)) _ review-Post
          (λ findings log read.
            judge_partition-Cleared findings log read (partition_findings findings) refl)

    -- `_run_review_gate` raises nothing. It gives an outcome, and if that has nothing blocking, then
    -- the last thing that the gate did is a review of the branch's diff, as `git` printed it with exit
    -- code 0 right before; the reviewer answered, none of its findings is of the threshold or above, and
    -- all of them are the outcome's backlog.
    pub run_review_gate-Cleared :
        (log : BuildLog)
        → (outcome : ReviewGateOutcome) × ((run_review_gate seams config commands implementer issue
              log).0
            ≡ ok outcome)
          × Cleared outcome (run_review_gate seams config commands implementer issue log).1
    unfolding run_review_gate
    run_review_gate-Cleared log =
        elim (Result-cases (review_gate_pass seams config commands implementer issue log).0) [
          | inl (outcome, e) ↦ rw (e, run_review_gate) (outcome, refl, pass-Cleared log outcome e)
          | inr (raised, e) ↦
              rw (e, run_review_gate)
                (
                  _,
                  refl,
                  blocked-Cleared (gate_error_finding seams raised) [] false
                      (review_gate_pass seams config commands implementer issue log).1,
                )
        ]
