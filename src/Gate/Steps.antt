-- ===== src/Gate/Steps.antt =====
-- What the review gate of retinue/adhoc_build.py keeps, if the judgement of its fix pass keeps it.
use the_retinue.Base.{
  ◌≡◌, inl, inr, true, some, List, [], ◌∷◌, arith, Option-cases, nat_eq, list_eq, Text, Result, ok,
  Result-cases,
}
use the_retinue.RepoConfig.{RepoConfig}
use the_retinue.AdhocIssue.{AdhocIssue}
use the_retinue.Exec.{Exec, Keeps, Keeps-then, continue-keeps, ◌>>=◌}
use the_retinue.Container.{ReviewFinding, BuildEvent, BuildLog, BuildSeams, ask_review}
use the_retinue.Build.{run_done_check_commands}
use the_retinue.Build.Implement.{ContainerImplementer, implement}
use the_retinue.Build.Lifecycle.{
  is_plain, Keeps-materialize_plan, Keeps-implement, Keeps-ask_review, Keeps-issue_diff,
}
use the_retinue.Gate.{
  require_target_branch, partition_findings, issue_diff, slice_for_issue, second_review, judge_fix,
  fix_pass, judge_partition, judge_findings, review_gate_pass, run_review_gate, render_fix_plan,
}
use the_retinue.Gate.Files.{materialize_plan, plan_file}

pub require_target_branch-ok :
    (config : RepoConfig) (base : Text)
    → require_target_branch config ≡ ok base
    → config.target_branch ≡ some base
unfolding require_target_branch
require_target_branch-ok config base h = elim (Option-cases config.target_branch) [
  | inl e ↦ absurd (ground (arith, e, h))
  | inr (target, e) ↦ ground (arith, e, h)
]

module _ (P : BuildLog → Type 0) (seams : BuildSeams)
    (plain : (event : BuildEvent) (log : BuildLog)
      → is_plain event ≡ true
      → P log
      → P (event ∷ log))
    (config : RepoConfig) (commands : Result (List (List Text)))
    (implementer : ContainerImplementer) (issue : AdhocIssue) where
  diff_and_review :
      {A : Type 0} (f : List ReviewFinding → Exec BuildLog A)
      → ((findings : List ReviewFinding) → Keeps P (f findings))
      → Keeps P (issue_diff seams config issue >>= (λ diff. ask_review seams diff) >>= f)
  diff_and_review f kf =
      Keeps-then P (issue_diff seams config issue >>= (λ diff. ask_review seams diff)) f
        (Keeps-then P (issue_diff seams config issue) _
          (Keeps-issue_diff P seams plain config issue)
          (λ diff. Keeps-ask_review P seams plain diff))
        kf

  pub Keeps-second_review : Keeps P (second_review seams config commands implementer issue)
  unfolding second_review
  Keeps-second_review = diff_and_review _ (λ findings log p. p)

  module _
      (fix : (cs : List (List Text))
        → commands ≡ ok cs
        → Keeps P (
            run_done_check_commands seams cs []
            >>= judge_fix seams config commands implementer issue)) where
    Keeps-fix_pass :
        (findings : List ReviewFinding)
        → Keeps P (fix_pass seams config commands implementer issue findings)
    unfolding fix_pass
    Keeps-fix_pass findings =
        Keeps-then P (materialize_plan seams (render_fix_plan findings)) _
          (Keeps-materialize_plan P seams plain (render_fix_plan findings))
          (λ a.
            Keeps-then P (implement seams implementer (slice_for_issue issue) (some plan_file)) _
              (Keeps-implement P seams plain implementer (slice_for_issue issue) (some plan_file))
              (λ b log p. continue-keeps P commands _ log p (λ cs found. fix cs found log p)))

    Keeps-judge_partition :
        (findings : List ReviewFinding) (split : List ReviewFinding × List ReviewFinding)
        → Keeps P (judge_partition seams config commands implementer issue findings split)
    unfolding judge_partition
    Keeps-judge_partition findings ([], backlog) = λ log p. p
    Keeps-judge_partition findings (f ∷ fs, backlog) = Keeps-fix_pass findings

    Keeps-review_gate_pass : Keeps P (review_gate_pass seams config commands implementer issue)
    unfolding review_gate_pass judge_findings
    Keeps-review_gate_pass =
        diff_and_review _ (λ findings. Keeps-judge_partition findings (partition_findings findings))

    pub Keeps-run_review_gate : Keeps P (run_review_gate seams config commands implementer issue)
    unfolding run_review_gate
    Keeps-run_review_gate log p =
        let after = Keeps-review_gate_pass log p in
        elim (Result-cases (review_gate_pass seams config commands implementer issue log).0) [
          | inl (outcome, e) ↦ rw (e, run_review_gate) after
          | inr (raised, e) ↦ rw (e, run_review_gate) after
        ]
