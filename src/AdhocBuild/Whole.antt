-- ===== src/AdhocBuild/Whole.antt =====
-- What a whole ad-hoc build keeps (retinue/adhoc_build.py): a property of the log outside the
-- container, and one inside it.
use the_retinue.Base.{
  ◌≡◌, refl, Bool, true, false, none, some, List, [], ◌∷◌, if◌then◌else◌, nat_eq, list_eq, Text,
  Dict, other_error, ok,
}
use the_retinue.AdhocIssue.{AdhocIssue}
use the_retinue.DoneCheck.{DoneCheckReport}
use the_retinue.Exec.{lift, Keeps, Keeps-then, ◌>>=◌}
use the_retinue.Container.{
  planning, BuildEvent, reported, minted, started, destroying, BuildLog, BuildSeams, run_ok,
  run_command,
}
use the_retinue.Build.{run_done_check_commands, publish, build_issue_in_container}
use the_retinue.Build.Lifecycle.{
  is_plain, Keeps-test, Keeps-run_command, Keeps-materialize_plan, Keeps-implement,
}
use the_retinue.Build.Whole.{KeepsHook, Keeps-build_issue_in_container}
use the_retinue.Gate.{slice_for_issue, judge_fix, run_review_gate, require_target_branch}
use the_retinue.Gate.Steps.{Keeps-run_review_gate}
use the_retinue.Gate.Files.{materialize_plan, plan_file}
use the_retinue.AdhocBuild.{
  plan, planner_cli_argv, plan_prompt, AdhocJob, adhoc_build_job, build_adhoc_issue,
}

module _ (Q : BuildLog → Type 0) (seams : BuildSeams)
    (plain : (event : BuildEvent) (log : BuildLog)
      → is_plain event ≡ true
      → Q log
      → Q (event ∷ log))
    (job : AdhocJob) (issue : AdhocIssue) where
  Keeps-plan : Keeps Q (plan seams job.planner issue >>= materialize_plan seams)
  unfolding plan
  Keeps-plan =
      let argv = planner_cli_argv (plan_prompt issue) job.planner.model in
      Keeps-then Q (plan seams job.planner issue) _
        (Keeps-then Q (run_command seams planning argv []) _
          (Keeps-run_command Q seams plain planning argv [] refl)
          (λ result. Keeps-test Q (run_ok result) result.stdout other_error))
        (λ content. Keeps-materialize_plan Q seams plain content)

  module _
      (fix : (cs : List (List Text))
        → job.commands ≡ ok cs
        → Keeps Q (
            run_done_check_commands seams cs []
            >>= judge_fix seams job.config job.commands job.implementer issue)) where
    KeepsHook-gate :
        (with_review : Bool)
        → KeepsHook Q (
            if with_review
            then some (run_review_gate seams job.config job.commands job.implementer issue)
            else none)
    KeepsHook-gate false = tt
    KeepsHook-gate true =
        Keeps-run_review_gate Q seams plain job.config job.commands job.implementer issue fix

    pub KeepsHook-adhoc_build_job :
        (base : Text) → KeepsHook Q (adhoc_build_job seams job issue base).on_green
    unfolding adhoc_build_job
    KeepsHook-adhoc_build_job base = KeepsHook-gate job.with_review

  module _
      (checked : (base : Text) (cs : List (List Text)) (secret_values : List Text)
        → job.commands ≡ ok cs
        → Keeps Q (
            run_done_check_commands seams cs secret_values
            >>= publish seams (adhoc_build_job seams job issue base)))
      (P : BuildLog → Type 0)
      (report : (report : DoneCheckReport) (log : BuildLog) → P log → P (reported report ∷ log))
      (mint : (repo : Text) (log : BuildLog) → P log → P (minted repo ∷ log))
      (enter : (image : Text) (env : Dict Text Text) (log : BuildLog)
        → P log
        → Q (started image env ∷ log))
      (leave : (log : BuildLog) → Q log → P (destroying ∷ log)) where
    Keeps-job :
        (base : Text)
        → Keeps P (build_issue_in_container seams (adhoc_build_job seams job issue base))
    unfolding adhoc_build_job
    Keeps-job base =
        Keeps-build_issue_in_container Q seams (adhoc_build_job seams job issue base) plain
          Keeps-plan
          (Keeps-implement Q seams plain job.implementer (slice_for_issue issue) (some plan_file))
          (checked base) P report mint enter leave

    pub Keeps-build_adhoc_issue : Keeps P (build_adhoc_issue seams job issue)
    unfolding build_adhoc_issue
    Keeps-build_adhoc_issue =
        Keeps-then P
          (lift (require_target_branch job.config)
            >>= (λ base. build_issue_in_container seams (adhoc_build_job seams job issue base)))
          _ (Keeps-then P (lift (require_target_branch job.config)) _ (λ log p. p) Keeps-job)
          (λ r log p. p)
