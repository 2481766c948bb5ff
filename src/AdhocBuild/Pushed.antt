-- ===== src/AdhocBuild/Pushed.antt =====
-- The pushes of a whole ad-hoc build, those of its review gate included
-- (retinue/adhoc_build.py, retinue/container_build.py).
use the_retinue.Base.{
  ◌≡◌, refl, sym, ◌∙◌, Bool, true, false, List, [], arith, nat_eq, list_eq, Text, ok, ok-injective,
}
use mathlib.Core.Path.{subst}
use the_retinue.AdhocIssue.{AdhocIssue, branch}
use the_retinue.Exec.{Exec, Keeps, Keeps-then, ◌>>=◌, ◌>>◌}
use the_retinue.Container.{slice_branch, reported, minted, BuildLog, BuildSeams, post_report}
use the_retinue.Build.{
  run_done_check_commands, push_branch, BuildJob, verdict, after_report, publish,
}
use the_retinue.Build.Whole.{Keeps-report}
use the_retinue.Gate.{ReviewGateOutcome, judge_fix}
use the_retinue.Gate.Steps.{Keeps-second_review}
use the_retinue.AdhocBuild.{AdhocJob, adhoc_build_job, build_adhoc_issue}
use the_retinue.AdhocBuild.Whole.{KeepsHook-adhoc_build_job, Keeps-build_adhoc_issue}
use the_retinue.AdhocBuild.Green.{PushesGreen, plain, push-PushesGreen, checked-PushesGreen}

module _ (seams : BuildSeams) (job : AdhocJob) (issue : AdhocIssue) (commands : List (List Text))
    (found : job.commands ≡ ok commands) where
  abbrev P : BuildLog → Type 0
  P = PushesGreen seams commands

  -- The commands that a done-check runs are those of the job.
  on_commands :
      {A : Type 0} (secret_values : List Text) (f : Bool × Text → Exec BuildLog A)
      → Keeps P (run_done_check_commands seams commands secret_values >>= f)
      → (cs : List (List Text)) → job.commands ≡ ok cs
      → Keeps P (run_done_check_commands seams cs secret_values >>= f)
  on_commands secret_values f kept cs h =
      subst (λ cs. Keeps P (run_done_check_commands seams cs secret_values >>= f))
        (ok-injective (sym found ∙ h)) kept

  fix-PushesGreen : Keeps P (
      run_done_check_commands seams commands []
      >>= judge_fix seams job.config job.commands job.implementer issue)
  unfolding judge_fix
  fix-PushesGreen =
      checked-PushesGreen seams commands []
        (judge_fix seams job.config job.commands job.implementer issue)
        (λ detail log green p.
          Keeps-then P (λ s. push_branch seams (branch issue) log) _
            (λ s q. push-PushesGreen seams commands (branch issue) log green p)
            (λ c.
              Keeps-second_review P seams (plain seams commands) job.config job.commands
                job.implementer issue)
            log p)
        (λ detail log p. p)

  module _ (base : Text) where
    abbrev built : BuildJob ReviewGateOutcome
    built = adhoc_build_job seams job issue base

    report-PushesGreen :
        (passed : Bool) (detail : Text)
        → Keeps P (
            post_report seams (verdict seams built passed detail)
            >> after_report seams built passed)
    report-PushesGreen = Keeps-report P seams built (plain seams commands) (
        KeepsHook-adhoc_build_job P seams (plain seams commands) job issue
          (on_commands [] _ fix-PushesGreen) base)

    publish-PushesGreen :
        (secret_values : List Text)
        → Keeps P (run_done_check_commands seams commands secret_values >>= publish seams built)
    unfolding publish
    publish-PushesGreen secret_values =
        checked-PushesGreen seams commands secret_values (publish seams built)
          (λ detail log green p.
            Keeps-then P (λ s. push_branch seams (slice_branch built.slice) log) _
              (λ s q. push-PushesGreen seams commands (slice_branch built.slice) log green p)
              (λ a. report-PushesGreen true detail) log p)
          (λ detail log p. report-PushesGreen false detail log p)

  -- Whatever the container, the agents, the reviewer and the sinks answer, `build_adhoc_issue`
  -- pushes only behind a green done-check: each of its pushes, that of the review gate's fix included,
  -- comes directly behind a run of all commands of the done-check, in order and with the credentials
  -- blanked, in which each exited with 0.
  pub build_adhoc_issue-PushesGreen :
      PushesGreen seams commands (build_adhoc_issue seams job issue []).1
  build_adhoc_issue-PushesGreen =
      Keeps-build_adhoc_issue P seams (plain seams commands) job issue
        (λ base cs secret_values h.
          on_commands secret_values _ (publish-PushesGreen base secret_values) cs h)
        P (λ report log. plain seams commands (reported report) log refl)
        (λ repo log. plain seams commands (minted repo) log refl)
        (λ image env log p. ((λ e. absurd (ground (arith, e))), p))
        (λ log p. ((λ e. absurd (ground (arith, e))), p)) [] tt
