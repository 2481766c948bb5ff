-- ===== src/AdhocBuild/Contained.antt =====
-- The container of an ad-hoc build (retinue/container_build.py): what runs in it, and its end.
use the_retinue.Base.{
  ℕ, ◌+◌, ◌-◌, ◌≡◌, refl, Bool, true, false, [], ◌∷◌, arith, nat_eq, list_eq, Text, other_error,
}
use the_retinue.AdhocIssue.{AdhocIssue, branch}
use the_retinue.Exec.{Keeps, Keeps-then, ◌>>◌}
use the_retinue.Container.{
  slice_branch, run_ok, pushing, BuildEvent, started, ran, destroying, BuildLog, BuildSeams,
  post_report, run_or_raise, run_command, require_ok,
}
use the_retinue.Build.{
  run_done_check_commands, push_branch, push_branch_command, BuildJob, verdict, after_report,
  publish,
}
use the_retinue.Build.Lifecycle.{is_plain, Keeps-test, Keeps-run_done_check_commands}
use the_retinue.Build.Whole.{Keeps-report}
use the_retinue.Gate.{ReviewGateOutcome, judge_fix}
use the_retinue.Gate.Steps.{Keeps-second_review}
use the_retinue.AdhocBuild.{AdhocJob, adhoc_build_job, build_adhoc_issue}
use the_retinue.AdhocBuild.Whole.{KeepsHook-adhoc_build_job, Keeps-build_adhoc_issue}

-- The containers that were started and whose `destroy` was not called.
abbrev pub alive : BuildLog → ℕ
alive [] = 0
alive (started image env ∷ log) = alive log + 1
alive (destroying ∷ log) = alive log - 1
alive (event ∷ log) = alive log

abbrev pub is_ran : BuildEvent → Bool
is_ran (ran purpose argv env) = true
is_ran _ = false

-- Each command ran in a live container.
abbrev pub RunsInside : BuildLog → Type 0
RunsInside [] = Unit
RunsInside (event ∷ log) = (is_ran event ≡ true → alive log ≡ 1) × RunsInside log

abbrev Inside : BuildLog → Type 0
Inside log = (alive log ≡ 1) × RunsInside log

abbrev Outside : BuildLog → Type 0
Outside log = (alive log ≡ 0) × RunsInside log

plain-Inside :
    (event : BuildEvent) (log : BuildLog)
    → is_plain event ≡ true
    → Inside log
    → Inside (event ∷ log)
plain-Inside (started image env) log h p = absurd (ground (arith, h))
plain-Inside destroying log h p = absurd (ground (arith, h))
plain-Inside event log h p = (p.0, ((λ e. p.0), p.1))

module _ (seams : BuildSeams) (job : AdhocJob) (issue : AdhocIssue) where
  push-Inside : (branch : Text) → Keeps Inside (push_branch seams branch)
  unfolding push_branch run_or_raise require_ok run_command
  push-Inside branch =
      Keeps-then Inside (run_command seams pushing (push_branch_command branch) []) _
        (λ log p. (p.0, ((λ e. p.0), p.1)))
        (λ result. Keeps-test Inside (run_ok result) tt other_error)

  fix-Inside :
      (verdict : Bool × Text)
      → Keeps Inside (judge_fix seams job.config job.commands job.implementer issue verdict)
  unfolding judge_fix
  fix-Inside (false, detail) = λ log p. p
  fix-Inside (true, detail) =
      Keeps-then Inside (push_branch seams (branch issue)) _ (push-Inside (branch issue)) (λ a.
        Keeps-second_review Inside seams plain-Inside job.config job.commands job.implementer issue)

  module _ (base : Text) where
    abbrev built : BuildJob ReviewGateOutcome
    built = adhoc_build_job seams job issue base

    report-Inside :
        (passed : Bool) (detail : Text)
        → Keeps Inside (
            post_report seams (verdict seams built passed detail)
            >> after_report seams built passed)
    report-Inside = Keeps-report Inside seams built plain-Inside (
        KeepsHook-adhoc_build_job Inside seams plain-Inside job issue
          (λ cs found.
            Keeps-then Inside (run_done_check_commands seams cs []) _
              (Keeps-run_done_check_commands Inside seams plain-Inside cs []) fix-Inside)
          base)

    publish-Inside : (verdict : Bool × Text) → Keeps Inside (publish seams built verdict)
    unfolding publish
    publish-Inside (false, detail) = report-Inside false detail
    publish-Inside (true, detail) =
        Keeps-then Inside (push_branch seams (slice_branch built.slice)) _
          (push-Inside (slice_branch built.slice)) (λ a. report-Inside true detail)

  -- Whatever is answered and whatever raises, each command of a build runs while its container, and no
  -- other, is alive, and when `build_adhoc_issue` returns or raises, for each container that was
  -- started, `destroy` has been called.
  pub build_adhoc_issue-contained :
      (alive (build_adhoc_issue seams job issue []).1 ≡ 0)
      × RunsInside (build_adhoc_issue seams job issue []).1
  build_adhoc_issue-contained =
      Keeps-build_adhoc_issue Inside seams plain-Inside job issue
        (λ base cs secret_values h.
          Keeps-then Inside (run_done_check_commands seams cs secret_values) _
            (Keeps-run_done_check_commands Inside seams plain-Inside cs secret_values)
            (publish-Inside base))
        Outside (λ report log p. (p.0, ((λ e. absurd (ground (arith, e))), p.1)))
        (λ repo log p. (p.0, ((λ e. absurd (ground (arith, e))), p.1)))
        (λ image env log p. (omega (arith, p.0), ((λ e. absurd (ground (arith, e))), p.1)))
        (λ log p. (omega (arith, p.0), ((λ e. absurd (ground (arith, e))), p.1))) [] (refl, tt)
