-- ===== src/AdhocBuild.antt =====
-- retinue/adhoc_build.py: the planner and `build_adhoc_issue`.
pub mod Whole
pub mod Green
pub mod Pushed
pub mod Contained
use the_retinue.Base.{
  ℕ, zero, suc, ◌+◌, ◌-◌, ◌*◌, ◌/◌, ◌%◌, ◌≤◌, ◌<◌, min, max, ◌≡◌, refl, sym, ap, ◌∙◌, ◌≢◌, ◌↔◌, ◌⊎◌,
  inl, inr, Bool, true, false, not, ◌&&◌, ◌||◌, Option, none, some, List, [], ◌∷◌, ◌++◌, map, arith,
  ltb, leb, nat_beq, if◌then◌else◌, leb→le, nat_beq_iff, Bool-cases, Option-cases, Eq, ◌==◌, nat_eq,
  contains, eq_refl, list_beq, list_beq_iff, list_eq, dedup_onto, dedup, length, take, drop,
  take-append-drop, All-append_left, All-append_right, filter, count, length-append, length-take,
  length-filter, count-append, count-le-length, take_all, All, All-filter, List-cases, All-append,
  All-take, All-imp, Text, text, strip_prefix, strip_prefix-append, strip_prefix-some, is_space,
  skip_spaces, Unicode, digits_onto, read_number, HasAsciiDigits, read_number-show_onto,
  skip_spaces-show_onto, IsDigit, show-All, show_onto, split_words, show, read_onto, read_onto-show,
  show-injective, insert_by, sort_by, sort_by-perm, IsSortedBy, sort_by-All, sort_by-IsSortedBy,
  Dict, keys, lookup, insert, lookup-insert, NodupKeys, insert-NodupKeys, Exn, gh_cli_error,
  value_error, key_error, drain_busy, cron_busy, other_error, Result, ok, err, >>=-eq-ok,
  ok-injective, Result-cases, get_item, get_item-eq-ok, lookup-nil, length-Permᴰ, length-drop,
  rstrip, strip, join, is_line_break, split_lines, replace,
}
use the_retinue.RepoConfig.{RepoConfig}
use the_retinue.AdhocIssue.{AdhocIssue, branch}
use the_retinue.Exec.{Exec, pure, raise, lift, ◌>>=◌, ◌>>◌}
use the_retinue.Container.{run_ok, BuildLog, BuildSeams, planning, run_command}
use the_retinue.Build.{implement_env, BuildJob, build_issue_in_container}
use the_retinue.Build.Implement.{ContainerImplementer, implement, implementer_auth_env}
use the_retinue.Gate.{require_target_branch, slice_for_issue, ReviewGateOutcome, run_review_gate}
use the_retinue.Gate.Files.{plan_file, materialize_plan}

abbrev pub planner_system : Text
planner_system =
    text
      "You are a read-only planner. You have no write, edit, or commit capability and must not attempt to change any file. Before you produce a plan you must spawn at least one Explore subagent to map the relevant code; do not emit a plan until you have explored. Then output the plan as your response — it is captured as your result, so write the plan itself rather than saving it to a file."

unfoldable pub planner_cli_argv : Text → Text → List Text
planner_cli_argv prompt model =
    text "claude"
    ∷ text "-p"
    ∷ prompt
    ∷ text "--model"
    ∷ model
    ∷ text "--permission-mode"
    ∷ text "plan"
    ∷ text "--allowedTools"
    ∷ text "Read,Glob,Grep,Task,WebFetch,WebSearch"
    ∷ text "--disallowedTools"
    ∷ text "Write,Edit,MultiEdit,NotebookEdit,Bash,BashOutput,KillShell"
    ∷ text "--append-system-prompt"
    ∷ planner_system
    ∷ []

unfoldable pub plan_prompt : AdhocIssue → Text
unfolding show
plan_prompt issue =
    text "Produce an implementation plan for issue #"
    ++ show issue.issue_number
    ++ text " of "
    ++ issue.repo_full_name
    ++ text ". Your plan will be saved to '"
    ++ plan_file
    ++ text "' and read by the implementer, so write the plan itself as your response."

pub record ContainerPlanner : Type 0 where
  pub credential : Text
  pub auth_mode : Text
  pub model : Text

-- `ContainerPlanner.plan`
unfoldable pub plan : BuildSeams → ContainerPlanner → AdhocIssue → Exec BuildLog Text
unfolding planner_cli_argv plan_prompt
plan seams planner issue =
    run_command seams planning (planner_cli_argv (plan_prompt issue) planner.model) []
    >>= (λ result. if run_ok result then pure result.stdout else raise other_error)

-- The arguments of `build_adhoc_issue`, with the commands that `parse_done_check` finds.
pub record AdhocJob : Type 0 where
  pub config : RepoConfig
  pub commands : Result (List (List Text))
  pub planner : ContainerPlanner
  pub implementer : ContainerImplementer
  pub resolve : Text → Option Text
  pub with_review : Bool
  pub image : Text

pub record AdhocBuildResult : Type 0 where
  pub branch : Text
  pub passed : Bool
  pub gate : Option ReviewGateOutcome

-- The job that `build_adhoc_issue` hands to the shared lifecycle, on its target branch.
unfoldable pub adhoc_build_job :
    BuildSeams → AdhocJob → AdhocIssue → Text → BuildJob ReviewGateOutcome
unfolding plan materialize_plan implement slice_for_issue run_review_gate implement_env
    implementer_auth_env
adhoc_build_job seams job issue base = record {
  slice = slice_for_issue issue;
  config = job.config;
  commands = job.commands;
  base = base;
  image = job.image;
  resolve = job.resolve;
  auth_envs =
      implement_env job.planner.credential job.planner.auth_mode
      ∷ implementer_auth_env job.implementer
      ∷ [];
  pre_implement = plan seams job.planner issue >>= materialize_plan seams;
  implement = implement seams job.implementer (slice_for_issue issue) (some plan_file);
  on_green =
      if job.with_review
      then some (run_review_gate seams job.config job.commands job.implementer issue)
      else none;
}

-- `build_adhoc_issue`
unfoldable pub build_adhoc_issue :
    BuildSeams → AdhocJob → AdhocIssue → Exec BuildLog AdhocBuildResult
unfolding adhoc_build_job build_issue_in_container branch
build_adhoc_issue seams job issue =
    lift (require_target_branch job.config)
    >>= (λ base. build_issue_in_container seams (adhoc_build_job seams job issue base))
    >>= (λ built. pure (record { branch = branch issue; passed = built.0; gate = built.1 }))
