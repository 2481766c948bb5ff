-- ===== src/Build/Lifecycle.antt =====
-- What the steps of a build keep: any property of the log that each of their events keeps.
use the_retinue.Base.{
  ◌≡◌, refl, Bool, true, false, not, ◌&&◌, Option, some, List, [], ◌∷◌, ◌++◌, if◌then◌else◌, nat_eq,
  list_eq, Text, text, Dict, Exn, other_error, Result,
}
use the_retinue.Exec.{pure, raise, lift, Keeps, Keeps-then, Keeps-if}
use the_retinue.Container.{
  RunResult, run_ok, Slice, Purpose, pushing, cloning, branching, counting, checking, writing,
  implementing, diffing, BuildEvent, reported, started, ran, read_facts, reviewed, destroying,
  BuildLog, BuildSeams, run_command, require_ok, run_or_raise, run_each, post_report, ask_review,
}
use the_retinue.AdhocIssue.{AdhocIssue, branch}
use the_retinue.RepoConfig.{RepoConfig}
use the_retinue.DoneCheck.{DoneCheckReport}
use the_retinue.Build.{
  clone_command, create_branch_commands, landed, scrub_env, clone_and_branch, ensure_commits_landed,
  run_done_check_commands,
}
use the_retinue.Build.Implement.{
  claude_argv, implement_prompt, ContainerImplementer, fetch_facts, check_claude, implement,
}
use the_retinue.Gate.{issue_diff, issue_diff_command, require_target_branch}
use the_retinue.Gate.Files.{materialize_plan, write_file_command, plan_file}

-- An event that neither pushes a branch nor starts or ends a container.
abbrev pub is_plain : BuildEvent → Bool
is_plain (ran pushing argv env) = false
is_plain (started image env) = false
is_plain destroying = false
is_plain _ = true

pub Keeps-lift : {A : Type 0} (P : BuildLog → Type 0) (r : Result A) → Keeps P (lift r)
Keeps-lift P r log p = p

-- A test whose branches do nothing but return or raise.
pub Keeps-test :
    {A : Type 0} (P : BuildLog → Type 0) (test : Bool) (a : A) (e : Exn)
    → Keeps P (if test then pure a else raise e)
Keeps-test P true a e log p = p
Keeps-test P false a e log p = p

module _ (P : BuildLog → Type 0) (seams : BuildSeams)
    (plain : (event : BuildEvent) (log : BuildLog)
      → is_plain event ≡ true
      → P log
      → P (event ∷ log)) where
  pub Keeps-run_command :
      (purpose : Purpose) (argv : List Text) (env : Dict Text Text)
      → is_plain (ran purpose argv env) ≡ true
      → Keeps P (run_command seams purpose argv env)
  unfolding run_command
  Keeps-run_command purpose argv env h log = plain (ran purpose argv env) log h

  Keeps-require_ok : (result : RunResult) → Keeps P (require_ok result)
  unfolding require_ok
  Keeps-require_ok result = Keeps-test P (run_ok result) tt other_error

  pub Keeps-run_or_raise :
      (purpose : Purpose) (argv : List Text)
      → is_plain (ran purpose argv []) ≡ true
      → Keeps P (run_or_raise seams purpose argv)
  unfolding run_or_raise
  Keeps-run_or_raise purpose argv h =
      Keeps-then P (run_command seams purpose argv []) _ (Keeps-run_command purpose argv [] h)
        Keeps-require_ok

  Keeps-run_each :
      (purpose : Purpose) (commands : List (List Text))
      → ((argv : List Text) → is_plain (ran purpose argv []) ≡ true)
      → Keeps P (run_each seams purpose commands)
  unfolding run_each
  Keeps-run_each purpose [] h = λ log p. p
  Keeps-run_each purpose (argv ∷ commands) h =
      Keeps-then P (run_or_raise seams purpose argv) _ (Keeps-run_or_raise purpose argv (h argv))
        (λ a. Keeps-run_each purpose commands h)

  pub Keeps-clone_and_branch :
      (url branch base : Text) → Keeps P (clone_and_branch seams url branch base)
  unfolding clone_and_branch
  Keeps-clone_and_branch url branch base =
      Keeps-then P (run_or_raise seams cloning (clone_command url)) _
        (Keeps-run_or_raise cloning (clone_command url) refl)
        (λ a. Keeps-run_each branching (create_branch_commands branch base) (λ argv. refl))

  pub Keeps-ensure_commits_landed : (base : Text) → Keeps P (ensure_commits_landed seams base)
  unfolding ensure_commits_landed
  Keeps-ensure_commits_landed base =
      let argv : List Text =
        text "git"
        ∷ text "rev-list"
        ∷ text "--count"
        ∷ (text "origin/" ++ base ++ text "..HEAD")
        ∷ [] in
      Keeps-then P (run_command seams counting argv []) _ (Keeps-run_command counting argv [] refl)
        (λ result. Keeps-test P (landed result) tt other_error)

  pub Keeps-materialize_plan : (content : Text) → Keeps P (materialize_plan seams content)
  unfolding materialize_plan
  Keeps-materialize_plan content =
      let made : List Text = text "mkdir" ∷ text "-p" ∷ text ".retinue" ∷ [] in
      let written = write_file_command plan_file content in
      Keeps-then P (run_command seams writing made []) _ (Keeps-run_command writing made [] refl)
        (λ a.
          Keeps-then P (run_command seams writing written []) _
            (Keeps-run_command writing written [] refl) (λ result log p. p))

  pub Keeps-implement :
      (implementer : ContainerImplementer) (slice : Slice) (plan_path : Option Text)
      → Keeps P (implement seams implementer slice plan_path)
  unfolding implement fetch_facts check_claude
  Keeps-implement implementer slice plan_path =
      Keeps-then P (fetch_facts seams slice.repo_full_name slice.issue_number) _
        (λ log. plain (read_facts slice.repo_full_name slice.issue_number) log refl)
        (λ facts.
          let argv =
            claude_argv (implement_prompt slice plan_path (some facts)) implementer.model
              implementer.max_turns in
          let env : Dict Text Text = (text "IS_SANDBOX", text "1") ∷ [] in
          Keeps-then P (run_command seams implementing argv env) _
            (Keeps-run_command implementing argv env refl)
            (λ result.
              Keeps-test P (run_ok result && not (seams.flags_error result.stdout)) tt other_error))

  pub Keeps-post_report : (report : DoneCheckReport) → Keeps P (post_report seams report)
  unfolding post_report
  Keeps-post_report report log = plain (reported report) log refl

  pub Keeps-ask_review : (diff : Text) → Keeps P (ask_review seams diff)
  unfolding ask_review
  Keeps-ask_review diff log = plain (reviewed diff) log refl

  pub Keeps-issue_diff :
      (config : RepoConfig) (issue : AdhocIssue) → Keeps P (issue_diff seams config issue)
  unfolding issue_diff
  Keeps-issue_diff config issue =
      Keeps-then P (lift (require_target_branch config)) _ (λ log p. p)
        (λ base.
          let argv = issue_diff_command (branch issue) base in
          Keeps-then P (run_command seams diffing argv []) _
            (Keeps-run_command diffing argv [] refl)
            (λ result. Keeps-test P (run_ok result) result.stdout other_error))

  pub Keeps-run_done_check_commands :
      (commands : List (List Text)) (secret_values : List Text)
      → Keeps P (run_done_check_commands seams commands secret_values)
  unfolding run_done_check_commands
  Keeps-run_done_check_commands [] secret_values = λ log p. p
  Keeps-run_done_check_commands (command ∷ commands) secret_values =
      Keeps-then P (run_command seams checking command scrub_env) _
        (Keeps-run_command checking command scrub_env refl)
        (λ result.
          Keeps-if P (run_ok result) (run_done_check_commands seams commands secret_values) _
            (Keeps-run_done_check_commands commands secret_values) (λ log p. p))
