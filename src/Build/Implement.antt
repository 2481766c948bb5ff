-- ===== src/Build/Implement.antt =====
-- The production implementer of retinue/container_build.py: the `claude` run in the container.
use the_retinue.Base.{
  ℕ, not, ◌&&◌, Option, none, some, List, [], ◌∷◌, ◌++◌, if◌then◌else◌, nat_eq, list_eq, Text, text,
  show, Dict, other_error,
}
use the_retinue.Exec.{Exec, pure, raise, ◌>>=◌}
use the_retinue.Container.{
  RunResult, run_ok, Slice, slice_branch, BuildLog, BuildSeams, read_facts, implementing,
  run_command,
}
use the_retinue.Build.{implement_env}

abbrev pub implement_system : Text
implement_system =
    text
      "You are an autonomous implementer. Build the requested GitHub issue inside the repository you are running in. Default to test-driven development: when the change has testable behavior, write or update a failing test first, then write code until it passes. A documentation- or config-only change has nothing to test — make the change directly rather than inventing a test for it. Either way, ensure the repo's own checks pass before you commit. Make the smallest change that satisfies the issue; do not refactor unrelated code. When the work is complete and committed to the issue's branch, stop."

-- `_implement_prompt`, with the facts of the issue as its title and body.
unfoldable pub implement_prompt : Slice → Option Text → Option (Text × Text) → Text
unfolding show slice_branch
implement_prompt slice plan_path facts =
    let preamble : Text = elim plan_path [
      | none ↦ []
      | some path ↦
          text "Read the implementation plan at '" ++ path ++ text "' first, then implement it. "
    ] in
    let section : Text = elim facts [
      | none ↦ []
      | some (title, body) ↦
          10
            ∷ 10
            ∷ text
                "The issue's title and body follow; they are the authoritative specification for this change. This container cannot reach GitHub, so work from them rather than trying to fetch the issue."
          ++ 10 ∷ 10 ∷ text "Issue title: "
          ++ title
          ++ 10 ∷ 10 ∷ text "Issue body:"
          ++ 10 ∷ body
    ] in
    preamble
    ++ text "Implement issue #"
    ++ show slice.issue_number
    ++ text " of "
    ++ slice.repo_full_name
    ++ text ". Commit your work to the '"
    ++ slice_branch slice
    ++ text
        "' branch (already checked out). Implement it test-driven when the change has testable behavior; a documentation- or config-only change needs no test. Ensure the repo's checks pass before committing."
    ++ section

unfoldable pub claude_argv : Text → Text → ℕ → List Text
unfolding show
claude_argv prompt model max_turns =
    text "claude"
    ∷ text "-p"
    ∷ prompt
    ∷ text "--model"
    ∷ model
    ∷ text "--permission-mode"
    ∷ text "bypassPermissions"
    ∷ text "--max-turns"
    ∷ show max_turns
    ∷ text "--append-system-prompt"
    ∷ implement_system
    ∷ text "--output-format"
    ∷ text "json"
    ∷ []

-- `ContainerImplementer`, with the issue facts there (as `bind_adhoc_build` constructs it).
pub record ContainerImplementer : Type 0 where
  pub credential : Text
  pub auth_mode : Text
  pub model : Text
  pub max_turns : ℕ

-- The checks of a `claude` run: its exit code, then the flag in its JSON result.
unfoldable pub check_claude : BuildSeams → RunResult → Exec BuildLog (Unit {0})
check_claude seams result =
    if run_ok result && not (seams.flags_error result.stdout) then pure tt else raise other_error

-- `self.issue_facts(…)`
unfoldable pub fetch_facts : BuildSeams → Text → ℕ → Exec BuildLog (Text × Text)
fetch_facts seams repo number log =
    (seams.issue_facts log repo number, read_facts repo number ∷ log)

-- `ContainerImplementer.implement`
unfoldable pub implement :
    BuildSeams → ContainerImplementer → Slice → Option Text → Exec BuildLog (Unit {0})
unfolding claude_argv implement_prompt
implement seams implementer slice plan_path =
    fetch_facts seams slice.repo_full_name slice.issue_number >>= (λ facts.
      run_command seams implementing
        (claude_argv (implement_prompt slice plan_path (some facts)) implementer.model
          implementer.max_turns)
        ((text "IS_SANDBOX", text "1") ∷ [])
      >>= check_claude seams)

-- `ContainerImplementer.auth_env`
unfoldable pub implementer_auth_env : ContainerImplementer → Dict Text Text
unfolding implement_env
implementer_auth_env implementer = implement_env implementer.credential implementer.auth_mode
