-- ===== src/Build.antt =====
-- retinue/container_build.py: one issue's build in a disposable container.
pub mod Implement
pub mod Lifecycle
pub mod Whole
pub mod Escalate
use the_retinue.Base.{
  ℕ, zero, suc, ◌+◌, ◌-◌, ◌*◌, ◌/◌, ◌%◌, ◌≤◌, ◌<◌, min, max, ◌≡◌, refl, sym, ap, ◌∙◌, ◌≢◌, ◌↔◌, ◌⊎◌,
  inl, inr, Bool, true, false, not, ◌&&◌, ◌||◌, Option, none, some, List, [], ◌∷◌, ◌++◌, map, arith,
  ltb, leb, nat_beq, if◌then◌else◌, leb→le, nat_beq_iff, Bool-cases, Option-cases, Eq, ◌==◌, nat_eq,
  contains, eq_refl, list_beq, list_beq_iff, list_eq, dedup_onto, dedup, length, take, drop,
  take-append-drop, All-append_left, All-append_right, filter, count, length-append, length-take,
  length-filter, count-append, count-le-length, take_all, All, All-filter, List-cases, All-append,
  All-take, All-imp, Text, text, strip_prefix, strip_prefix-append, strip_prefix-some, is_space,
  skip_spaces, Unicode, digits_onto, read_number, HasAsciiDigits, read_number-show_onto,
  skip_spaces-show_onto, IsDigit, show-All, show_onto, split_words, show, read_onto, read_onto-show,
  show-injective, insert_by, sort_by, sort_by-perm, IsSortedBy, sort_by-All, sort_by-IsSortedBy,
  Dict, keys, lookup, insert, lookup-insert, NodupKeys, insert-NodupKeys, Exn, gh_cli_error,
  value_error, key_error, drain_busy, cron_busy, other_error, Result, ok, err, >>=-eq-ok,
  ok-injective, Result-cases, get_item, get_item-eq-ok, lookup-nil, length-Permᴰ, length-drop,
  rstrip, strip, join, is_line_break, split_lines, replace,
}
use the_retinue.RepoConfig.{RepoConfig}
use the_retinue.Exec.{Exec, pure, raise, lift, ◌>>=◌, ◌>>◌}
use the_retinue.DoneCheck.{
  resolve_secrets, redact_values, tail, detail_max_lines, detail_max_chars, DoneCheckReport,
}
use the_retinue.Container.{
  RunResult, run_ok, Slice, slice_branch, BuildLog, BuildSeams, cloning, branching, counting,
  checking, pushing, run_command, run_or_raise, run_each, post_report, mint_token, start_container,
  finally_destroy,
}

unfoldable pub clone_command : Text → List Text
clone_command url = text "git" ∷ text "clone" ∷ url ∷ text "." ∷ []

unfoldable pub push_branch_command : Text → List Text
push_branch_command branch = text "git" ∷ text "push" ∷ text "origin" ∷ branch ∷ []

unfoldable pub create_branch_commands : Text → Text → List (List Text)
create_branch_commands branch base =
    (text "git" ∷ text "fetch" ∷ text "origin" ∷ base ∷ [])
    ∷ (text "git" ∷ text "checkout" ∷ text "-B" ∷ branch ∷ (text "origin/" ++ base) ∷ [])
    ∷ []

unfoldable pub clone_and_branch : BuildSeams → Text → Text → Text → Exec BuildLog (Unit {0})
unfolding clone_command create_branch_commands
clone_and_branch seams url branch base =
    run_or_raise seams cloning (clone_command url)
    >> run_each seams branching (create_branch_commands branch base)

unfoldable pub push_branch : BuildSeams → Text → Exec BuildLog (Unit {0})
unfolding push_branch_command
push_branch seams branch = run_or_raise seams pushing (push_branch_command branch)

-- The test of `ensure_commits_landed` on the probe's result.
unfoldable pub landed : RunResult → Bool
unfolding strip run_ok list_beq
landed result =
    let counted = strip result.stdout in
    run_ok result && not (counted == []) && not (counted == text "0")

unfoldable pub ensure_commits_landed : BuildSeams → Text → Exec BuildLog (Unit {0})
unfolding landed
ensure_commits_landed seams base =
    run_command seams counting
      (text "git"
        ∷ text "rev-list"
        ∷ text "--count"
        ∷ (text "origin/" ++ base ++ text "..HEAD")
        ∷ [])
      []
    >>= (λ result. if landed result then pure tt else raise other_error)

-- `scrub_env` of `run_done_check_commands`
abbrev pub scrub_env : Dict Text Text
scrub_env = (text "ANTHROPIC_API_KEY", []) ∷ (text "CLAUDE_CODE_OAUTH_TOKEN", []) ∷ []

-- `_format_failure_detail`
unfoldable pub format_failure_detail : List Text → RunResult → Text
unfolding tail join strip show filter
format_failure_detail command result =
    let lead : Text =
      text "`"
      ++ join (text " ") command
      ++ text "` failed (exit "
      ++ show result.exit_code
      ++ text ")" in
    let output = join (10 ∷ []) (
      filter (λ part. not (nat_beq (length part) 0))
        (strip result.stderr ∷ strip result.stdout ∷ [])) in
    elim (tail output detail_max_lines detail_max_chars) [
      | [] ↦ lead
      | c ∷ kept ↦ lead ++ 10 ∷ text "```" ++ 10 ∷ c ∷ kept ++ 10 ∷ text "```"
    ]

-- `run_done_check_commands`
unfoldable pub run_done_check_commands :
    BuildSeams → List (List Text) → List Text → Exec BuildLog (Bool × Text)
run_done_check_commands seams [] secret_values = pure (true, text "all done-check commands passed")
run_done_check_commands seams (command ∷ commands) secret_values =
    run_command seams checking command scrub_env >>= (λ result.
      if run_ok result
      then run_done_check_commands seams commands secret_values
      else pure (false, redact_values (format_failure_detail command result) secret_values))

-- The report of a missing secret.
unfoldable pub escalation : BuildSeams → Slice → Text → DoneCheckReport
escalation seams slice name = record {
  repo_full_name = slice.repo_full_name;
  issue_number = slice.issue_number;
  passed = false;
  escalated = true;
  detail = text "escalated: required secret " ++ seams.repr_text name ++ text " is missing";
}

-- The environment, or the escalation of the name that misses.
unfoldable pub env_or_escalate :
    BuildSeams → Slice → Text ⊎ Dict Text Text → Exec BuildLog (Dict Text Text)
unfolding escalation
env_or_escalate seams slice (inr env) = pure env
env_or_escalate seams slice (inl name) =
    post_report seams (escalation seams slice name) >> raise other_error

unfoldable pub resolve_secrets_or_escalate :
    BuildSeams → (Text → Option Text) → RepoConfig → Slice → Exec BuildLog (Dict Text Text)
unfolding env_or_escalate
resolve_secrets_or_escalate seams resolve config slice =
    env_or_escalate seams slice (resolve_secrets resolve config)

-- `implement_env`
unfoldable pub implement_env : Text → Text → Dict Text Text
unfolding list_beq
implement_env credential auth_mode =
    if auth_mode == text "subscription"
    then (text "CLAUDE_CODE_OAUTH_TOKEN", credential) ∷ []
    else (text "ANTHROPIC_API_KEY", credential) ∷ []

abbrev pub git_committer_env : Dict Text Text
git_committer_env =
    (text "GIT_AUTHOR_NAME", text "the-retinue")
    ∷ (text "GIT_AUTHOR_EMAIL", text "retinue@users.noreply.github.com")
    ∷ (text "GIT_COMMITTER_NAME", text "the-retinue")
    ∷ (text "GIT_COMMITTER_EMAIL", text "retinue@users.noreply.github.com")
    ∷ []

-- `d.update(other)`
unfoldable pub update : Dict Text Text → Dict Text Text → Dict Text Text
unfolding insert list_beq
update d [] = d
update d ((k, v) ∷ other) = update (insert k v d) other

unfoldable pub update_all : Dict Text Text → List (Dict Text Text) → Dict Text Text
unfolding update
update_all d [] = d
update_all d (other ∷ others) = update_all (update d other) others

unfoldable pub values : Dict Text Text → List Text
values [] = []
values ((k, v) ∷ d) = v ∷ values d

unfoldable pub values_all : List (Dict Text Text) → List Text
unfolding values
values_all [] = []
values_all (d ∷ ds) = values d ++ values_all ds

-- The arguments of `build_issue_in_container` that say what is built: the secret resolver, the
-- commands that `parse_done_check` finds, and the hooks, where `on_green` gives what it found.
pub record BuildJob (G : Type 0) : Type 0 where
  pub slice : Slice
  pub config : RepoConfig
  pub commands : Result (List (List Text))
  pub base : Text
  pub image : Text
  pub resolve : Text → Option Text
  pub auth_envs : List (Dict Text Text)
  pub pre_implement : Exec BuildLog (Unit {0})
  pub implement : Exec BuildLog (Unit {0})
  pub on_green : Option (Exec BuildLog G)

module _ {G : Type 0} (seams : BuildSeams) (job : BuildJob G) where
  -- The report of a verdict.
  unfoldable pub verdict : Bool → Text → DoneCheckReport
  verdict passed detail = record {
    repo_full_name = job.slice.repo_full_name;
    issue_number = job.slice.issue_number;
    passed = passed;
    escalated = false;
    detail = detail;
  }

  -- `if passed and on_green is not None: await on_green(container)`, and the result.
  unfoldable pub after_report : Bool → Exec BuildLog (Bool × Option G)
  after_report false = pure (false, none)
  after_report true = elim job.on_green [
    | none ↦ pure (true, none)
    | some hook ↦ hook >>= (λ found. pure (true, some found))
  ]

  -- What follows the done-check.
  unfoldable pub publish : Bool × Text → Exec BuildLog (Bool × Option G)
  publish (passed, detail) =
      (if passed then push_branch seams (slice_branch job.slice) else pure tt)
      >> (post_report seams (verdict passed detail) >> after_report passed)

  -- The body of the `try`.
  unfoldable pub build_body : List (List Text) → List Text → Text → Exec BuildLog (Bool × Option G)
  build_body commands secret_values url =
      clone_and_branch seams url (slice_branch job.slice) job.base
      >> (job.pre_implement
          >> (job.implement
              >> (ensure_commits_landed seams job.base
                  >> (run_done_check_commands seams commands secret_values >>= publish))))

  unfoldable pub build_with_env :
      List (List Text) → Dict Text Text → Exec BuildLog (Bool × Option G)
  build_with_env commands env = mint_token seams job.slice.repo_full_name >>= (λ url.
      start_container seams job.image (update_all (update env git_committer_env) job.auth_envs)
      >> finally_destroy seams (build_body commands (values env ++ values_all job.auth_envs) url))

  -- `build_issue_in_container`
  unfoldable pub build_issue_in_container : Exec BuildLog (Bool × Option G)
  build_issue_in_container = lift job.commands >>= (λ commands.
      resolve_secrets_or_escalate seams job.resolve job.config job.slice
      >>= build_with_env commands)
