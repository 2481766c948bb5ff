-- ===== src/Build/Whole.antt =====
-- What a whole build in its container keeps (retinue/container_build.py): a property of the log
-- outside the container, and one inside it.
use the_retinue.Base.{
  ◌≡◌, ◌⊎◌, inl, inr, Bool, true, false, Option, none, some, List, ◌∷◌, ◌++◌, Option-cases, nat_eq,
  list_eq, Text, Dict, ok, Result-cases,
}
use mathlib.Core.Path.{subst}
use the_retinue.DoneCheck.{DoneCheckReport, resolve_secrets}
use the_retinue.Exec.{Exec, Keeps, Keeps-then, continue-keeps, ◌>>=◌, ◌>>◌}
use the_retinue.Container.{
  slice_branch, BuildEvent, reported, minted, started, destroying, BuildLog, BuildSeams,
  post_report, mint_token, start_container, finally_destroy,
}
use the_retinue.Build.{
  escalation, env_or_escalate, run_done_check_commands, clone_and_branch, ensure_commits_landed,
  BuildJob, verdict, after_report, publish, build_body, build_with_env, build_issue_in_container,
  resolve_secrets_or_escalate, update_all, update, git_committer_env, values, values_all,
}
use the_retinue.Build.Lifecycle.{
  is_plain, Keeps-clone_and_branch, Keeps-ensure_commits_landed, Keeps-post_report,
}

-- A hook, where there is one, keeps the property.
abbrev pub KeepsHook : {G : Type 0} → (BuildLog → Type 0) → Option (Exec BuildLog G) → Type 0
KeepsHook Q none = Unit
KeepsHook Q (some hook) = Keeps Q hook

module _ {G : Type 0} (Q : BuildLog → Type 0) (seams : BuildSeams) (job : BuildJob G)
    (plain : (event : BuildEvent) (log : BuildLog)
      → is_plain event ≡ true
      → Q log
      → Q (event ∷ log)) where
  module _ (on_green : KeepsHook Q job.on_green) where
    Keeps-after_report : (passed : Bool) → Keeps Q (after_report seams job passed)
    unfolding after_report
    Keeps-after_report false log q = q
    Keeps-after_report true log q = elim (Option-cases job.on_green) [
      | inl e ↦ rw (e, after_report) q
      | inr (hook, e) ↦
          rw (e, after_report)
            (Keeps-then Q hook _ (subst (KeepsHook Q) e on_green) (λ found s r. r) log q)
    ]

    -- The report of a verdict, and what follows it.
    pub Keeps-report :
        (passed : Bool) (detail : Text)
        → Keeps Q
            (post_report seams (verdict seams job passed detail) >> after_report seams job passed)
    Keeps-report passed detail =
        Keeps-then Q (post_report seams (verdict seams job passed detail)) _
          (Keeps-post_report Q seams plain (verdict seams job passed detail))
          (λ a. Keeps-after_report passed)

  module _ (pre : Keeps Q job.pre_implement) (work : Keeps Q job.implement)
      (checked : (commands : List (List Text)) (secret_values : List Text)
        → job.commands ≡ ok commands
        → Keeps Q
            (run_done_check_commands seams commands secret_values >>= publish seams job)) where
    Keeps-build_body :
        (commands : List (List Text)) (secret_values : List Text) (url : Text)
        → job.commands ≡ ok commands
        → Keeps Q (build_body seams job commands secret_values url)
    unfolding build_body
    Keeps-build_body commands secret_values url found =
        Keeps-then Q (clone_and_branch seams url (slice_branch job.slice) job.base) _
          (Keeps-clone_and_branch Q seams plain url (slice_branch job.slice) job.base)
          (λ a. Keeps-then Q job.pre_implement _ pre (λ b. Keeps-then Q job.implement _ work (λ c.
            Keeps-then Q (ensure_commits_landed seams job.base) _
              (Keeps-ensure_commits_landed Q seams plain job.base)
              (λ d. checked commands secret_values found))))

    module _ (P : BuildLog → Type 0)
        (report : (report : DoneCheckReport) (log : BuildLog) → P log → P (reported report ∷ log))
        (mint : (repo : Text) (log : BuildLog) → P log → P (minted repo ∷ log))
        (enter : (image : Text) (env : Dict Text Text) (log : BuildLog)
          → P log
          → Q (started image env ∷ log))
        (leave : (log : BuildLog) → Q log → P (destroying ∷ log)) where
      Keeps-contained :
          (image : Text) (env : Dict Text Text) (body : Exec BuildLog (Bool × Option G))
          → Keeps Q body
          → Keeps P (start_container seams image env >> finally_destroy seams body)
      unfolding start_container finally_destroy
      Keeps-contained image env body kept log p = elim (Result-cases (seams.start log image env)) [
        | inr (e, q) ↦ rw (q, start_container) p
        | inl (up, q) ↦
            rw (q, start_container)
              (leave _ (kept (started image env ∷ log) (enter image env log p)))
      ]

      Keeps-mint : (repo : Text) → Keeps P (mint_token seams repo)
      unfolding mint_token
      Keeps-mint repo = mint repo

      Keeps-build_with_env :
          (commands : List (List Text)) (env : Dict Text Text)
          → job.commands ≡ ok commands
          → Keeps P (build_with_env seams job commands env)
      unfolding build_with_env
      Keeps-build_with_env commands env found =
          Keeps-then P (mint_token seams job.slice.repo_full_name) _
            (Keeps-mint job.slice.repo_full_name)
            (λ url.
              Keeps-contained job.image (update_all (update env git_committer_env) job.auth_envs)
                (build_body seams job commands (values env ++ values_all job.auth_envs) url)
                (Keeps-build_body commands (values env ++ values_all job.auth_envs) url found))

      Keeps-env_or_escalate :
          (resolved : Text ⊎ Dict Text Text) → Keeps P (env_or_escalate seams job.slice resolved)
      unfolding env_or_escalate post_report
      Keeps-env_or_escalate (inr env) log p = p
      Keeps-env_or_escalate (inl name) log p =
          let kept = report (escalation seams job.slice name) log p in
          continue-keeps P (seams.report log (escalation seams job.slice name)) _
            (reported (escalation seams job.slice name) ∷ log) kept (λ a e. kept)

      pub Keeps-build_issue_in_container : Keeps P (build_issue_in_container seams job)
      unfolding build_issue_in_container resolve_secrets_or_escalate
      Keeps-build_issue_in_container log p =
          continue-keeps P job.commands _ log p (λ commands found.
            Keeps-then P (resolve_secrets_or_escalate seams job.resolve job.config job.slice) _
              (Keeps-env_or_escalate (resolve_secrets job.resolve job.config))
              (λ env. Keeps-build_with_env commands env found) log p)
