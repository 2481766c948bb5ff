-- ===== src/Lane/Shipped.antt =====
-- From a build to its pull request (retinue/pipeline.py, retinue/adhoc_build.py).
use the_retinue.Base.{
  ◌≡◌, refl, sym, ◌∙◌, inl, inr, Bool, true, false, Option, none, some, List, ◌∷◌, ◌++◌,
  if◌then◌else◌, nat_eq, list_eq, Text, Dict, Exn, ok, err, ok-injective, Result-cases,
}
use mathlib.Core.Path.{subst}
use the_retinue.AdhocIssue.{AdhocIssue, branch}
use the_retinue.Exec.{Exec, pure, lift, Post, Post-then, Post-rest, ◌>>=◌}
use the_retinue.Container.{
  slice_branch, destroying, BuildLog, BuildSeams, post_report, mint_token, start_container,
  finally_destroy,
}
use the_retinue.Build.{
  clone_and_branch, push_branch, ensure_commits_landed, run_done_check_commands,
  resolve_secrets_or_escalate, BuildJob, verdict, after_report, publish, build_body, build_with_env,
  build_issue_in_container, update_all, update, git_committer_env, values, values_all,
}
use the_retinue.Gate.{ReviewGateOutcome, require_target_branch, run_review_gate}
use the_retinue.Gate.Cleared.{Cleared, run_review_gate-Cleared}
use the_retinue.AdhocBuild.{AdhocJob, AdhocBuildResult, adhoc_build_job, build_adhoc_issue}

err_not_ok : {A : Type 0} {e : Exn} {a : A} → ¬ (err e ≡ ok a)
err_not_ok h = cc

module _ {G : Type 0} (R : G → BuildLog → Type 0) where
  -- A green build ran its hook, of which this holds.
  Hooked : Bool × Option G → BuildLog → Type 0
  Hooked (passed, found) log = passed ≡ true → (g : G) × (found ≡ some g) × R g log

  -- The same before the container's `destroy` was called.
  Ended : Bool × Option G → BuildLog → Type 0
  Ended out log = (before : BuildLog) × (log ≡ destroying ∷ before) × Hooked out before

module _ {G : Type 0} (seams : BuildSeams) (job : BuildJob G) (R : G → BuildLog → Type 0) where
  -- `after_report` of a green build, by its hook.
  abbrev ran_hook : Option (Exec BuildLog G) → Exec BuildLog (Bool × Option G)
  ran_hook h = elim h [
    | none ↦ pure (true, none)
    | some hook ↦ hook >>= (λ found. pure (true, some found))
  ]

  module _ (hook : Exec BuildLog G) (has_hook : job.on_green ≡ some hook)
      (holds : Post hook R) where
    after_report-Hooked : (passed : Bool) → Post (after_report seams job passed) (Hooked R)
    unfolding after_report Hooked
    after_report-Hooked false =
        λ log out h. subst (λ o. Hooked R o log) (ok-injective h) (λ e. absurd (cc))
    after_report-Hooked true =
        subst (λ h. Post (ran_hook h) (Hooked R)) (sym has_hook)
          (Post-then R (Hooked R) hook (λ found. pure (true, some found)) holds
            (λ found log r out h.
              subst (λ o. Hooked R o log) (ok-injective h) (λ e. (found, refl, r))))

    publish-Hooked : (checked : Bool × Text) → Post (publish seams job checked) (Hooked R)
    unfolding publish
    publish-Hooked (passed, detail) =
        Post-rest (Hooked R)
          (if passed then push_branch seams (slice_branch job.slice) else pure tt) _
          (λ a.
            Post-rest (Hooked R) (post_report seams (verdict seams job passed detail)) _
              (λ b. after_report-Hooked passed))

    body-Hooked :
        (commands : List (List Text)) (secret_values : List Text) (url : Text)
        → Post (build_body seams job commands secret_values url) (Hooked R)
    unfolding build_body
    body-Hooked commands secret_values url =
        Post-rest (Hooked R) (clone_and_branch seams url (slice_branch job.slice) job.base) _ (λ a.
          Post-rest (Hooked R) job.pre_implement _ (λ b. Post-rest (Hooked R) job.implement _ (λ c.
            Post-rest (Hooked R) (ensure_commits_landed seams job.base) _ (λ d.
              Post-rest (Hooked R) (run_done_check_commands seams commands secret_values) _
                publish-Hooked))))

    finally-Ended :
        (body : Exec BuildLog (Bool × Option G))
        → Post body (Hooked R)
        → Post (finally_destroy seams body) (Ended R)
    unfolding finally_destroy Ended
    finally-Ended body holds log out h = elim (Result-cases (seams.destroy (body log).1)) [
      | inl (done, e) ↦ (
        (body log).1,
        refl,
        holds log out (subst (λ r. elim r [ ok u ↦ (body log).0 | err e ↦ err e ] ≡ ok out) e h),
      )
      | inr (raised, e) ↦
          absurd
            (err_not_ok (subst (λ r. elim r [ ok u ↦ (body log).0 | err e ↦ err e ] ≡ ok out) e h))
    ]

    env-Ended :
        (commands : List (List Text)) (env : Dict Text Text)
        → Post (build_with_env seams job commands env) (Ended R)
    unfolding build_with_env
    env-Ended commands env =
        Post-rest (Ended R) (mint_token seams job.slice.repo_full_name) _ (λ url.
          Post-rest (Ended R)
            (start_container seams job.image
              (update_all (update env git_committer_env) job.auth_envs))
            (λ a.
              finally_destroy seams
                (build_body seams job commands (values env ++ values_all job.auth_envs) url))
            (λ a.
              finally-Ended
                (build_body seams job commands (values env ++ values_all job.auth_envs) url)
                (body-Hooked commands (values env ++ values_all job.auth_envs) url)))

    build-Ended : Post (build_issue_in_container seams job) (Ended R)
    unfolding build_issue_in_container
    build-Ended = Post-rest (Ended R) (lift job.commands) _ (λ commands.
        Post-rest (Ended R) (resolve_secrets_or_escalate seams job.resolve job.config job.slice) _
          (λ env. env-Ended commands env))

module _ (seams : BuildSeams) (job : AdhocJob) (issue : AdhocIssue)
    (reviewed : job.with_review ≡ true) where
  -- What a green result of a reviewed build says.
  unfoldable pub Shipped : AdhocBuildResult → BuildLog → Type 0
  Shipped result log =
      (result.branch ≡ branch issue)
      × (result.passed ≡ true
          → (gate : ReviewGateOutcome) × (before : BuildLog) × (result.gate ≡ some gate)
            × (log ≡ destroying ∷ before)
            × Cleared seams job.config issue gate before)

  gate-Post :
      Post
        (run_review_gate seams job.config job.commands job.implementer issue)
        (Cleared seams job.config issue)
  gate-Post log outcome h =
      let (o, e, cleared) =
        run_review_gate-Cleared seams job.config issue job.commands job.implementer log in
      subst
        (λ o.
          Cleared seams job.config issue o
            (run_review_gate seams job.config job.commands job.implementer issue log).1)
        (ok-injective (sym e ∙ h)) cleared

  has_gate :
      (base : Text)
      → (adhoc_build_job seams job issue base).on_green
        ≡ some (run_review_gate seams job.config job.commands job.implementer issue)
  unfolding adhoc_build_job
  has_gate base = rw (reviewed) refl

  Ended-Shipped :
      (built : Bool × Option ReviewGateOutcome) (log : BuildLog)
      → Ended (Cleared seams job.config issue) built log
      → Shipped (record { branch = branch issue; passed = built.0; gate = built.1 }) log
  unfolding Ended Hooked Shipped
  Ended-Shipped (passed, found) log (before, ended, hooked) = (
    refl,
    λ green.
        let (gate, is_found, cleared) = hooked green in (gate, before, is_found, ended, cleared),
  )

  pub build_adhoc_issue-Shipped : Post (build_adhoc_issue seams job issue) Shipped
  unfolding build_adhoc_issue
  build_adhoc_issue-Shipped =
      Post-then (Ended (Cleared seams job.config issue)) Shipped
        (lift (require_target_branch job.config)
          >>= (λ base. build_issue_in_container seams (adhoc_build_job seams job issue base)))
        _
        (Post-rest (Ended (Cleared seams job.config issue))
          (lift (require_target_branch job.config)) _
          (λ base.
            build-Ended seams (adhoc_build_job seams job issue base)
              (Cleared seams job.config issue)
              (run_review_gate seams job.config job.commands job.implementer issue) (has_gate base)
              gate-Post))
        (λ built log ended result h.
          subst (λ r. Shipped r log) (ok-injective h) (Ended-Shipped built log ended))
