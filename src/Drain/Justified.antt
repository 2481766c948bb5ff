-- ===== src/Drain/Justified.antt =====
-- Whatever the drain does to an issue, the code of retinue/adhoc_drain.py has checked the issue first.
use the_retinue.Base.{
  ℕ, ◌≡◌, refl, inl, inr, true, false, List, [], ◌∷◌, map, Option-cases, nat_eq, contains, list_eq,
  filter, All, All-imp, Text, Unicode, ok, >>=-eq-ok, ok-injective,
}
use mathlib.Core.List.{Memᴰ, Permᴰ}
use the_retinue.Exec.{Exec, lift, ◌>>=◌, ◌>>◌}
use the_retinue.RepoConfig.{RepoConfig}
use the_retinue.AdhocIssue.{AdhocIssue, from_fetched_issue}
use the_retinue.Readiness.{resolve_ready}
use the_retinue.Drain.Types.{
  ReadyIssue, is_admissible, FlightState, absent, stranded, Seams, DrainState, record_queued,
}
use the_retinue.Drain.Verdicts.{verdict, flight_states_lem, partition_by_lem}
use the_retinue.Drain.Plan.{
  DrainPlan, filter_ready, flight_states, partition_by, partition_candidates,
}
use the_retinue.Drain.Select.{open_stranded_prs, select_buildable}
use the_retinue.Drain.Build.{run_tasks, build_metered}
use the_retinue.Drain.Pass.{build_selected, drain_body, run_adhoc_drain}
use the_retinue.Drain.Chosen.{select_buildable_lem}
use the_retinue.Drain.Effects.{
  filter-All, All-Permᴰ, All-Memᴰ, Justified, Effects, Effects-refl, Effects-trans, Effects-lift,
  open_stranded_prs_lem, record_queued_lem, run_tasks_lem,
}

module _ (tables : Unicode) (seams : Seams) (repo : Text) (config : RepoConfig) where
  build_selected_lem :
      (arrange : List AdhocIssue → List AdhocIssue) (amount : ℕ)
      → ((tasks : List AdhocIssue) → Permᴰ (arrange tasks) tasks)
      → (selected : List AdhocIssue) (s : DrainState)
      → All (Justified tables seams repo config absent) selected
      → Effects tables seams repo config s
          (build_selected tables seams arrange repo config amount selected s).1
  unfolding build_selected
  build_selected_lem arrange amount perm [] s h =
      Effects-refl tables seams repo config s s refl refl
  build_selected_lem arrange amount perm (a ∷ rest) s h =
      let tasks = arrange (a ∷ rest) in
      let ran = run_tasks seams repo amount 0 tasks s in
      let done =
        run_tasks_lem tables seams repo config amount 0 tasks s
          (All-Permᴰ _ tasks (a ∷ rest) (perm (a ∷ rest)) h) in
      elim (Option-cases ran.0.first_error) [
        | inl e ↦ rw (e, build_metered) done
        | inr (x, e) ↦ rw (e, build_metered) done
      ]

  -- What the filter by readiness leaves.
  filter_ready_lem :
      (listed : List ReadyIssue) {ready : List ReadyIssue}
      → seams.list_ready config.trigger_label ≡ ok listed
      → filter_ready tables seams.readiness (filter (is_admissible config) listed) ≡ ok ready
      → All
          (λ i.
            (state : FlightState)
            → verdict seams.flight i.number ≡ ok state
            → Justified tables seams repo config state
                (from_fetched_issue tables repo i.number i.body))
          ready
  unfolding filter_ready
  filter_ready_lem listed {ready} fetched e =
      let admitted = filter (is_admissible config) listed in
      let (ready_numbers, resolved, kept) =
        >>=-eq-ok
          (resolve_ready tables seams.readiness
            (map (λ i. record { number = i.number; body = i.body }) admitted))
          (λ ready_numbers. ok (filter (λ i. contains ready_numbers i.number) admitted)) e in
      rw (← ok-injective kept) (
        All-imp _ (filter (λ i. contains ready_numbers i.number) admitted)
          (λ i h state verdict_is. record {
            listed = listed;
            fetched = fetched;
            issue = i;
            is_listed = h.0.0;
            admissible = h.0.1;
            ready_set = ready_numbers;
            resolved = resolved;
            ready = h.1;
            state_is = verdict_is;
            materialized = refl;
          })
          (filter-All _ (λ i. contains ready_numbers i.number) admitted
            (filter-All (λ i. Memᴰ i listed) (is_admissible config) listed (All-Memᴰ listed))))

  partition_candidates_lem :
      (ready : List ReadyIssue) {plan : DrainPlan}
      → partition_candidates seams.flight ready ≡ ok plan
      → All
          (λ i.
            (state : FlightState)
            → verdict seams.flight i.number ≡ ok state
            → Justified tables seams repo config state
                (from_fetched_issue tables repo i.number i.body))
          ready
      → All
          (λ i.
            Justified tables seams repo config absent
              (from_fetched_issue tables repo i.number i.body))
          plan.buildable
        × All
            (λ i.
              Justified tables seams repo config stranded
                (from_fetched_issue tables repo i.number i.body))
            plan.stranded_issues
  unfolding partition_candidates
  partition_candidates_lem ready {plan} e h =
      let (states, asked, split) =
        >>=-eq-ok (flight_states seams.flight ready) (λ states. partition_by states ready) e in
      let (b, o) = partition_by_lem _ states ready split h in
      (
        All-imp _ plan.buildable
            (λ i k. k.0 absent (flight_states_lem seams.flight ready asked i.number absent k.1)) b,
        All-imp _ plan.stranded_issues
            (λ i k. k.0 stranded (flight_states_lem seams.flight ready asked i.number stranded k.1))
            o,
      )

  -- The rest of the pass, behind the filter by readiness.
  abbrev pub after_ready :
      (arrange : List AdhocIssue → List AdhocIssue) (amount : ℕ)
      → List ReadyIssue
      → Exec DrainState (List AdhocIssue)
  after_ready arrange amount ready = do
    plan ← lift (partition_candidates seams.flight ready)
    open_stranded_prs tables seams repo plan.stranded_issues
    selected ← lift (select_buildable tables repo config plan.buildable)
    build_selected tables seams arrange repo config amount selected

  after_ready_lem :
      (arrange : List AdhocIssue → List AdhocIssue) (amount : ℕ)
      → ((tasks : List AdhocIssue) → Permᴰ (arrange tasks) tasks)
      → (ready : List ReadyIssue) (s : DrainState)
      → All
          (λ i.
            (state : FlightState)
            → verdict seams.flight i.number ≡ ok state
            → Justified tables seams repo config state
                (from_fetched_issue tables repo i.number i.body))
          ready
      → Effects tables seams repo config s (after_ready arrange amount ready s).1
  after_ready_lem arrange amount perm ready s h =
      Effects-lift tables seams repo config (partition_candidates seams.flight ready) _ s
        λ plan planned.
          let (b, o) = partition_candidates_lem ready planned h in
          let s1 = (open_stranded_prs tables seams repo plan.stranded_issues s).1 in
          let opened = open_stranded_prs_lem tables seams repo config plan.stranded_issues s o in
          Effects-trans tables seams repo config s s1 _ opened (
            Effects-lift tables seams repo config
              (open_stranded_prs tables seams repo plan.stranded_issues s).0 _ s1
              λ u e.
                Effects-lift tables seams repo config
                  (select_buildable tables repo config plan.buildable) _ s1
                  λ selected chosen. build_selected_lem arrange amount perm selected s1 (
                    select_buildable_lem tables repo config
                      (Justified tables seams repo config absent) plan.buildable chosen b))

  drain_body_lem :
      (arrange : List AdhocIssue → List AdhocIssue) (amount : ℕ)
      → ((tasks : List AdhocIssue) → Permᴰ (arrange tasks) tasks)
      → (s : DrainState)
      → Effects tables seams repo config s (drain_body tables seams arrange repo config amount s).1
  unfolding drain_body
  drain_body_lem arrange amount perm s =
      Effects-lift tables seams repo config (seams.list_ready config.trigger_label) _ s
        λ listed fetched.
          let admitted = filter (is_admissible config) listed in
          let s1 = record_queued seams repo admitted s in
          Effects-trans tables seams repo config s s1 _
            (record_queued_lem tables seams repo config admitted s)
            (Effects-lift tables seams repo config (filter_ready tables seams.readiness admitted) _
              s1
              λ ready is_ready.
                after_ready_lem arrange amount perm ready s1
                  (filter_ready_lem listed fetched is_ready))

  -- Where no drain is in flight, a pass, whether it ends or raises, has opened pull requests only for
  -- listed, admissible, ready issues whose branch is stranded, and has begun builds only for listed,
  -- admissible, ready issues with no branch. `arrange`, the order of the concurrent tasks, permutes them.
  pub run_adhoc_drain_lem :
      (arrange : List AdhocIssue → List AdhocIssue) (amount : ℕ)
      → ((tasks : List AdhocIssue) → Permᴰ (arrange tasks) tasks)
      → (s : DrainState) → s.held ≡ false
      → Effects tables seams repo config s
          (run_adhoc_drain tables seams arrange repo config amount s).1
  unfolding run_adhoc_drain
  run_adhoc_drain_lem arrange amount perm s free =
      let done = drain_body_lem arrange amount perm (record s { held = true }) in
      rw (free) (record {
        opened = done.opened;
        opened_after = done.opened_after;
        opened_justified = done.opened_justified;
        begun = done.begun;
        begun_after = done.begun_after;
        begun_justified = done.begun_justified;
      })
