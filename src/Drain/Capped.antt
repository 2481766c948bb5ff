-- ===== src/Drain/Capped.antt =====
-- The builds that a pass of retinue/adhoc_drain.py begins, against the cap and the budget.
use the_retinue.Base.{
  ℕ, ◌+◌, ◌≤◌, ◌≡◌, refl, ap, ◌∙◌, inl, inr, true, false, some, List, [], ◌∷◌, arith, Option-cases,
  nat_eq, list_eq, length, filter, Text, Unicode, length-Permᴰ,
}
use mathlib.Core.List.{Permᴰ}
use the_retinue.RepoConfig.{RepoConfig}
use the_retinue.AdhocIssue.{AdhocIssue}
use the_retinue.Drain.Types.{ReadyIssue, is_admissible, Seams, DrainState, record_queued}
use the_retinue.Drain.Plan.{filter_ready, partition_candidates}
use the_retinue.Drain.Select.{open_stranded_prs, select_buildable}
use the_retinue.Drain.Build.{run_tasks, build_metered}
use the_retinue.Drain.Pass.{build_selected, drain_body, run_adhoc_drain}
use the_retinue.Budget.Cap.{
  InOrder, last_instant, side_charges, perform_all, perform_all-trailing-le,
}
use the_retinue.Budget.{cap, trailing_24h_spend, metering_disabled}
use the_retinue.Drain.Spending.{
  record_queued-budget, open_stranded_prs-budget, meter_calls, unchecked_count, meter_calls-InOrder,
  Spent, run_tasks-Spent,
}
use the_retinue.Drain.Chosen.{length-select_buildable}
use the_retinue.Drain.Justified.{after_ready}
use the_retinue.Exec.{continue-keeps}

module _ (tables : Unicode) (seams : Seams) (arrange : List AdhocIssue → List AdhocIssue)
    (repo : Text) (config : RepoConfig) (amount slots : ℕ) where
  -- There was at most one turn of the meter for each slot.
  abbrev Within : DrainState → DrainState → Type 0
  Within s s' = (n : ℕ) × (n ≤ slots) × Spent seams repo amount 0 n s s'

  Within-refl : (s s' : DrainState) → s'.budget ≡ s.budget → s'.begun ≡ s.begun → Within s s'
  unfolding perform_all meter_calls unchecked_count
  Within-refl s s' e b = (
    0,
    omega arith,
    record {
      budget_after = e;
      disabled_after = ap metering_disabled e;
      one_charge_each = λ on. omega (arith, ap (λ l. length l.entries) e, ap length b);
      at_most = omega (arith, ap length b);
    },
  )

  -- What came first changed neither the budget nor the builds.
  Within-from :
      (s s1 : DrainState)
      → s1.budget ≡ s.budget
      → s1.begun ≡ s.begun
      → (s' : DrainState) → Within s1 s'
      → Within s s'
  Within-from s s1 b g s' (n, few, spent) = (
    n,
    few,
    record {
      budget_after =
          spent.budget_after ∙ ap (λ l. perform_all l (meter_calls seams repo amount 0 n)) b;
      disabled_after = spent.disabled_after ∙ ap metering_disabled b;
      one_charge_each = λ on. omega (
        arith,
        spent.one_charge_each (ap metering_disabled b ∙ on),
        ap (λ l. length l.entries) b,
        ap length g,
      );
      at_most = omega (arith, spent.at_most, ap length g);
    },
  )

  build_selected-Within :
      ((tasks : List AdhocIssue) → Permᴰ (arrange tasks) tasks)
      → (selected : List AdhocIssue) (s : DrainState) → length selected ≤ slots
      → Within s (build_selected tables seams arrange repo config amount selected s).1
  unfolding build_selected
  build_selected-Within perm [] s h = Within-refl s s refl refl
  build_selected-Within perm (a ∷ rest) s h =
      let tasks = arrange (a ∷ rest) in
      let ran = run_tasks seams repo amount 0 tasks s in
      let done : Within s ran.1 = (
        length tasks,
        omega (arith, length-Permᴰ tasks (a ∷ rest) (perm (a ∷ rest)), h),
        run_tasks-Spent seams repo amount 0 tasks s,
      ) in
      elim (Option-cases ran.0.first_error) [
        | inl e ↦ rw (e, build_metered) done
        | inr (x, e) ↦ rw (e, build_metered) done
      ]

  after_ready-Within :
      ((tasks : List AdhocIssue) → Permᴰ (arrange tasks) tasks)
      → config.max_parallel ≡ some slots
      → (ready : List ReadyIssue) (s : DrainState)
      → Within s (after_ready tables seams repo config arrange amount ready s).1
  after_ready-Within perm capped ready s =
      continue-keeps (Within s) (partition_candidates seams.flight ready) _ s
        (Within-refl s s refl refl)
        λ plan planned.
          let s1 = (open_stranded_prs tables seams repo plan.stranded_issues s).1 in
          let (b, g) = open_stranded_prs-budget tables seams repo plan.stranded_issues s in
          let same = Within-refl s s1 b g in
          continue-keeps (Within s) (open_stranded_prs tables seams repo plan.stranded_issues s).0 _
            s1 same
            λ u e.
              continue-keeps (Within s) (select_buildable tables repo config plan.buildable) _ s1
                same
                λ selected chosen. Within-from s s1 b g _ (
                  build_selected-Within perm selected s1
                    (length-select_buildable tables repo config plan.buildable slots capped chosen))

  drain_body-Within :
      ((tasks : List AdhocIssue) → Permᴰ (arrange tasks) tasks)
      → config.max_parallel ≡ some slots
      → (s : DrainState) → Within s (drain_body tables seams arrange repo config amount s).1
  unfolding drain_body
  drain_body-Within perm capped s =
      continue-keeps (Within s) (seams.list_ready config.trigger_label) _ s
        (Within-refl s s refl refl)
        λ listed fetched.
          let admitted = filter (is_admissible config) listed in
          let s1 = record_queued seams repo admitted s in
          let (b, g) = record_queued-budget seams repo admitted s in
          continue-keeps (Within s) (filter_ready tables seams.readiness admitted) _ s1
            (Within-refl s s1 b g)
            λ ready is_ready. Within-from s s1 b g _ (after_ready-Within perm capped ready s1)

  run_adhoc_drain-Within :
      ((tasks : List AdhocIssue) → Permᴰ (arrange tasks) tasks)
      → config.max_parallel ≡ some slots
      → (s : DrainState) → s.held ≡ false
      → Within s (run_adhoc_drain tables seams arrange repo config amount s).1
  unfolding run_adhoc_drain
  run_adhoc_drain-Within perm capped s free =
      let (n, few, spent) = drain_body-Within perm capped (record s { held = true }) in
      rw (free) (
        n,
        few,
        record {
          budget_after = spent.budget_after;
          disabled_after = spent.disabled_after;
          one_charge_each = spent.one_charge_each;
          at_most = spent.at_most;
        },
      )

  -- Where `max_parallel` is set and no drain is in flight, a pass, whether it ends or raises, has
  -- begun at most `max_parallel` builds, and where metering is on it has added to the budget exactly
  -- one charge for each of them and the unchecked charges of its `n` turns of the meter, of which
  -- there are at most `max_parallel`. `arrange`, the order of the concurrent tasks, permutes them.
  pub run_adhoc_drain-slots :
      ((tasks : List AdhocIssue) → Permᴰ (arrange tasks) tasks)
      → config.max_parallel ≡ some slots
      → (s : DrainState) → s.held ≡ false
      → (length (run_adhoc_drain tables seams arrange repo config amount s).1.begun
          ≤ length s.begun + slots)
        × (n : ℕ) × (n ≤ slots)
        × (metering_disabled s.budget ≡ false
            → length (run_adhoc_drain tables seams arrange repo config amount s).1.budget.entries
                + length s.begun
              ≡ length s.budget.entries
                + length (run_adhoc_drain tables seams arrange repo config amount s).1.begun
                + unchecked_count seams repo amount 0 n)
  run_adhoc_drain-slots perm capped s free =
      let (n, few, spent) = run_adhoc_drain-Within perm capped s free in
      (omega (arith, few, spent.at_most), n, few, spent.one_charge_each)

  -- Where `max_parallel` is set, the spend in the 24 hours before `start` is within the cap, no drain
  -- is in flight, and what the meter and the builds charge in `max_parallel` turns is in order from
  -- `start` to `t`: after a pass, whether it ends or raises, the spend is over the cap by at most the
  -- unchecked charges of these turns. `arrange`, the order of the concurrent tasks, permutes them.
  pub run_adhoc_drain-trailing :
      ((tasks : List AdhocIssue) → Permᴰ (arrange tasks) tasks)
      → config.max_parallel ≡ some slots
      → (s : DrainState) (start t : ℕ) → s.held ≡ false
      → trailing_24h_spend s.budget start ≤ cap s.budget
      → InOrder start (meter_calls seams repo amount 0 slots)
      → last_instant start (meter_calls seams repo amount 0 slots) ≤ t
      → trailing_24h_spend (run_adhoc_drain tables seams arrange repo config amount s).1.budget t
        ≤ cap s.budget + side_charges (meter_calls seams repo amount 0 slots)
  run_adhoc_drain-trailing perm capped s start t free within order last =
      let (n, few, spent) = run_adhoc_drain-Within perm capped s free in
      let calls = meter_calls seams repo amount 0 n in
      let (o, l, side) = meter_calls-InOrder seams repo amount 0 n slots start few order in
      let bound = perform_all-trailing-le s.budget start 0 calls (omega arith) o t (omega arith) in
      rw (spent.budget_after) (omega (arith, bound, side))
