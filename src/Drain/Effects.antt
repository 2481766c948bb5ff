-- ===== src/Drain/Effects.antt =====
-- What a pass of the drain does to the world: which PRs it opens and which builds it begins.
use the_retinue.Base.{
  ℕ, suc, ◌≡◌, refl, sym, ap, ◌∙◌, inl, inr, Bool, true, List, [], ◌∷◌, ◌++◌, map, Bool-cases,
  nat_eq, contains, list_eq, filter, All, All-append, All-imp, Text, Unicode, Result, ok, err,
  Result-cases,
}
use mathlib.Core.List.{Memᴰ, Permᴰ, append_assoc, append-nil}
use the_retinue.Exec.{Exec, continue}
use the_retinue.RepoConfig.{RepoConfig}
use the_retinue.AdhocIssue.{AdhocIssue, from_fetched_issue}
use the_retinue.Readiness.{resolve_ready}
use the_retinue.Drain.Types.{
  ReadyIssue, is_admissible, FlightState, absent, stranded, Seams, DrainState, record_best_effort,
  record_queued,
}
use the_retinue.RunLedger.{RunState, queued, building}
use the_retinue.Budget.{meter_adhoc}
use the_retinue.Drain.Verdicts.{verdict}
use the_retinue.Drain.Select.{open_stranded_prs}
use the_retinue.Drain.Build.{charge_all, build_one, run_tasks}

module _ {ℓ} {A : Type ℓ} where
  -- All items of a list, with what the filter tested.
  pub filter-All :
      (P : A → Type ℓ) (p : A → Bool) (xs : List A)
      → All P xs
      → All (λ x. P x × (p x ≡ true)) (filter p xs)
  unfolding filter
  filter-All P p [] h = tt
  filter-All P p (x ∷ xs) h = elim (Bool-cases (p x)) [
    | inl e ↦ rw e ((h.0, e), filter-All P p xs h.1)
    | inr e ↦ rw e (filter-All P p xs h.1)
  ]

  pub All-Permᴰ : (P : A → Type ℓ) (xs ys : List A) → Permᴰ xs ys → All P ys → All P xs
  All-Permᴰ P _ _ Permᴰ.nil h = tt
  All-Permᴰ P _ _ (Permᴰ.cons {a} {b} {l₁} {l₂} e m) h = (rw e (h.0), All-Permᴰ P l₁ l₂ m h.1)
  All-Permᴰ P _ _ (Permᴰ.swap e f) h = (rw e (h.1.0), (rw f (h.0), h.1.1))
  All-Permᴰ P _ _ (Permᴰ.trans {l₁} {l₂} {l₃} m n) h = All-Permᴰ P l₁ l₂ m (All-Permᴰ P l₂ l₃ n h)

  pub All-Memᴰ : (xs : List A) → All (λ x. Memᴰ x xs) xs
  All-Memᴰ [] = tt
  All-Memᴰ (x ∷ xs) =
      (Memᴰ.head refl, All-imp (λ y. Memᴰ y xs) xs (λ y m. Memᴰ.tail m) (All-Memᴰ xs))

module _ (tables : Unicode) (seams : Seams) (repo : Text) (config : RepoConfig) where
  -- Why an issue is acted on: it was listed, is admissible, is ready, and has this flight state.
  pub record Justified (state : FlightState) (a : AdhocIssue) : Type 0 where
    pub listed : List ReadyIssue
    pub fetched : seams.list_ready config.trigger_label ≡ ok listed
    pub issue : ReadyIssue
    pub is_listed : Memᴰ issue listed
    pub admissible : is_admissible config issue ≡ true
    pub ready_set : List ℕ
    pub resolved :
        resolve_ready tables seams.readiness (
          map
            (λ i. record { number = i.number; body = i.body })
            (filter (is_admissible config) listed))
        ≡ ok ready_set
    pub ready : contains ready_set issue.number ≡ true
    pub state_is : verdict seams.flight issue.number ≡ ok state
    pub materialized : a ≡ from_fetched_issue tables repo issue.number issue.body

  -- What is added to the two logs, each item with its reason.
  pub record Effects (s s' : DrainState) : Type 0 where
    pub opened : List AdhocIssue
    pub opened_after : s'.opened ≡ s.opened ++ opened
    pub opened_justified : All (Justified stranded) opened
    pub begun : List AdhocIssue
    pub begun_after : s'.begun ≡ s.begun ++ begun
    pub begun_justified : All (Justified absent) begun

  pub Effects-refl : (s s' : DrainState) → s'.opened ≡ s.opened → s'.begun ≡ s.begun → Effects s s'
  Effects-refl s s' e f = record {
    opened = [];
    opened_after = e ∙ sym (append-nil s.opened);
    opened_justified = tt;
    begun = [];
    begun_after = f ∙ sym (append-nil s.begun);
    begun_justified = tt;
  }

  pub Effects-trans : (s t u : DrainState) → Effects s t → Effects t u → Effects s u
  Effects-trans s t u a b = record {
    opened = a.opened ++ b.opened;
    opened_after =
        b.opened_after
        ∙ ap (λ xs. xs ++ b.opened) a.opened_after
        ∙ append_assoc s.opened a.opened b.opened;
    opened_justified =
        All-append (Justified stranded) a.opened b.opened a.opened_justified b.opened_justified;
    begun = a.begun ++ b.begun;
    begun_after =
        b.begun_after
        ∙ ap (λ xs. xs ++ b.begun) a.begun_after
        ∙ append_assoc s.begun a.begun b.begun;
    begun_justified =
        All-append (Justified absent) a.begun b.begun a.begun_justified b.begun_justified;
  }

  -- A step that only reads, and the rest where it succeeds.
  pub Effects-lift :
      {A B : Type 0} (r : Result A) (f : A → Exec DrainState B) (s : DrainState)
      → ((a : A) → r ≡ ok a → Effects s (f a s).1)
      → Effects s (continue r f s).1
  Effects-lift (ok a) f s h = h a refl
  Effects-lift (err e) f s h = Effects-refl s s refl refl

  -- The stranded branches, each with its reason.
  pub open_stranded_prs_lem :
      (issues : List ReadyIssue) (s : DrainState)
      → All (λ i. Justified stranded (from_fetched_issue tables repo i.number i.body)) issues
      → Effects s (open_stranded_prs tables seams repo issues s).1
  unfolding open_stranded_prs
  open_stranded_prs_lem [] s h = Effects-refl s s refl refl
  open_stranded_prs_lem (issue ∷ issues) s h =
      let a : AdhocIssue = from_fetched_issue tables repo issue.number issue.body in
      let called : DrainState = record s { opened = s.opened ++ a ∷ [] } in
      let first : Effects s called = record {
        opened = a ∷ [];
        opened_after = refl;
        opened_justified = (h.0, tt);
        begun = [];
        begun_after = sym (append-nil s.begun);
        begun_justified = tt;
      } in
      elim (Result-cases (seams.open_pr a)) [
        | inl (u, e) ↦
            rw (e, open_stranded_prs)
              (Effects-trans s called _ first (open_stranded_prs_lem issues called h.1))
        | inr (x, e) ↦ rw (e, open_stranded_prs) first
      ]

  record_best_effort-Effects :
      (now issue : ℕ) (state : RunState) (s : DrainState)
      → Effects s (record_best_effort seams repo now issue state s)
  unfolding record_best_effort
  record_best_effort-Effects now issue state s =
      elim (Bool-cases (seams.ledger_writes issue state)) [
        | inl e ↦ rw e (Effects-refl s _ refl refl)
        | inr e ↦ rw e (Effects-refl s _ refl refl)
      ]

  pub record_queued_lem :
      (issues : List ReadyIssue) (s : DrainState) → Effects s (record_queued seams repo issues s)
  unfolding record_queued
  record_queued_lem [] s = Effects-refl s s refl refl
  record_queued_lem (issue ∷ issues) s =
      Effects-trans s _ _ (record_best_effort-Effects seams.started issue.number queued s) (
        record_queued_lem issues
          (record_best_effort seams repo seams.started issue.number queued s))

  build_one_lem :
      (estimated_amount turn : ℕ) (a : AdhocIssue) (s : DrainState)
      → Justified absent a
      → Effects s (build_one seams repo estimated_amount turn a s).1
  unfolding build_one
  build_one_lem amount turn a s j =
      let now = seams.metered turn in
      let metered = meter_adhoc s.budget now amount in
      let paid : DrainState = record s { budget = charge_all metered.0 (seams.unchecked turn) } in
      let started : DrainState = record_best_effort seams repo now a.issue_number building paid in
      let called : DrainState = record started { begun = started.begun ++ a ∷ [] } in
      let at_start =
        Effects-trans s paid started (Effects-refl s paid refl refl)
          (record_best_effort-Effects now a.issue_number building paid) in
      let done = Effects-trans s started called at_start (record {
        opened = [];
        opened_after = sym (append-nil started.opened);
        opened_justified = tt;
        begun = a ∷ [];
        begun_after = refl;
        begun_justified = (j, tt);
      }) in
      elim (Bool-cases metered.1) [
        | inr e ↦ rw (e, build_one) (Effects-refl s paid refl refl)
        | inl e ↦ elim (Result-cases (seams.build a)) [
          | inl (u, f) ↦ rw (e, f, build_one) done
          | inr (x, f) ↦ rw (e, f, build_one) done
        ]
      ]

  pub run_tasks_lem :
      (estimated_amount turn : ℕ) (tasks : List AdhocIssue) (s : DrainState)
      → All (Justified absent) tasks
      → Effects s (run_tasks seams repo estimated_amount turn tasks s).1
  unfolding run_tasks
  run_tasks_lem amount turn [] s h = Effects-refl s s refl refl
  run_tasks_lem amount turn (a ∷ tasks) s h =
      Effects-trans s _ _ (build_one_lem amount turn a s h.0)
        (run_tasks_lem amount (suc turn) tasks (build_one seams repo amount turn a s).1 h.1)
