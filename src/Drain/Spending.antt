-- ===== src/Drain/Spending.antt =====
-- What a pass of retinue/adhoc_drain.py spends of the shared budget, and how much it builds.
use the_retinue.Base.{
  ℕ, zero, suc, ◌+◌, ◌≤◌, ◌≡◌, refl, sym, ap, ◌∙◌, inl, inr, true, false, List, [], ◌∷◌, ◌++◌,
  arith, if◌then◌else◌, Bool-cases, nat_eq, list_eq, length, length-append, Text, Unicode,
  Result-cases,
}
use the_retinue.AdhocIssue.{AdhocIssue, from_fetched_issue}
use the_retinue.Drain.Types.{ReadyIssue, Seams, DrainState, record_best_effort, record_queued}
use the_retinue.RunLedger.{RunState, queued, building}
use the_retinue.Budget.{meter_adhoc}
use the_retinue.Drain.Select.{open_stranded_prs}
use the_retinue.Drain.Build.{charge_all, build_one, run_tasks}
use the_retinue.Drain.Calls.{
  charge_calls, perform_all-charge_calls, charge_all-entries, InOrder-append, append-InOrder,
  last_instant-append, side_charges-append, start-le-last_instant,
}
use the_retinue.Budget.Cap.{
  metering, perform, perform_all, Calls, InOrder, last_instant, side_charges, meter_adhoc-entries,
  meter_adhoc-disabled,
}
use the_retinue.Budget.{metering_disabled}

record_best_effort-budget :
    (seams : Seams) (repo : Text) (now issue : ℕ) (state : RunState) (s : DrainState)
    → ((record_best_effort seams repo now issue state s).budget ≡ s.budget)
      × ((record_best_effort seams repo now issue state s).begun ≡ s.begun)
unfolding record_best_effort
record_best_effort-budget seams repo now issue state s =
    elim (Bool-cases (seams.ledger_writes issue state)) [
      | inl e ↦ rw e (refl, refl)
      | inr e ↦ rw e (refl, refl)
    ]

pub record_queued-budget :
    (seams : Seams) (repo : Text) (issues : List ReadyIssue) (s : DrainState)
    → ((record_queued seams repo issues s).budget ≡ s.budget)
      × ((record_queued seams repo issues s).begun ≡ s.begun)
unfolding record_queued
record_queued-budget seams repo [] s = (refl, refl)
record_queued-budget seams repo (issue ∷ issues) s =
    let s1 = record_best_effort seams repo seams.started issue.number queued s in
    let (b, g) = record_queued-budget seams repo issues s1 in
    let (b1, g1) = record_best_effort-budget seams repo seams.started issue.number queued s in
    (b ∙ b1, g ∙ g1)

pub open_stranded_prs-budget :
    (tables : Unicode) (seams : Seams) (repo : Text) (issues : List ReadyIssue) (s : DrainState)
    → ((open_stranded_prs tables seams repo issues s).1.budget ≡ s.budget)
      × ((open_stranded_prs tables seams repo issues s).1.begun ≡ s.begun)
unfolding open_stranded_prs
open_stranded_prs-budget tables seams repo [] s = (refl, refl)
open_stranded_prs-budget tables seams repo (issue ∷ issues) s =
    let a : AdhocIssue = from_fetched_issue tables repo issue.number issue.body in
    let called : DrainState = record s { opened = s.opened ++ a ∷ [] } in
    elim (Result-cases (seams.open_pr a)) [
      | inl (u, e) ↦
          rw (e, open_stranded_prs) (open_stranded_prs-budget tables seams repo issues called)
      | inr (x, e) ↦ rw (e, open_stranded_prs) (refl, refl)
    ]

module _ (seams : Seams) (repo : Text) (amount : ℕ) where
  -- The calls of the governor in `n` turns from this one on: each turn meters, and then the builds
  -- that run charge what they charge.
  unfoldable pub meter_calls : ℕ → ℕ → Calls
  meter_calls turn zero = []
  meter_calls turn (suc n) =
      (seams.metered turn, metering amount)
      ∷ (charge_calls (seams.unchecked turn) ++ meter_calls (suc turn) n)

  -- How many unchecked charges there are in these turns.
  unfoldable pub unchecked_count : ℕ → ℕ → ℕ
  unchecked_count turn zero = 0
  unchecked_count turn (suc n) = length (seams.unchecked turn) + unchecked_count (suc turn) n

  -- The turns from this one on: where metering is on, each build that has begun has its charge, and
  -- the other charges are the unchecked ones.
  pub record Spent (turn n : ℕ) (s s' : DrainState) : Type 0 where
    pub budget_after : s'.budget ≡ perform_all s.budget (meter_calls turn n)
    pub disabled_after : metering_disabled s'.budget ≡ metering_disabled s.budget
    pub one_charge_each :
        metering_disabled s.budget ≡ false
        → length s'.budget.entries + length s.begun
          ≡ length s.budget.entries + length s'.begun + unchecked_count turn n
    pub at_most : length s'.begun ≤ length s.begun + n

  -- One turn.
  record Turned (turn : ℕ) (s s' : DrainState) : Type 0 where
    paid_after :
        s'.budget
        ≡ charge_all (meter_adhoc s.budget (seams.metered turn) amount).0 (seams.unchecked turn)
    begun_after :
        length s'.begun
        ≡ length s.begun + (if (meter_adhoc s.budget (seams.metered turn) amount).1 then 1 else 0)

  build_one-Turned :
      (turn : ℕ) (a : AdhocIssue) (s : DrainState)
      → Turned turn s (build_one seams repo amount turn a s).1
  unfolding build_one
  build_one-Turned turn a s =
      let now = seams.metered turn in
      let metered = meter_adhoc s.budget now amount in
      let paid : DrainState = record s { budget = charge_all metered.0 (seams.unchecked turn) } in
      let started : DrainState = record_best_effort seams repo now a.issue_number building paid in
      let called : DrainState = record started { begun = started.begun ++ a ∷ [] } in
      let (b, g) = record_best_effort-budget seams repo now a.issue_number building paid in
      let more : metered.1 ≡ true → Turned turn s called = λ e. record {
        paid_after = b;
        begun_after = ground (arith, e, length-append started.begun (a ∷ []), ap length g);
      } in
      elim (Bool-cases metered.1) [
        | inr e ↦ rw (e, build_one) (record { paid_after = refl; begun_after = ground (arith, e) })
        | inl e ↦ elim (Result-cases (seams.build a)) [
          | inl (u, f) ↦ rw (e, f, build_one) (more e)
          | inr (x, f) ↦ rw (e, f, build_one) (more e)
        ]
      ]

  turn-disabled :
      (turn : ℕ) (s s' : DrainState)
      → Turned turn s s'
      → metering_disabled s'.budget ≡ metering_disabled s.budget
  turn-disabled turn s s' one =
      let now = seams.metered turn in
      let l = (meter_adhoc s.budget now amount).0 in
      ap metering_disabled one.paid_after
      ∙ (charge_all-entries l (seams.unchecked turn)).0
      ∙ meter_adhoc-disabled s.budget now amount

  turn-entries :
      (turn : ℕ) (s s' : DrainState)
      → Turned turn s s'
      → metering_disabled s.budget ≡ false
      → length s'.budget.entries + length s.begun
        ≡ length s.budget.entries + length s'.begun + length (seams.unchecked turn)
  turn-entries turn s s' one on =
      let now = seams.metered turn in
      let l = (meter_adhoc s.budget now amount).0 in
      omega (
        arith,
        ap (λ l. length l.entries) one.paid_after,
        (charge_all-entries l (seams.unchecked turn)).1
            (meter_adhoc-disabled s.budget now amount ∙ on),
        meter_adhoc-entries s.budget now amount on,
        one.begun_after,
      )

  turn-at_most :
      (turn : ℕ) (s s' : DrainState) → Turned turn s s' → length s'.begun ≤ length s.begun + 1
  turn-at_most turn s s' one = ground (arith, one.begun_after)

  pub run_tasks-Spent :
      (turn : ℕ) (tasks : List AdhocIssue) (s : DrainState)
      → Spent turn (length tasks) s (run_tasks seams repo amount turn tasks s).1
  unfolding run_tasks perform_all perform meter_calls unchecked_count
  run_tasks-Spent turn [] s = record {
    budget_after = refl;
    disabled_after = refl;
    one_charge_each = λ on. omega arith;
    at_most = omega arith;
  }
  run_tasks-Spent turn (a ∷ tasks) s =
      let s1 = (build_one seams repo amount turn a s).1 in
      let one = build_one-Turned turn a s in
      let off = turn-disabled turn s s1 one in
      let rest = run_tasks-Spent (suc turn) tasks s1 in
      let calls = meter_calls (suc turn) (length tasks) in
      record {
        budget_after =
            rest.budget_after
            ∙ ap (λ l. perform_all l calls) one.paid_after
            ∙ sym (
                perform_all-charge_calls (meter_adhoc s.budget (seams.metered turn) amount).0
                  (seams.unchecked turn) calls);
        disabled_after = rest.disabled_after ∙ off;
        one_charge_each =
            λ on. omega (arith, turn-entries turn s s1 one on, rest.one_charge_each (off ∙ on));
        at_most = omega (arith, turn-at_most turn s s1 one, rest.at_most);
      }

  -- What is in order in more turns is so in fewer, which end no later and charge no more.
  pub meter_calls-InOrder :
      (turn n more start : ℕ)
      → n ≤ more
      → InOrder start (meter_calls turn more)
      → InOrder start (meter_calls turn n)
        × (last_instant start (meter_calls turn n) ≤ last_instant start (meter_calls turn more))
        × (side_charges (meter_calls turn n) ≤ side_charges (meter_calls turn more))
  unfolding meter_calls last_instant side_charges
  meter_calls-InOrder turn zero more start h o =
      (tt, start-le-last_instant start (meter_calls turn more) o, omega arith)
  meter_calls-InOrder turn (suc n) zero start h o = absurd (omega arith)
  meter_calls-InOrder turn (suc n) (suc more) start h o =
      let now = seams.metered turn in
      let charges = charge_calls (seams.unchecked turn) in
      let few = meter_calls (suc turn) n in
      let many = meter_calls (suc turn) more in
      let (f, b) = InOrder-append now charges many o.1 in
      let (b', late, side) =
        meter_calls-InOrder (suc turn) n more (last_instant now charges) (omega arith) b in
      (
        (o.0, append-InOrder now charges few f b'),
        omega (
          arith,
          late,
          last_instant-append now charges few,
          last_instant-append now charges many,
        ),
        omega (arith, side, side_charges-append charges few, side_charges-append charges many),
      )
