-- ===== src/Drain/Calls.antt =====
-- Sequences of calls of the governor of retinue/budget.py, with the unchecked charges of the builds.
use the_retinue.Base.{
  ℕ, ◌+◌, ◌≤◌, ◌≡◌, refl, ◌∙◌, false, List, [], ◌∷◌, ◌++◌, arith, nat_eq, list_eq, length,
  length-append,
}
use the_retinue.Budget.{BudgetLedger, record_charge, record_spend, metering_disabled}
use the_retinue.Budget.Cap.{
  charging, perform, perform_all, Calls, InOrder, last_instant, side_charges,
}
use the_retinue.Drain.Build.{charge_all}

-- The unchecked charges as calls of the governor.
unfoldable pub charge_calls : List (ℕ × ℕ) → Calls
charge_calls [] = []
charge_calls ((now, amount) ∷ charges) = (now, charging amount) ∷ charge_calls charges

pub perform_all-charge_calls :
    (l : BudgetLedger) (charges : List (ℕ × ℕ)) (calls : Calls)
    → perform_all l (charge_calls charges ++ calls) ≡ perform_all (charge_all l charges) calls
unfolding perform_all perform charge_calls charge_all
perform_all-charge_calls l [] calls = refl
perform_all-charge_calls l ((now, amount) ∷ charges) calls =
    perform_all-charge_calls (record_charge l now amount) charges calls

record_charge-disabled :
    (l : BudgetLedger) (now amount : ℕ)
    → metering_disabled (record_charge l now amount) ≡ metering_disabled l
unfolding record_charge record_spend metering_disabled
record_charge-disabled l now amount = ground arith

record_charge-entries :
    (l : BudgetLedger) (now amount : ℕ)
    → metering_disabled l ≡ false
    → length (record_charge l now amount).entries ≡ length l.entries + 1
unfolding record_charge record_spend
record_charge-entries l now amount on =
    ground (arith, on, length-append l.entries (record { spent_at = now; amount = amount } ∷ []))

pub charge_all-entries :
    (l : BudgetLedger) (charges : List (ℕ × ℕ))
    → (metering_disabled (charge_all l charges) ≡ metering_disabled l)
      × (metering_disabled l ≡ false
          → length (charge_all l charges).entries ≡ length l.entries + length charges)
unfolding charge_all
charge_all-entries l [] = (refl, λ on. omega arith)
charge_all-entries l ((now, amount) ∷ charges) =
    let l1 = record_charge l now amount in
    let (same, grows) = charge_all-entries l1 charges in
    let off = record_charge-disabled l now amount in
    (same ∙ off, λ on. omega (arith, grows (off ∙ on), record_charge-entries l now amount on))

pub InOrder-append :
    (start : ℕ) (front back : Calls)
    → InOrder start (front ++ back)
    → InOrder start front × InOrder (last_instant start front) back
unfolding last_instant
InOrder-append start [] back h = (tt, h)
InOrder-append start ((now, op) ∷ front) back h =
    let (f, b) = InOrder-append now front back h.1 in ((h.0, f), b)

pub append-InOrder :
    (start : ℕ) (front back : Calls)
    → InOrder start front
    → InOrder (last_instant start front) back
    → InOrder start (front ++ back)
unfolding last_instant
append-InOrder start [] back f b = b
append-InOrder start ((now, op) ∷ front) back f b = (f.0, append-InOrder now front back f.1 b)

pub last_instant-append :
    (start : ℕ) (front back : Calls)
    → last_instant start (front ++ back) ≡ last_instant (last_instant start front) back
unfolding last_instant
last_instant-append start [] back = refl
last_instant-append start ((now, op) ∷ front) back = last_instant-append now front back

pub side_charges-append :
    (front back : Calls) → side_charges (front ++ back) ≡ side_charges front + side_charges back
unfolding side_charges
side_charges-append [] back = omega arith
side_charges-append ((now, op) ∷ front) back = omega (arith, side_charges-append front back)

pub start-le-last_instant :
    (start : ℕ) (calls : Calls) → InOrder start calls → start ≤ last_instant start calls
unfolding last_instant
start-le-last_instant start [] h = omega arith
start-le-last_instant start ((now, op) ∷ calls) h =
    omega (arith, h.0, start-le-last_instant now calls h.1)
