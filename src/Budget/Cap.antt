-- ===== src/Budget/Cap.antt =====
-- The rolling-24h cap of retinue/budget.py over runs of the governor's operations.
use the_retinue.Base.{
  ℕ, ◌+◌, ◌≤◌, ◌≡◌, false, not, ◌&&◌, ◌||◌, none, List, [], ◌∷◌, ◌++◌, arith, if◌then◌else◌, nat_eq,
  list_eq, length, filter, length-append,
}
use the_retinue.Budget.{
  Charge, BudgetLedger, in_window, total, cap, trailing_24h_spend, would_exceed, window_frees_at,
  gate, record_charge, meter_adhoc, record_spend, try_record_if_within_cap, metering_disabled,
}

-- One call of the governor, with its amount.
pub data Operation : Type 0 where
  gating metering charging : ℕ → Operation

unfoldable pub perform : BudgetLedger → ℕ → Operation → BudgetLedger
perform l now (gating amount) = (gate l now now amount).0
perform l now (metering amount) = (meter_adhoc l now amount).0
perform l now (charging amount) = record_charge l now amount

-- Calls in their order, each with its instant.
abbrev pub Calls : Type 0
Calls = List (ℕ × Operation)

unfoldable pub perform_all : BudgetLedger → Calls → BudgetLedger
perform_all l [] = l
perform_all l ((now, op) ∷ calls) = perform_all (perform l now op) calls

-- The clock never goes back.
abbrev pub InOrder : ℕ → Calls → Type 0
InOrder now [] = Unit
InOrder now ((t, op) ∷ calls) = (now ≤ t) × InOrder t calls

unfoldable pub last_instant : ℕ → Calls → ℕ
last_instant now [] = now
last_instant now ((t, op) ∷ calls) = last_instant t calls

-- What is charged with no check.
abbrev side_charge : Operation → ℕ
side_charge (charging amount) = amount
side_charge _ = 0

unfoldable pub side_charges : Calls → ℕ
side_charges [] = 0
side_charges ((t, op) ∷ calls) = side_charge op + side_charges calls

total-filter_mono :
    (t u : ℕ) (cs : List Charge)
    → t ≤ u
    → total (filter (in_window u) cs) ≤ total (filter (in_window t) cs)
unfolding total filter in_window
total-filter_mono t u [] h = omega arith
total-filter_mono t u (c ∷ cs) h = ground (arith, total-filter_mono t u cs)

-- As time passes with no call, the spend in the window only falls.
pub trailing_mono :
    (l : BudgetLedger) (t u : ℕ) → t ≤ u → trailing_24h_spend l u ≤ trailing_24h_spend l t
unfolding trailing_24h_spend
trailing_mono l t u h = total-filter_mono t u l.entries h

total-filter-append :
    (t : ℕ) (cs : List Charge) (c : Charge)
    → total (filter (in_window t) (cs ++ c ∷ []))
      ≡ total (filter (in_window t) cs) + (if in_window t c then c.amount else 0)
unfolding total filter
total-filter-append t [] c = ground arith
total-filter-append t (d ∷ cs) c = ground (arith, total-filter-append t cs c)

trailing-record_spend :
    (l : BudgetLedger) (now amount : ℕ)
    → trailing_24h_spend (record_spend l now amount) now ≡ trailing_24h_spend l now + amount
unfolding trailing_24h_spend record_spend in_window
trailing-record_spend l now amount =
    ground (arith, total-filter-append now l.entries (record { spent_at = now; amount = amount }))

cap-perform : (l : BudgetLedger) (now : ℕ) (op : Operation) → cap (perform l now op) ≡ cap l
unfolding perform gate meter_adhoc record_charge try_record_if_within_cap record_spend
cap-perform l now (gating amount) = ground arith
cap-perform l now (metering amount) = ground arith
cap-perform l now (charging amount) = ground arith

perform_bound :
    (l : BudgetLedger) (now extra : ℕ) (op : Operation)
    → trailing_24h_spend l now ≤ cap l + extra
    → trailing_24h_spend (perform l now op) now ≤ cap l + (extra + side_charge op)
unfolding perform gate meter_adhoc record_charge
perform_bound l now extra (gating amount) h = ground (arith, trailing-record_spend l now amount)
perform_bound l now extra (metering amount) h = ground (arith, trailing-record_spend l now amount)
perform_bound l now extra (charging amount) h = ground (arith, trailing-record_spend l now amount)

-- Where the spend at the start is over the cap by at most `extra` and the clock never goes back,
-- then however the lanes' calls follow one another, at any time after the last of them the spend of the
-- trailing 24 hours is over the cap by at most `extra` and what the unchecked charges added: no
-- call that checks overshoots.
pub perform_all-trailing-le :
    (l : BudgetLedger) (start extra : ℕ) (calls : Calls)
    → trailing_24h_spend l start ≤ cap l + extra
    → InOrder start calls
    → (t : ℕ) → last_instant start calls ≤ t
    → trailing_24h_spend (perform_all l calls) t ≤ cap l + (extra + side_charges calls)
unfolding perform_all last_instant side_charges
perform_all-trailing-le l start extra [] h o t late = omega (arith, trailing_mono l start t late)
perform_all-trailing-le l start extra ((now, op) ∷ calls) h o t late =
    let later = trailing_mono l start now o.0 in
    let bound = perform_bound l now extra op (omega arith) in
    omega (
      arith,
      perform_all-trailing-le (perform l now op) now (extra + side_charge op) calls
          (omega (arith, cap-perform l now op)) o.1 t late,
      cap-perform l now op,
    )

-- The gate and the ad-hoc meter admit alike and leave the same ledger. An admission that is
-- metered records the charge, and a refusal records nothing. The gate defers exactly when
-- metering is on and the charge would exceed the cap, and then says when the window frees, as it
-- finds it at a later instant.
pub gate-meter_adhoc :
    (l : BudgetLedger) (now later amount : ℕ)
    → ((gate l now later amount).0 ≡ (meter_adhoc l now amount).0)
      × ((meter_adhoc l now amount).1 ≡ not (gate l now later amount).1.deferred)
      × ((gate l now later amount).1.deferred
          ≡ (not (metering_disabled l) && would_exceed l now amount))
      × ((gate l now later amount).0 ≡ (
          if metering_disabled l || would_exceed l now amount
          then l
          else record_spend l now amount))
      × ((gate l now later amount).1.defer_until
          ≡ (if (gate l now later amount).1.deferred then window_frees_at l later amount else none))
unfolding gate meter_adhoc would_exceed
gate-meter_adhoc l now later amount =
    (ground arith, ground arith, ground arith, ground arith, ground arith)

-- A metered call records its charge where it admits one and metering is on.
pub meter_adhoc-entries :
    (l : BudgetLedger) (now amount : ℕ)
    → metering_disabled l ≡ false
    → length (meter_adhoc l now amount).0.entries
      ≡ length l.entries + (if (meter_adhoc l now amount).1 then 1 else 0)
unfolding meter_adhoc try_record_if_within_cap record_spend
meter_adhoc-entries l now amount h =
    ground (arith, length-append l.entries (record { spent_at = now; amount = amount } ∷ []))

pub meter_adhoc-disabled :
    (l : BudgetLedger) (now amount : ℕ)
    → metering_disabled (meter_adhoc l now amount).0 ≡ metering_disabled l
unfolding meter_adhoc try_record_if_within_cap record_spend metering_disabled
meter_adhoc-disabled l now amount = ground arith
