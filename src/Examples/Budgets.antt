-- ===== src/Examples/Budgets.antt =====
-- The rolling-24h budget (retinue/budget.py) at concrete inputs.
use the_retinue.Base.{
  ◌+◌, ◌≤◌, ◌≡◌, not, ◌&&◌, ◌||◌, none, [], ◌∷◌, arith, if◌then◌else◌, nat_eq, list_eq,
}
use the_retinue.Budget.{
  subscription, BudgetLedger, cap, trailing_24h_spend, metering_disabled, record_spend,
  would_exceed, window_frees_at, gate, meter_adhoc,
}
use the_retinue.Budget.Cap.{
  Calls, gating, metering, charging, perform_all, last_instant, side_charges,
  perform_all-trailing-le, gate-meter_adhoc,
}

-- A cap of 2, of which 1 is spent.
abbrev pub ledger : BudgetLedger
ledger = record {
  auth_mode = subscription;
  weekly_budget = 10000000;
  daily_cap_fraction = 200000;
  entries = record { spent_at = 1000; amount = 1000000 } ∷ [];
}

abbrev calls : Calls
calls = (2000, gating 1000000) ∷ (2500, charging 10000) ∷ (2600, metering 1000000) ∷ []

perform_all-trailing-le_example :
    trailing_24h_spend (perform_all ledger calls) 3000 ≤ cap ledger + (0 + side_charges calls)
unfolding trailing_24h_spend cap last_instant
perform_all-trailing-le_example =
    perform_all-trailing-le ledger 1500 0 calls (omega arith)
      (omega arith, (omega arith, (omega arith, tt))) 3000 (omega arith)

gate-meter_adhoc_example :
    ((gate ledger 2000 2001 1500000).0 ≡ (meter_adhoc ledger 2000 1500000).0)
    × ((meter_adhoc ledger 2000 1500000).1 ≡ not (gate ledger 2000 2001 1500000).1.deferred)
    × ((gate ledger 2000 2001 1500000).1.deferred
        ≡ (not (metering_disabled ledger) && would_exceed ledger 2000 1500000))
    × ((gate ledger 2000 2001 1500000).0 ≡ (
        if metering_disabled ledger || would_exceed ledger 2000 1500000
        then ledger
        else record_spend ledger 2000 1500000))
    × ((gate ledger 2000 2001 1500000).1.defer_until ≡ (
        if (gate ledger 2000 2001 1500000).1.deferred
        then window_frees_at ledger 2001 1500000
        else none))
gate-meter_adhoc_example = gate-meter_adhoc ledger 2000 2001 1500000
