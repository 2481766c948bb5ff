-- ===== src/Examples/Drains.antt =====
-- A pass of the drain (retinue/adhoc_drain.py) at a concrete input.
use the_retinue.Base.{
  ℕ, ◌+◌, ◌≤◌, ◌≡◌, refl, true, false, some, List, [], ◌∷◌, map, arith, if◌then◌else◌, ◌==◌, nat_eq,
  list_eq, length, Text, text, show, other_error, ok, err,
}
use mathlib.Core.List.{Permᴰ}
use the_retinue.Examples.Labels.{ascii}
use the_retinue.Examples.Budgets.{ledger}
use the_retinue.AdhocIssue.{AdhocIssue}
use the_retinue.Budget.{cap, trailing_24h_spend, metering_disabled, total}
use the_retinue.RepoConfig.{RepoConfig, default_config}
use the_retinue.Readiness.Resolve.{answering}
use the_retinue.Drain.Types.{ReadyIssue, with_snapshot, Seams, DrainState}
use the_retinue.Drain.Pass.{run_adhoc_drain}
use the_retinue.Drain.Effects.{Effects}
use the_retinue.Drain.Justified.{run_adhoc_drain_lem}
use the_retinue.Budget.Cap.{last_instant, side_charges}
use the_retinue.Drain.Calls.{charge_calls}
use the_retinue.Drain.Spending.{meter_calls, unchecked_count}
use the_retinue.Drain.Capped.{run_adhoc_drain-slots, run_adhoc_drain-trailing}

abbrev repo : Text
repo = text "o/r"

abbrev config : RepoConfig
config = record default_config { max_parallel = some 3 }

abbrev labelled : ℕ → ReadyIssue
labelled n = record { number = n; labels = text "ready-for-agent" ∷ []; body = [] }

-- Issue 1 has a branch and no pull request, 2 has both, 3 is blocked, and 4 to 6 have no branch.
-- The build of 5 raises.
abbrev seams : Seams
seams = record {
  list_ready = λ label. ok (map labelled (1 ∷ 2 ∷ 3 ∷ 4 ∷ 5 ∷ 6 ∷ []));
  flight = with_snapshot (
      ok (record {
        open_pr_heads = text "issue-2" ∷ [];
        issue_branches = text "issue-1" ∷ text "issue-2" ∷ [];
      }));
  readiness = answering (λ n. if n == 3 then 2 ∷ [] else []) (λ n. false);
  open_pr = λ issue. ok tt;
  build = λ issue. if issue.issue_number == 5 then err other_error else ok tt;
  ledger_writes = λ issue state. true;
  started = 2000;
  metered = λ turn. 3000;
  unchecked = λ turn. (3000, 10000) ∷ [];
}

abbrev before : DrainState
before = record { held = false; budget = ledger; runs = []; opened = []; begun = [] }

-- The second task meets the meter before the first.
abbrev arrange : List AdhocIssue → List AdhocIssue
arrange [] = []
arrange (a ∷ []) = a ∷ []
arrange (a ∷ b ∷ rest) = b ∷ a ∷ rest

arrange-Permᴰ : (tasks : List AdhocIssue) → Permᴰ (arrange tasks) tasks
arrange-Permᴰ [] = Permᴰ.nil
arrange-Permᴰ (a ∷ []) = Permᴰ.cons refl Permᴰ.nil
arrange-Permᴰ (a ∷ b ∷ rest) = Permᴰ.swap refl refl

run_adhoc_drain_lem_example :
    Effects ascii seams repo config before
      (run_adhoc_drain ascii seams arrange repo config 400000 before).1
run_adhoc_drain_lem_example =
    run_adhoc_drain_lem ascii seams repo config arrange 400000 arrange-Permᴰ before refl

run_adhoc_drain-slots_example :
    (length (run_adhoc_drain ascii seams arrange repo config 400000 before).1.begun
      ≤ length before.begun + 3)
    × (n : ℕ) × (n ≤ 3)
    × (metering_disabled before.budget ≡ false
        → length (run_adhoc_drain ascii seams arrange repo config 400000 before).1.budget.entries
            + length before.begun
          ≡ length before.budget.entries
            + length (run_adhoc_drain ascii seams arrange repo config 400000 before).1.begun
            + unchecked_count seams repo 400000 0 n)
run_adhoc_drain-slots_example =
    run_adhoc_drain-slots ascii seams arrange repo config 400000 3 arrange-Permᴰ refl before refl

run_adhoc_drain-trailing_example :
    trailing_24h_spend (run_adhoc_drain ascii seams arrange repo config 400000 before).1.budget 4000
    ≤ cap before.budget + side_charges (meter_calls seams repo 400000 0 3)
unfolding trailing_24h_spend cap meter_calls charge_calls last_instant
run_adhoc_drain-trailing_example =
    run_adhoc_drain-trailing ascii seams arrange repo config 400000 3 arrange-Permᴰ refl before 2000
      4000 refl (omega arith)
      (omega arith, (omega arith, (omega arith, (omega arith, (omega arith, (omega arith, tt))))))
      (omega arith)

-- In this pass 1 is opened, and 4 and 5 are begun, 5 first.
run_once :
    map
      (λ a. a.issue_number)
      (run_adhoc_drain ascii seams arrange repo config 400000 before).1.begun
    ≡ 5 ∷ 4 ∷ []
unfolding run_adhoc_drain the_retinue.Readiness.resolve_ready show the_retinue.Scheduler.key_le
    the_retinue.RepoConfig.tier_rank the_retinue.RepoConfig.tier_of
    the_retinue.Scheduler.is_priority the_retinue.RepoConfig.is_priority_tier
    the_retinue.Budget.meter_adhoc the_retinue.Budget.record_charge
run_once = refl
