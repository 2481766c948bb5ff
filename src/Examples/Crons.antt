-- ===== src/Examples/Crons.antt =====
-- The backlog lane (retinue/cron.py) at concrete inputs.
use the_retinue.Base.{
  ◌*◌, arith, ℕ, ◌+◌, ◌-◌, ◌≤◌, ◌<◌, ◌≡◌, ◌↔◌, ◌⊎◌, true, false, List, [], ◌∷◌, if◌then◌else◌,
  nat_eq, list_eq, filter, count, text, cron_busy, ok, err,
}
use the_retinue.Examples.Budgets.{ledger}
use the_retinue.Vocab.{severity_value}
use the_retinue.Cron.{
  BacklogIssue, severity, is_low_priority, weighted_score, is_quota_tick, pick_issue, CronSeams,
  CronState, run_cron_tick,
}
use the_retinue.Cron.Pick.{IsSmallest, IsLargest, pick_issue_lem, weighted_score-severity}
use the_retinue.Cron.Quota.{ticks, quota_ticks, ticks_low}
use the_retinue.Cron.Tick.{outcome, run_cron_tick_lem}

abbrev old_low : BacklogIssue
old_low = record { number = 1; labels = text "priority:low" ∷ []; created_at = 100 }

abbrev new_high : BacklogIssue
new_high = record { number = 2; labels = text "priority:high" ∷ []; created_at = 900 }

abbrev unlabelled : BacklogIssue
unlabelled = record { number = 3; labels = []; created_at = 500 }

pick_issue_lem_example :
    ((is_quota_tick 5 10 ≡ true)
      × IsSmallest
          (λ i. i.created_at)
          (filter is_low_priority (new_high ∷ unlabelled ∷ old_low ∷ []))
          (pick_issue 1000 10 5 new_high (unlabelled ∷ old_low ∷ [])))
    ⊎ (((is_quota_tick 5 10 ≡ false)
          ⊎ (filter is_low_priority (new_high ∷ unlabelled ∷ old_low ∷ []) ≡ []))
        × IsLargest
            (weighted_score 1000)
            (new_high ∷ unlabelled ∷ old_low ∷ [])
            (pick_issue 1000 10 5 new_high (unlabelled ∷ old_low ∷ [])))
pick_issue_lem_example = pick_issue_lem 1000 10 5 new_high (unlabelled ∷ old_low ∷ [])

weighted_score-severity_example :
    (weighted_score 1000 old_low ≤ weighted_score 1000 new_high
      → 1000 - new_high.created_at < 10000 * 86400000000 + (1000 - old_low.created_at)
      → severity_value (severity old_low) ≤ severity_value (severity new_high))
    × (severity new_high ≡ severity old_low
        → (weighted_score 1000 old_low ≤ weighted_score 1000 new_high)
          ↔ (1000 - old_low.created_at ≤ 1000 - new_high.created_at))
weighted_score-severity_example = weighted_score-severity 1000 new_high old_low

abbrev schedule : List (ℕ × ℕ)
schedule = (1000, 4) ∷ (2000, 5) ∷ (3000, 6) ∷ (4000, 10) ∷ []

ticks_low_example :
    count is_low_priority (ticks 5 schedule (new_high ∷ unlabelled ∷ old_low ∷ []))
    ≤ count is_low_priority (new_high ∷ unlabelled ∷ old_low ∷ []) - quota_ticks 5 schedule
ticks_low_example = ticks_low 5 schedule (new_high ∷ unlabelled ∷ old_low ∷ []) (omega arith)

abbrev cron_seams : CronSeams
cron_seams = record {
  list_backlog = ok (new_high ∷ old_low ∷ []);
  promote = λ n. ok tt;
  gated_at = 2000;
  deferred_at = 2001;
  picked_at = 2001;
}

abbrev cron_before : CronState
cron_before = record { held = false; budget = ledger; promoted = [] }

run_cron_tick_lem_example : run_cron_tick cron_seams 3 500000 5 cron_before ≡ (
    if cron_before.held then (err cron_busy, cron_before) else elim cron_seams.list_backlog [
      | err e ↦ (err e, record cron_before { held = false })
      | ok issues ↦ outcome cron_seams 3 500000 5 issues cron_before
    ])
run_cron_tick_lem_example = run_cron_tick_lem cron_seams 3 500000 5 cron_before
