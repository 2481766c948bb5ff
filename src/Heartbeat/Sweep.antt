-- ===== src/Heartbeat/Sweep.antt =====
-- What a sweep of retinue/heartbeat.py calls, and what its result lists.
use the_retinue.Base.{
  ℕ, ◌≡◌, refl, sym, ◌∙◌, inl, inr, Bool, List, [], ◌∷◌, ◌++◌, map, Bool-cases, nat_eq, list_eq,
  filter, Text, Unicode, ok, snoc_append,
}
use mathlib.Core.List.{append-nil}
use the_retinue.Heartbeat.{
  Instant, DueRepo, HeartbeatResult, SweepCall, drained, ticked, HeartbeatSeams, cron_due,
  safe_drain, safe_cron_tick, sweep, run_heartbeat,
}

-- The repositories of the calls, in the order of the calls: the lanes that were ticked, and the drains.
abbrev pub lanes : List SweepCall → List Text
lanes [] = []
lanes (ticked repo k ∷ log) = lanes log ++ repo ∷ []
lanes (drained repo ∷ log) = lanes log

abbrev pub drains : List SweepCall → List Text
drains [] = []
drains (drained repo ∷ log) = drains log ++ repo ∷ []
drains (ticked repo k ∷ log) = drains log

abbrev pub names : List DueRepo → List Text
names = map (λ repo. repo.repo_full_name)

module _ (tables : Unicode) (seams : HeartbeatSeams) (now : Instant) (tick_number : ℕ) where
  abbrev pub due : DueRepo → Bool
  due repo = cron_due tables repo.config.cron now

  sweep-lanes :
      (repos : List DueRepo) (log : List SweepCall)
      → lanes (sweep tables seams now tick_number repos log).1 ≡ lanes log ++ names repos
  unfolding sweep safe_drain safe_cron_tick
  sweep-lanes [] log = sym (append-nil (lanes log))
  sweep-lanes (repo ∷ repos) log = elim (Bool-cases (cron_due tables repo.config.cron now)) [
    | inl is_due ↦ rw (is_due) (
        sweep-lanes repos
          (ticked repo.repo_full_name tick_number ∷ drained repo.repo_full_name ∷ log)
        ∙ snoc_append (lanes log) repo.repo_full_name (names repos))
    | inr not_due ↦ rw (not_due) (
        sweep-lanes repos (ticked repo.repo_full_name tick_number ∷ log)
        ∙ snoc_append (lanes log) repo.repo_full_name (names repos))
  ]

  sweep-drains :
      (repos : List DueRepo) (log : List SweepCall)
      → drains (sweep tables seams now tick_number repos log).1
        ≡ drains log ++ names (filter due repos)
  unfolding sweep safe_drain safe_cron_tick filter
  sweep-drains [] log = sym (append-nil (drains log))
  sweep-drains (repo ∷ repos) log = elim (Bool-cases (cron_due tables repo.config.cron now)) [
    | inl is_due ↦ rw (is_due) (
        sweep-drains repos
          (ticked repo.repo_full_name tick_number ∷ drained repo.repo_full_name ∷ log)
        ∙ snoc_append (drains log) repo.repo_full_name (names (filter due repos)))
    | inr not_due ↦ rw (not_due) (sweep-drains repos (ticked repo.repo_full_name tick_number ∷ log))
  ]

  -- If the listing of the repositories returns, so does the heartbeat, whatever the drains and the
  -- ticks raise: it ticks the lane of every listed repository once and drains exactly those whose
  -- cadence is due, both in the order of the listing.
  pub run_heartbeat-sweeps :
      (repos : List DueRepo) (log : List SweepCall)
      → seams.enumerate_repos ≡ ok repos
      → (result : HeartbeatResult) × ((run_heartbeat tables seams now tick_number log).0
          ≡ ok result)
        × (lanes (run_heartbeat tables seams now tick_number log).1 ≡ lanes log ++ names repos)
        × (drains (run_heartbeat tables seams now tick_number log).1
            ≡ drains log ++ names (filter due repos))
  unfolding run_heartbeat
  run_heartbeat-sweeps repos log listed =
      let swept = sweep tables seams now tick_number repos log in
      rw (listed) (swept.0, refl, sweep-lanes repos log, sweep-drains repos log)
