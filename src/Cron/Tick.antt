-- ===== src/Cron/Tick.antt =====
-- The outcomes of a tick of retinue/cron.py.
use the_retinue.Base.{
  ℕ, ◌≡◌, refl, ap, ◌∙◌, inl, inr, Bool, true, false, not, ◌&&◌, List, [], ◌∷◌, ◌++◌, arith,
  if◌then◌else◌, Bool-cases, nat_eq, list_eq, cron_busy, Result, ok, err, Result-cases,
}
use the_retinue.Budget.{
  BudgetLedger, gate, would_exceed, metering_disabled, record_spend, window_frees_at,
}
use the_retinue.Budget.Cap.{gate-meter_adhoc}
use the_retinue.Cron.{
  BacklogIssue, CronTickResult, ran, deferred, idle, CronSeams, CronState, pick_issue, drain_one,
  tick_listed, tick_body, run_cron_tick,
}

module _ (seams : CronSeams) (tick_number estimated_amount quota_every : ℕ) where
  abbrev refused : CronState → Bool
  refused s =
      not (metering_disabled s.budget) && would_exceed s.budget seams.gated_at estimated_amount

  -- The budget after an admitted estimate.
  abbrev paid : CronState → BudgetLedger
  paid s =
      if metering_disabled s.budget
      then s.budget
      else record_spend s.budget seams.gated_at estimated_amount

  abbrev answer : ℕ → Result (Unit {0}) → Result CronTickResult
  answer n (err e) = err e
  answer n (ok _) = ok (ran n)

  -- What a tick returns and leaves, given the backlog.
  pub outcome : List BacklogIssue → CronState → Result CronTickResult × CronState
  outcome [] s = (ok idle, record s { held = false })
  outcome (issue ∷ rest) s =
      let picked = pick_issue seams.picked_at tick_number quota_every issue rest in
      if refused s
      then (
        ok (deferred (window_frees_at s.budget seams.deferred_at estimated_amount)),
        record s { held = false },
      )
      else (
        answer picked.number (seams.promote picked.number),
        record s { held = false; budget = paid s; promoted = s.promoted ++ picked.number ∷ [] },
      )

  -- The body, with the lock freed behind it.
  abbrev freed : Result CronTickResult × CronState → Result CronTickResult × CronState
  freed (r, s) = (r, record s { held = false })

  drain_one_lem :
      (issue : BacklogIssue) (rest : List BacklogIssue) (s : CronState)
      → freed (drain_one seams tick_number estimated_amount quota_every issue rest s) ≡ (
        answer
            (pick_issue seams.picked_at tick_number quota_every issue rest).number
            (seams.promote (pick_issue seams.picked_at tick_number quota_every issue rest).number),
        record s {
          held = false;
          promoted =
              s.promoted
              ++ (pick_issue seams.picked_at tick_number quota_every issue rest).number ∷ [];
        },
      )
  unfolding drain_one
  drain_one_lem issue rest s =
      elim (Result-cases
        (seams.promote (pick_issue seams.picked_at tick_number quota_every issue rest).number)) [
          | inl (u, e) ↦ rw (e, drain_one) refl
          | inr (x, e) ↦ rw (e, drain_one) refl
        ]

  tick_listed_lem :
      (issues : List BacklogIssue) (s : CronState)
      → freed (
          tick_listed seams tick_number estimated_amount quota_every issues
            (record s { held = true }))
        ≡ outcome issues s
  unfolding tick_listed outcome
  tick_listed_lem [] s = refl
  tick_listed_lem (issue ∷ rest) s =
      let g = gate s.budget seams.gated_at seams.deferred_at estimated_amount in
      let (_, _, is_deferred, budget_is, until) =
        gate-meter_adhoc s.budget seams.gated_at seams.deferred_at estimated_amount in
      elim (Bool-cases (refused s)) [
        | inl over ↦
            let d : g.1.deferred ≡ true = is_deferred ∙ over in
            let b : g.0 ≡ s.budget = ground (arith, over, budget_is) in
            let u : g.1.defer_until ≡ window_frees_at s.budget seams.deferred_at estimated_amount =
              ground (arith, until, d) in
            rw (d, over, b, u) refl
        | inr fits ↦
            let d : g.1.deferred ≡ false = is_deferred ∙ fits in
            let b : g.0 ≡ paid s = ground (arith, fits, budget_is) in
            rw (d, fits)
              (drain_one_lem issue rest (record s { held = true; budget = g.0 })
                ∙ ap
                    (λ l. (
                      answer (pick_issue seams.picked_at tick_number quota_every issue rest).number
                          (seams.promote
                            (pick_issue seams.picked_at tick_number quota_every issue rest).number),
                      record s {
                        held = false;
                        budget = l;
                        promoted =
                            s.promoted
                            ++ (pick_issue seams.picked_at tick_number quota_every issue
                                rest).number
                              ∷ [];
                      },
                    ))
                    b)
      ]

  -- A tick that meets a held lock raises and changes nothing. Any other leaves the lock free. If the
  -- listing raises, it raises that and changes nothing. An empty backlog is idle, and a refused
  -- charge defers with the instant at which the window frees; neither spends or promotes anything.
  -- An admitted tick spends the estimate once, where metering is on, and promotes one issue, the
  -- picked one; it returns its number, or raises what the promotion raises.
  pub run_cron_tick_lem :
      (s : CronState)
      → run_cron_tick seams tick_number estimated_amount quota_every s ≡ (
          if s.held then (err cron_busy, s) else elim seams.list_backlog [
            | err e ↦ (err e, record s { held = false })
            | ok issues ↦ outcome issues s
          ])
  unfolding run_cron_tick tick_body
  run_cron_tick_lem s = elim (Bool-cases s.held) [
    | inl busy ↦ rw (busy, run_cron_tick) refl
    | inr free ↦ elim (Result-cases seams.list_backlog) [
      | inl (issues, e) ↦ rw (free, e, run_cron_tick, tick_body) (tick_listed_lem issues s)
      | inr (x, e) ↦ rw (free, e, run_cron_tick, tick_body) refl
    ]
  ]
