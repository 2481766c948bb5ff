-- ===== src/Cron.antt =====
-- retinue/cron.py: one tick of the backlog lane. Instants are microseconds. The score is in units of
-- a microsecond of age, exact where Python's floats round.
pub mod Pick
pub mod Quota
pub mod Tick
use the_retinue.Base.{
  ℕ, zero, suc, ◌+◌, ◌-◌, ◌*◌, ◌/◌, ◌%◌, ◌≤◌, ◌<◌, min, max, ◌≡◌, refl, sym, ap, ◌∙◌, ◌≢◌, ◌↔◌, ◌⊎◌,
  inl, inr, Bool, true, false, not, ◌&&◌, ◌||◌, Option, none, some, List, [], ◌∷◌, ◌++◌, map, arith,
  ltb, leb, nat_beq, if◌then◌else◌, leb→le, nat_beq_iff, Bool-cases, Option-cases, Eq, ◌==◌, nat_eq,
  contains, eq_refl, list_beq, list_beq_iff, list_eq, dedup_onto, dedup, length, take, drop,
  take-append-drop, All-append_left, All-append_right, filter, count, length-append, length-take,
  length-filter, count-append, count-le-length, take_all, All, All-filter, List-cases, All-append,
  All-take, All-imp, Text, text, strip_prefix, strip_prefix-append, strip_prefix-some, is_space,
  skip_spaces, Unicode, digits_onto, read_number, HasAsciiDigits, read_number-show_onto,
  skip_spaces-show_onto, IsDigit, show-All, show_onto, split_words, show, read_onto, read_onto-show,
  show-injective, insert_by, sort_by, sort_by-perm, IsSortedBy, sort_by-All, sort_by-IsSortedBy,
  Dict, keys, lookup, insert, lookup-insert, NodupKeys, insert-NodupKeys, Exn, gh_cli_error,
  value_error, key_error, drain_busy, cron_busy, other_error, Result, ok, err, ◌>>=◌, >>=-eq-ok,
  ok-injective, Result-cases, get_item, get_item-eq-ok, lookup-nil, length-Permᴰ,
}
use the_retinue.Exec.{Exec}
use the_retinue.Vocab.{Severity, low, medium, severity_value, parse_priority}
use the_retinue.Budget.{BudgetLedger, GateDecision, gate}

pub record BacklogIssue : Type 0 where
  pub number : ℕ
  pub labels : List Text
  pub created_at : ℕ

-- `BacklogIssue.severity`: `_DEFAULT_SEVERITY` with no severity label.
unfoldable pub severity : BacklogIssue → Severity
unfolding parse_priority
severity issue = elim (parse_priority issue.labels) [ none ↦ low | some s ↦ s ]

-- `severity < _LOW_PRIORITY_CEILING`
unfoldable pub is_low_priority : BacklogIssue → Bool
unfolding severity
is_low_priority issue = ltb (severity_value (severity issue)) (severity_value medium)

-- `_DEFAULT_LIST_LIMIT`
abbrev pub default_list_limit : ℕ
default_list_limit = 200

-- The age that one severity step outweighs: `_PRIORITY_WEIGHT` days.
abbrev pub step_weight : ℕ
step_weight = 10000 * 86400000000

unfoldable pub weighted_score : ℕ → BacklogIssue → ℕ
unfolding severity
weighted_score now issue = severity_value (severity issue) * step_weight + (now - issue.created_at)

-- `max(issues, key=…)` and `min(issues, key=…)`, of a first issue and the rest: the first of equals.
unfoldable pub max_by : (BacklogIssue → ℕ) → BacklogIssue → List BacklogIssue → BacklogIssue
max_by key best [] = best
max_by key best (issue ∷ issues) =
    max_by key (if ltb (key best) (key issue) then issue else best) issues

unfoldable pub min_by : (BacklogIssue → ℕ) → BacklogIssue → List BacklogIssue → BacklogIssue
min_by key best [] = best
min_by key best (issue ∷ issues) =
    min_by key (if ltb (key issue) (key best) then issue else best) issues

unfoldable pub oldest_low_priority : List BacklogIssue → Option BacklogIssue
unfolding filter is_low_priority min_by
oldest_low_priority issues = elim (filter is_low_priority issues) [
  | [] ↦ none
  | issue ∷ rest ↦ some (min_by (λ i. i.created_at) issue rest)
]

-- `tick_number % quota_every == 0`, of positive numbers.
unfoldable pub is_quota_tick : ℕ → ℕ → Bool
is_quota_tick quota_every tick_number =
    ltb 0 quota_every && (ltb 0 tick_number && nat_beq (tick_number % quota_every) 0)

-- `_pick_issue`, of a backlog that is not empty.
unfoldable pub pick_issue : ℕ → ℕ → ℕ → BacklogIssue → List BacklogIssue → BacklogIssue
unfolding is_quota_tick oldest_low_priority max_by weighted_score
pick_issue now tick_number quota_every issue rest =
    let by_score = max_by (weighted_score now) issue rest in
    if is_quota_tick quota_every tick_number
    then elim (oldest_low_priority (issue ∷ rest)) [ none ↦ by_score | some floor ↦ floor ]
    else by_score

pub data CronTickResult : Type 0 where
  ran : ℕ → CronTickResult
  deferred : Option ℕ → CronTickResult
  idle : CronTickResult

-- What the gh calls answer, and the instants of the gate, of a deferral and of the pick.
pub record CronSeams : Type 0 where
  pub list_backlog : Result (List BacklogIssue)
  pub promote : ℕ → Result (Unit {0})
  pub gated_at : ℕ
  pub deferred_at : ℕ
  pub picked_at : ℕ

-- The lock, the shared budget, and the issues whose promotion was called.
pub record CronState : Type 0 where
  pub held : Bool
  pub budget : BudgetLedger
  pub promoted : List ℕ

module _ (seams : CronSeams) (tick_number estimated_amount quota_every : ℕ) where
  -- The body behind the gate.
  unfoldable pub drain_one : BacklogIssue → List BacklogIssue → Exec CronState CronTickResult
  unfolding pick_issue
  drain_one issue rest s =
      let picked = pick_issue seams.picked_at tick_number quota_every issue rest in
      let called = record s { promoted = s.promoted ++ picked.number ∷ [] } in
      elim (seams.promote picked.number) [
        | err e ↦ (err e, called)
        | ok _ ↦ (ok (ran picked.number), called)
      ]

  unfoldable pub tick_listed : List BacklogIssue → Exec CronState CronTickResult
  unfolding drain_one
  tick_listed [] s = (ok idle, s)
  tick_listed (issue ∷ rest) s =
      let (budget, decision) = gate s.budget seams.gated_at seams.deferred_at estimated_amount in
      let gated = record s { budget = budget } in
      if decision.deferred
      then (ok (deferred decision.defer_until), gated)
      else drain_one issue rest gated

  unfoldable pub tick_body : Exec CronState CronTickResult
  unfolding tick_listed
  tick_body s = elim seams.list_backlog [ err e ↦ (err e, s) | ok issues ↦ tick_listed issues s ]

  -- `run_cron_tick`: the body under the lock.
  unfoldable pub run_cron_tick : Exec CronState CronTickResult
  unfolding tick_body
  run_cron_tick s =
      let (result, s') = tick_body (record s { held = true }) in
      if s.held then (err cron_busy, s) else (result, record s' { held = false })
