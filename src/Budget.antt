-- ===== src/Budget.antt =====
-- retinue/budget.py: the rolling-24h spend ledger and the governor over it.
-- Amounts are whole numbers of a millionth of the ledger's unit, and the daily fraction is a whole
-- number of millionths. An instant is its microseconds since an epoch; the ISO texts that the
-- table holds compare as their instants do. SQLite's table is the list of its rows in the order of insertion.
pub mod Cap
use the_retinue.Base.{
  ℕ, zero, suc, ◌+◌, ◌-◌, ◌*◌, ◌/◌, ◌%◌, ◌≤◌, ◌<◌, min, max, ◌≡◌, refl, sym, ap, ◌∙◌, ◌≢◌, ◌↔◌, ◌⊎◌,
  inl, inr, Bool, true, false, not, ◌&&◌, ◌||◌, Option, none, some, List, [], ◌∷◌, ◌++◌, map, arith,
  ltb, leb, nat_beq, if◌then◌else◌, leb→le, nat_beq_iff, Bool-cases, Option-cases, Eq, ◌==◌, nat_eq,
  contains, eq_refl, list_beq, list_beq_iff, list_eq, dedup_onto, dedup, length, take, drop,
  take-append-drop, All-append_left, All-append_right, filter, count, length-append, length-take,
  length-filter, count-append, count-le-length, take_all, All, All-filter, List-cases, All-append,
  All-take, All-imp, Text, text, strip_prefix, strip_prefix-append, strip_prefix-some, is_space,
  skip_spaces, Unicode, digits_onto, read_number, HasAsciiDigits, read_number-show_onto,
  skip_spaces-show_onto, IsDigit, show-All, show_onto, split_words, show, read_onto, read_onto-show,
  show-injective, insert_by, sort_by, sort_by-perm, IsSortedBy, sort_by-All, sort_by-IsSortedBy,
  Dict, keys, lookup, insert, lookup-insert, NodupKeys, insert-NodupKeys, Exn, gh_cli_error,
  value_error, key_error, drain_busy, cron_busy, other_error, Result, ok, err, ◌>>=◌, >>=-eq-ok,
  ok-injective, Result-cases, get_item, get_item-eq-ok, lookup-nil, length-Permᴰ,
}

pub data AuthMode : Type 0 where
  api_key subscription : AuthMode

-- `AuthMode.from_config`
unfoldable pub auth_mode_from_config : Text → Result AuthMode
unfolding list_beq
auth_mode_from_config value =
    if value == text "api_key"
    then ok api_key
    else if value == text "subscription"
    then ok subscription
    else err value_error

-- `_WINDOW`, in microseconds.
abbrev pub window : ℕ
window = 86400000000

abbrev pub whole : ℕ
whole = 1000000

pub record Charge : Type 0 where
  pub spent_at : ℕ
  pub amount : ℕ

pub record BudgetLedger : Type 0 where
  pub auth_mode : AuthMode
  pub weekly_budget : ℕ
  pub daily_cap_fraction : ℕ
  pub entries : List Charge

-- `spent_at > now - 24h`
unfoldable pub in_window : ℕ → Charge → Bool
in_window now charge = ltb now (charge.spent_at + window)

unfoldable pub total : List Charge → ℕ
total [] = 0
total (charge ∷ rest) = charge.amount + total rest

module _ (ledger : BudgetLedger) where
  unfoldable pub metering_disabled : Bool
  metering_disabled = nat_beq ledger.weekly_budget 0

  -- Rounded down, which changes no comparison of a whole amount with the cap.
  unfoldable pub cap : ℕ
  cap = ledger.weekly_budget * ledger.daily_cap_fraction / whole

  unfoldable pub trailing_24h_spend : ℕ → ℕ
  unfolding in_window filter total
  trailing_24h_spend now = total (filter (in_window now) ledger.entries)

  unfoldable pub record_spend : ℕ → ℕ → BudgetLedger
  record_spend now amount = record ledger {
    entries = ledger.entries ++ record { spent_at = now; amount = amount } ∷ [];
  }

  -- The transaction: its two statements run under the write lock.
  unfoldable pub try_record_if_within_cap : ℕ → ℕ → BudgetLedger × Bool
  unfolding trailing_24h_spend cap record_spend
  try_record_if_within_cap now amount =
      if ltb cap (trailing_24h_spend now + amount)
      then (ledger, false)
      else (record_spend now amount, true)

  unfoldable pub would_exceed : ℕ → ℕ → Bool
  unfolding trailing_24h_spend cap
  would_exceed now amount = ltb cap (trailing_24h_spend now + amount)

-- The loop of `window_frees_at` over the charges that are left, oldest first.
unfoldable pub frees_loop : ℕ → ℕ → ℕ → ℕ → ℕ → List Charge → ℕ
frees_loop cap_amount amount trailing freed last [] = last + window
frees_loop cap_amount amount trailing freed last (charge ∷ rest) =
    let freed' = freed + charge.amount in
    let later = frees_loop cap_amount amount trailing freed' charge.spent_at rest in
    if leb (trailing - freed' + amount) cap_amount then charge.spent_at + window else later

-- `ORDER BY spent_at ASC`
unfoldable pub older : Charge → Charge → Bool
older a b = leb a.spent_at b.spent_at

module _ (ledger : BudgetLedger) where
  -- The charges in the window, oldest first.
  unfoldable pub window_charges : ℕ → List Charge
  unfolding in_window filter sort_by older
  window_charges now = sort_by older (filter (in_window now) ledger.entries)

  -- In exact numbers. The sums that the source takes of floats may round, and then it may return the
  -- instant of a later charge.
  unfoldable pub window_frees_at : ℕ → ℕ → Option ℕ
  unfolding window_charges frees_loop total cap
  window_frees_at now amount = elim (window_charges now) [
    | [] ↦ none
    | charge ∷ rest ↦
        some (frees_loop (cap ledger) amount (total (charge ∷ rest)) 0 0 (charge ∷ rest))
  ]

pub record GateDecision : Type 0 where
  pub deferred : Bool
  pub defer_until : Option ℕ

-- `BudgetGovernor`, whose one attribute is the ledger.
module _ (ledger : BudgetLedger) where
  -- At `now` it charges or refuses; a refusal then reads the instant at which the window frees, with
  -- the clock at `later`.
  unfoldable pub gate : ℕ → ℕ → ℕ → BudgetLedger × GateDecision
  unfolding metering_disabled try_record_if_within_cap window_frees_at
  gate now later estimated_amount =
      let (ledger', recorded) = try_record_if_within_cap ledger now estimated_amount in
      if metering_disabled ledger
      then (ledger, record { deferred = false; defer_until = none })
      else if recorded
      then (ledger', record { deferred = false; defer_until = none })
      else (
        ledger',
        record { deferred = true; defer_until = window_frees_at ledger' later estimated_amount },
      )

  unfoldable pub record_charge : ℕ → ℕ → BudgetLedger
  unfolding metering_disabled record_spend
  record_charge now amount =
      if metering_disabled ledger then ledger else record_spend ledger now amount

  unfoldable pub meter_adhoc : ℕ → ℕ → BudgetLedger × Bool
  unfolding metering_disabled try_record_if_within_cap
  meter_adhoc now amount =
      if metering_disabled ledger
      then (ledger, true)
      else try_record_if_within_cap ledger now amount

-- The lanes' estimated charges.
abbrev pub build_estimated_amount : ℕ
build_estimated_amount = 1000000

abbrev pub classifier_estimated_amount : ℕ
classifier_estimated_amount = 10000

abbrev pub adhoc_drain_estimated_amount : ℕ
adhoc_drain_estimated_amount = 1000000

abbrev pub cron_promotion_estimated_amount : ℕ
cron_promotion_estimated_amount = 0
