-- ===== src/RunLedger.antt =====
-- retinue/run_ledger.py: one coarse state row for each issue of a repository.
-- The table is the list of its rows in the order of insertion; `updated_at` is an instant.
pub mod Lifecycle
use the_retinue.Base.{
  ℕ, zero, suc, ◌+◌, ◌-◌, ◌*◌, ◌/◌, ◌%◌, ◌≤◌, ◌<◌, min, max, ◌≡◌, refl, sym, ap, ◌∙◌, ◌≢◌, ◌↔◌, ◌⊎◌,
  inl, inr, Bool, true, false, not, ◌&&◌, ◌||◌, Option, none, some, List, [], ◌∷◌, ◌++◌, map, arith,
  ltb, leb, nat_beq, if◌then◌else◌, leb→le, nat_beq_iff, Bool-cases, Option-cases, Eq, ◌==◌, nat_eq,
  contains, eq_refl, list_beq, list_beq_iff, list_eq, dedup_onto, dedup, length, take, drop,
  take-append-drop, All-append_left, All-append_right, filter, count, length-append, length-take,
  length-filter, count-append, count-le-length, take_all, All, All-filter, List-cases, All-append,
  All-take, All-imp, Text, text, strip_prefix, strip_prefix-append, strip_prefix-some, is_space,
  skip_spaces, Unicode, digits_onto, read_number, HasAsciiDigits, read_number-show_onto,
  skip_spaces-show_onto, IsDigit, show-All, show_onto, split_words, show, read_onto, read_onto-show,
  show-injective, insert_by, sort_by, sort_by-perm, IsSortedBy, sort_by-All, sort_by-IsSortedBy,
  Dict, keys, lookup, insert, lookup-insert, NodupKeys, insert-NodupKeys, Exn, gh_cli_error,
  value_error, key_error, drain_busy, cron_busy, other_error, Result, ok, err, ◌>>=◌, >>=-eq-ok,
  ok-injective, Result-cases, get_item, get_item-eq-ok, lookup-nil, length-Permᴰ,
}

pub data RunState : Type 0 where
  queued building escalated pr_opened failed merged : RunState

-- `state.value`
unfoldable pub state_value : RunState → Text
state_value queued = text "queued"
state_value building = text "building"
state_value escalated = text "escalated"
state_value pr_opened = text "pr_opened"
state_value failed = text "failed"
state_value merged = text "merged"

-- `_LIFECYCLE_RANK`
unfoldable pub lifecycle_rank : RunState → ℕ
lifecycle_rank queued = 0
lifecycle_rank building = 1
lifecycle_rank _ = 2

-- `_EXISTING_RANK_CASE`: the states in order, and 0 for any other text.
abbrev pub all_states : List RunState
all_states = queued ∷ building ∷ escalated ∷ pr_opened ∷ failed ∷ merged ∷ []

unfoldable pub rank_case : List RunState → Text → ℕ
unfolding state_value lifecycle_rank
rank_case [] value = 0
rank_case (state ∷ states) value =
    if state_value state == value then lifecycle_rank state else rank_case states value

unfoldable pub existing_rank : Text → ℕ
unfolding rank_case list_beq
existing_rank = rank_case all_states

pub record RunLedgerRow : Type 0 where
  pub repo : Text
  pub issue : ℕ
  pub state : Text
  pub url : Option Text
  pub updated_at : ℕ

-- The primary key.
unfoldable pub has_key : Text → ℕ → RunLedgerRow → Bool
has_key repo issue row = row.repo == repo && row.issue == issue

-- The `DO UPDATE … WHERE` of the upsert, on the row in conflict.
unfoldable pub update_row : RunState → Option Text → ℕ → RunLedgerRow → RunLedgerRow
update_row state url now row =
    if leb (existing_rank row.state) (lifecycle_rank state)
    then record row { state = state_value state; url = url; updated_at = now }
    else row

-- `RunLedgerStore.record`, at the instant that it reads.
unfoldable pub record_state :
    ℕ → Text → ℕ → RunState → Option Text → List RunLedgerRow → List RunLedgerRow
unfolding update_row has_key
record_state now repo issue state url [] =
    record { repo = repo; issue = issue; state = state_value state; url = url; updated_at = now }
    ∷ []
record_state now repo issue state url (row ∷ table) =
    if has_key repo issue row
    then update_row state url now row ∷ table
    else row ∷ record_state now repo issue state url table

-- The comparison of texts in SQLite's `BINARY` collation: by code points.
unfoldable pub text_lt : Text → Text → Bool
text_lt [] [] = false
text_lt [] (d ∷ t) = true
text_lt (c ∷ s) [] = false
text_lt (c ∷ s) (d ∷ t) = ltb c d || nat_beq c d && text_lt s t

-- `ORDER BY updated_at DESC, repo ASC, issue ASC`
unfoldable pub row_le : RunLedgerRow → RunLedgerRow → Bool
unfolding text_lt
row_le a b =
    ltb b.updated_at a.updated_at
    || nat_beq b.updated_at a.updated_at
      && (text_lt a.repo b.repo || a.repo == b.repo && leb a.issue b.issue)

unfoldable pub select_rows : Option RunState → List RunLedgerRow → List RunLedgerRow
unfolding sort_by row_le filter
select_rows none table = sort_by row_le table
select_rows (some state) table =
    sort_by row_le (filter (λ row. row.state == state_value state) table)

-- `RunLedgerStore.rows`
unfoldable pub rows : List RunLedgerRow → List RunLedgerRow
unfolding select_rows
rows = select_rows none

-- `RunLedgerStore.escalations`
unfoldable pub escalations : List RunLedgerRow → List RunLedgerRow
unfolding select_rows
escalations = select_rows (some escalated)
