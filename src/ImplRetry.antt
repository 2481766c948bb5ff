-- ===== src/ImplRetry.antt =====
-- retinue/impl_retry.py: the attempts of an implementer, counted per slice in a table.
pub mod Counter
use the_retinue.Base.{
  ℕ, zero, suc, ◌+◌, ◌-◌, ◌*◌, ◌/◌, ◌%◌, ◌≤◌, ◌<◌, min, max, ◌≡◌, refl, sym, ap, ◌∙◌, ◌≢◌, ◌↔◌, ◌⊎◌,
  inl, inr, Bool, true, false, not, ◌&&◌, ◌||◌, Option, none, some, List, [], ◌∷◌, ◌++◌, map, arith,
  ltb, leb, nat_beq, if◌then◌else◌, leb→le, nat_beq_iff, Bool-cases, Option-cases, Eq, ◌==◌, nat_eq,
  contains, eq_refl, list_beq, list_beq_iff, list_eq, dedup_onto, dedup, length, take, drop,
  take-append-drop, All-append_left, All-append_right, filter, count, length-append, length-take,
  length-filter, count-append, count-le-length, take_all, All, All-filter, List-cases, All-append,
  All-take, All-imp, Text, text, strip_prefix, strip_prefix-append, strip_prefix-some, is_space,
  skip_spaces, Unicode, digits_onto, read_number, HasAsciiDigits, read_number-show_onto,
  skip_spaces-show_onto, IsDigit, show-All, show_onto, split_words, show, read_onto, read_onto-show,
  show-injective, insert_by, sort_by, sort_by-perm, IsSortedBy, sort_by-All, sort_by-IsSortedBy,
  Dict, keys, lookup, insert, lookup-insert, NodupKeys, insert-NodupKeys, Exn, gh_cli_error,
  value_error, key_error, drain_busy, cron_busy, other_error, Result, ok, err, ◌>>=◌, >>=-eq-ok,
  ok-injective, Result-cases, get_item, get_item-eq-ok, lookup-nil, length-Permᴰ, length-drop,
  snoc_append, rstrip, strip, join, is_line_break, split_lines, replace,
}
use the_retinue.Container.{Slice}

-- The rows: a slice's key and its attempts.
abbrev pub RetryTable : Type 0
RetryTable = Dict Text ℕ

unfoldable pub impl_retry_key : Slice → Text
unfolding show
impl_retry_key slice = slice.repo_full_name ++ b'#' ∷ show slice.issue_number

-- `ImplRetryStore.count`
unfoldable pub attempts_of : Text → RetryTable → ℕ
unfolding lookup list_beq
attempts_of key table = elim (lookup key table) [ none ↦ 0 | some attempts ↦ attempts ]

-- The upsert of `record_attempt`.
unfoldable pub bump : Text → RetryTable → RetryTable
unfolding list_beq
bump key [] = (key, 1) ∷ []
bump key ((other, attempts) ∷ table) =
    if other == key then (other, attempts + 1) ∷ table else (other, attempts) ∷ bump key table

-- `ImplRetryStore.record_attempt`: the count after it, and the table.
unfoldable pub record_attempt : Text → RetryTable → ℕ × RetryTable
unfolding bump attempts_of
record_attempt key table = let bumped = bump key table in (attempts_of key bumped, bumped)
