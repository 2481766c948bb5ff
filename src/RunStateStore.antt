-- ===== src/RunStateStore.antt =====
-- retinue/reconcile.py: `RunStateStore`, its table as the list of its rows in the order of insertion.
pub mod Rounds
use the_retinue.Base.{
  ℕ, zero, suc, ◌+◌, ◌-◌, ◌*◌, ◌/◌, ◌%◌, ◌≤◌, ◌<◌, min, max, ◌≡◌, refl, sym, ap, ◌∙◌, ◌≢◌, ◌↔◌, ◌⊎◌,
  inl, inr, Bool, true, false, not, ◌&&◌, ◌||◌, Option, none, some, List, [], ◌∷◌, ◌++◌, map, arith,
  ltb, leb, nat_beq, if◌then◌else◌, leb→le, nat_beq_iff, Bool-cases, Option-cases, Eq, ◌==◌, nat_eq,
  contains, eq_refl, list_beq, list_beq_iff, list_eq, dedup_onto, dedup, length, take, drop,
  take-append-drop, All-append_left, All-append_right, filter, count, length-append, length-take,
  length-filter, count-append, count-le-length, take_all, All, All-filter, List-cases, All-append,
  All-take, All-imp, Text, text, strip_prefix, strip_prefix-append, strip_prefix-some, is_space,
  skip_spaces, Unicode, digits_onto, read_number, HasAsciiDigits, read_number-show_onto,
  skip_spaces-show_onto, IsDigit, show-All, show_onto, split_words, show, read_onto, read_onto-show,
  show-injective, insert_by, sort_by, sort_by-perm, IsSortedBy, sort_by-All, sort_by-IsSortedBy,
  Dict, keys, lookup, insert, lookup-insert, NodupKeys, insert-NodupKeys, Exn, gh_cli_error,
  value_error, key_error, drain_busy, cron_busy, other_error, Result, ok, err, ◌>>=◌, >>=-eq-ok,
  ok-injective, Result-cases, get_item, get_item-eq-ok, lookup-nil, length-Permᴰ, length-drop,
  rstrip, strip, join, is_line_break, split_lines, replace,
}
use the_retinue.Github.{RunStateRow}

unfoldable pub run_state_key : Text → ℕ → Text
unfolding show
run_state_key repo_full_name prd_number = repo_full_name ++ b'#' ∷ show prd_number

unfoldable pub has_row : Text → RunStateRow → Bool
unfolding list_beq
has_row key row = row.prd_key == key

-- An upsert: `change` on the row of the key, or a new row of its defaults, changed.
unfoldable pub upsert : Text → (RunStateRow → RunStateRow) → List RunStateRow → List RunStateRow
unfolding has_row
upsert key change [] = change (record { prd_key = key; slices = []; pr_number = none }) ∷ []
upsert key change (row ∷ table) =
    if has_row key row then change row ∷ table else row ∷ upsert key change table

-- `WHERE prd_key = ?`
unfoldable pub row_of : Text → List RunStateRow → Option RunStateRow
unfolding has_row
row_of key [] = none
row_of key (row ∷ table) = if has_row key row then some row else row_of key table

-- `str(number) for number in issue_numbers`
unfoldable pub show_each : List ℕ → List Text
unfolding show
show_each [] = []
show_each (number ∷ numbers) = show number ∷ show_each numbers

-- `_encode_slices`
unfoldable pub encode_slices : List ℕ → Text
unfolding join show_each
encode_slices issue_numbers = join (text ",") (show_each issue_numbers)

-- A character in front of the first part.
unfoldable pub prepend : ℕ → List Text → List Text
prepend c [] = (c ∷ []) ∷ []
prepend c (part ∷ parts) = (c ∷ part) ∷ parts

-- `encoded.split(",")`
unfoldable pub split_commas : Text → List Text
unfolding prepend
split_commas [] = [] ∷ []
split_commas (c ∷ s) =
    let parts = split_commas s in if nat_beq c b',' then [] ∷ parts else prepend c parts

-- `[int(part) for part in parts if part]`, of the parts that the store writes: ASCII digits.
unfoldable pub read_parts : List Text → List ℕ
unfolding read_onto
read_parts [] = []
read_parts ([] ∷ parts) = read_parts parts
read_parts ((c ∷ part) ∷ parts) = read_onto 0 (c ∷ part) ∷ read_parts parts

-- `_decode_slices`
unfoldable pub decode_slices : Text → List ℕ
unfolding split_commas read_parts
decode_slices encoded = read_parts (split_commas encoded)

unfoldable pub record_slices : Text → ℕ → List ℕ → List RunStateRow → List RunStateRow
unfolding run_state_key encode_slices upsert
record_slices repo prd_number issue_numbers =
    upsert (run_state_key repo prd_number)
      (λ row. record row { slices = encode_slices issue_numbers })

unfoldable pub slices_of : Text → ℕ → List RunStateRow → List ℕ
unfolding row_of run_state_key decode_slices
slices_of repo prd_number table = elim (row_of (run_state_key repo prd_number) table) [
  | none ↦ []
  | some row ↦ decode_slices row.slices
]

unfoldable pub record_pr : Text → ℕ → ℕ → List RunStateRow → List RunStateRow
unfolding run_state_key upsert
record_pr repo prd_number number =
    upsert (run_state_key repo prd_number) (λ row. record row { pr_number = some number })

unfoldable pub pr_of : Text → ℕ → List RunStateRow → Option ℕ
unfolding row_of run_state_key
pr_of repo prd_number table = elim (row_of (run_state_key repo prd_number) table) [
  | none ↦ none
  | some row ↦ row.pr_number
]

-- SQLite's `LIKE`: `%` stands for any text, `_` for any character, and ASCII letters match in either
-- case.
unfoldable pub fold_ascii : ℕ → ℕ
fold_ascii c = if leb b'A' c && leb c b'Z' then c + 32 else c

unfoldable pub like : Text → Text → Bool
unfolding fold_ascii
like [] [] = true
like [] (c ∷ s) = false
like (p ∷ pattern) [] = nat_beq p b'%' && like pattern []
like (p ∷ pattern) (c ∷ s) =
    if nat_beq p b'%'
    then like pattern (c ∷ s) || like (p ∷ pattern) s
    else (nat_beq p b'_' || nat_beq (fold_ascii p) (fold_ascii c)) && like pattern s

-- What stands behind the last `#`, if there is one.
unfoldable pub behind_hash : Text → Option Text
behind_hash [] = none
behind_hash (c ∷ s) = elim (behind_hash s) [
  | some rest ↦ some rest
  | none ↦ if nat_beq c b'#' then some s else none
]

-- `int(key.rsplit("#", 1)[-1])`, of the keys that the store writes: ASCII digits behind the `#`.
unfoldable pub key_number : Text → ℕ
unfolding behind_hash read_onto
key_number key = elim (behind_hash key) [ none ↦ read_onto 0 key | some rest ↦ read_onto 0 rest ]

-- The `WHERE` of `round_for_pr`.
unfoldable pub is_round : Text → ℕ → RunStateRow → Bool
unfolding like
is_round repo number row = elim row.pr_number [
  | none ↦ false
  | some recorded ↦ nat_beq recorded number && like (repo ++ text "#%") row.prd_key
]

unfoldable pub find_round : Text → ℕ → List RunStateRow → Option RunStateRow
unfolding is_round
find_round repo number [] = none
find_round repo number (row ∷ table) =
    if is_round repo number row then some row else find_round repo number table

unfoldable pub round_for_pr : Text → ℕ → List RunStateRow → Option (ℕ × List ℕ)
unfolding find_round key_number decode_slices
round_for_pr repo number table = elim (find_round repo number table) [
  | none ↦ none
  | some row ↦ some (key_number row.prd_key, decode_slices row.slices)
]

unfoldable pub delete_round : Text → ℕ → List RunStateRow → List RunStateRow
unfolding run_state_key has_row filter
delete_round repo prd_number = filter (λ row. not (has_row (run_state_key repo prd_number) row))
