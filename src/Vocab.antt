-- ===== src/Vocab.antt =====
-- retinue/vocab.py: labels, severities and branch names.
pub mod Labels
use the_retinue.Base.{
  ℕ, zero, suc, ◌+◌, ◌-◌, ◌*◌, ◌/◌, ◌%◌, ◌≤◌, ◌<◌, min, max, ◌≡◌, refl, sym, ap, ◌∙◌, ◌≢◌, ◌↔◌, ◌⊎◌,
  inl, inr, Bool, true, false, not, ◌&&◌, ◌||◌, Option, none, some, List, [], ◌∷◌, ◌++◌, map, arith,
  ltb, leb, nat_beq, if◌then◌else◌, leb→le, nat_beq_iff, Bool-cases, Option-cases, Eq, ◌==◌, nat_eq,
  contains, eq_refl, list_beq, list_beq_iff, list_eq, dedup_onto, dedup, length, take, drop,
  take-append-drop, All-append_left, All-append_right, filter, count, length-append, length-take,
  length-filter, count-append, count-le-length, take_all, All, All-filter, List-cases, All-append,
  All-take, All-imp, Text, text, strip_prefix, strip_prefix-append, strip_prefix-some, is_space,
  skip_spaces, Unicode, digits_onto, read_number, HasAsciiDigits, read_number-show_onto,
  skip_spaces-show_onto, IsDigit, show-All, show_onto, split_words, show, read_onto, read_onto-show,
  show-injective, insert_by, sort_by, sort_by-perm, IsSortedBy, sort_by-All, sort_by-IsSortedBy,
  Dict, keys, lookup, insert, lookup-insert, NodupKeys, insert-NodupKeys, Exn, gh_cli_error,
  value_error, key_error, drain_busy, cron_busy, other_error, Result, ok, err, ◌>>=◌, >>=-eq-ok,
  ok-injective, Result-cases, get_item, get_item-eq-ok, lookup-nil, length-Permᴰ,
}

abbrev pub ready_label : Text
ready_label = text "ready-for-agent"

abbrev pub hitl_label : Text
hitl_label = text "hitl"

abbrev pub backlog_label : Text
backlog_label = text "backlog"

abbrev pub priority_label_prefix : Text
priority_label_prefix = text "priority:"

pub data Severity : Type 0 where
  low medium high critical : Severity

-- The integer of the `IntEnum` member.
abbrev pub severity_value : Severity → ℕ
severity_value low = 1
severity_value medium = 2
severity_value high = 3
severity_value critical = 4

-- `severity.name.lower()`
abbrev pub lower_name : Severity → Text
lower_name low = text "low"
lower_name medium = text "medium"
lower_name high = text "high"
lower_name critical = text "critical"

-- `str.upper` on one character. Characters whose upper case is no single ASCII letter are kept:
-- the result is only compared with the four names, and no other character maps into those.
unfoldable pub upper_char : ℕ → ℕ
upper_char c =
    if leb b'a' c && leb c b'z'
    then c - 32
    else if nat_beq c 305
    then b'I'
    else if nat_beq c 383
    then b'S'
    else c

-- `Severity[name]`, with `none` for the `KeyError`.
unfoldable pub severity_of_name : Text → Option Severity
unfolding list_beq
severity_of_name name =
    if name == text "LOW"
    then some low
    else if name == text "MEDIUM"
    then some medium
    else if name == text "HIGH"
    then some high
    else if name == text "CRITICAL"
    then some critical
    else none

unfoldable pub priority_label : Severity → Text
priority_label severity = text "priority:" ++ lower_name severity

-- One label's severity: `none` where the loop goes on to the next label.
unfoldable pub severity_of_label : Text → Option Severity
unfolding strip_prefix severity_of_name upper_char
severity_of_label label = elim (strip_prefix priority_label_prefix label) [
  | none ↦ none
  | some name ↦ severity_of_name (map upper_char name)
]

-- The `for` loop: the first label that names a severity decides.
unfoldable pub parse_priority : List Text → Option Severity
unfolding severity_of_label
parse_priority [] = none
parse_priority (label ∷ labels) =
    let rest = parse_priority labels in
    elim (severity_of_label label) [ none ↦ rest | some severity ↦ some severity ]

unfoldable pub issue_branch : ℕ → Text
issue_branch issue_number = text "issue-" ++ show issue_number

unfoldable pub issue_web_url : Text → ℕ → Text
issue_web_url repo_full_name issue_number =
    text "https://github.com/" ++ repo_full_name ++ text "/issues/" ++ show issue_number
