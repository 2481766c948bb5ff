-- ===== src/AdhocIssue.antt =====
-- retinue/adhoc_build.py, the part of it that a drain uses: an issue and the chain depth that its
-- body carries from one review fix to the next.
use the_retinue.Vocab.{issue_branch}
use the_retinue.Base.{
  ℕ, zero, suc, ◌+◌, ◌-◌, ◌*◌, ◌/◌, ◌%◌, ◌≤◌, ◌<◌, min, max, ◌≡◌, refl, sym, ap, ◌∙◌, ◌≢◌, ◌↔◌, ◌⊎◌,
  inl, inr, Bool, true, false, not, ◌&&◌, ◌||◌, Option, none, some, List, [], ◌∷◌, ◌++◌, map, arith,
  ltb, leb, nat_beq, if◌then◌else◌, leb→le, nat_beq_iff, Bool-cases, Option-cases, Eq, ◌==◌, nat_eq,
  contains, eq_refl, list_beq, list_beq_iff, list_eq, dedup_onto, dedup, length, take, drop,
  take-append-drop, All-append_left, All-append_right, filter, count, length-append, length-take,
  length-filter, count-append, count-le-length, take_all, All, All-filter, List-cases, All-append,
  All-take, All-imp, Text, text, strip_prefix, strip_prefix-append, strip_prefix-some, is_space,
  skip_spaces, Unicode, digits_onto, read_number, HasAsciiDigits, read_number-show_onto,
  skip_spaces-show_onto, IsDigit, show-All, show_onto, split_words, show, read_onto, read_onto-show,
  show-injective, insert_by, sort_by, sort_by-perm, IsSortedBy, sort_by-All, sort_by-IsSortedBy,
  Dict, keys, lookup, insert, lookup-insert, NodupKeys, insert-NodupKeys, Exn, gh_cli_error,
  value_error, key_error, drain_busy, cron_busy, other_error, Result, ok, err, ◌>>=◌, >>=-eq-ok,
  ok-injective, Result-cases, get_item, get_item-eq-ok, lookup-nil, length-Permᴰ,
}
pub mod Depth

abbrev pub chain_depth_prefix : Text
chain_depth_prefix = text "Chain-depth:"

unfoldable pub render_chain_depth : ℕ → Text
render_chain_depth depth = chain_depth_prefix ++ text " " ++ show depth

-- `\s*$` behind the number: in the run of white space here, a line or the text ends.
unfoldable pub line_ends : Text → Bool
unfolding is_space
line_ends [] = true
line_ends (c ∷ s) = nat_beq c 10 || is_space c && line_ends s

-- `_CHAIN_DEPTH_RE` at a line's start.
unfoldable pub marker_here : Unicode → Text → Option ℕ
unfolding strip_prefix skip_spaces read_number line_ends
marker_here tables s = elim (strip_prefix chain_depth_prefix s) [
  | none ↦ none
  | some s1 ↦ elim (read_number tables (skip_spaces s1)) [
    | none ↦ none
    | some (depth, rest) ↦ if line_ends rest then some depth else none
  ]
]

-- `matches[-1]` of `findall`, if there is one. A match holds white space and digits behind its
-- prefix, so no later match begins inside it.
unfoldable pub last_marker : Unicode → Bool → Text → Option ℕ
unfolding marker_here
last_marker tables line_start [] = none
last_marker tables line_start (c ∷ s) = elim (last_marker tables (nat_beq c 10) s) [
  | some depth ↦ some depth
  | none ↦ if line_start then marker_here tables (c ∷ s) else none
]

-- The number is read whatever its length. `int` raises over 4300 digits, which no rendered depth has
-- below 10 ^ 4300.
unfoldable pub parse_chain_depth : Unicode → Text → ℕ
unfolding last_marker
parse_chain_depth tables body = elim (last_marker tables true body) [
  | none ↦ 0
  | some depth ↦ depth
]

pub record AdhocIssue : Type 0 where
  pub repo_full_name : Text
  pub issue_number : ℕ
  pub chain_depth : ℕ

unfoldable pub from_fetched_issue : Unicode → Text → ℕ → Text → AdhocIssue
unfolding parse_chain_depth
from_fetched_issue tables repo_full_name issue_number body = record {
  repo_full_name = repo_full_name;
  issue_number = issue_number;
  chain_depth = parse_chain_depth tables body;
}

-- `AdhocIssue.branch`
unfoldable pub branch : AdhocIssue → Text
branch issue = issue_branch issue.issue_number
