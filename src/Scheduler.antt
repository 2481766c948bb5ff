-- ===== src/Scheduler.antt =====
-- retinue/scheduler.py: two queues by tier, and which candidates a pass starts.
pub mod Order
pub mod Slots
pub mod Choice
use the_retinue.Base.{
  ℕ, zero, suc, ◌+◌, ◌-◌, ◌*◌, ◌/◌, ◌%◌, ◌≤◌, ◌<◌, min, max, ◌≡◌, refl, sym, ap, ◌∙◌, ◌≢◌, ◌↔◌, ◌⊎◌,
  inl, inr, Bool, true, false, not, ◌&&◌, ◌||◌, Option, none, some, List, [], ◌∷◌, ◌++◌, map, arith,
  ltb, leb, nat_beq, if◌then◌else◌, leb→le, nat_beq_iff, Bool-cases, Option-cases, Eq, ◌==◌, nat_eq,
  contains, eq_refl, list_beq, list_beq_iff, list_eq, dedup_onto, dedup, length, take, drop,
  take-append-drop, All-append_left, All-append_right, filter, count, length-append, length-take,
  length-filter, count-append, count-le-length, take_all, All, All-filter, List-cases, All-append,
  All-take, All-imp, Text, text, strip_prefix, strip_prefix-append, strip_prefix-some, is_space,
  skip_spaces, Unicode, digits_onto, read_number, HasAsciiDigits, read_number-show_onto,
  skip_spaces-show_onto, IsDigit, show-All, show_onto, split_words, show, read_onto, read_onto-show,
  show-injective, insert_by, sort_by, sort_by-perm, IsSortedBy, sort_by-All, sort_by-IsSortedBy,
  Dict, keys, lookup, insert, lookup-insert, NodupKeys, insert-NodupKeys, Exn, gh_cli_error,
  value_error, key_error, drain_busy, cron_busy, other_error, Result, ok, err, ◌>>=◌, >>=-eq-ok,
  ok-injective, Result-cases, get_item, get_item-eq-ok, lookup-nil, length-Permᴰ,
}
use the_retinue.RepoConfig.{RepoConfig, tier_of, tier_rank, is_priority_tier}

pub record Candidate : Type 0 where
  pub number : ℕ
  pub labels : List Text

module _ (config : RepoConfig) where
  unfoldable pub rank_key : Candidate → ℕ × ℕ
  rank_key candidate = (tier_rank config (tier_of config candidate.labels), candidate.number)

  -- `_rank_key(a) <= _rank_key(b)`, as Python compares pairs.
  unfoldable pub key_le : Candidate → Candidate → Bool
  unfolding rank_key
  key_le a b =
      let (rank_a, number_a) = rank_key a in
      let (rank_b, number_b) = rank_key b in
      ltb rank_a rank_b || nat_beq rank_a rank_b && leb number_a number_b

  unfoldable pub is_priority : Candidate → Bool
  is_priority candidate = is_priority_tier config (tier_of config candidate.labels)

  unfoldable pub ranked : List Candidate → List Candidate
  unfolding sort_by
  ranked = sort_by key_le

  unfoldable pub partition_queues : List Candidate → List Candidate × List Candidate
  unfolding ranked filter
  partition_queues candidates = (
    filter is_priority (ranked candidates),
    filter (λ c. not (is_priority c)) (ranked candidates),
  )

  -- The return for a cap, given the two queues.
  unfoldable pub select_capped : List Candidate → List Candidate → ℕ → List Candidate
  select_capped priority main zero = []
  select_capped priority main (suc zero) = take 1 (priority ++ main)
  select_capped priority main (suc (suc n)) =
      let cap = suc (suc n) in
      let p_take = take cap priority in
      let remaining = cap - length p_take in p_take ++ take (min (cap - 1) remaining) main

  unfoldable pub select_to_build : List Candidate → Option ℕ → List Candidate
  unfolding partition_queues select_capped
  select_to_build candidates none =
      let (priority, main) = partition_queues candidates in priority ++ main
  select_to_build candidates (some cap) =
      let (priority, main) = partition_queues candidates in select_capped priority main cap
