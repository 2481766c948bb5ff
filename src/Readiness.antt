-- ===== src/Readiness.antt =====
-- retinue/readiness.py: which candidates have every blocker closed.
pub mod Body
pub mod Resolve
use the_retinue.Base.{
  ℕ, zero, suc, ◌+◌, ◌-◌, ◌*◌, ◌/◌, ◌%◌, ◌≤◌, ◌<◌, min, max, ◌≡◌, refl, sym, ap, ◌∙◌, ◌≢◌, ◌↔◌, ◌⊎◌,
  inl, inr, Bool, true, false, not, ◌&&◌, ◌||◌, Option, none, some, List, [], ◌∷◌, ◌++◌, map, arith,
  ltb, leb, nat_beq, if◌then◌else◌, leb→le, nat_beq_iff, Bool-cases, Option-cases, Eq, ◌==◌, nat_eq,
  contains, eq_refl, list_beq, list_beq_iff, list_eq, dedup_onto, dedup, length, take, drop,
  take-append-drop, All-append_left, All-append_right, filter, count, length-append, length-take,
  length-filter, count-append, count-le-length, take_all, All, All-filter, List-cases, All-append,
  All-take, All-imp, Text, text, strip_prefix, strip_prefix-append, strip_prefix-some, is_space,
  skip_spaces, Unicode, digits_onto, read_number, HasAsciiDigits, read_number-show_onto,
  skip_spaces-show_onto, IsDigit, show-All, show_onto, split_words, show, read_onto, read_onto-show,
  show-injective, insert_by, sort_by, sort_by-perm, IsSortedBy, sort_by-All, sort_by-IsSortedBy,
  Dict, keys, lookup, insert, lookup-insert, NodupKeys, insert-NodupKeys, Exn, gh_cli_error,
  value_error, key_error, drain_busy, cron_busy, other_error, Result, ok, err, ◌>>=◌, >>=-eq-ok,
  ok-injective, Result-cases, get_item, get_item-eq-ok, lookup-nil, length-Permᴰ,
}
use the_retinue.Readiness.Body.{parse_body_blockers}

pub record BlockableIssue : Type 0 where
  pub number : ℕ
  pub body : Text

-- The answers of the gh seam during one pass, for one repository.
pub record ReadinessGh : Type 0 where
  pub native_blockers : ℕ → Result (List ℕ)
  pub is_closed : ℕ → Result Bool

module _ (tables : Unicode) (gh : ReadinessGh) where
  -- The union of both sources, without the issue itself.
  unfoldable pub blockers_of : BlockableIssue → List ℕ → List ℕ → List ℕ
  blockers_of candidate named native =
      filter (λ b. not (b == candidate.number)) (dedup (named ++ native))

  -- The first loop: `blockers_by_issue`.
  unfoldable pub collect_blockers : Dict ℕ (List ℕ) → List BlockableIssue → Result (Dict ℕ (List ℕ))
  unfolding blockers_of insert parse_body_blockers
  collect_blockers found [] = ok found
  collect_blockers found (candidate ∷ rest) =
      let go = λ (native named : List ℕ).
        collect_blockers (insert candidate.number (blockers_of candidate named native) found)
          rest in
      gh.native_blockers candidate.number >>= λ native.
      parse_body_blockers tables candidate.body >>= go native

  -- The second loop over one blocker set: a blocker that is in the cache is not asked for again.
  unfoldable pub fill_from : Dict ℕ Bool → List ℕ → Result (Dict ℕ Bool)
  unfolding insert lookup
  fill_from cache [] = ok cache
  fill_from cache (blocker ∷ rest) =
      let asked = λ (closed : Bool). fill_from (insert blocker closed cache) rest in
      let known = fill_from cache rest in
      elim (lookup blocker cache) [ none ↦ gh.is_closed blocker >>= asked | some closed ↦ known ]

  unfoldable pub fill_cache : Dict ℕ Bool → Dict ℕ (List ℕ) → Result (Dict ℕ Bool)
  unfolding fill_from
  fill_cache cache [] = ok cache
  fill_cache cache ((number, blockers) ∷ rest) =
      fill_from cache blockers >>= λ cache'. fill_cache cache' rest

-- `all(closed_cache[b] for b in blockers)`, with the `KeyError` of a missing key.
unfoldable pub all_closed : Dict ℕ Bool → List ℕ → Result Bool
unfolding lookup
all_closed cache [] = ok true
all_closed cache (blocker ∷ rest) =
    let later = all_closed cache rest in
    elim (lookup blocker cache) [
      | none ↦ err key_error
      | some closed ↦ if closed then later else ok false
    ]

-- The third loop: the set of the ready numbers.
unfoldable pub ready_numbers : Dict ℕ Bool → Dict ℕ (List ℕ) → Result (List ℕ)
unfolding all_closed
ready_numbers cache [] = ok []
ready_numbers cache ((number, blockers) ∷ rest) = all_closed cache blockers >>= λ closed.
    ready_numbers cache rest >>= λ ready. ok (if closed then number ∷ ready else ready)

unfoldable pub resolve_ready : Unicode → ReadinessGh → List BlockableIssue → Result (List ℕ)
unfolding collect_blockers fill_cache ready_numbers
resolve_ready tables gh candidates =
    collect_blockers tables gh [] candidates >>= λ blockers_by_issue.
    fill_cache tables gh [] blockers_by_issue >>= λ closed_cache.
    ready_numbers closed_cache blockers_by_issue
