-- ===== src/Scheduler/Order.antt =====
-- The order in which a pass starts its builds (retinue/scheduler.py).
use mathlib.Core.List.{Perm, perm_middle}
use mathlib.Core.List.Perm
use the_retinue.Base.{
  ◌≡◌, refl, ap, inl, inr, Bool, true, false, not, none, List, [], ◌∷◌, ◌++◌, arith, Bool-cases,
  nat_eq, list_eq, filter, All, IsSortedBy, sort_by-IsSortedBy,
}
use the_retinue.RepoConfig.{RepoConfig, tier_of}
use the_retinue.RepoConfig.Validate.{is_valid}
use the_retinue.RepoConfig.Tiers.{is_priority_tier-tier_rank, is_valid-prefix}
use the_retinue.Scheduler.{Candidate, key_le, is_priority, ranked, select_to_build}

-- A test that only a front part of a sorted list passes cuts it in two.
module _ {ℓ} {A : Type ℓ} (le : A → A → Bool) (p : A → Bool)
    (closed : (x y : A) → le x y ≡ true → p y ≡ true → p x ≡ true) where
  filter_none :
      (x : A) (ys : List A)
      → p x ≡ false
      → All (λ y. le x y ≡ true) ys
      → (filter p ys ≡ []) × (filter (λ y. not (p y)) ys ≡ ys)
  unfolding filter
  filter_none x [] px h = (refl, refl)
  filter_none x (y ∷ ys) px h = ground (arith, closed x y, filter_none x ys)

  pub filter-append-filter :
      (xs : List A) → IsSortedBy le xs → filter p xs ++ filter (λ y. not (p y)) xs ≡ xs
  unfolding filter
  filter-append-filter [] h = refl
  filter-append-filter (x ∷ xs) h = elim (Bool-cases (p x)) [
    | inl e ↦ rw e (ap (◌∷◌ x) (filter-append-filter xs h.1))
    | inr e ↦ let (a, b) = filter_none x xs e h.0 in rw (e, a, b)
  ]

-- A filtered list and what the filter drops are the list again, in some order.
pub filter-perm {ℓ} :
    {A : Type ℓ} (p : A → Bool) (xs : List A) → Perm (filter p xs ++ filter (λ y. not (p y)) xs) xs
unfolding filter
filter-perm p [] = Perm.refl []
filter-perm p (x ∷ xs) = elim (Bool-cases (p x)) [
  | inl e ↦ rw e (Perm.cons x (filter-perm p xs))
  | inr e ↦ rw e (Perm.trans (perm_middle (filter p xs) _) (Perm.cons x (filter-perm p xs)))
]

module _ (config : RepoConfig) where
  key_le_total : (x y : Candidate) → key_le config x y ≡ false → key_le config y x ≡ true
  unfolding key_le
  key_le_total x y h = ground arith

  key_le_trans :
      (x y z : Candidate)
      → key_le config x y ≡ true
      → key_le config y z ≡ true
      → key_le config x z ≡ true
  unfolding key_le
  key_le_trans x y z h k = ground arith

  -- The ranked list is sorted by rank, ties by ascending number.
  pub ranked-IsSortedBy :
      (candidates : List Candidate) → IsSortedBy (key_le config) (ranked config candidates)
  unfolding ranked
  ranked-IsSortedBy = sort_by-IsSortedBy (key_le config) key_le_total key_le_trans

  is_priority_closed :
      is_valid config ≡ true
      → (x y : Candidate) → key_le config x y ≡ true
      → is_priority config y ≡ true
      → is_priority config x ≡ true
  unfolding key_le is_priority
  is_priority_closed valid x y h k = ground (
    arith,
    is_priority_tier-tier_rank config (tier_of config x.labels) (is_valid-prefix config valid),
    is_priority_tier-tier_rank config (tier_of config y.labels) (is_valid-prefix config valid),
  )

  -- With a valid configuration and no cap, a pass starts every candidate in rank order: draining
  -- the priority queue first never puts a less urgent candidate in front of a more urgent one.
  pub select_to_build-ranked :
      (candidates : List Candidate)
      → is_valid config ≡ true
      → select_to_build config candidates none ≡ ranked config candidates
  unfolding select_to_build
  select_to_build-ranked candidates valid =
      filter-append-filter (key_le config) (is_priority config) (is_priority_closed valid)
        (ranked config candidates) (ranked-IsSortedBy candidates)
