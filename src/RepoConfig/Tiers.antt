-- ===== src/RepoConfig/Tiers.antt =====
-- The tiers of a validated configuration (retinue/repo_config.py): what the prefix check is for.
use the_retinue.Base.{
  ℕ, zero, suc, ◌≤◌, ◌≡◌, refl, sym, ap, ◌∙◌, true, false, Option, none, some, List, [], ◌∷◌, arith,
  ltb, nat_eq, contains, list_beq_iff, list_eq, length, take, length-take, Text,
}
use the_retinue.RepoConfig.{RepoConfig, index, tier_rank, is_priority_tier}
use the_retinue.RepoConfig.Validate.{valid_priority_prefix, is_valid}

index_absent : (xs : List Text) (x : Text) → contains xs x ≡ false → index xs x ≡ length xs
unfolding index contains
index_absent [] x h = refl
index_absent (y ∷ ys) x h = ground (arith, index_absent ys x)

-- The rank is the position, also of a tier that is not there: then it is the length.
tier_rank-index : (c : RepoConfig) (x : Text) → tier_rank c (some x) ≡ index c.severity_tiers x
unfolding tier_rank
tier_rank-index c x = ground (arith, index_absent c.severity_tiers x)

contains-take :
    (n : ℕ) (xs : List Text) (x : Text)
    → n ≤ length xs
    → contains (take n xs) x ≡ ltb (index xs x) n
unfolding index contains
contains-take zero xs x h = ground arith
contains-take (suc n) [] x h = absurd (omega arith)
contains-take (suc n) (y ∷ ys) x h = ground (arith, contains-take n ys x)

-- Under the prefix check, the priority tiers are a front part of the severity tiers.
prefix_parts :
    (c : RepoConfig)
    → valid_priority_prefix c ≡ true
    → (c.priority_tiers ≡ take (length c.priority_tiers) c.severity_tiers)
      × (length c.priority_tiers ≤ length c.severity_tiers)
unfolding valid_priority_prefix
prefix_parts c h =
    let e = (list_beq_iff c.priority_tiers (take (length c.priority_tiers) c.severity_tiers)).0 h in
    (e, omega (arith, ap length e, length-take (length c.priority_tiers) c.severity_tiers))

-- In a configuration that passes the prefix check, a tier is in the priority range exactly when
-- its rank is below the number of priority tiers. No tier (`none`) is not in it.
pub is_priority_tier-tier_rank :
    (c : RepoConfig) (tier : Option Text)
    → valid_priority_prefix c ≡ true
    → is_priority_tier c tier ≡ ltb (tier_rank c tier) (length c.priority_tiers)
unfolding is_priority_tier tier_rank
is_priority_tier-tier_rank c none h = ground (arith, prefix_parts c h)
is_priority_tier-tier_rank c (some tier) h =
    let (e, fits) = prefix_parts c h in
    ap (λ tiers. contains tiers tier) e
    ∙ contains-take (length c.priority_tiers) c.severity_tiers tier fits
    ∙ ap (λ r. ltb r (length c.priority_tiers)) (sym (tier_rank-index c tier))

-- A valid configuration passes the prefix check.
pub is_valid-prefix : (c : RepoConfig) → is_valid c ≡ true → valid_priority_prefix c ≡ true
unfolding is_valid
is_valid-prefix c h = ground arith
