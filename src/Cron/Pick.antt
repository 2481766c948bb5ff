-- ===== src/Cron/Pick.antt =====
-- Which backlog issue a tick of retinue/cron.py picks.
use the_retinue.Base.{
  ◌*◌, ℕ, ◌+◌, ◌-◌, ◌≤◌, ◌<◌, ◌≡◌, refl, ap, ◌↔◌, ◌⊎◌, inl, inr, true, false, List, [], ◌∷◌, arith,
  ltb, Bool-cases, nat_eq, list_eq, filter, All, List-cases,
}
use mathlib.Core.List.{Memᴰ}
use the_retinue.Vocab.{severity_value}
use the_retinue.Cron.{
  BacklogIssue, severity, is_low_priority, weighted_score, max_by, min_by, oldest_low_priority,
  is_quota_tick, pick_issue,
}

skip_second :
    {x best issue : BacklogIssue} {issues : List BacklogIssue}
    → Memᴰ x (best ∷ issues)
    → Memᴰ x (best ∷ issue ∷ issues)
skip_second (Memᴰ.head e) = Memᴰ.head e
skip_second (Memᴰ.tail m) = Memᴰ.tail (Memᴰ.tail m)

-- One of the issues, with no larger key among them.
pub record IsLargest (key : BacklogIssue → ℕ) (issues : List BacklogIssue) (x : BacklogIssue)
    : Type 0 where
  pub is_given : Memᴰ x issues
  pub bounds : All (λ i. key i ≤ key x) issues

-- One of the issues, with no smaller key among them.
pub record IsSmallest (key : BacklogIssue → ℕ) (issues : List BacklogIssue) (x : BacklogIssue)
    : Type 0 where
  pub is_given : Memᴰ x issues
  pub bounds : All (λ i. key x ≤ key i) issues

pub max_by-IsLargest :
    (key : BacklogIssue → ℕ) (best : BacklogIssue) (issues : List BacklogIssue)
    → IsLargest key (best ∷ issues) (max_by key best issues)
unfolding max_by
max_by-IsLargest key best [] = record { is_given = Memᴰ.head refl; bounds = (omega arith, tt) }
max_by-IsLargest key best (issue ∷ issues) = elim (Bool-cases (ltb (key best) (key issue))) [
  | inl more ↦
      let r = max_by-IsLargest key issue issues in
      rw (more) (record {
        is_given = Memᴰ.tail r.is_given;
        bounds = (ground (arith, more, r.bounds.0), r.bounds);
      })
  | inr less ↦
      let r = max_by-IsLargest key best issues in
      rw (less) (record {
        is_given = skip_second r.is_given;
        bounds = (r.bounds.0, (ground (arith, less, r.bounds.0), r.bounds.1));
      })
]

pub min_by-IsSmallest :
    (key : BacklogIssue → ℕ) (best : BacklogIssue) (issues : List BacklogIssue)
    → IsSmallest key (best ∷ issues) (min_by key best issues)
unfolding min_by
min_by-IsSmallest key best [] = record { is_given = Memᴰ.head refl; bounds = (omega arith, tt) }
min_by-IsSmallest key best (issue ∷ issues) = elim (Bool-cases (ltb (key issue) (key best))) [
  | inl less ↦
      let r = min_by-IsSmallest key issue issues in
      rw (less) (record {
        is_given = Memᴰ.tail r.is_given;
        bounds = (ground (arith, less, r.bounds.0), r.bounds);
      })
  | inr more ↦
      let r = min_by-IsSmallest key best issues in
      rw (more) (record {
        is_given = skip_second r.is_given;
        bounds = (r.bounds.0, (ground (arith, more, r.bounds.0), r.bounds.1));
      })
]

module _ (now tick_number quota_every : ℕ) (issue : BacklogIssue) (rest : List BacklogIssue) where
  -- On a quota tick of a backlog with low-priority issues, the pick is one of these and none of them
  -- is older. On any other tick, and without low-priority issues, no issue has a higher score.
  pub pick_issue_lem :
      ((is_quota_tick quota_every tick_number ≡ true)
        × IsSmallest
            (λ i. i.created_at)
            (filter is_low_priority (issue ∷ rest))
            (pick_issue now tick_number quota_every issue rest))
      ⊎ (((is_quota_tick quota_every tick_number ≡ false)
            ⊎ (filter is_low_priority (issue ∷ rest) ≡ []))
          × IsLargest
              (weighted_score now)
              (issue ∷ rest)
              (pick_issue now tick_number quota_every issue rest))
  unfolding pick_issue oldest_low_priority
  pick_issue_lem =
      let by_score = max_by-IsLargest (weighted_score now) issue rest in
      elim (Bool-cases (is_quota_tick quota_every tick_number)) [
        | inr off ↦ rw (off) (inr (inl refl, by_score))
        | inl on ↦ elim (List-cases (filter is_low_priority (issue ∷ rest))) [
          | inl none_low ↦ rw (on, none_low, oldest_low_priority) (inr (inr refl, by_score))
          | inr (i, is, split) ↦
              rw (on, split, oldest_low_priority)
                (inl (refl, min_by-IsSmallest (λ j. j.created_at) i is))
        ]
      ]

-- Of two issues, the one with the higher score is no less severe unless it is older by 10000 days,
-- of 86400000000 microseconds each, or more. Of equally severe ones it is the older one, counting no age before the issue was opened.
pub weighted_score-severity :
    (now : ℕ) (a b : BacklogIssue)
    → (weighted_score now b ≤ weighted_score now a
        → now - a.created_at < 10000 * 86400000000 + (now - b.created_at)
        → severity_value (severity b) ≤ severity_value (severity a))
      × (severity a ≡ severity b
          → (weighted_score now b ≤ weighted_score now a)
            ↔ (now - b.created_at ≤ now - a.created_at))
unfolding weighted_score
weighted_score-severity now a b = (
  λ h close. omega arith,
  λ same. (λ h. omega (arith, ap severity_value same), λ h. omega (arith, ap severity_value same)),
)
