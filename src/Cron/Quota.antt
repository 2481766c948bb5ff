-- ===== src/Cron/Quota.antt =====
-- The quota floor of retinue/cron.py: the low-priority backlog drains.
use the_retinue.Base.{
  ℕ, ◌+◌, ◌-◌, ◌≤◌, ◌≡◌, refl, ap, ◌⊎◌, inl, inr, true, false, not, List, [], ◌∷◌, arith,
  if◌then◌else◌, Bool-cases, ◌==◌, nat_eq, list_eq, length, take, take_all, filter, count,
  length-filter,
}
use mathlib.Core.List.{Memᴰ}
use mathlib.Core.Path.{subst}
use the_retinue.Cron.{default_list_limit, BacklogIssue, is_low_priority, is_quota_tick, pick_issue}
use the_retinue.Cron.Pick.{pick_issue_lem}

-- The backlog that a promotion leaves: the issue of the number has lost the backlog label.
promoted_from : ℕ → List BacklogIssue → List BacklogIssue
promoted_from n issues = filter (λ i. not (i.number == n)) issues

-- What the tick promotes of the issues that it sees.
tick_visible : ℕ → ℕ × ℕ → List BacklogIssue → List BacklogIssue → List BacklogIssue
tick_visible quota_every (now, tick_number) [] issues = issues
tick_visible quota_every (now, tick_number) (issue ∷ rest) issues =
    promoted_from (pick_issue now tick_number quota_every issue rest).number issues

-- A tick on a backlog to which nothing is added, at its instant and with its number. It picks among
-- as many issues as one `gh issue list` gives.
pub tick : ℕ → ℕ × ℕ → List BacklogIssue → List BacklogIssue
tick quota_every t issues = tick_visible quota_every t (take default_list_limit issues) issues

pub ticks : ℕ → List (ℕ × ℕ) → List BacklogIssue → List BacklogIssue
ticks quota_every [] issues = issues
ticks quota_every (t ∷ ts) issues = ticks quota_every ts (tick quota_every t issues)

-- How many of the ticks are quota ticks.
pub quota_ticks : ℕ → List (ℕ × ℕ) → ℕ
quota_ticks quota_every ts = count (λ (now, tick_number). is_quota_tick quota_every tick_number) ts

low_count-promoted_from :
    (n : ℕ) (issues : List BacklogIssue)
    → count is_low_priority (promoted_from n issues) ≤ count is_low_priority issues
unfolding count filter promoted_from
low_count-promoted_from n [] = omega arith
low_count-promoted_from n (i ∷ issues) = ground (arith, low_count-promoted_from n issues)

no_member : {x : BacklogIssue} → ¬ (Memᴰ x [])
no_member m = elim m [ ]

head_or_tail : {x y : BacklogIssue} {xs : List BacklogIssue} → Memᴰ x (y ∷ xs) → (x ≡ y) ⊎ Memᴰ x xs
head_or_tail (Memᴰ.head e) = inl e
head_or_tail (Memᴰ.tail m) = inr m

filter_kept :
    (i : BacklogIssue) (issues : List BacklogIssue)
    → is_low_priority i ≡ true
    → filter is_low_priority (i ∷ issues) ≡ i ∷ filter is_low_priority issues
unfolding filter
filter_kept i issues e = rw (e) refl

filter_dropped :
    (i : BacklogIssue) (issues : List BacklogIssue)
    → is_low_priority i ≡ false
    → filter is_low_priority (i ∷ issues) ≡ filter is_low_priority issues
unfolding filter
filter_dropped i issues e = rw (e) refl

low_count-picked :
    (x : BacklogIssue) (issues : List BacklogIssue)
    → Memᴰ x (filter is_low_priority issues)
    → count is_low_priority (promoted_from x.number issues) + 1 ≤ count is_low_priority issues
unfolding count filter promoted_from
low_count-picked x [] m = absurd (no_member m)
low_count-picked x (i ∷ issues) m = elim (Bool-cases (is_low_priority i)) [
  | inl is_low ↦ elim (head_or_tail (subst (λ xs. Memᴰ x xs) (filter_kept i issues is_low) m)) [
    | inl same ↦
        ground (arith, is_low, ap (λ j. j.number) same, low_count-promoted_from x.number issues)
    | inr later ↦ ground (arith, is_low, low_count-picked x issues later)
  ]
  | inr not_low ↦ ground (
    arith,
    not_low,
    low_count-picked x issues (subst (λ xs. Memᴰ x xs) (filter_dropped i issues not_low) m),
  )
]

length-promoted_from :
    (n : ℕ) (issues : List BacklogIssue) → length (promoted_from n issues) ≤ length issues
unfolding promoted_from filter
length-promoted_from n [] = omega arith
length-promoted_from n (i ∷ issues) = ground (arith, length-promoted_from n issues)

-- One listing gives the whole of a backlog that is short enough.
tick_whole :
    (quota_every : ℕ) (t : ℕ × ℕ) (issues : List BacklogIssue)
    → length issues ≤ default_list_limit
    → tick quota_every t issues ≡ tick_visible quota_every t issues issues
unfolding tick
tick_whole quota_every t issues fits =
    ap (λ visible. tick_visible quota_every t visible issues)
      (take_all default_list_limit issues fits)

length-tick :
    (quota_every now tick_number : ℕ) (issues : List BacklogIssue)
    → length issues ≤ default_list_limit
    → length (tick quota_every (now, tick_number) issues) ≤ length issues
unfolding tick_visible
length-tick quota_every now tick_number [] fits =
    rw (tick_whole quota_every (now, tick_number) [] fits) (omega arith)
length-tick quota_every now tick_number (issue ∷ rest) fits =
    rw (tick_whole quota_every (now, tick_number) (issue ∷ rest) fits) (
      length-promoted_from (pick_issue now tick_number quota_every issue rest).number
        (issue ∷ rest))

tick_low :
    (quota_every now tick_number : ℕ) (issues : List BacklogIssue)
    → length issues ≤ default_list_limit
    → count is_low_priority (tick quota_every (now, tick_number) issues)
      ≤ count is_low_priority issues - (if is_quota_tick quota_every tick_number then 1 else 0)
unfolding count tick_visible
tick_low quota_every now tick_number [] fits =
    rw (tick_whole quota_every (now, tick_number) [] fits) (omega arith)
tick_low quota_every now tick_number (issue ∷ rest) fits =
    let picked = pick_issue now tick_number quota_every issue rest in
    let fewer = low_count-promoted_from picked.number (issue ∷ rest) in
    rw (tick_whole quota_every (now, tick_number) (issue ∷ rest) fits)
      (elim (pick_issue_lem now tick_number quota_every issue rest) [
        | inl (on, smallest) ↦
            ground (arith, on, low_count-picked picked (issue ∷ rest) smallest.is_given)
        | inr (inl off, largest) ↦ ground (arith, off, fewer)
        | inr (inr none_low, largest) ↦
            ground (arith, fewer, ap length none_low, length-filter is_low_priority (issue ∷ rest))
      ])

-- On a backlog of at most 200 issues, to which nothing is added, any sequence of ticks that promote
-- what they pick leaves no more low-priority issues than there were, less one for each quota tick
-- among them: with as many quota ticks as low-priority issues, none is left.
pub ticks_low :
    (quota_every : ℕ) (ts : List (ℕ × ℕ)) (issues : List BacklogIssue)
    → length issues ≤ 200
    → count is_low_priority (ticks quota_every ts issues)
      ≤ count is_low_priority issues - quota_ticks quota_every ts
unfolding ticks quota_ticks count
ticks_low quota_every [] issues fits = omega arith
ticks_low quota_every ((now, tick_number) ∷ ts) issues fits = omega (
  arith,
  tick_low quota_every now tick_number issues fits,
  ticks_low quota_every ts (tick quota_every (now, tick_number) issues)
      (omega (arith, fits, length-tick quota_every now tick_number issues fits)),
)
