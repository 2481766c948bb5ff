-- ===== src/Scheduler/Choice.antt =====
-- Which candidates a pass starts, and in which order (retinue/scheduler.py, `select_to_build`).
use the_retinue.Base.{
  ℕ, zero, suc, ◌≡◌, refl, ap, Bool, true, not, some, List, [], ◌∷◌, ◌++◌, nat_eq, list_eq, take,
  drop, take-append-drop, All-append_left, All-append_right, filter, All-append, All-take,
  sort_by-perm, IsSortedBy,
}
use mathlib.Core.List.{Perm, append_assoc, perm_append_comm}
use mathlib.Core.List.Perm
use the_retinue.RepoConfig.{RepoConfig}
use the_retinue.RepoConfig.Validate.{is_valid}
use the_retinue.Scheduler.{Candidate, key_le, is_priority, ranked, select_to_build}
use the_retinue.Scheduler.Order.{filter-perm, ranked-IsSortedBy, select_to_build-ranked}

module _ {ℓ} {A : Type ℓ} where
  -- Front parts of two lists and what is left of them.
  take-take-perm :
      (m n : ℕ) (xs ys : List A)
      → Perm ((take m xs ++ take n ys) ++ (drop m xs ++ drop n ys)) (xs ++ ys)
  take-take-perm m n xs ys =
      let swapped = Perm.append_right (drop n ys) (perm_append_comm (take n ys) (drop m xs)) in
      rw (append_assoc, ← append_assoc (take n ys) (drop m xs) (drop n ys))
        (Perm.trans (Perm.append_left (take m xs) swapped) (
          rw (append_assoc (drop m xs) (take n ys) (drop n ys), take-append-drop n ys)
            (rw (← append_assoc (take m xs) (drop m xs) ys, take-append-drop m xs)
              (Perm.refl (xs ++ ys)))))

  module _ (le : A → A → Bool) where
    IsSortedBy-append_right : (xs ys : List A) → IsSortedBy le (xs ++ ys) → IsSortedBy le ys
    IsSortedBy-append_right [] ys h = h
    IsSortedBy-append_right (x ∷ xs) ys h = IsSortedBy-append_right xs ys h.1

    IsSortedBy-take : (n : ℕ) (xs : List A) → IsSortedBy le xs → IsSortedBy le (take n xs)
    IsSortedBy-take zero xs h = tt
    IsSortedBy-take (suc n) [] h = tt
    IsSortedBy-take (suc n) (x ∷ xs) h =
        (All-take (λ y. le x y ≡ true) n xs h.0, IsSortedBy-take n xs h.1)

    IsSortedBy-take-take :
        (m n : ℕ) (xs ys : List A)
        → IsSortedBy le (xs ++ ys)
        → IsSortedBy le (take m xs ++ take n ys)
    IsSortedBy-take-take zero n xs ys h = IsSortedBy-take n ys (IsSortedBy-append_right xs ys h)
    IsSortedBy-take-take (suc m) n [] ys h = IsSortedBy-take n ys h
    IsSortedBy-take-take (suc m) n (x ∷ xs) ys h = (
      All-append (λ y. le x y ≡ true) (take m xs) (take n ys)
          (All-take (λ y. le x y ≡ true) m xs (All-append_left (λ y. le x y ≡ true) xs ys h.0))
          (All-take (λ y. le x y ≡ true) n ys (All-append_right (λ y. le x y ≡ true) xs ys h.0)),
      IsSortedBy-take-take m n xs ys h.1,
    )

module _ (config : RepoConfig) where
  abbrev priority_queue : List Candidate → List Candidate
  priority_queue candidates = filter (is_priority config) (ranked config candidates)

  abbrev main_queue : List Candidate → List Candidate
  main_queue candidates = filter (λ c. not (is_priority config c)) (ranked config candidates)

  queues-perm :
      (candidates : List Candidate)
      → Perm (priority_queue candidates ++ main_queue candidates) candidates
  unfolding ranked
  queues-perm candidates =
      Perm.trans (filter-perm (is_priority config) (ranked config candidates))
        (sort_by-perm (key_le config) candidates)

  queues-ranked :
      (candidates : List Candidate)
      → is_valid config ≡ true
      → priority_queue candidates ++ main_queue candidates ≡ ranked config candidates
  unfolding select_to_build
  queues-ranked candidates valid = select_to_build-ranked config candidates valid

  -- A capped choice takes a front part of each queue.
  pub record Fronts (candidates : List Candidate) (cap : ℕ) : Type 0 where
    pub of_priority : ℕ
    pub of_main : ℕ
    pub choice :
        select_to_build config candidates (some cap)
        ≡ take of_priority (priority_queue candidates) ++ take of_main (main_queue candidates)

  strict_front :
      (priority main : List Candidate)
      → (m : ℕ) × (n : ℕ) × (take 1 (priority ++ main) ≡ take m priority ++ take n main)
  strict_front [] main = (0, 1, refl)
  strict_front (x ∷ priority) main = (1, 0, refl)

  fronts : (candidates : List Candidate) (cap : ℕ) → Fronts candidates cap
  unfolding select_to_build
  fronts candidates zero = record { of_priority = 0; of_main = 0; choice = refl }
  fronts candidates (suc zero) =
      let (m, n, e) = strict_front (priority_queue candidates) (main_queue candidates) in
      record { of_priority = m; of_main = n; choice = e }
  fronts candidates (suc (suc n)) = record { of_priority = suc (suc n); of_main = _; choice = refl }

  -- What a pass starts, with the candidates it leaves, are the given candidates: none is invented
  -- and none is started twice.
  pub select_to_build-perm :
      (candidates : List Candidate) (cap : ℕ)
      → (left : List Candidate) × Perm
          (select_to_build config candidates (some cap) ++ left)
          candidates
  select_to_build-perm candidates cap =
      let f = fronts candidates cap in
      let p = priority_queue candidates in
      let m = main_queue candidates in
      (
        drop f.of_priority p ++ drop f.of_main m,
        rw f.choice
            (Perm.trans (take-take-perm f.of_priority f.of_main p m) (queues-perm candidates)),
      )

  -- With a valid configuration, the builds of a capped pass are in rank order too.
  pub select_to_build-IsSortedBy :
      (candidates : List Candidate) (cap : ℕ)
      → is_valid config ≡ true
      → IsSortedBy (key_le config) (select_to_build config candidates (some cap))
  select_to_build-IsSortedBy candidates cap valid =
      let f = fronts candidates cap in
      rw f.choice (
        IsSortedBy-take-take (key_le config) f.of_priority f.of_main (priority_queue candidates)
          (main_queue candidates)
          (rw (queues-ranked candidates valid) (ranked-IsSortedBy config candidates)))

  -- With a valid configuration and a cap of 1, the one build is the first of all candidates in
  -- rank order.
  pub select_to_build-one :
      (candidates : List Candidate)
      → is_valid config ≡ true
      → select_to_build config candidates (some 1) ≡ take 1 (ranked config candidates)
  unfolding select_to_build
  select_to_build-one candidates valid = ap (take 1) (queues-ranked candidates valid)
