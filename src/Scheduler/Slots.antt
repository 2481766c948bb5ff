-- ===== src/Scheduler/Slots.antt =====
-- How many builds a pass starts, and of which queue (retinue/scheduler.py, `select_to_build`).
use the_retinue.Base.{
  ℕ, zero, suc, ◌+◌, ◌-◌, ◌≤◌, min, ◌≡◌, refl, ap, ◌∙◌, inl, inr, Bool, true, false, not, some,
  List, [], ◌∷◌, ◌++◌, arith, Bool-cases, nat_eq, list_eq, length, take, filter, count,
  length-append, length-take, length-filter, count-append, All, All-filter, All-take, sort_by-perm,
}
use mathlib.Core.List.{Perm, Permᴰ}
use mathlib.Core.Logic.{∥∥₁_elim}
use native.Mathlib.Nat.{ℕ_set}
use the_retinue.RepoConfig.{RepoConfig}
use the_retinue.Scheduler.{Candidate, key_le, is_priority, ranked, select_capped, select_to_build}

module _ {ℓ} {A : Type ℓ} (p : A → Bool) where
  count-All : (xs : List A) → All (λ x. p x ≡ true) xs → count p xs ≡ length xs
  unfolding count
  count-All [] h = refl
  count-All (x ∷ xs) h = ground (arith, count-All xs)

  count_no : (xs : List A) → All (λ x. p x ≡ false) xs → count p xs ≡ 0
  unfolding count
  count_no [] h = refl
  count_no (x ∷ xs) h = ground (arith, count_no xs)

  count-not : (xs : List A) → count p xs + count (λ x. not (p x)) xs ≡ length xs
  unfolding count
  count-not [] = refl
  count-not (x ∷ xs) = ground (arith, count-not xs)

  All-filter-not : (xs : List A) → All (λ x. p x ≡ false) (filter (λ x. not (p x)) xs)
  unfolding filter
  All-filter-not [] = tt
  All-filter-not (x ∷ xs) = elim (Bool-cases (p x)) [
    | inl e ↦ rw e (All-filter-not xs)
    | inr e ↦ rw e (e, All-filter-not xs)
  ]

  count_of_perm_data : (xs ys : List A) → Permᴰ xs ys → count p xs ≡ count p ys
  unfolding count
  count_of_perm_data _ _ Permᴰ.nil = refl
  count_of_perm_data _ _ (Permᴰ.cons {a} {b} {l₁} {l₂} e m) =
      ground (arith, count_of_perm_data l₁ l₂ m, e)
  count_of_perm_data _ _ (Permᴰ.swap e f) = ground (arith, e, f)
  count_of_perm_data _ _ (Permᴰ.trans {l₁} {l₂} {l₃} m n) =
      count_of_perm_data l₁ l₂ m ∙ count_of_perm_data l₂ l₃ n

  count_of_perm : (xs ys : List A) → Perm xs ys → count p xs ≡ count p ys
  count_of_perm xs ys m = ∥∥₁_elim m (ℕ_set _ _) (count_of_perm_data xs ys)

-- The two queues, with what partitioning makes true of them.
module _ (config : RepoConfig) where
  abbrev pub Priority : List Candidate → Type 0
  Priority = All (λ c. is_priority config c ≡ true)

  abbrev pub Main : List Candidate → Type 0
  Main = All (λ c. is_priority config c ≡ false)

  -- The number of main-queue candidates in a list.
  abbrev pub main_count : List Candidate → ℕ
  main_count = count (λ c. not (is_priority config c))

  -- The counts of the return, for queues that hold what they should.
  counts_capped :
      (priority main : List Candidate) (n : ℕ)
      → Priority priority
      → Main main
      → (count (is_priority config) (select_capped config priority main (suc (suc n)))
          ≡ min (suc (suc n)) (length priority))
        × (main_count (select_capped config priority main (suc (suc n)))
            ≡ min (length main) (min (suc n) (suc (suc n) - length priority)))
  unfolding select_capped
  counts_capped priority main n hp hm =
      let p = is_priority config in
      let p_take = take (suc (suc n)) priority in
      let room = min (suc (suc n) - 1) (suc (suc n) - length p_take) in
      let m_take = take room main in
      omega (
        arith,
        count-append p p_take m_take,
        count-append (λ c. not (p c)) p_take m_take,
        count-All p p_take (All-take (λ c. p c ≡ true) (suc (suc n)) priority hp),
        count_no p m_take (All-take (λ c. p c ≡ false) room main hm),
        count-not p p_take,
        count-not p m_take,
        length-take (suc (suc n)) priority,
        length-take room main,
      )

  -- With room for two builds or more, a pass starts as many priority candidates as the cap allows,
  -- and main candidates in the rest of the cap, but never in its last slot.
  pub select_to_build_counts :
      (candidates : List Candidate) (cap : ℕ)
      → 2 ≤ cap
      → (count (is_priority config) (select_to_build config candidates (some cap))
          ≡ min cap (count (is_priority config) candidates))
        × (main_count (select_to_build config candidates (some cap))
            ≡ min
                (main_count candidates)
                (min (cap - 1) (cap - count (is_priority config) candidates)))
  unfolding select_to_build
  select_to_build_counts candidates zero h = absurd (omega arith)
  select_to_build_counts candidates (suc zero) h = absurd (omega arith)
  select_to_build_counts candidates (suc (suc n)) h =
      let p = is_priority config in
      let sorted = ranked config candidates in
      let (a, b) =
        counts_capped (filter p sorted) (filter (λ c. not (p c)) sorted) n (All-filter p sorted)
          (All-filter-not p sorted) in
      let same = count_of_perm p sorted candidates (sort_by-perm (key_le config) candidates) in
      let same_main =
        count_of_perm (λ c. not (p c)) sorted candidates
          (sort_by-perm (key_le config) candidates) in
      let size = length-filter p sorted ∙ same in
      let size_main = length-filter (λ c. not (p c)) sorted ∙ same_main in
      (a ∙ ap (min (suc (suc n))) size, omega (arith, b, size, size_main))

  length-select_capped :
      (priority main : List Candidate) (n : ℕ) → length (select_capped config priority main n) ≤ n
  unfolding select_capped
  length-select_capped priority main zero = omega arith
  length-select_capped priority main (suc zero) = omega (arith, length-take 1 (priority ++ main))
  length-select_capped priority main (suc (suc n)) =
      let p_take = take (suc (suc n)) priority in
      let m_take = take (min (suc (suc n) - 1) (suc (suc n) - length p_take)) main in
      omega (
        arith,
        length-append p_take m_take,
        length-take (suc (suc n)) priority,
        length-take (min (suc (suc n) - 1) (suc (suc n) - length p_take)) main,
      )

  -- No more candidates are selected than the cap admits.
  pub length-select_to_build :
      (candidates : List Candidate) (n : ℕ)
      → length (select_to_build config candidates (some n)) ≤ n
  unfolding select_to_build
  length-select_to_build candidates n =
      length-select_capped (filter (is_priority config) (ranked config candidates))
        (filter (λ c. not (is_priority config c)) (ranked config candidates)) n
