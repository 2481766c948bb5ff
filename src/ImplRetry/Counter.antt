-- ===== src/ImplRetry/Counter.antt =====
-- The retry table of retinue/impl_retry.py implements a counter for each key.
use the_retinue.Base.{
  ℕ, ◌+◌, ◌≡◌, refl, ap, ◌∙◌, List, [], ◌∷◌, arith, if◌then◌else◌, ◌==◌, nat_eq, list_beq,
  list_beq_iff, list_eq, count, Text, lookup,
}
use the_retinue.ImplRetry.{RetryTable, attempts_of, bump, record_attempt}

-- What a worker asks of the store.
pub data Request : Type 0 where
  count_of record_one : Text → Request

-- The answers of the store to a sequence of requests.
unfoldable pub answers : List Request → RetryTable → List ℕ
unfolding record_attempt attempts_of
answers [] table = []
answers (count_of key ∷ requests) table = attempts_of key table ∷ answers requests table
answers (record_one key ∷ requests) table =
    let (attempts, bumped) = record_attempt key table in attempts ∷ answers requests bumped

-- The specification: a request is answered by the number of attempts of its key so far, itself
-- included. The state is the keys of these attempts.
unfoldable pub spec_answers : List Request → List Text → List ℕ
unfolding count list_beq
spec_answers [] past = []
spec_answers (count_of key ∷ requests) past =
    count (λ k. k == key) past ∷ spec_answers requests past
spec_answers (record_one key ∷ requests) past =
    count (λ k. k == key) (key ∷ past) ∷ spec_answers requests (key ∷ past)

-- The table stands for these attempts.
Stands : RetryTable → List Text → Type 0
Stands table past = (key : Text) → attempts_of key table ≡ count (λ k. k == key) past

attempts_of-bump :
    (key other : Text) (table : RetryTable)
    → attempts_of other (bump key table)
      ≡ (if key == other then attempts_of other table + 1 else attempts_of other table)
unfolding attempts_of bump lookup
attempts_of-bump key other [] = ground arith
attempts_of-bump key other ((k, n) ∷ table) = ground (
  arith,
  list_beq_iff key other,
  list_beq_iff k key,
  list_beq_iff k other,
  attempts_of-bump key other table,
)

bump-Stands :
    (key : Text) (table : RetryTable) (past : List Text)
    → Stands table past
    → Stands (bump key table) (key ∷ past)
unfolding Stands count
bump-Stands key table past h other = ground (arith, attempts_of-bump key other table, h other)

answers-Stands :
    (requests : List Request) (table : RetryTable) (past : List Text)
    → Stands table past
    → answers requests table ≡ spec_answers requests past
unfolding answers spec_answers record_attempt Stands
answers-Stands [] table past h = refl
answers-Stands (count_of key ∷ requests) table past h =
    ap (λ n. n ∷ answers requests table) (h key)
    ∙ ap (λ rest. count (λ k. k == key) past ∷ rest) (answers-Stands requests table past h)
answers-Stands (record_one key ∷ requests) table past h =
    let bumped = bump-Stands key table past h in
    ap (λ n. n ∷ answers requests (bump key table)) (bumped key)
    ∙ ap (λ rest. count (λ k. k == key) (key ∷ past) ∷ rest)
        (answers-Stands requests (bump key table) (key ∷ past) bumped)

-- From an empty table, the store answers any sequence of counts and attempts, on any keys and in any
-- order, as a counter per key does: with the number of attempts of the key so far.
pub answers_lem : (requests : List Request) → answers requests [] ≡ spec_answers requests []
unfolding Stands attempts_of lookup count
answers_lem requests = answers-Stands requests [] [] (λ key. refl)
