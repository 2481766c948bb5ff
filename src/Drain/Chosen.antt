-- ===== src/Drain/Chosen.antt =====
-- The issues that `_select_buildable` of retinue/adhoc_drain.py materializes.
use the_retinue.Base.{
  ℕ, suc, ◌≤◌, ◌≡◌, sym, ap, ◌∙◌, inl, inr, some, List, [], ◌∷◌, map, arith, nat_beq_iff,
  Bool-cases, ◌==◌, nat_eq, list_eq, length, All, Text, Unicode, Dict, lookup, insert,
  lookup-insert, ok, ◌>>=◌, >>=-eq-ok, ok-injective, get_item, get_item-eq-ok, lookup-nil,
}
use the_retinue.AdhocIssue.{AdhocIssue, from_fetched_issue}
use the_retinue.RepoConfig.{RepoConfig}
use the_retinue.Scheduler.{Candidate, select_to_build}
use the_retinue.Scheduler.Slots.{length-select_to_build}
use the_retinue.Drain.Types.{ReadyIssue}
use the_retinue.Drain.Select.{by_number_onto, materialize_all, candidate_of, select_buildable}

insert_lem :
    (P : ReadyIssue → Type 0) (found : Dict ℕ ReadyIssue) (issue : ReadyIssue)
    → ((n : ℕ) (i : ReadyIssue) → lookup n found ≡ some i → P i × (i.number ≡ n))
    → P issue
    → (n : ℕ) (i : ReadyIssue) → lookup n (insert issue.number issue found) ≡ some i
    → P i × (i.number ≡ n)
insert_lem P found issue inv p n i e = elim (Bool-cases (issue.number == n)) [
  | inl same ↦
      let q : issue ≡ i = ground (arith, lookup-insert issue.number n issue found, e, same) in
      rw (← q) (p, ground (arith, same, nat_beq_iff issue.number n))
  | inr other ↦ inv n i (ground (arith, lookup-insert issue.number n issue found, e, other))
]

-- `by_number` answers with an issue of the number.
pub by_number_onto_lem :
    (P : ReadyIssue → Type 0) (found : Dict ℕ ReadyIssue) (issues : List ReadyIssue)
    → ((n : ℕ) (i : ReadyIssue) → lookup n found ≡ some i → P i × (i.number ≡ n))
    → All P issues
    → (n : ℕ) (i : ReadyIssue) → lookup n (by_number_onto found issues) ≡ some i
    → P i × (i.number ≡ n)
unfolding by_number_onto
by_number_onto_lem P found [] inv h n i e = inv n i e
by_number_onto_lem P found (issue ∷ issues) inv h n i e =
    by_number_onto_lem P (insert issue.number issue found) issues
      (λ m j f. insert_lem P found issue inv h.0 m j f) h.1 n i e

pub materialize_all_lem :
    (tables : Unicode) (repo : Text) (Q : AdhocIssue → Type 0) (by_number : Dict ℕ ReadyIssue)
    (cs : List Candidate) {selected : List AdhocIssue}
    → ((n : ℕ) (i : ReadyIssue)
        → lookup n by_number ≡ some i
        → Q (from_fetched_issue tables repo i.number i.body) × (i.number ≡ n))
    → materialize_all tables repo by_number cs ≡ ok selected
    → All Q selected
unfolding materialize_all
materialize_all_lem tables repo Q d [] inv e = rw (← ok-injective e) tt
materialize_all_lem tables repo Q d (c ∷ cs) inv e =
    let (issue, got, e1) =
      >>=-eq-ok (get_item c.number d)
        (λ i. materialize_all tables repo d cs >>= λ rest.
          ok (from_fetched_issue tables repo c.number i.body ∷ rest))
        e in
    let (rest, tail, e2) =
      >>=-eq-ok (materialize_all tables repo d cs)
        (λ rest. ok (from_fetched_issue tables repo c.number issue.body ∷ rest)) e1 in
    let (q, same) = inv c.number issue (get_item-eq-ok c.number d got) in
    rw (← ok-injective e2, ← same) (q, materialize_all_lem tables repo Q d cs inv tail)

pub select_buildable_lem :
    (tables : Unicode) (repo : Text) (config : RepoConfig) (Q : AdhocIssue → Type 0)
    (buildable : List ReadyIssue) {selected : List AdhocIssue}
    → select_buildable tables repo config buildable ≡ ok selected
    → All (λ i. Q (from_fetched_issue tables repo i.number i.body)) buildable
    → All Q selected
unfolding select_buildable
select_buildable_lem tables repo config Q buildable e h =
    materialize_all_lem tables repo Q (by_number_onto [] buildable) _
      (by_number_onto_lem (λ i. Q (from_fetched_issue tables repo i.number i.body)) [] buildable
        (λ n i f. absurd (lookup-nil n f)) h)
      e

length-materialize_all :
    (tables : Unicode) (repo : Text) (by_number : Dict ℕ ReadyIssue) (cs : List Candidate)
    {selected : List AdhocIssue}
    → materialize_all tables repo by_number cs ≡ ok selected
    → length selected ≡ length cs
unfolding materialize_all
length-materialize_all tables repo d [] e = sym (ap length (ok-injective e))
length-materialize_all tables repo d (c ∷ cs) e =
    let (issue, got, e1) =
      >>=-eq-ok (get_item c.number d)
        (λ i. materialize_all tables repo d cs >>= λ rest.
          ok (from_fetched_issue tables repo c.number i.body ∷ rest))
        e in
    let (rest, tail, e2) =
      >>=-eq-ok (materialize_all tables repo d cs)
        (λ rest. ok (from_fetched_issue tables repo c.number issue.body ∷ rest)) e1 in
    sym (ap length (ok-injective e2)) ∙ ap suc (length-materialize_all tables repo d cs tail)

pub length-select_buildable :
    (tables : Unicode) (repo : Text) (config : RepoConfig) (buildable : List ReadyIssue) (n : ℕ)
    {selected : List AdhocIssue}
    → config.max_parallel ≡ some n
    → select_buildable tables repo config buildable ≡ ok selected
    → length selected ≤ n
unfolding select_buildable
length-select_buildable tables repo config buildable n capped e =
    let cs = map candidate_of buildable in
    omega (
      arith,
      length-materialize_all tables repo (by_number_onto [] buildable)
          (select_to_build config cs config.max_parallel) e,
      ap (λ m. length (select_to_build config cs m)) capped,
      length-select_to_build config cs n,
    )
