-- ===== src/Drain/Verdicts.antt =====
-- The partition by flight state in retinue/adhoc_drain.py, as its results show it.
use the_retinue.Base.{
  ℕ, ◌≡◌, ap, ◌∙◌, ◌⊎◌, inl, inr, some, List, [], ◌∷◌, arith, nat_eq, list_eq, All, Dict, lookup,
  insert, lookup-insert, Result, ok, err, ◌>>=◌, >>=-eq-ok, ok-injective, get_item, get_item-eq-ok,
  lookup-nil,
}
use the_retinue.Drain.Types.{
  ReadyIssue, FlightState, absent, stranded, in_flight, state_for, FlightGh, with_snapshot,
  per_issue,
}
use the_retinue.Drain.Plan.{DrainPlan, place, ask_each, flight_states, partition_by}

-- GitHub's verdict on an issue, by either kind of seam.
pub verdict : FlightGh → ℕ → Result FlightState
verdict (with_snapshot (err e)) n = err e
verdict (with_snapshot (ok snapshot)) n = ok (state_for snapshot n)
verdict (per_issue ask) n = ask n

-- A state that the loop of `_flight_states` keeps is what the seam said.
ask_each_lem :
    (ask : ℕ → Result FlightState) (states : Dict ℕ FlightState) (issues : List ReadyIssue)
    {found : Dict ℕ FlightState}
    → ask_each ask states issues ≡ ok found
    → (n : ℕ) (state : FlightState) → lookup n found ≡ some state
    → (lookup n states ≡ some state) ⊎ (ask n ≡ ok state)
unfolding ask_each
ask_each_lem ask states [] {found} e n state h = inl (ap (lookup n) (ok-injective e) ∙ h)
ask_each_lem ask states (issue ∷ issues) e n state h =
    let (st, asked, rest) =
      >>=-eq-ok (ask issue.number) (λ st. ask_each ask (insert issue.number st states) issues) e in
    elim (ask_each_lem ask (insert issue.number st states) issues rest n state h) [
      | inl kept ↦ ground (arith, lookup-insert issue.number n st states, kept, asked)
      | inr said ↦ inr said
    ]

pub flight_states_lem :
    (gh : FlightGh) (issues : List ReadyIssue) {found : Dict ℕ FlightState}
    → flight_states gh issues ≡ ok found
    → (n : ℕ) (state : FlightState) → lookup n found ≡ some state
    → verdict gh n ≡ ok state
unfolding flight_states verdict
flight_states_lem (with_snapshot (err x)) issues e n state h = cc
flight_states_lem (with_snapshot (ok snapshot)) issues e n state h =
    elim (ask_each_lem (λ m. ok (state_for snapshot m)) [] issues e n state h) [
      | inl kept ↦ absurd (lookup-nil n kept)
      | inr said ↦ said
    ]
flight_states_lem (per_issue ask) issues e n state h =
    elim (ask_each_lem ask [] issues e n state h) [
      | inl kept ↦ absurd (lookup-nil n kept)
      | inr said ↦ said
    ]

place_lem :
    (P : ReadyIssue → Type 0) (states : Dict ℕ FlightState) (issue : ReadyIssue)
    (state : FlightState) (plan : DrainPlan)
    → P issue
    → lookup issue.number states ≡ some state
    → All (λ i. P i × (lookup i.number states ≡ some absent)) plan.buildable
      × All (λ i. P i × (lookup i.number states ≡ some stranded)) plan.stranded_issues
    → All (λ i. P i × (lookup i.number states ≡ some absent)) (place issue state plan).buildable
      × All
          (λ i. P i × (lookup i.number states ≡ some stranded))
          (place issue state plan).stranded_issues
unfolding place
place_lem P states issue absent plan p e h = (((p, e), h.0), h.1)
place_lem P states issue stranded plan p e h = (h.0, ((p, e), h.1))
place_lem P states issue in_flight plan p e h = h

-- Both parts of a plan have what all the issues have, and the states that put them there.
pub partition_by_lem :
    (P : ReadyIssue → Type 0) (states : Dict ℕ FlightState) (issues : List ReadyIssue)
    {plan : DrainPlan}
    → partition_by states issues ≡ ok plan
    → All P issues
    → All (λ i. P i × (lookup i.number states ≡ some absent)) plan.buildable
      × All (λ i. P i × (lookup i.number states ≡ some stranded)) plan.stranded_issues
unfolding partition_by
partition_by_lem P states [] e h = rw (← ok-injective e) (tt, tt)
partition_by_lem P states (issue ∷ issues) e h =
    let (state, got, e1) =
      >>=-eq-ok (get_item issue.number states)
        (λ st. partition_by states issues >>= λ p. ok (place issue st p)) e in
    let (plan, rest, placed) =
      >>=-eq-ok (partition_by states issues) (λ p. ok (place issue state p)) e1 in
    rw (← ok-injective placed) (
      place_lem P states issue state plan h.0 (get_item-eq-ok issue.number states got)
        (partition_by_lem P states issues rest h.1))
