-- ===== src/Examples/Flights.antt =====
-- The two reads of the flight state (retinue/adhoc_drain.py) at a concrete input.
use the_retinue.Base.{
  ℕ, ◌≡◌, refl, List, [], ◌∷◌, ◌++◌, map, arith, ◌==◌, nat_eq, contains, list_eq, take, filter,
  count, Text, text, ok,
}
use the_retinue.Drain.Types.{FlightSnapshot, state_for}
use the_retinue.Drain.Flight.{
  ref_heads_prefix, FlightQueries, flight_state, flight_snapshot, is_issue_branch, Answers,
  flight_snapshot_lem,
}

abbrev branches : List Text
branches = text "main" ∷ text "issue-1" ∷ text "issue-2" ∷ []

abbrev heads : List Text
heads = text "feature" ∷ text "issue-2" ∷ []

abbrev github : FlightQueries
github = record {
  branch_ref = contains branches;
  open_prs_of = λ b. ok (count (λ h. h == b) heads);
  open_pr_heads = λ n. ok (take n heads);
  issue_refs = ok (map (λ b. ref_heads_prefix ++ b) (filter is_issue_branch branches));
}

github-Answers : Answers github branches heads
github-Answers = record {
  ref_found = λ b. refl;
  prs_counted = λ b. refl;
  heads_listed = λ n. refl;
  refs_matched = refl;
}

flight_snapshot_lem_example :
    (snapshot : FlightSnapshot) × (flight_snapshot github ≡ ok snapshot)
    × ((n : ℕ) → flight_state github n ≡ ok (state_for snapshot n))
flight_snapshot_lem_example = flight_snapshot_lem github branches heads github-Answers (omega arith)
