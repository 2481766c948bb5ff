-- ===== src/Drain/Select.antt =====
-- retinue/adhoc_drain.py: the recovery of stranded branches and the choice of the builds.
use the_retinue.Base.{
  ℕ, List, [], ◌∷◌, ◌++◌, map, nat_eq, list_eq, Text, Unicode, Dict, insert, Result, ok, err, ◌>>=◌,
  get_item,
}
use the_retinue.Drain.Types.{ReadyIssue, Seams, DrainState}
use the_retinue.Exec.{Exec}
use the_retinue.RepoConfig.{RepoConfig}
use the_retinue.Scheduler.{Candidate, select_to_build}
use the_retinue.AdhocIssue.{AdhocIssue, from_fetched_issue}

-- `_open_stranded_prs`: a call that raises ends the drain.
unfoldable pub open_stranded_prs :
    Unicode → Seams → Text → List ReadyIssue → Exec DrainState (Unit {0})
unfolding from_fetched_issue
open_stranded_prs tables seams repo [] s = (ok tt, s)
open_stranded_prs tables seams repo (issue ∷ issues) s =
    let materialized = from_fetched_issue tables repo issue.number issue.body in
    let called = record s { opened = s.opened ++ materialized ∷ [] } in
    let rest = open_stranded_prs tables seams repo issues called in
    elim (seams.open_pr materialized) [ err e ↦ (err e, called) | ok _ ↦ rest ]

-- `by_number`: a later issue replaces an earlier one of its number.
unfoldable pub by_number_onto : Dict ℕ ReadyIssue → List ReadyIssue → Dict ℕ ReadyIssue
unfolding insert
by_number_onto found [] = found
by_number_onto found (issue ∷ issues) = by_number_onto (insert issue.number issue found) issues

unfoldable pub materialize_all :
    Unicode → Text → Dict ℕ ReadyIssue → List Candidate → Result (List AdhocIssue)
unfolding get_item from_fetched_issue
materialize_all tables repo by_number [] = ok []
materialize_all tables repo by_number (c ∷ cs) = do
  issue ← get_item c.number by_number
  rest ← materialize_all tables repo by_number cs
  ok (from_fetched_issue tables repo c.number issue.body ∷ rest)

abbrev pub candidate_of : ReadyIssue → Candidate
candidate_of issue = record { number = issue.number; labels = issue.labels }

-- `_select_buildable`
unfoldable pub select_buildable :
    Unicode → Text → RepoConfig → List ReadyIssue → Result (List AdhocIssue)
unfolding by_number_onto materialize_all select_to_build
select_buildable tables repo config buildable =
    materialize_all tables repo (by_number_onto [] buildable)
      (select_to_build config (map candidate_of buildable) config.max_parallel)
