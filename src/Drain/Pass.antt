-- ===== src/Drain/Pass.antt =====
-- retinue/adhoc_drain.py: `run_adhoc_drain`, one pass under the lock.
use the_retinue.Base.{
  ℕ, true, false, List, [], ◌∷◌, if◌then◌else◌, nat_eq, list_eq, filter, Text, Unicode, drain_busy,
  ok, err,
}
use the_retinue.Drain.Types.{is_admissible, Seams, DrainState, record_queued}
use the_retinue.Exec.{Exec, modify, lift, ◌>>=◌, ◌>>◌}
use the_retinue.RepoConfig.{RepoConfig}
use the_retinue.AdhocIssue.{AdhocIssue}
use the_retinue.Drain.Plan.{filter_ready, partition_candidates}
use the_retinue.Drain.Select.{open_stranded_prs, select_buildable}
use the_retinue.Drain.Build.{build_metered}

module _ (tables : Unicode) (seams : Seams) (arrange : List AdhocIssue → List AdhocIssue)
    (repo_full_name : Text) (config : RepoConfig) (estimated_amount : ℕ) where
  -- The body of `run_adhoc_drain` behind the selection.
  unfoldable pub build_selected : List AdhocIssue → Exec DrainState (List AdhocIssue)
  unfolding build_metered
  build_selected [] s = (ok [], s)
  build_selected (issue ∷ issues) s =
      build_metered seams arrange repo_full_name estimated_amount (issue ∷ issues) s

  -- The body of the `async with`.
  unfoldable pub drain_body : Exec DrainState (List AdhocIssue)
  unfolding record_queued filter_ready partition_candidates open_stranded_prs select_buildable
      build_selected filter is_admissible
  drain_body = do
    listed ← lift (seams.list_ready config.trigger_label)
    let admitted = filter (is_admissible config) listed
    modify (record_queued seams repo_full_name admitted)
    ready ← lift (filter_ready tables seams.readiness admitted)
    plan ← lift (partition_candidates seams.flight ready)
    open_stranded_prs tables seams repo_full_name plan.stranded_issues
    selected ← lift (select_buildable tables repo_full_name config plan.buildable)
    build_selected selected

  -- `async with lock`: a second entry raises, and the exit frees the lock whatever the body did.
  unfoldable pub run_adhoc_drain : Exec DrainState (List AdhocIssue)
  unfolding drain_body
  run_adhoc_drain s =
      let (result, s') = drain_body (record s { held = true }) in
      if s.held then (err drain_busy, s) else (result, record s' { held = false })
