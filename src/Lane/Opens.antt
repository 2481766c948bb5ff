-- ===== src/Lane/Opens.antt =====
-- When the build of an issue and the pipeline behind it (retinue/pipeline.py) open a pull request.
use the_retinue.Base.{
  ◌+◌, ◌≡◌, refl, ap, ◌∙◌, ◌⊎◌, inl, inr, true, false, Option, some, List, [], ◌∷◌, nat_eq, list_eq,
  All, Text, Result-cases,
}
use the_retinue.AdhocIssue.{AdhocIssue}
use the_retinue.Container.{ReviewFinding, destroying, BuildLog}
use the_retinue.Gate.{is_blocking, ReviewGateOutcome}
use the_retinue.Gate.Cleared.{Reviewed, Cleared}
use the_retinue.AdhocBuild.{AdhocBuildResult, build_adhoc_issue}
use the_retinue.Pipeline.Opening.{opens, Opened, process_adhoc_pr-opens}
use the_retinue.Lane.{Lane, LaneState, resolve_adhoc_level, lane_job, process_built, build_lane}
use the_retinue.Lane.Shipped.{Shipped, build_adhoc_issue-Shipped}

module _ (lane : Lane) (issue : AdhocIssue) where
  -- The last thing that was done in the build's container is a review of the branch's diff, in which
  -- nothing was found that blocks.
  pub ReviewedLast : BuildLog → Type 0
  ReviewedLast log =
      (before : BuildLog) × (findings : List ReviewFinding) × (log ≡ destroying ∷ before)
      × Reviewed lane.build lane.config issue findings before
      × All (λ f. is_blocking f ≡ false) findings

  -- No pull request more, or one, behind such a review.
  pub Lands : LaneState → LaneState → Type 0
  Lands s s' =
      (opens s'.state.log ≡ opens s.state.log)
      ⊎ ((opens s'.state.log ≡ opens s.state.log + 1) × ReviewedLast s'.log)

  lane_job-reviewed : (level : Option Text) → (lane_job lane level).with_review ≡ true
  unfolding lane_job
  lane_job-reviewed level = refl

  lane_job-config : (level : Option Text) → (lane_job lane level).config ≡ lane.config
  unfolding lane_job
  lane_job-config level = refl

  reviewed_last :
      (level : Option Text) (result : AdhocBuildResult) (log : BuildLog)
      → Shipped lane.build (lane_job lane level) issue (lane_job-reviewed level) result log
      → result.passed ≡ true
      → ((gate : ReviewGateOutcome) → result.gate ≡ some gate → gate.blocking ≡ [])
      → ReviewedLast log
  unfolding ReviewedLast lane_job Shipped Cleared
  reviewed_last level result log shipped passed clear =
      let (gate, before, found, ended, cleared) = shipped.1 passed in
      let (findings, read, none_block, backlog) = cleared (clear gate found) in
      (before, findings, ended, read, none_block)

  unlanded : (s t : LaneState) → t.state ≡ s.state → Lands s t
  unfolding Lands
  unlanded s t same = inl (ap (λ p. opens p.log) same)

  processed-Lands :
      (level : Option Text) (result : AdhocBuildResult) (s t : LaneState)
      → t.state ≡ s.state
      → Shipped lane.build (lane_job lane level) issue (lane_job-reviewed level) result t.log
      → Lands s (process_built lane issue result t).1
  unfolding process_built Lands Opened
  processed-Lands level result s t same shipped =
      elim (process_adhoc_pr-opens lane.pipeline lane.config issue result t.state) [
        | inl unopened ↦ inl (unopened ∙ ap (λ p. opens p.log) same)
        | inr (passed, clear, opened) ↦ elim opened [
          | inl unopened ↦ inl (unopened ∙ ap (λ p. opens p.log) same)
          | inr (more, _, _, _, _) ↦ inr (
            more ∙ ap (λ p. opens p.log + 1) same,
            reviewed_last level result t.log shipped passed clear,
          )
        ]
      ]

  -- `build_lane` opens at most one pull request, and if it opens one, then `destroy` of the build's
  -- container was called right after a review of the issue's branch, in which the reviewer found nothing of the
  -- threshold: no way of the build, the gate and the pipeline opens one without such a review.
  pub build_lane-Lands : (s : LaneState) → Lands s (build_lane lane issue s).1
  unfolding build_lane
  build_lane-Lands s =
      let level = (resolve_adhoc_level lane s.routed).0 in
      elim (Result-cases (build_adhoc_issue lane.build (lane_job lane level) issue s.log).0) [
        | inr (raised, e) ↦ rw (e, build_lane) (unlanded s _ refl)
        | inl (result, e) ↦
            rw (e, build_lane)
              (processed-Lands level result s _ refl (
                build_adhoc_issue-Shipped lane.build (lane_job lane level) issue
                  (lane_job-reviewed level) s.log result e))
      ]
