-- ===== src/Pipeline/Chain.antt =====
-- The chain of a review's findings, filed as issues that are built and reviewed in turn
-- (retinue/pipeline.py, retinue/adhoc_build.py), ends.
use the_retinue.Base.{
  ℕ, zero, suc, ◌+◌, ◌<◌, ◌≡◌, refl, ◌⊎◌, inl, inr, [], ◌∷◌, ◌++◌, arith, nat_eq, list_eq, Unicode,
  HasAsciiDigits,
}
use the_retinue.RepoConfig.{RepoConfig}
use the_retinue.AdhocIssue.{AdhocIssue, from_fetched_issue}
use the_retinue.AdhocBuild.{AdhocBuildResult}
use the_retinue.Github.{IssueDraft, filed, CallLog, PipelineState, PipelineSeams}
use the_retinue.Pipeline.{process_adhoc_pr}
use the_retinue.Pipeline.Filing.{fresh-P, process-P, deeper}

-- One hop: whatever came of the first issue's build, the pipeline filed a draft for it, and the
-- second issue is what a drain reads of the draft, under any number.
pub data Hop (tables : Unicode) (config : RepoConfig) : AdhocIssue → AdhocIssue → Type 0 where
  hop :
      (seams : PipelineSeams) (issue : AdhocIssue) (build : AdhocBuildResult) (s : PipelineState)
      (front back : CallLog) (draft : IssueDraft) (number : ℕ)
      → s.log ≡ []
      → (process_adhoc_pr seams config issue build s).1.log ≡ front ++ filed draft ∷ back
      → Hop tables config issue (from_fetched_issue tables issue.repo_full_name number draft.body)

pub data Chain (tables : Unicode) (config : RepoConfig) : ℕ → AdhocIssue → AdhocIssue → Type 0 where
  ends : (issue : AdhocIssue) → Chain tables config 0 issue issue
  hops :
      {n : ℕ} {first second third : AdhocIssue}
      → Hop tables config first second
      → Chain tables config n second third
      → Chain tables config (suc n) first third

module _ (tables : Unicode) (config : RepoConfig) (ascii : HasAsciiDigits tables) where
  Hop-depth :
      {first second : AdhocIssue}
      → Hop tables config first second
      → (second.chain_depth ≡ first.chain_depth + 1) × (first.chain_depth + 1 < config.retry_cap)
  unfolding from_fetched_issue
  Hop-depth (hop seams issue build s front back draft number fresh e) =
      deeper tables config issue ascii seams (process_adhoc_pr seams config issue build s).1 front
        back draft
        (process-P tables config issue ascii seams build s (fresh-P tables config issue s fresh)) e

  -- With character tables that know the ASCII digits, a chain of `n` hops ends at a depth that is
  -- `n` more than the first issue's, and if it has a hop, below the configured `retry_cap`. So no
  -- chain has `retry_cap` hops: the review-fix chain ends, whatever the reviews find and whatever
  -- numbers GitHub gives.
  pub Chain-ends :
      (n : ℕ) (first last : AdhocIssue)
      → Chain tables config n first last
      → (last.chain_depth ≡ first.chain_depth + n)
        × ((n ≡ 0) ⊎ (first.chain_depth + n < config.retry_cap))
  Chain-ends zero first last (ends issue) = (omega arith, inl refl)
  Chain-ends (suc n) first last (hops {second = second} h c) =
      let deep = Hop-depth h in
      let rest = Chain-ends n second last c in
      (
        omega (arith, deep.0, rest.0),
        inr (elim rest.1 [
          | inl e ↦ omega (arith, deep.1, e)
          | inr within ↦ omega (arith, deep.0, within)
        ]),
      )
