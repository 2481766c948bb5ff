-- ===== src/Handoff/Reaped.antt =====
-- What a reap of a merge (retinue/handoff.py) closes, and what its result says of it.
use the_retinue.Base.{
  ℕ, ◌≡◌, refl, sym, ap, ◌∙◌, ◌⊎◌, inl, inr, Bool, true, false, List, [], ◌∷◌, arith, nat_eq,
  contains, Bool-cases, list_eq, filter, All, Text, Exn, ok, err, ok-injective, Result-cases,
}
use mathlib.Core.List.{Memᴰ}
use mathlib.Core.Path.{subst}
use the_retinue.Exec.{pure, continue}
use the_retinue.Github.{
  ChildIssue, CallLog, closed_issue, listed, PipelineState, PipelineSeams, call,
}
use the_retinue.Handoff.{
  MergedPullRequest, ReapResult, reaped, kept_open, close_issue, close_slice_issues, is_done,
  all_done, reap_or_keep, list_children, reap_merged_pr,
}

-- The closes of these issues, one after the other from this log on: the numbers whose close did not
-- raise, and the log behind the last.
pub data Closes (seams : PipelineSeams) (repo : Text)
    : CallLog → List ℕ → List ℕ → CallLog → Type 0 where
  no_more : {log : CallLog} → Closes seams repo log [] [] log
  credited :
      {log after : CallLog} {number : ℕ} {numbers closed : List ℕ}
      → seams.close_issue log repo number ≡ ok tt
      → Closes seams repo (closed_issue repo number ∷ log) numbers closed after
      → Closes seams repo log (number ∷ numbers) (number ∷ closed) after
  passed_over :
      {log after : CallLog} {number : ℕ} {numbers closed : List ℕ} (e : Exn)
      → seams.close_issue log repo number ≡ err e
      → Closes seams repo (closed_issue repo number ∷ log) numbers closed after
      → Closes seams repo log (number ∷ numbers) closed after

-- A child that holds the parent open no longer: `hitl`, closed as GitHub lists it, or closed just now.
abbrev pub Done : List ℕ → ChildIssue → Type 0
Done closed child =
    (child.hitl ≡ true) ⊎ (child.closed ≡ true) ⊎ (contains closed child.number ≡ true)

abbrev pub Holds : List ℕ → ChildIssue → Type 0
Holds closed child =
    (child.hitl ≡ false) × (child.closed ≡ false) × (contains closed child.number ≡ false)

is_done-cases :
    (closed : List ℕ) (child : ChildIssue)
    → ((is_done closed child ≡ true) × Done closed child)
      ⊎ ((is_done closed child ≡ false) × Holds closed child)
unfolding is_done
is_done-cases closed child = elim (Bool-cases child.hitl) [
  | inl h ↦ inl (ground (arith, h), inl h)
  | inr h ↦ elim (Bool-cases child.closed) [
    | inl k ↦ inl (ground (arith, k), inr (inl k))
    | inr k ↦ elim (Bool-cases (contains closed child.number)) [
      | inl c ↦ inl (ground (arith, c), inr (inr c))
      | inr c ↦ inr (ground (arith, h, k, c), (h, k, c))
    ]
  ]
]

all_done-cases :
    (closed : List ℕ) (children : List ChildIssue)
    → ((all_done closed children ≡ true) × All (Done closed) children)
      ⊎ ((all_done closed children ≡ false)
          × (child : ChildIssue) × Memᴰ child children
          × Holds closed child)
unfolding all_done
all_done-cases closed [] = inl (refl, tt)
all_done-cases closed (child ∷ children) = elim (is_done-cases closed child) [
  | inr (e, holds) ↦ inr (ground (arith, e), child, Memᴰ.head refl, holds)
  | inl (e, done) ↦ elim (all_done-cases closed children) [
    | inl (f, all) ↦ inl (ground (arith, e, f), (done, all))
    | inr (f, held, among, holds) ↦ inr (ground (arith, e, f), held, Memᴰ.tail among, holds)
  ]
]

close_slice_issues-Closes :
    (seams : PipelineSeams) (repo : Text) (numbers : List ℕ) (s : PipelineState)
    → Closes seams repo s.log numbers
        (close_slice_issues seams repo numbers s).0
        (close_slice_issues seams repo numbers s).1.log
unfolding close_slice_issues close_issue call
close_slice_issues-Closes seams repo [] s = no_more
close_slice_issues-Closes seams repo (number ∷ numbers) s =
    let t : PipelineState = record s { log = closed_issue repo number ∷ s.log } in
    let rest = close_slice_issues-Closes seams repo numbers t in
    elim (Result-cases (seams.close_issue s.log repo number)) [
      | inl (tt, e) ↦ rw (e, close_slice_issues) (credited e rest)
      | inr (raised, e) ↦ rw (e, close_slice_issues) (passed_over raised e rest)
    ]

module _ (seams : PipelineSeams) (merged : MergedPullRequest) where
  -- The two ways for a reap to return, behind the listing of the children: the parent is closed, as
  -- the last call, and no child holds it open; or a child does, and the listing was the last call.
  pub Verdict : List ℕ → List ChildIssue → CallLog → ReapResult → CallLog → Type 0
  Verdict closed children log result after =
      ((result.outcome ≡ reaped)
        × (result.prd_closed ≡ true)
        × All (Done closed) children
        × (seams.close_issue log merged.repo_full_name merged.prd_number ≡ ok tt)
        × (after ≡ closed_issue merged.repo_full_name merged.prd_number ∷ log))
      ⊎ ((result.outcome ≡ kept_open)
          × (result.prd_closed ≡ false)
          × ((child : ChildIssue) × Memᴰ child children × Holds closed child)
          × (after ≡ log))

  -- From the log of the start: the slice issues are closed in their order, then the children are
  -- listed, then the verdict falls.
  pub record Reaped (log : CallLog) (result : ReapResult) (after : CallLog) : Type 0 where
    pub closed : List ℕ
    pub log_behind : CallLog
    pub closes : Closes seams merged.repo_full_name log merged.slice_issues closed log_behind
    pub children : List ChildIssue
    pub answered :
        seams.children_of log_behind merged.repo_full_name merged.prd_number ≡ ok children
    pub in_order : result.closed_slice_issues ≡ filter (λ n. contains closed n) merged.slice_issues
    pub verdict :
        Verdict closed children
          (listed merged.repo_full_name merged.prd_number ∷ log_behind)
          result
          after

  module _ (closed numbers : List ℕ) (children : List ChildIssue) (s : PipelineState)
      (result : ReapResult) where
    Judged : Bool → Type 0
    Judged done =
        (reap_or_keep seams merged numbers done s).0 ≡ ok result
        → (result.closed_slice_issues ≡ numbers)
          × Verdict closed children s.log result (reap_or_keep seams merged numbers done s).1.log

    kept : (child : ChildIssue) → Memᴰ child children → Holds closed child → Judged false
    unfolding Judged Verdict reap_or_keep
    kept child among holds h =
        let e = sym (ok-injective h) in
        (
          ap (λ r. r.closed_slice_issues) e,
          inr (ap (λ r. r.outcome) e, ap (λ r. r.prd_closed) e, (child, among, holds), refl),
        )

    closed_parent : All (Done closed) children → Judged true
    unfolding Judged Verdict reap_or_keep close_issue call
    closed_parent all h =
        elim (Result-cases (seams.close_issue s.log merged.repo_full_name merged.prd_number)) [
          | inr (raised, q) ↦ absurd (ground (arith, q, h))
          | inl (tt, q) ↦
              let out : ReapResult = record {
                outcome = reaped;
                closed_slice_issues = numbers;
                prd_closed = true;
              } in
              let t : PipelineState = record s {
                log = closed_issue merged.repo_full_name merged.prd_number ∷ s.log;
              } in
              let e : result ≡ out =
                ok-injective (sym h ∙ ap (λ r. (continue r (λ u. pure out) t).0) q) in
              (
                ap (λ r. r.closed_slice_issues) e,
                inl (
                  ap (λ r. r.outcome) e,
                  ap (λ r. r.prd_closed) e,
                  all,
                  q,
                  ap (λ r. (continue r (λ u. pure out) t).1.log) q,
                ),
              )
        ]

    judged : Judged (all_done closed children)
    judged = elim (all_done-cases closed children) [
      | inl (e, all) ↦ subst Judged (sym e) (closed_parent all)
      | inr (e, child, among, holds) ↦ subst Judged (sym e) (kept child among holds)
    ]

  -- A reap that returns has called for the close of the slice issues, taken one after the other in
  -- their order, and passed over those
  -- whose close raised; then it has listed the parent's children. If each child is `hitl`, or closed
  -- as GitHub lists it, or a slice issue whose close did not raise, then it has closed the parent, and
  -- says so; if not, it has done nothing more, and says that the parent is kept open. The result lists
  -- the slice issues that are among the closed, in the order in which they were given.
  pub reap_merged_pr-Reaped :
      (s : PipelineState) (result : ReapResult)
      → (reap_merged_pr seams merged s).0 ≡ ok result
      → Reaped s.log result (reap_merged_pr seams merged s).1.log
  unfolding reap_merged_pr list_children call Judged
  reap_merged_pr-Reaped s result h =
      let slices = close_slice_issues seams merged.repo_full_name merged.slice_issues s in
      let closed = slices.0 in
      let numbers = filter (λ n. contains closed n) merged.slice_issues in
      let t : PipelineState = record slices.1 {
        log = listed merged.repo_full_name merged.prd_number ∷ slices.1.log;
      } in
      let rest = λ (children : List ChildIssue).
        reap_or_keep seams merged numbers (all_done closed children) in
      elim (Result-cases (seams.children_of slices.1.log merged.repo_full_name merged.prd_number)) [
        | inr (raised, q) ↦ absurd (ground (arith, sym h ∙ ap (λ r. (continue r rest t).0) q))
        | inl (children, q) ↦
            let runs = ap (λ r. continue r rest t) q in
            let (same, verdict) =
              judged closed numbers children t result (sym (ap (λ p. p.0) runs) ∙ h) in
            record {
              closed = closed;
              log_behind = slices.1.log;
              closes = close_slice_issues-Closes seams merged.repo_full_name merged.slice_issues s;
              children = children;
              answered = q;
              in_order = same;
              verdict =
                  subst (λ l. Verdict closed children t.log result l) (sym (ap (λ p. p.1.log) runs))
                    verdict;
            }
      ]
