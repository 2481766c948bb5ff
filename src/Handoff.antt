-- ===== src/Handoff.antt =====
-- retinue/handoff.py: what follows a merged pull request.
pub mod Reaped
use the_retinue.Base.{
  ℕ, zero, suc, ◌+◌, ◌-◌, ◌*◌, ◌/◌, ◌%◌, ◌≤◌, ◌<◌, min, max, ◌≡◌, refl, sym, ap, ◌∙◌, ◌≢◌, ◌↔◌, ◌⊎◌,
  inl, inr, Bool, true, false, not, ◌&&◌, ◌||◌, Option, none, some, List, [], ◌∷◌, ◌++◌, map, arith,
  ltb, leb, nat_beq, if◌then◌else◌, leb→le, nat_beq_iff, Bool-cases, Option-cases, Eq, ◌==◌, nat_eq,
  contains, eq_refl, list_beq, list_beq_iff, list_eq, dedup_onto, dedup, length, take, drop,
  take-append-drop, All-append_left, All-append_right, filter, count, length-append, length-take,
  length-filter, count-append, count-le-length, take_all, All, All-filter, List-cases, All-append,
  All-take, All-imp, Text, text, strip_prefix, strip_prefix-append, strip_prefix-some, is_space,
  skip_spaces, Unicode, digits_onto, read_number, HasAsciiDigits, read_number-show_onto,
  skip_spaces-show_onto, IsDigit, show-All, show_onto, split_words, show, read_onto, read_onto-show,
  show-injective, insert_by, sort_by, sort_by-perm, IsSortedBy, sort_by-All, sort_by-IsSortedBy,
  Dict, keys, lookup, insert, lookup-insert, NodupKeys, insert-NodupKeys, Exn, gh_cli_error,
  value_error, key_error, drain_busy, cron_busy, other_error, Result, ok, err, >>=-eq-ok,
  ok-injective, Result-cases, get_item, get_item-eq-ok, lookup-nil, length-Permᴰ, length-drop,
  rstrip, strip, join, is_line_break, split_lines, replace,
}
use the_retinue.Exec.{Exec, pure, ◌>>=◌, ◌>>◌}
use the_retinue.Github.{ChildIssue, closed_issue, listed, PipelineState, PipelineSeams, call}

pub record MergedPullRequest : Type 0 where
  pub repo_full_name : Text
  pub pr_number : ℕ
  pub prd_number : ℕ
  pub slice_issues : List ℕ

pub data ReapOutcome : Type 0 where
  reaped kept_open : ReapOutcome

pub record ReapResult : Type 0 where
  pub outcome : ReapOutcome
  pub closed_slice_issues : List ℕ
  pub prd_closed : Bool

unfoldable pub close_issue : PipelineSeams → Text → ℕ → Exec PipelineState (Unit {0})
unfolding call
close_issue seams repo number =
    call (λ log. seams.close_issue log repo number) (closed_issue repo number)

-- `_close_slice_issues`: the closes in their order, and the numbers whose close did not raise.
unfoldable pub close_slice_issues :
    PipelineSeams → Text → List ℕ → PipelineState → List ℕ × PipelineState
unfolding close_issue
close_slice_issues seams repo [] s = ([], s)
close_slice_issues seams repo (number ∷ numbers) s =
    let (result, s1) = close_issue seams repo number s in
    let (closed, s2) = close_slice_issues seams repo numbers s1 in
    elim result [ ok _ ↦ (number ∷ closed, s2) | err e ↦ (closed, s2) ]

-- The reap gate on one child.
unfoldable pub is_done : List ℕ → ChildIssue → Bool
unfolding contains
is_done just_closed child = child.hitl || child.closed || contains just_closed child.number

unfoldable pub all_done : List ℕ → List ChildIssue → Bool
unfolding is_done
all_done just_closed [] = true
all_done just_closed (child ∷ children) = is_done just_closed child && all_done just_closed children

-- The reap gate's verdict, acted on.
unfoldable pub reap_or_keep :
    PipelineSeams → MergedPullRequest → List ℕ → Bool → Exec PipelineState ReapResult
unfolding close_issue
reap_or_keep seams merged closed false =
    pure (record { outcome = kept_open; closed_slice_issues = closed; prd_closed = false })
reap_or_keep seams merged closed true =
    close_issue seams merged.repo_full_name merged.prd_number
    >> pure (record { outcome = reaped; closed_slice_issues = closed; prd_closed = true })

unfoldable pub list_children :
    PipelineSeams → MergedPullRequest → Exec PipelineState (List ChildIssue)
unfolding call
list_children seams merged =
    call (λ log. seams.children_of log merged.repo_full_name merged.prd_number)
      (listed merged.repo_full_name merged.prd_number)

-- `reap_merged_pr`. The closed numbers, read in the order of the slices, are those that the loop gives.
unfoldable pub reap_merged_pr : PipelineSeams → MergedPullRequest → Exec PipelineState ReapResult
unfolding close_slice_issues list_children all_done reap_or_keep filter contains
reap_merged_pr seams merged s =
    let (closed, s1) = close_slice_issues seams merged.repo_full_name merged.slice_issues s in
    let closed_in_order = filter (λ n. contains closed n) merged.slice_issues in
    (list_children seams merged
        >>= (λ children. reap_or_keep seams merged closed_in_order (all_done closed children)))
      s1
