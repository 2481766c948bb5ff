-- ===== src/Vocab/Labels.antt =====
-- The spelling of priority labels and of branches (retinue/vocab.py), read back.
use the_retinue.Base.{
  ℕ, ◌≡◌, refl, none, some, List, [], ◌∷◌, ◌++◌, nat_eq, list_eq, All, Text, show-injective,
}
use the_retinue.Vocab.{
  Severity, low, medium, high, critical, priority_label, parse_priority, severity_of_label,
  issue_branch,
}

severity_of_label-priority_label : (s : Severity) → severity_of_label (priority_label s) ≡ some s
unfolding severity_of_label priority_label
severity_of_label-priority_label low = refl
severity_of_label-priority_label medium = refl
severity_of_label-priority_label high = refl
severity_of_label-priority_label critical = refl

-- The label of a severity is parsed back to it behind any labels that name no severity, whatever labels follow.
pub parse_priority-priority_label :
    (s : Severity) (before after : List Text)
    → All (λ label. severity_of_label label ≡ none) before
    → parse_priority (before ++ priority_label s ∷ after) ≡ some s
unfolding parse_priority
parse_priority-priority_label s [] after h = rw (severity_of_label-priority_label s, parse_priority)
parse_priority-priority_label s (label ∷ before) after h =
    rw (h.0, parse_priority) (parse_priority-priority_label s before after h.1)

-- Two issues with the same branch name are one issue.
issue_branch-injective : (m n : ℕ) → issue_branch m ≡ issue_branch n → m ≡ n
unfolding issue_branch
issue_branch-injective m n h = show-injective m n (cc h)
