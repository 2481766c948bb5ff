-- ===== src/Level.antt =====
-- retinue/level.py and the retry of retinue/classifier.py: the routing level of an issue.
use the_retinue.Base.{
  ℕ, ◌+◌, Bool, true, false, Option, none, some, List, [], ◌∷◌, ◌++◌, if◌then◌else◌, nat_eq,
  contains, list_beq, list_eq, Text, text, strip_prefix, keys, Exn, classification_error,
  http_error, Result, ok, err,
}
use the_retinue.Exec.{Exec, pure, ◌>>=◌}
use the_retinue.RepoConfig.{RoutingConfig}
use the_retinue.Budget.{BudgetLedger}

abbrev pub level_label_prefix : Text
level_label_prefix = text "level:"

unfoldable pub level_label : Text → Text
level_label name = level_label_prefix ++ name

unfoldable pub known_level_labels : RoutingConfig → List Text → List Text
unfolding contains keys list_beq
known_level_labels routing [] = []
known_level_labels routing (label ∷ labels) =
    let rest = known_level_labels routing labels in
    elim (strip_prefix level_label_prefix label) [
      | none ↦ rest
      | some name ↦ if contains (keys routing.levels) name then name ∷ rest else rest
    ]

pub record LevelResolution : Type 0 where
  pub level : Text
  pub classified : Bool
  pub failed : Bool

-- What the collaborators answer: the facts' labels, the classifier's first and second attempt (each a
-- level name of its answer, or what its request raises), the label sink and the comment sink.
pub record RoutingSeams : Type 0 where
  pub issue_facts : Result (List Text)
  pub first_attempt : Result Text
  pub second_attempt : Result Text
  pub label_sink : Text → Result (Unit {0})
  pub comment_sink : Text → Result (Unit {0})

-- The labels and the comments that were posted, the classifier's attempts, and the shared budget.
pub record RoutingState : Type 0 where
  pub applied : List Text
  pub comments : List Text
  pub attempts : ℕ
  pub budget : BudgetLedger

-- `_parse`: an answer that is no name of the table raises.
unfoldable pub parse_level : RoutingConfig → Result Text → Result Text
unfolding contains keys
parse_level routing (err e) = err e
parse_level routing (ok name) =
    if contains (keys routing.levels) name then ok name else err classification_error

-- `except (ClassificationError, httpx.HTTPError)`
unfoldable pub is_retried : Exn → Bool
is_retried classification_error = true
is_retried http_error = true
is_retried _ = false

-- `ClaudeIssueClassifier.__call__`: one retry of what it catches, and `none` when both attempts fail.
unfoldable pub classify : RoutingConfig → RoutingSeams → Exec RoutingState (Option Text)
unfolding parse_level is_retried
classify routing seams s =
    let once = record s { attempts = s.attempts + 1 } in
    let twice = record s { attempts = s.attempts + 2 } in
    elim (parse_level routing seams.first_attempt) [
      | ok name ↦ (ok (some name), once)
      | err e ↦
          if is_retried e
          then elim (parse_level routing seams.second_attempt) [
            | ok name ↦ (ok (some name), twice)
            | err e2 ↦ (if is_retried e2 then ok none else err e2, twice)
          ]
          else (err e, once)
    ]

-- `_apply_label`: a failure is swallowed.
unfoldable pub apply_label : RoutingSeams → Text → RoutingState → RoutingState
unfolding level_label
apply_label seams level s = elim (seams.label_sink (level_label level)) [
  | ok _ ↦ record s { applied = s.applied ++ level_label level ∷ [] }
  | err e ↦ s
]

-- The cases with no known label.
unfoldable pub finish_level :
    RoutingConfig → RoutingSeams → Option Text → Exec RoutingState LevelResolution
finish_level routing seams none s =
    (ok (record { level = routing.default; classified = true; failed = true }), s)
finish_level routing seams (some level) s =
    (ok (record { level = level; classified = true; failed = false }), apply_label seams level s)

unfoldable pub resolve_level_known :
    RoutingConfig → RoutingSeams → List Text → Exec RoutingState LevelResolution
unfolding classify finish_level
resolve_level_known routing seams [] = classify routing seams >>= finish_level routing seams
resolve_level_known routing seams (name ∷ []) =
    pure (record { level = name; classified = false; failed = false })
resolve_level_known routing seams (_ ∷ _ ∷ _) =
    pure (record { level = routing.default; classified = false; failed = false })

-- `resolve_level`, by the known labels of the issue.
unfoldable pub resolve_level :
    RoutingConfig → RoutingSeams → List Text → Exec RoutingState LevelResolution
unfolding known_level_labels resolve_level_known
resolve_level routing seams labels =
    resolve_level_known routing seams (known_level_labels routing labels)
