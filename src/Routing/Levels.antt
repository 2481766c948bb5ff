-- ===== src/Routing/Levels.antt =====
-- What the routing hop of retinue/routing.py returns and records.
use the_retinue.Base.{
  ◌&&◌, ℕ, ◌+◌, ◌≤◌, ◌<◌, ◌≡◌, ◌↔◌, List, nat_beq, if◌then◌else◌, nat_eq, list_eq, length, Text, ok,
}
use the_retinue.RepoConfig.{RoutingConfig}
use the_retinue.Budget.{record_charge}
use the_retinue.Level.{known_level_labels, RoutingSeams, RoutingState}
use the_retinue.Routing.{resolve_issue_level}
use the_retinue.Routing.Resolved.{Declared, answered}

module _ (routing : RoutingConfig) (seams : RoutingSeams) where
  module _ (now classifier_charge : ℕ) where
    -- What the hop did, however it ended.
    pub record Hop (labels : List Text) (s : RoutingState) : Type 0 where
      pub level_declared :
          (level : Text)
          → (resolve_issue_level routing seams now classifier_charge s).0 ≡ ok level
          → Declared routing seams level
      pub budget_after : (resolve_issue_level routing seams now classifier_charge s).1.budget ≡ (
          if nat_beq (length (known_level_labels routing labels)) 0 && answered routing seams
          then record_charge s.budget now classifier_charge
          else s.budget)
      pub called :
          (s.attempts < (resolve_issue_level routing seams now classifier_charge s).1.attempts)
          ↔ (length (known_level_labels routing labels) ≡ 0)
      pub at_most :
          (resolve_issue_level routing seams now classifier_charge s).1.attempts ≤ s.attempts + 2
