-- ===== src/Examples/Levels.antt =====
-- The routing hop (retinue/level.py, retinue/routing.py) at a concrete input.
use the_retinue.Base.{none, [], ◌∷◌, nat_eq, list_eq, text, gh_cli_error, ok, err}
use the_retinue.Examples.Budgets.{ledger}
use the_retinue.RepoConfig.{RoutingConfig}
use the_retinue.Level.{RoutingSeams, RoutingState}

abbrev pub routing : RoutingConfig
routing = record {
  default = text "small";
  classifier = none;
  levels =
      (text "small", record { description = text "routine"; roles = [] })
      ∷ (text "large", record { description = text "hard"; roles = [] })
      ∷ [];
}

-- The issue wears a label of no level. The first answer is no level, the second is one, and the label
-- cannot be applied.
abbrev pub seams : RoutingSeams
seams = record {
  issue_facts = ok (text "level:huge" ∷ text "bug" ∷ []);
  first_attempt = ok (text "huge");
  second_attempt = ok (text "large");
  label_sink = λ label. err gh_cli_error;
  comment_sink = λ body. ok tt;
}

abbrev pub before : RoutingState
before = record { applied = []; comments = []; attempts = 0; budget = ledger }
