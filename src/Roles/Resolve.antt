-- ===== src/Roles/Resolve.antt =====
-- retinue/roles.py: which model and effort a role runs with at a routing level.
use the_retinue.Base.{Option, none, some, nat_eq, list_eq, Text, lookup}
use the_retinue.Roles.{Role, role_value, role_registry}
use the_retinue.RepoConfig.{RepoConfig, ModelEffort, RoutingConfig}

-- The entry for `role` in one routing table. `none` for the level is the table's default.
unfoldable pub table_override : Role → RoutingConfig → Option Text → Option ModelEffort
table_override role routing level =
    let name : Text = elim level [ none ↦ routing.default | some name ↦ name ] in
    elim (lookup name routing.levels) [
      | none ↦ none
      | some routing_level ↦ lookup (role_value role) routing_level.roles
    ]

unfoldable pub routed_override : Role → Option RepoConfig → Option Text → Option ModelEffort
unfolding table_override
routed_override role none level = none
routed_override role (some config) level = elim config.routing [
  | none ↦ none
  | some routing ↦ table_override role routing level
]

unfoldable pub resolve_model : Role → Option RepoConfig → Option Text → Text
unfolding routed_override
resolve_model role config level = elim (routed_override role config level) [
  | none ↦ (role_registry role).model
  | some override ↦ override.model
]

unfoldable pub resolve_effort : Role → Option RepoConfig → Option Text → Text
unfolding routed_override
resolve_effort role config level = elim (routed_override role config level) [
  | none ↦ (role_registry role).effort
  | some override ↦ elim override.effort [ none ↦ (role_registry role).effort | some tier ↦ tier ]
]
