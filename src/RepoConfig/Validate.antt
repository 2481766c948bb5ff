-- ===== src/RepoConfig/Validate.antt =====
-- retinue/repo_config.py: the validators, and `load_repo_config` over the YAML library and pydantic.
use the_retinue.Base.{
  ℕ, Bool, true, false, ◌&&◌, Option, none, some, List, [], ◌∷◌, ltb, nat_beq, if◌then◌else◌, ◌==◌,
  nat_eq, contains, list_eq, dedup, length, take, Text, split_words, keys,
}
use the_retinue.RepoConfig.{
  RepoConfig, ModelEffort, RoutingLevel, RoutingConfig, valid_effort_tiers, valid_role_names,
  is_level_slug,
}

abbrev pub all_of : {A : Type 0} → (A → Bool) → List A → Bool
all_of p [] = true
all_of p (x ∷ xs) = p x && all_of p xs

unfoldable pub is_nonempty : {A : Type 0} → List A → Bool
is_nonempty [] = false
is_nonempty (x ∷ xs) = true

-- `ModelEffort._validate_effort`
unfoldable pub valid_effort : ModelEffort → Bool
valid_effort entry = elim entry.effort [
  | none ↦ true
  | some tier ↦ contains valid_effort_tiers tier
]

-- `RoutingLevel._validate_role_keys`, and the entries' own validator.
unfoldable pub valid_routing_level : RoutingLevel → Bool
unfolding valid_effort keys
valid_routing_level level =
    all_of (contains valid_role_names) (keys level.roles)
    && all_of (λ (name, entry). valid_effort entry) level.roles

-- `RoutingConfig._validate_levels` and `_validate_default_exists`, and the parts' validators.
unfoldable pub valid_routing : RoutingConfig → Bool
unfolding valid_routing_level is_nonempty
valid_routing routing =
    is_nonempty routing.levels
    && (all_of is_level_slug (keys routing.levels)
        && (all_of (λ (name, level). valid_routing_level level) routing.levels
            && (contains (keys routing.levels) routing.default
                && elim routing.classifier [ none ↦ true | some entry ↦ valid_effort entry ])))

-- `RepoConfig._validate_cron`: five whitespace-separated fields.
unfoldable pub valid_cron : Option Text → Bool
valid_cron none = true
valid_cron (some cron) = nat_beq (length (split_words cron)) 5

-- `RepoConfig._validate_severity_tiers`
unfoldable pub valid_severity_tiers : List Text → Bool
unfolding is_nonempty
valid_severity_tiers tiers =
    is_nonempty tiers
    && (nat_beq (length (dedup tiers)) (length tiers) && all_of is_level_slug tiers)

-- `RepoConfig._validate_priority_prefix`
unfoldable pub valid_priority_prefix : RepoConfig → Bool
valid_priority_prefix config =
    config.priority_tiers == take (length config.priority_tiers) config.severity_tiers

-- `Field(gt=0)` of `max_parallel`.
unfoldable pub valid_max_parallel : Option ℕ → Bool
valid_max_parallel none = true
valid_max_parallel (some cap) = ltb 0 cap

-- All validators that the schema runs on the typed fields.
unfoldable pub is_valid : RepoConfig → Bool
unfolding valid_cron valid_severity_tiers valid_priority_prefix valid_max_parallel
is_valid config =
    valid_max_parallel config.max_parallel
    && (valid_cron config.cron
        && (valid_severity_tiers config.severity_tiers
            && (valid_priority_prefix config
                && elim config.routing [ none ↦ true | some routing ↦ valid_routing routing ])))

-- What `yaml.safe_load` returns: nothing, a mapping, or another value.
pub data Document (Mapping : Type 0) : Type 0 where
  empty : Document Mapping
  mapping : Mapping → Document Mapping
  other : Document Mapping

-- The YAML library and pydantic's reading of a mapping into typed fields, defaults filled in
-- and unknown keys refused. `none` is an exception of theirs.
pub record Schema : Type 1 where
  pub Mapping : Type 0
  pub safe_load : Text → Option (Document Mapping)
  pub no_fields : Mapping
  pub typed_fields : Mapping → Option RepoConfig

module _ (schema : Schema) where
  unfoldable pub model_validate : schema.Mapping → Option RepoConfig
  model_validate fields = elim (schema.typed_fields fields) [
    | none ↦ none
    | some config ↦ if is_valid config then some config else none
  ]

  unfoldable pub load_repo_config : Text → Option RepoConfig
  unfolding model_validate
  load_repo_config source = elim (schema.safe_load source) [
    | none ↦ none
    | some empty ↦ model_validate schema.no_fields
    | some (mapping fields) ↦ model_validate fields
    | some other ↦ none
  ]
