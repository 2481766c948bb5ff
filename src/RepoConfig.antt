-- ===== src/RepoConfig.antt =====
-- retinue/repo_config.py: the schema of `.github/retinue.yml`, its validators and its tiers.
pub mod Validate
pub mod Tiers
use the_retinue.Base.{
  ℕ, zero, suc, ◌+◌, ◌-◌, ◌*◌, ◌/◌, ◌%◌, ◌≤◌, ◌<◌, min, max, ◌≡◌, refl, sym, ap, ◌∙◌, ◌≢◌, ◌↔◌, ◌⊎◌,
  inl, inr, Bool, true, false, not, ◌&&◌, ◌||◌, Option, none, some, List, [], ◌∷◌, ◌++◌, map, arith,
  ltb, leb, nat_beq, if◌then◌else◌, leb→le, nat_beq_iff, Bool-cases, Option-cases, Eq, ◌==◌, nat_eq,
  contains, eq_refl, list_beq, list_beq_iff, list_eq, dedup_onto, dedup, length, take, drop,
  take-append-drop, All-append_left, All-append_right, filter, count, length-append, length-take,
  length-filter, count-append, count-le-length, take_all, All, All-filter, List-cases, All-append,
  All-take, All-imp, Text, text, strip_prefix, strip_prefix-append, strip_prefix-some, is_space,
  skip_spaces, Unicode, digits_onto, read_number, HasAsciiDigits, read_number-show_onto,
  skip_spaces-show_onto, IsDigit, show-All, show_onto, split_words, show, read_onto, read_onto-show,
  show-injective, insert_by, sort_by, sort_by-perm, IsSortedBy, sort_by-All, sort_by-IsSortedBy,
  Dict, keys, lookup, insert, lookup-insert, NodupKeys, insert-NodupKeys, Exn, gh_cli_error,
  value_error, key_error, drain_busy, cron_busy, other_error, Result, ok, err, ◌>>=◌, >>=-eq-ok,
  ok-injective, Result-cases, get_item, get_item-eq-ok, lookup-nil, length-Permᴰ,
}
use the_retinue.Vocab.{ready_label, priority_label_prefix}
use the_retinue.Roles.{
  slicer, implementer, resolver, reviewer, planner, classifier, role_value, effort_high,
  effort_xhigh, effort_max,
}

abbrev pub default_severity_tiers : List Text
default_severity_tiers = text "critical" ∷ text "high" ∷ text "medium" ∷ text "low" ∷ []

abbrev pub default_priority_tiers : List Text
default_priority_tiers = text "critical" ∷ text "high" ∷ []

abbrev pub valid_effort_tiers : List Text
valid_effort_tiers = text "low" ∷ text "medium" ∷ effort_high ∷ effort_xhigh ∷ effort_max ∷ []

unfoldable pub valid_role_names : List Text
unfolding role_value
valid_role_names =
    map role_value (slicer ∷ implementer ∷ resolver ∷ reviewer ∷ planner ∷ classifier ∷ [])

-- `[a-z0-9]`
unfoldable pub is_slug_char : ℕ → Bool
is_slug_char c = leb b'a' c && leb c b'z' || leb b'0' c && leb c b'9'

-- A full match of the rest of `[a-z0-9]+(?:-[a-z0-9]+)*`, inside a group or at a group's start.
unfoldable pub slug_from : Bool → Text → Bool
unfolding is_slug_char
slug_from inside [] = inside
slug_from inside (c ∷ s) =
    (is_slug_char c || inside && nat_beq c b'-') && slug_from (is_slug_char c) s

unfoldable pub is_level_slug : Text → Bool
unfolding slug_from
is_level_slug = slug_from false

pub record SecretsConfig : Type 0 where
  pub values : Dict Text Text
  pub refs : List Text

pub record ModelEffort : Type 0 where
  pub model : Text
  pub effort : Option Text

pub record RoutingLevel : Type 0 where
  pub description : Text
  pub roles : Dict Text ModelEffort

pub record RoutingConfig : Type 0 where
  pub default : Text
  pub classifier : Option ModelEffort
  pub levels : Dict Text RoutingLevel

pub record RepoConfig : Type 0 where
  pub trigger_label : Text
  pub target_branch : Option Text
  pub severity_tiers : List Text
  pub priority_tiers : List Text
  pub retry_cap : ℕ
  pub max_parallel : Option ℕ
  pub cron : Option Text
  pub secrets : SecretsConfig
  pub routing : Option RoutingConfig

-- The fields of `RepoConfig()`: what an empty document gives.
abbrev pub default_config : RepoConfig
default_config = record {
  trigger_label = ready_label;
  target_branch = none;
  severity_tiers = default_severity_tiers;
  priority_tiers = default_priority_tiers;
  retry_cap = 3;
  max_parallel = none;
  cron = none;
  secrets = record { values = []; refs = [] };
  routing = none;
}

-- The queue tier: the first `priority:<tier>` label that names a known tier.
unfoldable pub tier_of : RepoConfig → List Text → Option Text
tier_of config [] = none
tier_of config (label ∷ labels) =
    let rest = tier_of config labels in
    elim (strip_prefix priority_label_prefix label) [
      | none ↦ rest
      | some tier ↦ if contains config.severity_tiers tier then some tier else rest
    ]

-- `xs.index(x)` of an item that is there.
unfoldable pub index : List Text → Text → ℕ
index [] x = 0
index (y ∷ ys) x = if y == x then 0 else suc (index ys x)

unfoldable pub tier_rank : RepoConfig → Option Text → ℕ
tier_rank config none = length config.severity_tiers
tier_rank config (some tier) =
    if contains config.severity_tiers tier
    then index config.severity_tiers tier
    else length config.severity_tiers

unfoldable pub is_priority_tier : RepoConfig → Option Text → Bool
is_priority_tier config none = false
is_priority_tier config (some tier) = contains config.priority_tiers tier
