-- ===== src/Roles.antt =====
-- retinue/roles.py: the agent-role registry and its overrides by a repo's routing table. The argv
-- and the system briefs that the roles send are in no theorem and are left out.
pub mod Resolve
use the_retinue.Base.{
  ℕ, zero, suc, ◌+◌, ◌-◌, ◌*◌, ◌/◌, ◌%◌, ◌≤◌, ◌<◌, min, max, ◌≡◌, refl, sym, ap, ◌∙◌, ◌≢◌, ◌↔◌, ◌⊎◌,
  inl, inr, Bool, true, false, not, ◌&&◌, ◌||◌, Option, none, some, List, [], ◌∷◌, ◌++◌, map, arith,
  ltb, leb, nat_beq, if◌then◌else◌, leb→le, nat_beq_iff, Bool-cases, Option-cases, Eq, ◌==◌, nat_eq,
  contains, eq_refl, list_beq, list_beq_iff, list_eq, dedup_onto, dedup, length, take, drop,
  take-append-drop, All-append_left, All-append_right, filter, count, length-append, length-take,
  length-filter, count-append, count-le-length, take_all, All, All-filter, List-cases, All-append,
  All-take, All-imp, Text, text, strip_prefix, strip_prefix-append, strip_prefix-some, is_space,
  skip_spaces, Unicode, digits_onto, read_number, HasAsciiDigits, read_number-show_onto,
  skip_spaces-show_onto, IsDigit, show-All, show_onto, split_words, show, read_onto, read_onto-show,
  show-injective, insert_by, sort_by, sort_by-perm, IsSortedBy, sort_by-All, sort_by-IsSortedBy,
  Dict, keys, lookup, insert, lookup-insert, NodupKeys, insert-NodupKeys, Exn, gh_cli_error,
  value_error, key_error, drain_busy, cron_busy, other_error, Result, ok, err, ◌>>=◌, >>=-eq-ok,
  ok-injective, Result-cases, get_item, get_item-eq-ok, lookup-nil, length-Permᴰ,
}

abbrev pub effort_low : Text
effort_low = text "low"

abbrev pub effort_high : Text
effort_high = text "high"

abbrev pub effort_xhigh : Text
effort_xhigh = text "xhigh"

abbrev pub effort_max : Text
effort_max = text "max"

pub data Transport : Type 0 where
  claude_cli messages_api : Transport

pub data Role : Type 0 where
  slicer implementer resolver reviewer planner classifier : Role

-- `role.value`
unfoldable pub role_value : Role → Text
role_value slicer = text "slicer"
role_value implementer = text "implementer"
role_value resolver = text "resolver"
role_value reviewer = text "reviewer"
role_value planner = text "planner"
role_value classifier = text "classifier"

pub record RoleSpec : Type 0 where
  pub model : Text
  pub effort : Text
  pub transport : Transport

unfoldable pub role_registry : Role → RoleSpec
role_registry slicer = record {
  model = text "claude-opus-4-8";
  effort = effort_xhigh;
  transport = messages_api;
}
role_registry implementer = record {
  model = text "claude-sonnet-4-6";
  effort = effort_high;
  transport = claude_cli;
}
role_registry resolver = record {
  model = text "claude-opus-4-8";
  effort = effort_xhigh;
  transport = messages_api;
}
role_registry reviewer = record {
  model = text "claude-opus-4-8";
  effort = effort_max;
  transport = messages_api;
}
role_registry planner = record {
  model = text "claude-opus-4-8";
  effort = effort_high;
  transport = claude_cli;
}
role_registry classifier = record {
  model = text "claude-haiku-4-5";
  effort = effort_low;
  transport = messages_api;
}
