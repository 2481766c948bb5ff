-- ===== src/Lane.antt =====
-- retinue/pipeline.py: `bind_adhoc_build`, the build of one issue with the pipeline behind it.
pub mod Shipped
pub mod Opens
use the_retinue.Base.{
  ℕ, zero, suc, ◌+◌, ◌-◌, ◌*◌, ◌/◌, ◌%◌, ◌≤◌, ◌<◌, min, max, ◌≡◌, refl, sym, ap, ◌∙◌, ◌≢◌, ◌↔◌, ◌⊎◌,
  inl, inr, Bool, true, false, not, ◌&&◌, ◌||◌, Option, none, some, List, [], ◌∷◌, ◌++◌, map, arith,
  ltb, leb, nat_beq, if◌then◌else◌, leb→le, nat_beq_iff, Bool-cases, Option-cases, Eq, ◌==◌, nat_eq,
  contains, eq_refl, list_beq, list_beq_iff, list_eq, dedup_onto, dedup, length, take, drop,
  take-append-drop, All-append_left, All-append_right, filter, count, length-append, length-take,
  length-filter, count-append, count-le-length, take_all, All, All-filter, List-cases, All-append,
  All-take, All-imp, Text, text, strip_prefix, strip_prefix-append, strip_prefix-some, is_space,
  skip_spaces, Unicode, digits_onto, read_number, HasAsciiDigits, read_number-show_onto,
  skip_spaces-show_onto, IsDigit, show-All, show_onto, split_words, show, read_onto, read_onto-show,
  show-injective, insert_by, sort_by, sort_by-perm, IsSortedBy, sort_by-All, sort_by-IsSortedBy,
  Dict, keys, lookup, insert, lookup-insert, NodupKeys, insert-NodupKeys, Exn, gh_cli_error,
  value_error, key_error, drain_busy, cron_busy, other_error, Result, ok, err, ◌>>=◌, >>=-eq-ok,
  ok-injective, Result-cases, get_item, get_item-eq-ok, lookup-nil, length-Permᴰ, length-drop,
  snoc_append, rstrip, strip, join, is_line_break, split_lines, replace,
}
use the_retinue.RepoConfig.{RepoConfig, RoutingConfig}
use the_retinue.Roles.{planner, implementer}
use the_retinue.Roles.Resolve.{resolve_model}
use the_retinue.Level.{RoutingSeams, RoutingState}
use the_retinue.Routing.{resolve_issue_level}
use the_retinue.AdhocIssue.{AdhocIssue}
use the_retinue.Container.{BuildLog, BuildSeams}
use the_retinue.AdhocBuild.{AdhocJob, AdhocBuildResult, build_adhoc_issue}
use the_retinue.Github.{PipelineState, PipelineSeams}
use the_retinue.Pipeline.{process_adhoc_pr, stranded_build}

-- What the binding is given: the settings, the repository's configuration, the commands that
-- `parse_done_check` finds, and the seams of the three parts.
pub record Lane : Type 0 where
  pub credential : Text
  pub auth_mode : Text
  pub max_turns : ℕ
  pub config : RepoConfig
  pub commands : Result (List (List Text))
  pub resolve : Text → Option Text
  pub routing : RoutingSeams
  pub build : BuildSeams
  pub pipeline : PipelineSeams
  pub now : ℕ
  pub classifier_charge : ℕ

pub record LaneState : Type 0 where
  pub routed : RoutingState
  pub log : BuildLog
  pub state : PipelineState

-- `_resolve_adhoc_level`: what the hop raises gives the table's default.
unfoldable pub resolve_adhoc_level : Lane → RoutingState → Option Text × RoutingState
unfolding resolve_issue_level
resolve_adhoc_level lane s = elim lane.config.routing [
  | none ↦ (none, s)
  | some routing ↦
      let (result, s') =
        resolve_issue_level routing lane.routing lane.now lane.classifier_charge s in
      elim result [ ok level ↦ (some level, s') | err e ↦ (some routing.default, s') ]
]

-- The roles of a build, each at the resolved level.
unfoldable pub lane_job : Lane → Option Text → AdhocJob
unfolding resolve_model
lane_job lane level = record {
  config = lane.config;
  commands = lane.commands;
  planner = record {
    credential = lane.credential;
    auth_mode = lane.auth_mode;
    model = resolve_model planner (some lane.config) level;
  };
  implementer = record {
    credential = lane.credential;
    auth_mode = lane.auth_mode;
    model = resolve_model implementer (some lane.config) level;
    max_turns = lane.max_turns;
  };
  resolve = lane.resolve;
  with_review = true;
  image = text "ghcr.io/the-retinue/done-check-runner:latest";
}

-- What follows a build that returned.
unfoldable pub process_built :
    Lane → AdhocIssue → AdhocBuildResult → LaneState → Result (Unit {0}) × LaneState
unfolding process_adhoc_pr
process_built lane issue built s =
    let (result, state) = process_adhoc_pr lane.pipeline lane.config issue built s.state in
    (elim result [ ok _ ↦ ok tt | err e ↦ err e ], record s { state = state })

-- The bound `build`.
unfoldable pub build_lane : Lane → AdhocIssue → LaneState → Result (Unit {0}) × LaneState
build_lane lane issue s =
    let (level, routed) = resolve_adhoc_level lane s.routed in
    let (built, log) = build_adhoc_issue lane.build (lane_job lane level) issue s.log in
    let after : LaneState = record { routed = routed; log = log; state = s.state } in
    elim built [ err e ↦ (err e, after) | ok result ↦ process_built lane issue result after ]

-- `bind_adhoc_pr_open`: the bound `open_pr` of a stranded branch.
unfoldable pub open_stranded : Lane → AdhocIssue → LaneState → Result (Unit {0}) × LaneState
unfolding process_built stranded_build
open_stranded lane issue s = process_built lane issue (stranded_build issue) s
