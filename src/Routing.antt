-- ===== src/Routing.antt =====
-- retinue/routing.py: the metered routing hop, and the implementer model that it picks.
pub mod Resolved
pub mod Levels
use the_retinue.Base.{
  ℕ, zero, suc, ◌+◌, ◌-◌, ◌*◌, ◌/◌, ◌%◌, ◌≤◌, ◌<◌, min, max, ◌≡◌, refl, sym, ap, ◌∙◌, ◌≢◌, ◌↔◌, ◌⊎◌,
  inl, inr, Bool, true, false, not, ◌&&◌, ◌||◌, Option, none, some, List, [], ◌∷◌, ◌++◌, map, arith,
  ltb, leb, nat_beq, if◌then◌else◌, leb→le, nat_beq_iff, Bool-cases, Option-cases, Eq, ◌==◌, nat_eq,
  contains, eq_refl, list_beq, list_beq_iff, list_eq, dedup_onto, dedup, length, take, drop,
  take-append-drop, All-append_left, All-append_right, filter, count, length-append, length-take,
  length-filter, count-append, count-le-length, take_all, All, All-filter, List-cases, All-append,
  All-take, All-imp, Text, text, strip_prefix, strip_prefix-append, strip_prefix-some, is_space,
  skip_spaces, Unicode, digits_onto, read_number, HasAsciiDigits, read_number-show_onto,
  skip_spaces-show_onto, IsDigit, show-All, show_onto, split_words, show, read_onto, read_onto-show,
  show-injective, insert_by, sort_by, sort_by-perm, IsSortedBy, sort_by-All, sort_by-IsSortedBy,
  Dict, keys, lookup, insert, lookup-insert, NodupKeys, insert-NodupKeys, Exn, gh_cli_error,
  value_error, key_error, drain_busy, cron_busy, other_error, Result, ok, err, >>=-eq-ok,
  ok-injective, Result-cases, get_item, get_item-eq-ok, lookup-nil, length-Permᴰ,
}
use the_retinue.Exec.{Exec, pure, lift, modify, ◌>>=◌, ◌>>◌}
use the_retinue.RepoConfig.{RepoConfig, RoutingConfig}
use the_retinue.Roles.{implementer}
use the_retinue.Roles.Resolve.{resolve_model}
use the_retinue.Budget.{record_charge}
use the_retinue.Level.{LevelResolution, RoutingSeams, RoutingState, resolve_level}

-- `_FAILURE_COMMENT`
unfoldable pub failure_comment : Text → Text
failure_comment level =
    text
      "Retinue could not classify this slice's routing level after retries; building it at the routing table's default level '"
    ++ level
    ++ text "'."

unfoldable pub post_comment : RoutingSeams → Text → Exec RoutingState (Unit {0})
post_comment seams body s = elim (seams.comment_sink body) [
  | ok _ ↦ (ok tt, record s { comments = s.comments ++ body ∷ [] })
  | err e ↦ (err e, s)
]

module _ (routing : RoutingConfig) (seams : RoutingSeams) (now classifier_charge : ℕ) where
  -- What follows the resolution: the charge of a classifier call, then the comment on a failure.
  unfoldable pub settle : LevelResolution → Exec RoutingState Text
  settle resolution s =
      let charged = record s { budget = record_charge s.budget now classifier_charge } in
      let s1 = if resolution.classified then charged else s in
      let (posted, s2) = post_comment seams (failure_comment resolution.level) s1 in
      if resolution.failed
      then elim posted [ ok _ ↦ (ok resolution.level, s2) | err e ↦ (err e, s2) ]
      else (ok resolution.level, s1)

  -- `resolve_issue_level`, of a configuration with this routing table.
  unfoldable pub resolve_issue_level : Exec RoutingState Text
  unfolding resolve_level
  resolve_issue_level = do
    labels ← lift seams.issue_facts
    resolution ← resolve_level routing seams labels
    settle resolution

  -- `PerIssueImplementerRouter.__call__`: the model of the implementer that it returns. Any failure
  -- on the way gives the base implementer.
  unfoldable pub route_model : RepoConfig → Text → RoutingState → Text × RoutingState
  unfolding resolve_issue_level resolve_model
  route_model config base_model s =
      let (result, s') = resolve_issue_level s in
      elim result [
        | ok level ↦ (resolve_model implementer (some config) (some level), s')
        | err e ↦ (base_model, s')
      ]
