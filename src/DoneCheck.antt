-- ===== src/DoneCheck.antt =====
-- retinue/done_check.py: the secrets of a build, the commands of the done-check, its report.
pub mod Secrets
use the_retinue.Base.{
  ℕ, zero, suc, ◌+◌, ◌-◌, ◌*◌, ◌/◌, ◌%◌, ◌≤◌, ◌<◌, min, max, ◌≡◌, refl, sym, ap, ◌∙◌, ◌≢◌, ◌↔◌, ◌⊎◌,
  inl, inr, Bool, true, false, not, ◌&&◌, ◌||◌, Option, none, some, List, [], ◌∷◌, ◌++◌, map, arith,
  ltb, leb, nat_beq, if◌then◌else◌, leb→le, nat_beq_iff, Bool-cases, Option-cases, Eq, ◌==◌, nat_eq,
  contains, eq_refl, list_beq, list_beq_iff, list_eq, dedup_onto, dedup, length, take, drop,
  take-append-drop, All-append_left, All-append_right, filter, count, length-append, length-take,
  length-filter, count-append, count-le-length, take_all, All, All-filter, List-cases, All-append,
  All-take, All-imp, Text, text, strip_prefix, strip_prefix-append, strip_prefix-some, is_space,
  skip_spaces, Unicode, digits_onto, read_number, HasAsciiDigits, read_number-show_onto,
  skip_spaces-show_onto, IsDigit, show-All, show_onto, split_words, show, read_onto, read_onto-show,
  show-injective, insert_by, sort_by, sort_by-perm, IsSortedBy, sort_by-All, sort_by-IsSortedBy,
  Dict, keys, lookup, insert, lookup-insert, NodupKeys, insert-NodupKeys, Exn, gh_cli_error,
  value_error, key_error, drain_busy, cron_busy, other_error, Result, ok, err, ◌>>=◌, >>=-eq-ok,
  ok-injective, Result-cases, get_item, get_item-eq-ok, lookup-nil, length-Permᴰ, length-drop,
  rstrip, strip, join, is_line_break, split_lines, replace,
}
use the_retinue.RepoConfig.{SecretsConfig, RepoConfig}

-- The text behind an identifier `[A-Za-z_][A-Za-z0-9_]*`, with the identifier.
unfoldable pub is_name_start : ℕ → Bool
is_name_start c = leb b'A' c && leb c b'Z' || leb b'a' c && leb c b'z' || nat_beq c b'_'

unfoldable pub is_name_char : ℕ → Bool
unfolding is_name_start
is_name_char c = is_name_start c || leb b'0' c && leb c b'9'

unfoldable pub name_chars : Text → Text × Text
unfolding is_name_char
name_chars [] = ([], [])
name_chars (c ∷ s) =
    let (name, rest) = name_chars s in if is_name_char c then (c ∷ name, rest) else ([], c ∷ s)

unfoldable pub read_name : Text → Option (Text × Text)
unfolding name_chars is_name_start
read_name [] = none
read_name (c ∷ s) =
    let (name, rest) = name_chars s in if is_name_start c then some (c ∷ name, rest) else none

-- `_PLACEHOLDER` on a stripped text.
unfoldable pub placeholder : Text → Option Text
unfolding strip_prefix skip_spaces read_name list_beq
placeholder s = elim (strip_prefix (text "${{") s) [
  | none ↦ none
  | some s1 ↦ elim (strip_prefix (text "secrets.") (skip_spaces s1)) [
    | none ↦ none
    | some s2 ↦ elim (read_name s2) [
      | none ↦ none
      | some (name, rest) ↦ if skip_spaces rest == text "}}" then some name else none
    ]
  ]
]

-- `_ENV_REF` on a stripped text.
unfoldable pub env_ref : Text → Option Text
unfolding strip_prefix read_name list_beq
env_ref s = elim (strip_prefix (text "env://") s) [
  | none ↦ none
  | some s1 ↦ elim (read_name s1) [
    | none ↦ none
    | some (name, rest) ↦ if rest == [] then some name else none
  ]
]

unfoldable pub parse_secret_ref : Text → Text
unfolding placeholder env_ref strip
parse_secret_ref ref = elim (placeholder (strip ref)) [
  | some name ↦ name
  | none ↦ elim (env_ref (strip ref)) [ some name ↦ name | none ↦ strip ref ]
]

-- `EnvSecretResolver`, its two layers, and its `__call__`.
pub record EnvSecretResolver : Type 0 where
  pub config : Dict Text Text
  pub environ : Dict Text Text

unfoldable pub resolve_secret : EnvSecretResolver → Text → Option Text
unfolding parse_secret_ref lookup
resolve_secret resolver ref =
    let key = parse_secret_ref ref in
    elim (lookup key resolver.config) [
      | some value ↦ some value
      | none ↦ lookup key resolver.environ
    ]

-- One of the two loops of `_resolve_secrets`: the environment so far, or the name that misses.
unfoldable pub resolve_each :
    (Text → Option Text) → List Text → Dict Text Text → Text ⊎ Dict Text Text
unfolding insert list_beq
resolve_each resolve [] env = inr env
resolve_each resolve (name ∷ names) env =
    let rest = λ (value : Text). resolve_each resolve names (insert name value env) in
    elim (resolve name) [ none ↦ inl name | some value ↦ rest value ]

-- `_resolve_secrets`
unfoldable pub resolve_secrets : (Text → Option Text) → RepoConfig → Text ⊎ Dict Text Text
unfolding resolve_each keys
resolve_secrets resolve config = elim (resolve_each resolve (keys config.secrets.values) []) [
  | inl name ↦ inl name
  | inr env ↦ resolve_each resolve config.secrets.refs env
]

pub record DoneCheckReport : Type 0 where
  pub repo_full_name : Text
  pub issue_number : ℕ
  pub passed : Bool
  pub escalated : Bool
  pub detail : Text

abbrev pub redaction : Text
redaction = text "[REDACTED]"

-- `_redact_values` on values in the order in which they are replaced.
unfoldable pub redact_sorted : List Text → Text → Text
unfolding replace
redact_sorted [] s = s
redact_sorted (value ∷ values) s =
    redact_sorted values (if leb 4 (length value) then replace value redaction s else s)

-- `_redact_values`: each value once, the longest first. A set has no order, so that of values of
-- one length is the order in which they are given here.
unfoldable pub redact_values : Text → List Text → Text
unfolding redact_sorted sort_by dedup
redact_values s secret_values =
    redact_sorted (sort_by (λ v w. leb (length w) (length v)) (dedup secret_values)) s

-- `xs[-n:]`: the whole list for an `n` of 0
unfoldable pub last : {A : Type 0} → ℕ → List A → List A
last zero xs = xs
last (suc n) xs = drop (length xs - suc n) xs

-- `_tail`
unfoldable pub tail : Text → ℕ → ℕ → Text
unfolding last split_lines join
tail s max_lines max_chars =
    let lines = split_lines s in
    let kept = if ltb max_lines (length lines) then last max_lines lines else lines in
    let clipped = join (10 ∷ []) kept in
    if ltb max_chars (length clipped) then last max_chars clipped else clipped

abbrev pub detail_max_lines : ℕ
detail_max_lines = 80

abbrev pub detail_max_chars : ℕ
detail_max_chars = 8000
