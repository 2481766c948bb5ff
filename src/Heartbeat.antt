-- ===== src/Heartbeat.antt =====
-- retinue/heartbeat.py: the cadence of a repository, and the sweep over the repositories.
use the_retinue.Base.{
  ℕ, zero, suc, ◌+◌, ◌-◌, ◌*◌, ◌/◌, ◌%◌, ◌≤◌, ◌<◌, min, max, ◌≡◌, refl, sym, ap, ◌∙◌, ◌≢◌, ◌↔◌, ◌⊎◌,
  inl, inr, Bool, true, false, not, ◌&&◌, ◌||◌, Option, none, some, List, [], ◌∷◌, ◌++◌, map, arith,
  ltb, leb, nat_beq, if◌then◌else◌, leb→le, nat_beq_iff, Bool-cases, Option-cases, Eq, ◌==◌, nat_eq,
  contains, eq_refl, list_beq, list_beq_iff, list_eq, dedup_onto, dedup, length, take, drop,
  take-append-drop, All-append_left, All-append_right, filter, count, length-append, length-take,
  length-filter, count-append, count-le-length, take_all, All, All-filter, List-cases, All-append,
  All-take, All-imp, Text, text, strip_prefix, strip_prefix-append, strip_prefix-some, is_space,
  skip_spaces, Unicode, digits_onto, read_number, HasAsciiDigits, read_number-show_onto,
  skip_spaces-show_onto, IsDigit, show-All, show_onto, split_words, show, read_onto, read_onto-show,
  show-injective, insert_by, sort_by, sort_by-perm, IsSortedBy, sort_by-All, sort_by-IsSortedBy,
  Dict, keys, lookup, insert, lookup-insert, NodupKeys, insert-NodupKeys, Exn, gh_cli_error,
  value_error, key_error, drain_busy, cron_busy, other_error, Result, ok, err, ◌>>=◌, >>=-eq-ok,
  ok-injective, Result-cases, get_item, get_item-eq-ok, lookup-nil, length-Permᴰ, length-drop,
  snoc_append, rstrip, strip, join, is_line_break, split_lines, replace,
}
pub mod Sweep
use the_retinue.RepoConfig.{RepoConfig}
use the_retinue.RunStateStore.{split_commas}

-- The integers, over the native natural numbers.
pub data ℤ : Type 0 where
  pos : ℕ → ℤ
  negsuc : ℕ → ℤ

-- `<=` on these, the left a natural number.
unfoldable pub nat_le_int : ℕ → ℤ → Bool
nat_le_int n (pos m) = leb n m
nat_le_int n (negsuc m) = false

unfoldable pub int_le_nat : ℕ → ℤ → Bool
int_le_nat n (pos m) = leb m n
int_le_nat n (negsuc m) = true

-- `a <= b` on the integers.
unfoldable pub int_le : ℤ → ℤ → Bool
unfolding nat_le_int
int_le (pos n) b = nat_le_int n b
int_le (negsuc n) (pos m) = true
int_le (negsuc n) (negsuc m) = leb m n

-- `n - a`, for an `a` that is at most `n`.
unfoldable pub minus : ℕ → ℤ → ℕ
minus n (pos m) = n - m
minus n (negsuc m) = n + m + 1

abbrev map_some : {A B : Type 0} → (A → B) → Option A → Option B
map_some f none = none
map_some f (some a) = some (f a)

-- `int`'s digits, a single `_` between two of them: `fresh` where a digit must come next.
unfoldable pub int_digits : Unicode → Bool → ℕ → Text → Option ℕ
int_digits tables fresh n [] = if fresh then none else some n
int_digits tables fresh n (c ∷ s) = elim (tables.decimal c) [
  | some d ↦ int_digits tables false (n * 10 + d) s
  | none ↦ let rest = int_digits tables true n s in if c == b'_' && not fresh then rest else none
]

-- A text of more digits than `int` takes.
unfoldable pub too_long : Unicode → Text → Bool
too_long tables s =
    ltb 4300 (count (λ c. elim (tables.decimal c) [ some d ↦ true | none ↦ false ]) s)

unfoldable pub negated : ℕ → ℤ
negated zero = pos 0
negated (suc n) = negsuc n

unfoldable pub signed : Unicode → Text → Option ℤ
unfolding int_digits negated
signed tables [] = none
signed tables (c ∷ s) =
    if c == b'-'
    then map_some negated (int_digits tables true 0 s)
    else if c == b'+'
    then map_some pos (int_digits tables true 0 s)
    else map_some pos (int_digits tables true 0 (c ∷ s))

-- `_parse_int`
unfoldable pub parse_int : Unicode → Text → Option ℤ
unfolding signed too_long strip
parse_int tables s = if too_long tables s then none else signed tables (strip s)

-- `_parse_step`
unfoldable pub parse_step : Unicode → Text → Option ℕ
unfolding parse_int
parse_step tables s = elim (parse_int tables s) [
  | none ↦ none
  | some (pos (suc n)) ↦ some (suc n)
  | some (pos zero) ↦ none
  | some (negsuc n) ↦ none
]

-- `str.partition` at a character: what stands before it, and what follows it, if it is there.
unfoldable pub partition : ℕ → Text → Text × Option Text
partition c [] = ([], none)
partition c (x ∷ s) =
    let rest = partition c s in if x == c then ([], some s) else (x ∷ rest.0, rest.1)

-- `_term_range`: the range as written, if its ends are numbers in order.
unfoldable pub ordered : Option ℤ → Option ℤ → Option (ℤ × ℤ)
unfolding int_le
ordered (some start) (some end) = if int_le start end then some (start, end) else none
ordered (some start) none = none
ordered none end = none

unfoldable pub term_range : Unicode → Text → Bool → ℕ → ℕ → Option (ℤ × ℤ)
unfolding partition parse_int ordered
term_range tables base has_step low high =
    let dash = partition b'-' base in
    if base == text "*" then some (pos low, pos high) else elim dash.1 [
      | some end_text ↦ ordered (parse_int tables dash.0) (parse_int tables end_text)
      | none ↦
          map_some (λ point. (point, if has_step then pos high else point)) (parse_int tables base)
    ]

-- `_term_matches`
unfoldable pub in_steps : ℕ → ℕ → ℤ × ℤ → Bool
unfolding int_le_nat nat_le_int minus
in_steps value step (start, end) =
    int_le_nat value start && nat_le_int value end && minus value start % step == 0

unfoldable pub term_matches : Unicode → ℕ → ℕ → ℕ → Text → Bool
unfolding partition parse_step term_range in_steps
term_matches tables value low high term =
    let parts = partition b'/' term in
    let step_text : Text = elim parts.1 [ some s ↦ s | none ↦ [] ] in
    let has_step = not (step_text == []) in
    elim (term_range tables parts.0 has_step low high) [
      | none ↦ false
      | some range ↦ elim (if has_step then parse_step tables step_text else some 1) [
        | none ↦ false
        | some step ↦ in_steps value step range
      ]
    ]

unfoldable pub any_term : (Text → Bool) → List Text → Bool
any_term test [] = false
any_term test (term ∷ terms) = test term || any_term test terms

-- `_field_matches`
unfoldable pub field_matches : Unicode → Text → ℕ → ℕ → ℕ → Bool
unfolding any_term term_matches split_commas
field_matches tables field value low high =
    any_term (term_matches tables value low high) (split_commas field)

-- An instant as `datetime` tells it, with the `weekday()` that is 0 on a Monday.
pub record Instant : Type 0 where
  pub minute : ℕ
  pub hour : ℕ
  pub day : ℕ
  pub month : ℕ
  pub weekday : ℕ

-- `_weekday_matches`
unfoldable pub weekday_matches : Unicode → Text → Instant → Bool
unfolding field_matches
weekday_matches tables field when =
    let cron_dow = (when.weekday + 1) % 7 in
    field_matches tables field cron_dow 0 7 || (cron_dow == 0 && field_matches tables field 7 0 7)

unfoldable pub fields_due : Unicode → Instant → List Text → Bool
unfolding field_matches weekday_matches
fields_due tables when (minute ∷ hour ∷ day ∷ month ∷ weekday ∷ []) =
    field_matches tables minute when.minute 0 59
    && field_matches tables hour when.hour 0 23
    && field_matches tables day when.day 1 31
    && field_matches tables month when.month 1 12
    && weekday_matches tables weekday when
fields_due tables when fields = false

-- `cron_due`
unfoldable pub cron_due : Unicode → Option Text → Instant → Bool
unfolding fields_due split_words
cron_due tables none when = false
cron_due tables (some cron_expr) when = fields_due tables when (split_words cron_expr)

pub record DueRepo : Type 0 where
  pub repo_full_name : Text
  pub config : RepoConfig

pub record HeartbeatResult : Type 0 where
  pub drained_repos : List Text
  pub ticked_repos : List Text

-- The calls of the sweep: the drain of a repository, and the tick of its lane.
pub data SweepCall : Type 0 where
  drained : Text → SweepCall
  ticked : Text → ℕ → SweepCall

-- The answers of the seams, by the calls so far, the newest first.
pub record HeartbeatSeams : Type 0 where
  pub enumerate_repos : Result (List DueRepo)
  pub drain : List SweepCall → DueRepo → Result (Unit {0})
  pub cron_tick : List SweepCall → DueRepo → Result (Unit {0})

unfoldable pub returned : Result (Unit {0}) → Bool
returned (ok u) = true
returned (err e) = false

module _ (tables : Unicode) (seams : HeartbeatSeams) (now : Instant) (tick_number : ℕ) where
  -- `_safe_drain`, where the repository is due.
  unfoldable pub safe_drain : DueRepo → List SweepCall → Bool × List SweepCall
  unfolding cron_due returned
  safe_drain repo log =
      if cron_due tables repo.config.cron now
      then (returned (seams.drain log repo), drained repo.repo_full_name ∷ log)
      else (false, log)

  -- `_safe_cron_tick`
  unfoldable pub safe_cron_tick : DueRepo → List SweepCall → Bool × List SweepCall
  unfolding returned
  safe_cron_tick repo log =
      (returned (seams.cron_tick log repo), ticked repo.repo_full_name tick_number ∷ log)

  -- The sweep over the repositories: which were drained, which were ticked.
  unfoldable pub sweep : List DueRepo → List SweepCall → HeartbeatResult × List SweepCall
  unfolding safe_drain safe_cron_tick
  sweep [] log = (record { drained_repos = []; ticked_repos = [] }, log)
  sweep (repo ∷ repos) log =
      let (drain_ran, log1) = safe_drain repo log in
      let (tick_ran, log2) = safe_cron_tick repo log1 in
      let (rest, log3) = sweep repos log2 in
      (
        record {
          drained_repos =
              if drain_ran then repo.repo_full_name ∷ rest.drained_repos else rest.drained_repos;
          ticked_repos =
              if tick_ran then repo.repo_full_name ∷ rest.ticked_repos else rest.ticked_repos;
        },
        log3,
      )

  -- `run_heartbeat`
  unfoldable pub run_heartbeat : List SweepCall → Result HeartbeatResult × List SweepCall
  unfolding sweep
  run_heartbeat log = elim seams.enumerate_repos [
    | err e ↦ (err e, log)
    | ok repos ↦ let (result, log') = sweep repos log in (ok result, log')
  ]

-- `heartbeat_tick` of a wired worker: the tick number that it leaves on the context, and the sweep.
unfoldable pub heartbeat_tick :
    Unicode
    → HeartbeatSeams
    → Instant
    → ℕ
    → List SweepCall
    → Result HeartbeatResult × ℕ × List SweepCall
unfolding run_heartbeat
heartbeat_tick tables seams now tick_number log =
    let (result, log') = run_heartbeat tables seams now (tick_number + 1) log in
    (result, tick_number + 1, log')
