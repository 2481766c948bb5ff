-- ===== src/RunStateStore/Rounds.antt =====
-- The rows of the run-state store (retinue/reconcile.py), written and read back.
use the_retinue.Base.{
  ℕ, zero, suc, ◌+◌, ◌/◌, ◌%◌, ◌≤◌, ◌≡◌, refl, sym, ap, ◌∙◌, ◌⊎◌, inl, inr, true, false, none, some,
  List, [], ◌∷◌, ◌++◌, arith, nat_beq, Bool-cases, Option-cases, nat_eq, list_beq_iff, list_eq,
  length, All, Text, text, IsDigit, show-All, show_onto, show, read_onto, read_onto-show,
  snoc_append, join,
}
use the_retinue.Github.{RunStateRow}
use the_retinue.RunStateStore.{
  run_state_key, has_row, upsert, row_of, show_each, encode_slices, prepend, split_commas,
  read_parts, decode_slices, slices_of, record_pr, like, fold_ascii, behind_hash, key_number,
  is_round, find_round, round_for_pr,
}

-- A text of digits is one part, and with a comma behind it, the first.
split_commas-one : (s : Text) → All IsDigit s → split_commas s ≡ s ∷ []
unfolding split_commas prepend
split_commas-one [] h = refl
split_commas-one (c ∷ s) h = ground (arith, h.0, split_commas-one s h.1)

split_commas-first :
    (s rest : Text) → All IsDigit s → split_commas (s ++ b',' ∷ rest) ≡ s ∷ split_commas rest
unfolding split_commas prepend
split_commas-first [] rest h = refl
split_commas-first (c ∷ s) rest h = ground (arith, h.0, split_commas-first s rest h.1)

length-show_onto : (fuel n : ℕ) (rest : Text) → length rest ≤ length (show_onto fuel n rest)
unfolding show_onto
length-show_onto zero n rest = omega arith
length-show_onto (suc fuel) n rest =
    ground (arith, length-show_onto fuel (n / 10) ((48 + n % 10) ∷ rest))

length-show : (n : ℕ) → 1 ≤ length (show n)
unfolding show show_onto
length-show n = ground (arith, length-show_onto n (n / 10) ((48 + n % 10) ∷ []))

read_parts-show :
    (part : Text) (n : ℕ) (parts : List Text)
    → show n ≡ part
    → read_parts (part ∷ parts) ≡ n ∷ read_parts parts
unfolding read_parts
read_parts-show [] n parts e = absurd (omega (arith, length-show n, ap length e))
read_parts-show (c ∷ part) n parts e =
    ap (λ m. m ∷ read_parts parts) (sym (ap (read_onto 0) e) ∙ read_onto-show n)

decoded_empty : decode_slices [] ≡ []
unfolding decode_slices split_commas read_parts
decoded_empty = refl

encode_slices-cons :
    (n m : ℕ) (ns : List ℕ) → encode_slices (n ∷ m ∷ ns) ≡ show n ++ b',' ∷ encode_slices (m ∷ ns)
unfolding encode_slices join show_each
encode_slices-cons n m ns = snoc_append (show n) b',' (encode_slices (m ∷ ns))

decode_slices-first :
    (n : ℕ) (rest : Text) → decode_slices (show n ++ b',' ∷ rest) ≡ n ∷ decode_slices rest
unfolding decode_slices
decode_slices-first n rest =
    ap read_parts (split_commas-first (show n) rest (show-All n))
    ∙ read_parts-show (show n) n (split_commas rest) refl

decode_slices-last : (n : ℕ) → decode_slices (show n) ≡ n ∷ []
unfolding decode_slices read_parts
decode_slices-last n =
    ap read_parts (split_commas-one (show n) (show-All n)) ∙ read_parts-show (show n) n [] refl

-- `slices` of any issue numbers is read back as these numbers, in their order.
pub decode_slices-encode_slices : (ns : List ℕ) → decode_slices (encode_slices ns) ≡ ns
unfolding encode_slices join show_each
decode_slices-encode_slices [] = decoded_empty
decode_slices-encode_slices (n ∷ []) = decode_slices-last n
decode_slices-encode_slices (n ∷ m ∷ ns) =
    ap decode_slices (encode_slices-cons n m ns)
    ∙ decode_slices-first n (encode_slices (m ∷ ns))
    ∙ ap (λ rest. n ∷ rest) (decode_slices-encode_slices (m ∷ ns))

-- `%` matches every text, and so a pattern without `%` and `_` but at its end matches its own text.
like-any : (s : Text) → like (text "%") s ≡ true
unfolding like
like-any [] = refl
like-any (c ∷ s) = ground (arith, like-any s)

like-key :
    (repo rest : Text)
    → All (λ c. nat_beq c b'%' ≡ false) repo
    → like (repo ++ text "#%") (repo ++ b'#' ∷ rest) ≡ true
unfolding like fold_ascii
like-key [] rest h = ground (arith, like-any rest)
like-key (c ∷ repo) rest h = ground (arith, h.0, like-key repo rest h.1)

behind_hash-none : (s : Text) → All IsDigit s → behind_hash s ≡ none
unfolding behind_hash
behind_hash-none [] h = refl
behind_hash-none (c ∷ s) h = ground (arith, h.0, behind_hash-none s h.1)

behind_hash-append : (repo s : Text) → All IsDigit s → behind_hash (repo ++ b'#' ∷ s) ≡ some s
unfolding behind_hash
behind_hash-append [] s h = ground (arith, behind_hash-none s h)
behind_hash-append (c ∷ repo) s h = ground (arith, behind_hash-append repo s h)

key_number-run_state_key : (repo : Text) (n : ℕ) → key_number (run_state_key repo n) ≡ n
unfolding key_number run_state_key
key_number-run_state_key repo n =
    rw (behind_hash-append repo (show n) (show-All n), key_number) (read_onto-show n)

-- The row of a key, or the one that an upsert begins with.
abbrev row_or_new : Text → List RunStateRow → RunStateRow
row_or_new key table = elim (row_of key table) [
  | none ↦ record { prd_key = key; slices = []; pr_number = none }
  | some row ↦ row
]

abbrev with_pr : ℕ → RunStateRow → RunStateRow
with_pr number row = record row { pr_number = some number }

module _ (repo : Text) (n number : ℕ) (plain : All (λ c. nat_beq c b'%' ≡ false) repo) where
  abbrev key : Text
  key = run_state_key repo n

  is_round-new :
      (row : RunStateRow)
      → row.prd_key ≡ key
      → is_round repo number (record row { pr_number = some number }) ≡ true
  unfolding is_round run_state_key
  is_round-new row e = rw (e) (ground (arith, like-key repo (show n) plain))

  has_row-key : (row : RunStateRow) → has_row key row ≡ true → row.prd_key ≡ key
  unfolding has_row
  has_row-key row yes_it_is = (list_beq_iff row.prd_key key).0 yes_it_is

  key-has_row : (row : RunStateRow) → has_row key row ≡ false → ¬ (row.prd_key ≡ key)
  unfolding has_row
  key-has_row row other e = absurd (ground (arith, other, (list_beq_iff row.prd_key key).1 e))

  -- The three ways of the upsert, in the search that follows it.
  find_first :
      (row : RunStateRow) (rows : List RunStateRow)
      → is_round repo number row ≡ true
      → find_round repo number (row ∷ rows) ≡ some row
  unfolding find_round
  find_first row rows e = rw (e) refl

  record_hit :
      (row : RunStateRow) (table : List RunStateRow)
      → has_row key row ≡ true
      → record_pr repo n number (row ∷ table) ≡ record row { pr_number = some number } ∷ table
  unfolding record_pr upsert
  record_hit row table e = rw (e, record_pr) refl

  record_miss :
      (row : RunStateRow) (table : List RunStateRow)
      → has_row key row ≡ false
      → is_round repo number row ≡ false
      → find_round repo number (record_pr repo n number (row ∷ table))
        ≡ find_round repo number (record_pr repo n number table)
  unfolding record_pr upsert find_round
  record_miss row table e f = rw (e, record_pr) (rw (f) refl)

  row_hit :
      (row : RunStateRow) (table : List RunStateRow)
      → has_row key row ≡ true
      → row_or_new key (row ∷ table) ≡ row
  unfolding row_of
  row_hit row table e = rw (e, row_or_new) refl

  row_miss :
      (row : RunStateRow) (table : List RunStateRow)
      → has_row key row ≡ false
      → row_or_new key (row ∷ table) ≡ row_or_new key table
  unfolding row_of
  row_miss row table e = rw (e, row_or_new) refl

  find_round-record_pr :
      (table : List RunStateRow)
      → All (λ row. (row.prd_key ≡ key) ⊎ (is_round repo number row ≡ false)) table
      → (find_round repo number (record_pr repo n number table)
          ≡ some (record (row_or_new key table) { pr_number = some number }))
        × ((row_or_new key table).prd_key ≡ key)
  unfolding record_pr upsert row_of
  find_round-record_pr [] h = (
    find_first _ [] (is_round-new (record { prd_key = key; slices = []; pr_number = none }) refl),
    refl,
  )
  find_round-record_pr (row ∷ table) h = elim (Bool-cases (has_row key row)) [
    | inl hit ↦
        let e = has_row-key row hit in
        (
          ap (find_round repo number) (record_hit row table hit)
              ∙ find_first (record row { pr_number = some number }) table (is_round-new row e)
              ∙ ap (λ r. some (with_pr number r)) (sym (row_hit row table hit)),
          ap (λ r. r.prd_key) (row_hit row table hit) ∙ e,
        )
    | inr miss ↦
        let rest = find_round-record_pr table h.1 in
        let other : is_round repo number row ≡ false = elim h.0 [
          | inl e ↦ absurd (key-has_row row miss e)
          | inr e ↦ e
        ] in
        (
          record_miss row table miss other
              ∙ rest.0
              ∙ ap (λ r. some (with_pr number r)) (sym (row_miss row table miss)),
          ap (λ r. r.prd_key) (row_miss row table miss) ∙ rest.1,
        )
  ]

  slices_of-row_or_new :
      (table : List RunStateRow)
      → decode_slices (row_or_new key table).slices ≡ slices_of repo n table
  unfolding slices_of
  slices_of-row_or_new table = elim (Option-cases (row_of key table)) [
    | inl e ↦ rw (e, row_or_new, slices_of) decoded_empty
    | inr (row, e) ↦ rw (e, row_or_new, slices_of) refl
  ]

  -- The pull request that was recorded for a build leads back to the build: `round_for_pr` gives its
  -- number and the issues that it owns, for a repository whose name has no `%`, if no row of another
  -- build passes for one of this repository with that pull request.
  pub round_for_pr-record_pr :
      (table : List RunStateRow)
      → All (λ row. (row.prd_key ≡ key) ⊎ (is_round repo number row ≡ false)) table
      → round_for_pr repo number (record_pr repo n number table) ≡ some (n, slices_of repo n table)
  unfolding round_for_pr slices_of
  round_for_pr-record_pr table h =
      let found = find_round-record_pr table h in
      rw (found.0, round_for_pr)
        (ap (λ k. some (key_number k, decode_slices (row_or_new key table).slices)) found.1
          ∙ ap (λ m. some (m, decode_slices (row_or_new key table).slices))
              (key_number-run_state_key repo n)
          ∙ ap (λ ns. some (n, ns)) (slices_of-row_or_new table))
