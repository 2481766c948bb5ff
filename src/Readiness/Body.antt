-- ===== src/Readiness/Body.antt =====
-- retinue/readiness.py: the blockers that an issue's body names, by the code's two regular
-- expressions, written as the scans that they are.
use the_retinue.Base.{
  ℕ, suc, ltb, Result, ok, err, value_error, ◌+◌, ◌-◌, ◌*◌, Bool, true, false, not, ◌&&◌, ◌||◌,
  Option, none, some, List, [], ◌∷◌, leb, nat_beq, if◌then◌else◌, nat_eq, list_eq, dedup, Text,
  text, strip_prefix, is_space, skip_spaces, Unicode,
}

-- A pattern letter against a character under `re.IGNORECASE`. U+212A is the Kelvin sign.
unfoldable pub same_letter : ℕ → ℕ → Bool
same_letter p c =
    nat_beq p c
    || leb b'a' p && leb p b'z' && nat_beq (p - 32) c
    || nat_beq p b'k' && nat_beq c 8490

-- The text behind a literal that the pattern spells in lower case.
unfoldable pub strip_letters : Text → Text → Option Text
unfolding same_letter
strip_letters [] s = some s
strip_letters (p ∷ ps) [] = none
strip_letters (p ∷ ps) (c ∷ s) = if same_letter p c then strip_letters ps s else none

-- The text behind `\s+`.
unfoldable pub skip_some_spaces : Text → Option Text
unfolding skip_spaces
skip_some_spaces [] = none
skip_some_spaces (c ∷ s) = if is_space c then some (skip_spaces s) else none

-- `##\s`, as the lookahead tests it.
unfoldable pub begins_heading : Text → Bool
unfolding is_space
begins_heading (a ∷ b ∷ c ∷ s) = nat_beq a b'#' && (nat_beq b b'#' && is_space c)
begins_heading _ = false

-- `.*?(?=^##\s|\Z)`: up to the next line that begins a heading, or to the end.
unfoldable pub until_heading : Bool → Text → Text
unfolding begins_heading
until_heading line_start [] = []
until_heading line_start (c ∷ s) =
    if line_start && begins_heading (c ∷ s) then [] else c ∷ until_heading (nat_beq c 10) s

module _ (tables : Unicode) where
  -- `\b` behind a letter.
  unfoldable pub word_ends : Text → Bool
  word_ends [] = true
  word_ends (c ∷ s) = not (tables.is_word c)

  -- The text behind `##\s+Blocked by\b`, where the pattern matches here.
  unfoldable pub after_heading : Text → Option Text
  unfolding strip_prefix skip_some_spaces strip_letters word_ends
  after_heading s = elim (strip_prefix (text "##") s) [
    | none ↦ none
    | some s1 ↦ elim (skip_some_spaces s1) [
      | none ↦ none
      | some s2 ↦ elim (strip_letters (text "blocked by") s2) [
        | none ↦ none
        | some rest ↦ if word_ends rest then some rest else none
      ]
    ]
  ]

  -- `_BLOCK_RE.search`: the first line that begins a block, and the block behind its heading.
  -- The heading itself holds no `#` before a digit, so that it adds no reference.
  unfoldable pub find_block : Bool → Text → Option Text
  unfolding after_heading until_heading
  find_block line_start [] = none
  find_block line_start (c ∷ s) =
      let later = find_block (nat_beq c 10) s in
      let here : Option Text = if line_start then after_heading (c ∷ s) else none in
      elim here [ none ↦ later | some rest ↦ some (until_heading false rest) ]

  -- `_REF_RE.findall` and `int`. `open` is the number read so far behind a `#`: `none` outside a
  -- reference, `some none` right behind the `#`.
  unfoldable pub scan_refs : Option (Option ℕ) → Text → List ℕ
  scan_refs (some (some n)) [] = n ∷ []
  scan_refs _ [] = []
  scan_refs none (c ∷ s) = scan_refs (if nat_beq c b'#' then some none else none) s
  scan_refs (some none) (c ∷ s) =
      scan_refs
        (elim (tables.decimal c) [
          | none ↦ if nat_beq c b'#' then some none else none
          | some d ↦ some (some d)
        ])
        s
  scan_refs (some (some n)) (c ∷ s) =
      let more = λ (d : ℕ). scan_refs (some (some (n * 10 + d))) s in
      let next = scan_refs (if nat_beq c b'#' then some none else none) s in
      elim (tables.decimal c) [ none ↦ n ∷ next | some d ↦ more d ]

  -- `int` raises over 4300 digits: a reference that has more, behind the digits of one read so far.
  unfoldable pub has_overlong_ref : Option ℕ → Text → Bool
  has_overlong_ref none [] = false
  has_overlong_ref (some n) [] = ltb 4300 n
  has_overlong_ref none (c ∷ s) = has_overlong_ref (if nat_beq c b'#' then some 0 else none) s
  has_overlong_ref (some n) (c ∷ s) =
      let next = has_overlong_ref (if nat_beq c b'#' then some 0 else none) s in
      let more = has_overlong_ref (some (suc n)) s in
      elim (tables.decimal c) [ none ↦ ltb 4300 n || next | some d ↦ more ]

  unfoldable pub parse_body_blockers : Text → Result (List ℕ)
  unfolding find_block scan_refs dedup has_overlong_ref
  parse_body_blockers body = elim (find_block true body) [
    | none ↦ ok []
    | some block ↦
        if has_overlong_ref none block then err value_error else ok (dedup (scan_refs none block))
  ]
