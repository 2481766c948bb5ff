-- ===== src/Base/Strings.antt =====
-- Python's `str` as the list of its code points, and the string methods that the code calls.
use Prim.Native.Nat.{ℕ, ◌+◌, ◌*◌}
use Prim.Native.Char.{code}
use Prim.Native.String.{String}
use mathlib.Core.Path.{◌≡◌, refl}
use mathlib.Core.Bool.{◌||◌, ◌&&◌, Bool, ◌&&◌}
use mathlib.Core.List.{List, [], ◌∷◌, ◌++◌}
use mathlib.Core.Option.{Option, none, some}
use native.Mathlib.Omega.{arith}
use the_retinue.Base.Tests.{leb, nat_beq, if◌then◌else◌}

abbrev pub Text : Type 0
Text = List ℕ

-- A literal.
abbrev pub text : String → Text
text String.[] = []
text (String.◌∷◌ c s) = code c ∷ text s

-- `some s[len(p):]` if `s.startswith(p)`, else `none`.
unfoldable pub strip_prefix : Text → Text → Option Text
strip_prefix [] s = some s
strip_prefix (c ∷ p) [] = none
strip_prefix (c ∷ p) (d ∷ s) = if nat_beq c d then strip_prefix p s else none

pub strip_prefix-append : (p s : Text) → strip_prefix p (p ++ s) ≡ some s
unfolding strip_prefix
strip_prefix-append [] s = refl
strip_prefix-append (c ∷ p) s = ground (arith, strip_prefix-append p s)

-- What is left after the prefix, put behind it again, is the text.
pub strip_prefix-some : (p s : Text) {r : Text} → strip_prefix p s ≡ some r → s ≡ p ++ r
unfolding strip_prefix
strip_prefix-some [] s h = ground arith
strip_prefix-some (c ∷ p) [] h = cc
strip_prefix-some (c ∷ p) (d ∷ s) {r} h = ground (arith, strip_prefix-some p s {r = r})

-- `str.isspace` on one character.
unfoldable pub is_space : ℕ → Bool
is_space c =
    leb 9 c && leb c 13
    || leb 28 c && leb c 32
    || nat_beq c 133
    || nat_beq c 160
    || nat_beq c 5760
    || leb 8192 c && leb c 8202
    || nat_beq c 8232
    || nat_beq c 8233
    || nat_beq c 8239
    || nat_beq c 8287
    || nat_beq c 12288

-- The words of a text, the first of them begun by `word`.
split_onto : Text → Text → List Text
split_onto [] [] = []
split_onto (d ∷ word) [] = (d ∷ word) ∷ []
split_onto [] (c ∷ s) = split_onto (if is_space c then [] else c ∷ []) s
split_onto (d ∷ word) (c ∷ s) =
    let inside = split_onto ((d ∷ word) ++ c ∷ []) s in
    let outside = split_onto [] s in if is_space c then (d ∷ word) ∷ outside else inside

-- `s.split()`
unfoldable pub split_words : Text → List Text
unfolding split_onto is_space
split_words = split_onto []

-- Python's character tables: `\w`, and the value of a character that `\d` matches.
pub record Unicode : Type 0 where
  pub is_word : ℕ → Bool
  pub decimal : ℕ → Option ℕ

-- The text behind `\s*`.
unfoldable pub skip_spaces : Text → Text
unfolding is_space
skip_spaces [] = []
skip_spaces (c ∷ s) = if is_space c then skip_spaces s else c ∷ s

-- `\d*` and `int`: the number that the digits here continue, and what follows them.
unfoldable pub digits_onto : Unicode → ℕ → Text → ℕ × Text
digits_onto tables n [] = (n, [])
digits_onto tables n (c ∷ s) =
    let more = λ (d : ℕ). digits_onto tables (n * 10 + d) s in
    elim (tables.decimal c) [ none ↦ (n, c ∷ s) | some d ↦ more d ]

-- `\d+` and `int`
unfoldable pub read_number : Unicode → Text → Option (ℕ × Text)
unfolding digits_onto
read_number tables [] = none
read_number tables (c ∷ s) = elim (tables.decimal c) [
  | none ↦ none
  | some d ↦ some (digits_onto tables d s)
]
