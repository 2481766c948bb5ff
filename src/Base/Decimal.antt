-- ===== src/Base/Decimal.antt =====
-- `str(n)` of a natural number, and its value read back.
use Prim.Native.Nat.{ℕ, zero, suc, ◌+◌, ◌-◌, ◌*◌, ◌/◌, ◌%◌, ◌≤◌, ◌<◌}
use mathlib.Core.Path.{◌≡◌, refl, ap, sym, ◌∙◌}
use mathlib.Core.List.{[], ◌∷◌}
use native.Mathlib.Omega.{arith}
use the_retinue.Base.Tests.{ltb, if◌then◌else◌, Bool-cases}
use the_retinue.Base.Strings.{Text, Unicode, digits_onto, read_number, skip_spaces}
use the_retinue.Base.Lists.{All}
use mathlib.Core.Logic.{inl, inr}
use mathlib.Core.Option.{some}

-- The digits of `n` in front of `rest`, last digit first.
unfoldable pub show_onto : ℕ → ℕ → Text → Text
show_onto zero n rest = rest
show_onto (suc fuel) n rest =
    let more = show_onto fuel (n / 10) ((48 + n % 10) ∷ rest) in
    if ltb n 10 then (48 + n) ∷ rest else more

unfoldable pub show : ℕ → Text
unfolding show_onto
show n = show_onto (suc n) n []

unfoldable pub read_onto : ℕ → Text → ℕ
read_onto acc [] = acc
read_onto acc (c ∷ s) = read_onto (acc * 10 + (c - 48)) s

read_onto-show_onto :
    (fuel n : ℕ) (rest : Text) → n < fuel → read_onto 0 (show_onto fuel n rest) ≡ read_onto n rest
unfolding show_onto read_onto
read_onto-show_onto zero n rest h = absurd (omega arith)
read_onto-show_onto (suc fuel) n rest h =
    ground (arith, read_onto-show_onto fuel (n / 10) ((48 + n % 10) ∷ rest))

pub read_onto-show : (n : ℕ) → read_onto 0 (show n) ≡ n
unfolding show read_onto
read_onto-show n = read_onto-show_onto (suc n) n [] (omega arith)

-- Two numbers with one spelling are one number.
pub show-injective : (m n : ℕ) → show m ≡ show n → m ≡ n
show-injective m n h = sym (read_onto-show m) ∙ ap (read_onto 0) h ∙ read_onto-show n

show_37 : show 37 ≡ 51 ∷ 55 ∷ []
unfolding show
show_37 = refl

-- Of Python's tables: the ten ASCII digits have their values.
abbrev pub HasAsciiDigits : Unicode → Type 0
HasAsciiDigits tables = (d : ℕ) → d < 10 → tables.decimal (48 + d) ≡ some d

-- `int` reads what `str` wrote.
pub read_number-show_onto :
    (tables : Unicode) (fuel n : ℕ) (rest : Text)
    → HasAsciiDigits tables
    → n < fuel
    → read_number tables (show_onto fuel n rest) ≡ some (digits_onto tables n rest)
unfolding read_number show_onto
read_number-show_onto tables zero n rest ascii h = absurd (omega arith)
read_number-show_onto tables (suc fuel) n rest ascii h = ground (
  arith,
  ascii n,
  ascii (n % 10),
  read_number-show_onto tables fuel (n / 10) ((48 + n % 10) ∷ rest) ascii,
)

pub skip_spaces-show_onto :
    (fuel n : ℕ) (rest : Text)
    → n < fuel
    → skip_spaces (show_onto fuel n rest) ≡ show_onto fuel n rest
unfolding skip_spaces show_onto
skip_spaces-show_onto zero n rest h = absurd (omega arith)
skip_spaces-show_onto (suc fuel) n rest h =
    ground (arith, skip_spaces-show_onto fuel (n / 10) ((48 + n % 10) ∷ rest))

abbrev pub IsDigit : ℕ → Type 0
IsDigit c = (48 ≤ c) × (c < 58)

show_onto-All :
    (fuel n : ℕ) (rest : Text) → n < fuel → All IsDigit rest → All IsDigit (show_onto fuel n rest)
unfolding show_onto
show_onto-All zero n rest h k = absurd (omega arith)
show_onto-All (suc fuel) n rest h k = elim (Bool-cases (ltb n 10)) [
  | inl small ↦ rw small ((omega arith, ground arith), k)
  | inr large ↦ rw large (
      show_onto-All fuel (n / 10) ((48 + n % 10) ∷ rest) (ground arith)
        ((omega arith, omega arith), k))
]

-- A number is written in ASCII digits.
pub show-All : (n : ℕ) → All IsDigit (show n)
unfolding show
show-All n = show_onto-All (suc n) n [] (omega arith) tt
