-- ===== src/Base/Methods.antt =====
-- String methods that rewrite a whole text: `strip`, `splitlines`, `join`, `replace`.
use Prim.Native.Nat.{ℕ, zero, suc, ◌-◌}
use mathlib.Core.Bool.{Bool, false, ◌||◌, ◌&&◌}
use mathlib.Core.List.{List, [], ◌∷◌, ◌++◌}
use mathlib.Core.Option.{Option, none, some}
use the_retinue.Base.Tests.{leb, nat_beq, if◌then◌else◌}
use the_retinue.Base.Lists.{length}
use the_retinue.Base.Strings.{Text, is_space, skip_spaces, strip_prefix}

-- `s.rstrip()`
unfoldable pub rstrip : Text → Text
unfolding is_space
rstrip [] = []
rstrip (c ∷ s) = elim (rstrip s) [
  | [] ↦ if is_space c then [] else c ∷ []
  | d ∷ rest ↦ c ∷ d ∷ rest
]

-- `s.strip()`
unfoldable pub strip : Text → Text
unfolding rstrip skip_spaces
strip s = rstrip (skip_spaces s)

-- `separator.join(parts)`
unfoldable pub join : Text → List Text → Text
join separator [] = []
join separator (part ∷ []) = part
join separator (part ∷ other ∷ parts) = part ++ separator ++ join separator (other ∷ parts)

-- A character at which `splitlines` ends a line.
unfoldable pub is_line_break : ℕ → Bool
is_line_break c =
    leb 10 c && leb c 13
    || leb 28 c && leb c 30
    || nat_beq c 133
    || nat_beq c 8232
    || nat_beq c 8233

-- The lines of a text: `some word` where a line has begun.
lines_onto : Bool → Option Text → Text → List Text
lines_onto after_return none [] = []
lines_onto after_return (some line) [] = line ∷ []
lines_onto after_return line (c ∷ s) =
    let so_far : Text = elim line [ none ↦ [] | some word ↦ word ] in
    let skipped = lines_onto false line s in
    let ended = so_far ∷ lines_onto (nat_beq c 13) none s in
    let inside = lines_onto false (some (so_far ++ c ∷ [])) s in
    if after_return && nat_beq c 10 then skipped else if is_line_break c then ended else inside

-- `s.splitlines()`
unfoldable pub split_lines : Text → List Text
unfolding lines_onto is_line_break
split_lines = lines_onto false none

-- `s.replace(old, new)` behind `skip` characters of an occurrence, for an `old` that is not empty.
replace_from : Text → Text → ℕ → Text → Text
unfolding strip_prefix
replace_from old new skip [] = []
replace_from old new (suc skip) (c ∷ s) = replace_from old new skip s
replace_from old new zero (c ∷ s) =
    let kept = c ∷ replace_from old new zero s in
    let replaced = new ++ replace_from old new (length old - 1) s in
    elim (strip_prefix old (c ∷ s)) [ none ↦ kept | some rest ↦ replaced ]

unfoldable pub replace : Text → Text → Text → Text
unfolding replace_from
replace old new s = replace_from old new 0 s
