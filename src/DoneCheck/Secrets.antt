-- ===== src/DoneCheck/Secrets.antt =====
-- How long a failure's output gets before it is redacted (retinue/done_check.py).
use the_retinue.Base.{
  ℕ, ◌-◌, zero, suc, ◌≤◌, ◌<◌, List, [], ◌∷◌, arith, ltb, if◌then◌else◌, nat_eq, list_eq, length,
  Text, length-drop, join, split_lines,
}
use the_retinue.DoneCheck.{tail, last}

length-last : {A : Type 0} (n : ℕ) (xs : List A) → 0 < n → length (last n xs) ≤ n
unfolding last
length-last zero xs h = absurd (omega arith)
length-last (suc n) xs h = omega (arith, length-drop (length xs - suc n) xs)

-- Where `max_chars` is not 0, `_tail` gives at most `max_chars` characters, whatever a command
-- printed.
pub length-tail :
    (s : Text) (max_lines max_chars : ℕ)
    → 0 < max_chars
    → length (tail s max_lines max_chars) ≤ max_chars
unfolding tail
length-tail s max_lines max_chars h =
    let lines = split_lines s in
    let clipped =
      join (10 ∷ []) (if ltb max_lines (length lines) then last max_lines lines else lines) in
    ground (arith, length-last max_chars clipped)
