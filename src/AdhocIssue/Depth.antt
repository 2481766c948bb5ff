-- ===== src/AdhocIssue/Depth.antt =====
-- The chain depth in an issue's body, written and read back (retinue/adhoc_build.py).
use the_retinue.Base.{
  ℕ, suc, ◌≡◌, refl, Bool, true, false, none, some, [], ◌∷◌, ◌++◌, arith, nat_beq, nat_eq, list_eq,
  All, All-append, All-imp, Text, text, Unicode, digits_onto, HasAsciiDigits, read_number-show_onto,
  skip_spaces-show_onto, IsDigit, show-All, show,
}
use the_retinue.AdhocIssue.{render_chain_depth, marker_here, last_marker, parse_chain_depth}

-- Behind the prefix and a space stands the number.
marker_here-render :
    (tables : Unicode) (depth : ℕ)
    → HasAsciiDigits tables
    → marker_here tables (render_chain_depth depth) ≡ some depth
unfolding marker_here render_chain_depth show digits_onto
marker_here-render tables depth ascii = ground (
  arith,
  skip_spaces-show_onto (suc depth) depth [],
  read_number-show_onto tables (suc depth) depth [] ascii,
)

last_marker-none :
    (tables : Unicode) (s : Text)
    → All (λ c. nat_beq c 10 ≡ false) s
    → last_marker tables false s ≡ none
unfolding last_marker
last_marker-none tables [] h = refl
last_marker-none tables (c ∷ s) h = ground (arith, h.0, last_marker-none tables s)

-- A rendered marker is one line.
one_line : (depth : ℕ) → All (λ c. nat_beq c 10 ≡ false) (text "hain-depth: " ++ show depth)
one_line depth =
    All-append (λ c. nat_beq c 10 ≡ false) (text "hain-depth: ") (show depth) (ground arith)
      (All-imp IsDigit (show depth) (λ c d. ground arith) (show-All depth))

last_marker-render :
    (tables : Unicode) (depth : ℕ)
    → HasAsciiDigits tables
    → last_marker tables true (render_chain_depth depth) ≡ some depth
unfolding last_marker render_chain_depth
last_marker-render tables depth ascii = ground (
  arith,
  last_marker-none tables (text "hain-depth: " ++ show depth) (one_line depth),
  marker_here-render tables depth ascii,
)

last_marker_front :
    (tables : Unicode) (line_start : Bool) (body rest : Text) (depth : ℕ)
    → last_marker tables true rest ≡ some depth
    → last_marker tables line_start (body ++ 10 ∷ rest) ≡ some depth
unfolding last_marker
last_marker_front tables line_start [] rest depth h = ground (arith, h)
last_marker_front tables line_start (c ∷ body) rest depth h =
    rw (last_marker_front tables (nat_beq c 10) body rest depth h, last_marker)

-- Whatever a body says, also if it quotes markers, behind a line break and a rendered depth it is read
-- as that depth.
pub parse_chain_depth-render :
    (tables : Unicode) (body : Text) (depth : ℕ)
    → HasAsciiDigits tables
    → parse_chain_depth tables (body ++ 10 ∷ render_chain_depth depth) ≡ depth
unfolding parse_chain_depth
parse_chain_depth-render tables body depth ascii = rw (
  last_marker_front tables true body (render_chain_depth depth) depth
      (last_marker-render tables depth ascii),
  parse_chain_depth,
)
