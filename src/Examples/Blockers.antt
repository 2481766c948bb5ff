-- ===== src/Examples/Blockers.antt =====
-- Readiness (retinue/readiness.py) at concrete inputs.
use the_retinue.Base.{ℕ, Bool, List, [], ◌∷◌, if◌then◌else◌, ◌==◌, nat_eq, list_eq, text}
use the_retinue.Readiness.{BlockableIssue}

-- Issue 4 names 2 in its body; issue 5 is blocked by 3 as GitHub records it. Only 2 is closed.
abbrev issues : List BlockableIssue
issues =
    record { number = 4; body = text "## Blocked by\n- #2\n" }
    ∷ record { number = 5; body = text "no block" }
    ∷ []

abbrev native : ℕ → List ℕ
native n = if n == 5 then 3 ∷ [] else []

abbrev closed : ℕ → Bool
closed n = n == 2
