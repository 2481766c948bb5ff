-- ===== src/Readiness/Resolve.antt =====
-- `resolve_ready` of retinue/readiness.py against its description, for a gh whose calls answer.
use mathlib.Core.List.{Memᴰ}
use the_retinue.Base.{
  err, value_error, ℕ, ◌≡◌, ◌⊎◌, Bool, true, false, ◌&&◌, Option, none, some, List, [], ◌∷◌,
  if◌then◌else◌, ◌==◌, nat_eq, list_eq, All, Unicode, Dict, lookup, ok,
}
use the_retinue.Readiness.Body.{parse_body_blockers}
use the_retinue.Readiness.{BlockableIssue, ReadinessGh, blockers_of}

-- Every call answers, and the same call answers the same.
abbrev pub answering : (ℕ → List ℕ) → (ℕ → Bool) → ReadinessGh
answering native closed = record {
  native_blockers = λ n. ok (native n);
  is_closed = λ n. ok (closed n);
}

-- The last of the candidates with a number: a `dict` keeps one entry for each.
pub last_with : ℕ → List BlockableIssue → Option BlockableIssue
last_with n [] = none
last_with n (c ∷ cs) = elim (last_with n cs) [
  | none ↦ if c.number == n then some c else none
  | some d ↦ some d
]

-- Every blocker on a list is closed.
pub every : (ℕ → Bool) → List ℕ → Bool
every closed [] = true
every closed (b ∷ bs) = closed b && every closed bs

module _ (tables : Unicode) (native : ℕ → List ℕ) (closed : ℕ → Bool) where
  abbrev gh : ReadinessGh
  gh = answering native closed

  -- The blockers of a candidate whose body can be read.
  pub entry : BlockableIssue → Option (List ℕ)
  entry c = elim (parse_body_blockers tables c.body) [
    | err e ↦ none
    | ok named ↦ some (blockers_of tables gh c named (native c.number))
  ]

  -- Of each candidate's number, the blockers of the last candidate that has it.
  Describes : Dict ℕ (List ℕ) → Dict ℕ (List ℕ) → List BlockableIssue → Type 0
  Describes before after cs =
      (n : ℕ) → lookup n after ≡ elim (last_with n cs) [ none ↦ lookup n before | some c ↦ entry c ]

  -- A candidate's body has a reference that `int` does not read.
  abbrev pub Unreadable : List BlockableIssue → Type 0
  Unreadable cs =
      (c : BlockableIssue) × Memᴰ c cs × (parse_body_blockers tables c.body ≡ err value_error)

  abbrev no_answers : Dict ℕ Bool
  no_answers = []

  abbrev Known : Dict ℕ Bool → ℕ → Type 0
  Known cache k = lookup k cache ≡ some (closed k)

  record Grows (cache cache' : Dict ℕ Bool) : Type 0 where
    agrees : (k : ℕ) → (lookup k cache' ≡ none) ⊎ Known cache' k
    keeps : (k : ℕ) → Known cache k → Known cache' k

  abbrev Agrees : Dict ℕ Bool → Type 0
  Agrees cache = (k : ℕ) → (lookup k cache ≡ none) ⊎ Known cache k

  -- Every blocker of every entry is in the cache.
  abbrev AllKnown : Dict ℕ Bool → Dict ℕ (List ℕ) → Type 0
  AllKnown cache = All (λ (n, bs). All (Known cache) bs)

  -- The description of the last loop.
  abbrev is_ready : Dict ℕ (List ℕ) → ℕ → Bool
  is_ready d n = elim (lookup n d) [ none ↦ false | some bs ↦ every closed bs ]
