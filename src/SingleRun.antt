-- ===== src/SingleRun.antt =====
-- retinue/single_run.py: the lock of a lane, and the runs that enter and leave it.
use the_retinue.Base.{
  ℕ, ◌≤◌, ◌≡◌, refl, ap, inl, inr, Bool, true, false, not, List, [], ◌∷◌, arith, nat_beq,
  if◌then◌else◌, Bool-cases, ◌==◌, nat_eq, contains, list_eq, length, filter, Exn, Result, ok, err,
}

-- `SingleRunLock.__aenter__`, of a lock with this flag, for the exception of its lane.
unfoldable pub aenter : Exn → Bool → Result (Unit {0}) × Bool
aenter busy_error held = if held then (err busy_error, held) else (ok tt, true)

-- `SingleRunLock.__aexit__`
unfoldable pub aexit : Bool → Bool
aexit held = false

-- The flag, and the runs inside an `async with` of the lock.
pub record LockState : Type 0 where
  pub held : Bool
  pub inside : List ℕ

pub data LockEvent : Type 0 where
  enters leaves : ℕ → LockEvent

-- One event. `async with` runs the body only behind an entry that did not raise, and leaves once
-- for it.
pub happen : Exn → LockEvent → LockState → LockState
unfolding aenter aexit
happen busy_error (enters run) s =
    let (entered, held') = aenter busy_error s.held in
    elim entered [
      | ok _ ↦ record { held = held'; inside = run ∷ s.inside }
      | err e ↦ record s { held = held' }
    ]
happen busy_error (leaves run) s =
    let out : LockState = record {
      held = aexit s.held;
      inside = filter (λ r. not (r == run)) s.inside;
    } in
    if contains s.inside run then out else s

pub happen_all : Exn → List LockEvent → LockState → LockState
happen_all busy_error [] s = s
happen_all busy_error (event ∷ events) s = happen_all busy_error events (happen busy_error event s)

-- The flag says whether a run is inside, and there is one at most.
pub record IsExclusive (s : LockState) : Type 0 where
  pub flag : s.held ≡ nat_beq (length s.inside) 1
  pub at_most_one : length s.inside ≤ 1

last_leaves :
    (xs : List ℕ) (run : ℕ)
    → contains xs run ≡ true
    → length xs ≤ 1
    → filter (λ r. not (r == run)) xs ≡ []
unfolding contains filter
last_leaves [] run h few = refl
last_leaves (x ∷ []) run h few = ground (arith, h)
last_leaves (x ∷ y ∷ xs) run h few = absurd (omega (arith, few))

happen-IsExclusive :
    (busy_error : Exn) (event : LockEvent) (s : LockState)
    → IsExclusive s
    → IsExclusive (happen busy_error event s)
unfolding happen
happen-IsExclusive busy_error (enters run) s x = elim (Bool-cases s.held) [
  | inl held ↦
      rw (held, happen)
        (record { flag = ground (arith, held, x.flag); at_most_one = x.at_most_one })
  | inr free ↦
      rw (free, happen)
        (record {
          flag = ground (arith, free, x.flag, x.at_most_one);
          at_most_one = ground (arith, free, x.flag, x.at_most_one);
        })
]
happen-IsExclusive busy_error (leaves run) s x = elim (Bool-cases (contains s.inside run)) [
  | inr outside ↦ rw (outside, happen) x
  | inl inside ↦
      let empty = last_leaves s.inside run inside x.at_most_one in
      rw (inside, happen)
        (record {
          flag = ground (arith, ap length empty);
          at_most_one = omega (arith, ap length empty);
        })
]

happen_all-keeps :
    (busy_error : Exn) (events : List LockEvent) (s : LockState)
    → IsExclusive s
    → IsExclusive (happen_all busy_error events s)
unfolding happen_all
happen_all-keeps busy_error [] s x = x
happen_all-keeps busy_error (event ∷ events) s x =
    happen_all-keeps busy_error events (happen busy_error event s)
      (happen-IsExclusive busy_error event s x)

abbrev pub fresh_lock : LockState
fresh_lock = record { held = false; inside = [] }

-- However runs try to enter a fresh lock and leave it, at most one is inside at any time, and the
-- flag is set exactly while one is.
pub happen_all-IsExclusive :
    (busy_error : Exn) (events : List LockEvent)
    → IsExclusive (happen_all busy_error events fresh_lock)
happen_all-IsExclusive busy_error events =
    happen_all-keeps busy_error events fresh_lock
      (record { flag = ground arith; at_most_one = omega arith })
