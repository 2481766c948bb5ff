-- ===== src/AdhocBuild/Green.antt =====
-- A branch is pushed only behind a green done-check (retinue/container_build.py and the gate of
-- retinue/adhoc_build.py).
use the_retinue.Base.{
  ◌≡◌, refl, sym, inl, inr, Bool, true, false, List, [], ◌∷◌, arith, Bool-cases, nat_eq, list_eq,
  Text, other_error, ok, Result-cases,
}
use mathlib.Core.Path.{subst}
use the_retinue.AdhocIssue.{branch}
use the_retinue.Exec.{Exec, Keeps, continue-keeps, ◌>>=◌}
use the_retinue.Container.{
  RunResult, run_ok, pushing, checking, BuildEvent, ran, BuildLog, BuildSeams, run_command,
  require_ok, run_or_raise,
}
use the_retinue.Build.{scrub_env, run_done_check_commands, push_branch, push_branch_command}
use the_retinue.Build.Lifecycle.{is_plain, Keeps-test, Keeps-run_done_check_commands}

-- In this log the commands were run one behind the other from `before` on, with nothing in between,
-- and each exited with 0.
pub Passed : BuildSeams → List (List Text) → BuildLog → BuildLog → Type 0
Passed seams [] before log = log ≡ before
Passed seams (command ∷ commands) before log =
    (result : RunResult) × (seams.command before command scrub_env ≡ ok result)
    × (run_ok result ≡ true)
    × Passed seams commands (ran checking command scrub_env ∷ before) log

-- The last thing that was done is the whole done-check, and it was green.
abbrev pub Green : BuildSeams → List (List Text) → BuildLog → Type 0
Green seams commands log = (before : BuildLog) × Passed seams commands before log

abbrev pub is_push : BuildEvent → Bool
is_push (ran pushing argv env) = true
is_push _ = false

-- Each push stands directly behind a green done-check.
abbrev pub PushesGreen : BuildSeams → List (List Text) → BuildLog → Type 0
PushesGreen seams commands [] = Unit
PushesGreen seams commands (event ∷ log) =
    (is_push event ≡ true → Green seams commands log) × PushesGreen seams commands log

checks_green :
    (seams : BuildSeams) (command : List Text) (commands : List (List Text))
    (secret_values : List Text) (log : BuildLog) {result : RunResult}
    → seams.command log command scrub_env ≡ ok result
    → run_ok result ≡ true
    → run_done_check_commands seams (command ∷ commands) secret_values log
      ≡ run_done_check_commands seams commands secret_values (ran checking command scrub_env ∷ log)
unfolding run_done_check_commands run_command
checks_green seams command commands secret_values log q green =
    rw (q, green, run_done_check_commands) refl

-- A done-check that returns `True` has run every command to exit code 0.
checks-Passed :
    (seams : BuildSeams) (commands : List (List Text)) (secret_values : List Text) (log : BuildLog)
    {detail : Text}
    → (run_done_check_commands seams commands secret_values log).0 ≡ ok (true, detail)
    → Passed seams commands log (run_done_check_commands seams commands secret_values log).1
unfolding run_done_check_commands run_command Passed
checks-Passed seams [] secret_values log h = refl
checks-Passed seams (command ∷ commands) secret_values log {detail} h =
    elim (Result-cases (seams.command log command scrub_env)) [
      | inr (e, q) ↦ absurd (ground (arith, q, h))
      | inl (result, q) ↦ elim (Bool-cases (run_ok result)) [
        | inr red ↦ absurd (ground (arith, q, red, h))
        | inl green ↦
            let step = checks_green seams command commands secret_values log q green in
            (
              result,
              q,
              green,
              subst (λ out. Passed seams commands (ran checking command scrub_env ∷ log) out.1)
                  (sym step)
                  (checks-Passed seams commands secret_values (ran checking command scrub_env ∷ log)
                    {detail = detail} (subst (λ out. out.0 ≡ ok (true, detail)) step h)),
            )
      ]
    ]

not_both : (event : BuildEvent) → is_plain event ≡ true → ¬ (is_push event ≡ true)
not_both (ran pushing argv env) h e = cc
not_both event h e = cc

module _ (seams : BuildSeams) (commands : List (List Text)) where
  pub plain :
      (event : BuildEvent) (log : BuildLog)
      → is_plain event ≡ true
      → PushesGreen seams commands log
      → PushesGreen seams commands (event ∷ log)
  plain event log h p = ((λ e. absurd (not_both event h e)), p)

  -- A step that pushes, behind a green done-check.
  pub push-PushesGreen :
      (branch : Text) (log : BuildLog)
      → Green seams commands log
      → PushesGreen seams commands log
      → PushesGreen seams commands (push_branch seams branch log).1
  unfolding push_branch run_or_raise run_command require_ok
  push-PushesGreen branch log green p =
      continue-keeps (PushesGreen seams commands)
        (seams.command log (push_branch_command branch) []) require_ok
        (ran pushing (push_branch_command branch) [] ∷ log) ((λ e. green), p)
        (λ result e.
          Keeps-test (PushesGreen seams commands) (run_ok result) tt other_error
            (ran pushing (push_branch_command branch) [] ∷ log) ((λ e. green), p))

  -- A rest that pushes at once if the done-check is green, and not at all if it is red.
  rest :
      {A : Type 0} (secret_values : List Text) (f : Bool × Text → Exec BuildLog A)
      → ((detail : Text) (log : BuildLog)
          → Green seams commands log
          → PushesGreen seams commands log
          → PushesGreen seams commands (f (true, detail) log).1)
      → ((detail : Text) → Keeps (PushesGreen seams commands) (f (false, detail)))
      → (log : BuildLog)
      → PushesGreen seams commands (run_done_check_commands seams commands secret_values log).1
      → (verdict : Bool × Text)
      → (run_done_check_commands seams commands secret_values log).0 ≡ ok verdict
      → PushesGreen seams commands
          (f verdict (run_done_check_commands seams commands secret_values log).1).1
  rest secret_values f green red log q (true, detail) e =
      green detail (run_done_check_commands seams commands secret_values log).1
        (log, checks-Passed seams commands secret_values log {detail = detail} e) q
  rest secret_values f green red log q (false, detail) e =
      red detail (run_done_check_commands seams commands secret_values log).1 q

  pub checked-PushesGreen :
      {A : Type 0} (secret_values : List Text) (f : Bool × Text → Exec BuildLog A)
      → ((detail : Text) (log : BuildLog)
          → Green seams commands log
          → PushesGreen seams commands log
          → PushesGreen seams commands (f (true, detail) log).1)
      → ((detail : Text) → Keeps (PushesGreen seams commands) (f (false, detail)))
      → Keeps
          (PushesGreen seams commands)
          (run_done_check_commands seams commands secret_values >>= f)
  checked-PushesGreen secret_values f green red log p =
      let q =
        Keeps-run_done_check_commands (PushesGreen seams commands) seams plain commands
          secret_values log p in
      continue-keeps (PushesGreen seams commands)
        (run_done_check_commands seams commands secret_values log).0 f
        (run_done_check_commands seams commands secret_values log).1 q
        (rest secret_values f green red log q)
