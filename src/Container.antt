-- ===== src/Container.antt =====
-- retinue/container.py and the seams of a build in a container: the commands it runs, the reports it
-- posts, the reviews it asks for. Every answer may depend on all that was done before it.
use the_retinue.Base.{
  ℕ, Bool, List, [], ◌∷◌, nat_beq, if◌then◌else◌, nat_eq, list_eq, Text, Dict, Exn, other_error,
  Result, ok, err,
}
use the_retinue.Vocab.{Severity, issue_branch}
use the_retinue.DoneCheck.{DoneCheckReport}
use the_retinue.Exec.{Exec, pure, raise, ◌>>=◌, ◌>>◌}

pub record RunResult : Type 0 where
  pub exit_code : ℕ
  pub stdout : Text
  pub stderr : Text

-- `RunResult.ok`
unfoldable pub run_ok : RunResult → Bool
run_ok result = nat_beq result.exit_code 0

-- `retinue/reviewer.py: ReviewFinding`
pub record ReviewFinding : Type 0 where
  pub title : Text
  pub body : Text
  pub severity : Severity

-- `retinue/container_build.py: Slice`
pub record Slice : Type 0 where
  pub repo_full_name : Text
  pub issue_number : ℕ
  pub prd_number : ℕ

-- `Slice.branch`
unfoldable pub slice_branch : Slice → Text
slice_branch slice = issue_branch slice.issue_number

-- What a command is run for.
pub data Purpose : Type 0 where
  cloning branching planning writing implementing counting checking pushing diffing : Purpose

-- What a build does outside its own process.
pub data BuildEvent : Type 0 where
  reported : DoneCheckReport → BuildEvent
  minted : Text → BuildEvent
  started : Text → Dict Text Text → BuildEvent
  ran : Purpose → List Text → Dict Text Text → BuildEvent
  read_facts : Text → ℕ → BuildEvent
  reviewed : Text → BuildEvent
  destroying : BuildEvent

-- The events so far, the newest first.
abbrev pub BuildLog : Type 0
BuildLog = List BuildEvent

-- The answers of the seams: the report sink, the App's tokens (a clone URL), Docker, the commands in
-- the container, the facts of an issue (title and body), the reviewer; and what `json.loads` and
-- `repr` give.
pub record BuildSeams : Type 0 where
  pub report : BuildLog → DoneCheckReport → Result (Unit {0})
  pub mint : BuildLog → Text → Result Text
  pub start : BuildLog → Text → Dict Text Text → Result (Unit {0})
  pub command : BuildLog → List Text → Dict Text Text → Result RunResult
  pub issue_facts : BuildLog → Text → ℕ → Result (Text × Text)
  pub review : BuildLog → Text → Result (List ReviewFinding)
  pub destroy : BuildLog → Result (Unit {0})
  pub flags_error : Text → Bool
  pub repr : Exn → Text
  pub repr_text : Text → Text

-- `container.run_command`
unfoldable pub run_command :
    BuildSeams → Purpose → List Text → Dict Text Text → Exec BuildLog RunResult
run_command seams purpose argv env log = (seams.command log argv env, ran purpose argv env ∷ log)

-- `if not result.ok: raise`
unfoldable pub require_ok : RunResult → Exec BuildLog (Unit {0})
unfolding run_ok
require_ok result = if run_ok result then pure tt else raise other_error

unfoldable pub run_or_raise : BuildSeams → Purpose → List Text → Exec BuildLog (Unit {0})
unfolding run_command require_ok
run_or_raise seams purpose argv = run_command seams purpose argv [] >>= require_ok

unfoldable pub run_each : BuildSeams → Purpose → List (List Text) → Exec BuildLog (Unit {0})
unfolding run_or_raise
run_each seams purpose [] = pure tt
run_each seams purpose (argv ∷ commands) =
    run_or_raise seams purpose argv >> run_each seams purpose commands

-- `await report(…)`
unfoldable pub post_report : BuildSeams → DoneCheckReport → Exec BuildLog (Unit {0})
post_report seams report log = (seams.report log report, reported report ∷ log)

-- `await review_generate(…)`
unfoldable pub ask_review : BuildSeams → Text → Exec BuildLog (List ReviewFinding)
ask_review seams diff log = (seams.review log diff, reviewed diff ∷ log)

-- `auth.installation_token(…)`
unfoldable pub mint_token : BuildSeams → Text → Exec BuildLog Text
mint_token seams repo log = (seams.mint log repo, minted repo ∷ log)

-- `runtime.start(…)`: a container is there only if it does not raise.
unfoldable pub start_container : BuildSeams → Text → Dict Text Text → Exec BuildLog (Unit {0})
start_container seams image env log = elim (seams.start log image env) [
  | ok _ ↦ (ok tt, started image env ∷ log)
  | err e ↦ (err e, log)
]

-- `try: body finally: await container.destroy()`. A `destroy` that raises was called, too.
unfoldable pub finally_destroy : {A : Type 0} → BuildSeams → Exec BuildLog A → Exec BuildLog A
finally_destroy seams body log =
    let (result, after) = body log in
    (elim (seams.destroy after) [ ok _ ↦ result | err e ↦ err e ], destroying ∷ after)
