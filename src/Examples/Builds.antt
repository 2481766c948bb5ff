-- ===== src/Examples/Builds.antt =====
-- A build in its container (retinue/container_build.py, retinue/adhoc_build.py, retinue/done_check.py)
-- at concrete inputs.
use the_retinue.Base.{
  arith, ◌≤◌, ◌≡◌, refl, true, false, Option, none, some, List, [], ◌∷◌, ◌++◌, if◌then◌else◌, ◌==◌,
  nat_eq, list_eq, length, Text, text, gh_cli_error, ok, err,
}
use the_retinue.Vocab.{high, low}
use the_retinue.RepoConfig.{RepoConfig, default_config}
use the_retinue.AdhocIssue.{AdhocIssue}
use the_retinue.DoneCheck.{tail}
use the_retinue.DoneCheck.Secrets.{length-tail}
use the_retinue.Container.{RunResult, ReviewFinding, BuildSeams}
use the_retinue.Build.{BuildJob}
use the_retinue.Build.Implement.{ContainerImplementer}
use the_retinue.Gate.{ReviewGateOutcome, run_review_gate}
use the_retinue.Gate.Cleared.{Cleared, run_review_gate-Cleared}
use the_retinue.AdhocBuild.{AdhocJob, adhoc_build_job, build_adhoc_issue}
use the_retinue.AdhocBuild.Green.{PushesGreen}
use the_retinue.AdhocBuild.Pushed.{build_adhoc_issue-PushesGreen}
use the_retinue.AdhocBuild.Contained.{alive, RunsInside, build_adhoc_issue-contained}

length-tail_example : length (tail (text "one" ++ 10 ∷ text "two") 1 2) ≤ 2
length-tail_example = length-tail (text "one" ++ 10 ∷ text "two") 1 2 (omega arith)

-- The configuration names a secret `A`, whose placeholder names `B`.
abbrev config : RepoConfig
config = record default_config {
  target_branch = some (text "main");
  secrets = record { values = (text "A", text "${{ secrets.B }}") ∷ []; refs = [] };
}

abbrev only_b : Text → Option Text
only_b name = if name == text "B" then some (text "hidden") else none

abbrev blocker : ReviewFinding
blocker = record { title = text "Wrong sum"; body = text "It is off by one."; severity = high }

abbrev nit : ReviewFinding
nit = record { title = text "Typo"; body = text "A comment."; severity = low }

abbrev fine : RunResult
fine = record { exit_code = 0; stdout = text "1"; stderr = [] }

-- Every command succeeds, the first review finds a blocker and a nit, and no report can be posted.
abbrev pub seams : BuildSeams
seams = record {
  report = λ log report. err gh_cli_error;
  mint = λ log repo. ok (text "https://github.com/o/r");
  start = λ log image env. ok tt;
  command = λ log argv env. ok fine;
  issue_facts = λ log repo number. ok (text "Sum", text "Add the numbers.");
  review = λ log diff. ok (blocker ∷ nit ∷ []);
  destroy = λ log. ok tt;
  flags_error = λ s. false;
  repr = λ e. text "Exception()";
  repr_text = λ name. text "'" ++ name ++ text "'";
}

abbrev implementer : ContainerImplementer
implementer = record {
  credential = text "token";
  auth_mode = text "api_key";
  model = text "small";
  max_turns = 80;
}

abbrev pub commands : List (List Text)
commands = (text "uv" ∷ text "run" ∷ text "pytest" ∷ []) ∷ []

abbrev job : AdhocJob
job = record {
  config = config;
  commands = ok commands;
  planner = record { credential = text "token"; auth_mode = text "api_key"; model = text "large" };
  implementer = implementer;
  resolve = only_b;
  with_review = true;
  image = text "runner";
}

abbrev pub issue : AdhocIssue
issue = record { repo_full_name = text "o/r"; issue_number = 5; chain_depth = 0 }

build_adhoc_issue-PushesGreen_example :
    PushesGreen seams commands (build_adhoc_issue seams job issue []).1
build_adhoc_issue-PushesGreen_example = build_adhoc_issue-PushesGreen seams job issue commands refl

build_adhoc_issue-contained_example :
    (alive (build_adhoc_issue seams job issue []).1 ≡ 0)
    × RunsInside (build_adhoc_issue seams job issue []).1
build_adhoc_issue-contained_example = build_adhoc_issue-contained seams job issue

run_review_gate-Cleared_example :
    (outcome : ReviewGateOutcome) × ((run_review_gate seams config
        (ok commands)
        implementer
        issue
        []).0
      ≡ ok outcome)
    × Cleared seams config issue outcome
        (run_review_gate seams config (ok commands) implementer issue []).1
run_review_gate-Cleared_example =
    run_review_gate-Cleared seams config issue (ok commands) implementer []

abbrev built : BuildJob ReviewGateOutcome
built = adhoc_build_job seams job issue (text "main")
