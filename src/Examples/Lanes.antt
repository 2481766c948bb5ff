-- ===== src/Examples/Lanes.antt =====
-- A build with the pipeline behind it (retinue/pipeline.py: bind_adhoc_build) at a concrete input.
use the_retinue.Base.{none, some, [], nat_eq, list_eq, text, ok}
use the_retinue.RepoConfig.{RepoConfig, default_config}
use the_retinue.Lane.{Lane, LaneState, build_lane}
use the_retinue.Lane.Opens.{Lands, build_lane-Lands}
use the_retinue.Examples.Builds.{issue}
use the_retinue.Examples.Builds
use the_retinue.Examples.Pipelines
use the_retinue.Examples.Levels

abbrev config : RepoConfig
config = record default_config { target_branch = some (text "main"); routing = some Levels.routing }

-- Every command succeeds, the verdict can be posted, and the reviewer finds nothing: the pull request
-- is opened.
abbrev lane : Lane
lane = record {
  credential = text "token";
  auth_mode = text "api_key";
  max_turns = 80;
  config = config;
  commands = ok Builds.commands;
  resolve = λ name. none;
  routing = Levels.seams;
  build = record Builds.seams { report = λ log report. ok tt; review = λ log diff. ok [] };
  pipeline = Pipelines.seams;
  now = 2000;
  classifier_charge = 10000;
}

abbrev before : LaneState
before = record { routed = Levels.before; log = []; state = Pipelines.before }

build_lane-Lands_example : Lands lane issue before (build_lane lane issue before).1
build_lane-Lands_example = build_lane-Lands lane issue before
