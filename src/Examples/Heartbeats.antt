-- ===== src/Examples/Heartbeats.antt =====
-- The cadence and the sweep of retinue/heartbeat.py at concrete inputs.
use the_retinue.Base.{
  ◌≡◌, refl, true, false, some, List, [], ◌∷◌, ◌++◌, nat_eq, list_eq, filter, count, list_beq, text,
  other_error, ok, err,
}
use the_retinue.RepoConfig.{default_config}
use the_retinue.Heartbeat.{
  Instant, DueRepo, HeartbeatResult, HeartbeatSeams, cron_due, run_heartbeat,
}
use the_retinue.Heartbeat.Sweep.{lanes, drains, names, due, run_heartbeat-sweeps}
use the_retinue.Examples.Labels.{ascii}

-- A Sunday, 03:20.
abbrev now : Instant
now = record { minute = 20; hour = 3; day = 1; month = 2; weekday = 6 }

-- `5/15` is 5, 20, 35 and 50, and 7 is a Sunday too.
cron_due_steps : cron_due ascii (some (text "5/15 * 1-7,20 */1 7")) now ≡ true
unfolding cron_due list_beq count
cron_due_steps = refl

-- A step of 0, and a range out of order, match nothing.
cron_due_zero_step : cron_due ascii (some (text "*/0 * * * *")) now ≡ false
unfolding cron_due list_beq count
cron_due_zero_step = refl

cron_due_order : cron_due ascii (some (text "30-10 * * * *")) now ≡ false
unfolding cron_due list_beq count
cron_due_order = refl

abbrev repos : List DueRepo
repos =
    record {
      repo_full_name = text "o/a";
      config = record default_config { cron = some (text "20 * * * *") };
    }
    ∷ record { repo_full_name = text "o/b"; config = default_config }
    ∷ []

-- Every drain and every tick raises.
abbrev seams : HeartbeatSeams
seams = record {
  enumerate_repos = ok repos;
  drain = λ log repo. err other_error;
  cron_tick = λ log repo. err other_error;
}

run_heartbeat-sweeps_example :
    (result : HeartbeatResult) × ((run_heartbeat ascii seams now 4 []).0 ≡ ok result)
    × (lanes (run_heartbeat ascii seams now 4 []).1 ≡ [] ++ names repos)
    × (drains (run_heartbeat ascii seams now 4 []).1
        ≡ [] ++ names (filter (due ascii seams now 4) repos))
run_heartbeat-sweeps_example = run_heartbeat-sweeps ascii seams now 4 repos [] refl
