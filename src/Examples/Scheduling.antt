-- ===== src/Examples/Scheduling.antt =====
-- Tiers and the two queues (retinue/repo_config.py, retinue/scheduler.py) at concrete inputs.
use the_retinue.Base.{
  ◌-◌, min, ◌≡◌, refl, true, none, some, List, [], ◌∷◌, ◌++◌, arith, nat_eq, list_beq, list_eq,
  dedup, take, count, text, IsSortedBy,
}
use mathlib.Core.List.{Perm}
use the_retinue.RepoConfig.{RepoConfig, default_config, tier_rank, is_priority_tier}
use the_retinue.RepoConfig.Validate.{is_valid}
use the_retinue.Scheduler.{Candidate, key_le, is_priority, ranked, select_to_build}
use the_retinue.Scheduler.Order.{select_to_build-ranked}
use the_retinue.Scheduler.Slots.{main_count, select_to_build_counts}
use the_retinue.Scheduler.Choice.{
  select_to_build-perm, select_to_build-IsSortedBy, select_to_build-one,
}

default_config-is_valid : is_valid default_config ≡ true
unfolding is_valid list_beq dedup the_retinue.RepoConfig.is_level_slug
default_config-is_valid = refl

-- Two of the main queue, and then two of the priority queue.
abbrev candidates : List Candidate
candidates =
    record { number = 1; labels = [] }
    ∷ record { number = 2; labels = text "priority:low" ∷ [] }
    ∷ record { number = 9; labels = text "priority:high" ∷ [] }
    ∷ record { number = 5; labels = text "priority:critical" ∷ [] }
    ∷ []

select_to_build-ranked_example :
    select_to_build default_config candidates none ≡ ranked default_config candidates
select_to_build-ranked_example =
    select_to_build-ranked default_config candidates default_config-is_valid

select_to_build_counts_example :
    (count (is_priority default_config) (select_to_build default_config candidates (some 3))
      ≡ min 3 (count (is_priority default_config) candidates))
    × (main_count default_config (select_to_build default_config candidates (some 3))
        ≡ min
            (main_count default_config candidates)
            (min (3 - 1) (3 - count (is_priority default_config) candidates)))
select_to_build_counts_example = select_to_build_counts default_config candidates 3 (omega arith)

select_to_build-perm_example :
    (left : List Candidate) × Perm
      (select_to_build default_config candidates (some 3) ++ left)
      candidates
select_to_build-perm_example = select_to_build-perm default_config candidates 3

select_to_build-IsSortedBy_example :
    IsSortedBy (key_le default_config) (select_to_build default_config candidates (some 3))
select_to_build-IsSortedBy_example =
    select_to_build-IsSortedBy default_config candidates 3 default_config-is_valid

select_to_build-one_example :
    select_to_build default_config candidates (some 1) ≡ take 1 (ranked default_config candidates)
select_to_build-one_example = select_to_build-one default_config candidates default_config-is_valid
