-- ===== src/Lib.antt =====
-- The retinue: a worker that drains labelled GitHub issues into pull requests. This library models
-- the parts of retinue/*.py that decide what is built, when, what it may spend, and what becomes of it.
--
-- How the parts interact. A pass of the drain (retinue/adhoc_drain.py) lists a repository's issues,
-- keeps those whose labels the configuration (retinue/repo_config.py) admits, asks
-- retinue/readiness.py which of them are not blocked, splits those by GitHub's branches and pull
-- requests, opens the missing pull requests, lets retinue/scheduler.py choose the builds, and runs
-- them concurrently, each metered by the governor of retinue/budget.py and noted in
-- retinue/run_ledger.py. A build (retinue/adhoc_build.py over retinue/container_build.py) plans,
-- implements, checks and pushes in a container of its own and is reviewed in it; retinue/pipeline.py
-- then escalates it, files what the review left, or opens its pull request (retinue/pr_opener.py),
-- and closes the issue when that is merged (retinue/handoff.py). The heartbeat
-- (retinue/heartbeat.py) starts the pass of every repository whose cadence is due, and a tick of the
-- backlog lane (retinue/cron.py) for every repository.
--
-- Files, and what they model:
--   Base            shared helpers: tests, lists, texts, decimals, sorting, dicts, exceptions
--   Exec            methods that change a state and may raise
--   Vocab           retinue/vocab.py: labels, Severity, parse_priority, issue_branch
--   Roles           retinue/roles.py: ROLE_REGISTRY, resolve_model, resolve_effort
--   RepoConfig      retinue/repo_config.py: the schema, its validators (Validate), tiers and ranks
--   Scheduler       retinue/scheduler.py: partition_queues, select_to_build
--   Readiness       retinue/readiness.py: parse_body_blockers (Body), resolve_ready
--   Budget          retinue/budget.py: BudgetLedger and BudgetGovernor over the list of charges
--   AdhocIssue      retinue/adhoc_build.py: AdhocIssue and its Chain-depth marker
--   RunLedger       retinue/run_ledger.py: record, rows, escalations over the list of rows
--   SingleRun       retinue/single_run.py: the lock of a lane
--   Drain           retinue/adhoc_drain.py: Types (issues, seams, state), Plan, Select, Build, Pass,
--                   Flight (the reads of GhCli);
--                   Verdicts, Effects, Chosen, Justified, Calls, Spending and Capped hold the proofs
--   Level           retinue/level.py resolve_level, with the retry of retinue/classifier.py
--   Routing         retinue/routing.py: resolve_issue_level and the router's choice
--   Cron            retinue/cron.py: run_cron_tick (Tick), _pick_issue (Pick), its quota floor (Quota)
--   DoneCheck       retinue/done_check.py: secrets and their resolution, redaction by value, the tail
--   Container       retinue/container.py and the seams of a build: an answer may depend on the log of
--                   all that was done before
--   Build           retinue/container_build.py: build_issue_in_container and its steps; Implement is the
--                   production implementer, Escalate two ways to end with an exception; Lifecycle and
--                   Whole say what the steps keep of a property of the log
--   Gate            retinue/adhoc_build.py: the review gate; Files writes into the container, Cleared
--                   says when the gate lets through, Steps what it keeps
--   AdhocBuild      retinue/adhoc_build.py: the planner and build_adhoc_issue; Green and Pushed are
--                   about its pushes, Contained about its container
--   Github          the calls of GitHub and of the push service, and the state of the pipeline
--   Notify          retinue/notify.py: Notifier
--   PrOpener        retinue/pr_opener.py: open_staging_pr
--   RunStateStore   retinue/reconcile.py: the run-state store, read back in Rounds
--   Handoff         retinue/handoff.py: reap_merged_pr (Reaped)
--   Pipeline        retinue/pipeline.py: process_adhoc_pr and reap_pr; Opening, Filing and
--                   Chain hold the proofs
--   Heartbeat       retinue/heartbeat.py: the cron grammar and the sweep (Sweep)
--   Lane            retinue/pipeline.py: bind_adhoc_build, the build with the pipeline behind it (Opens)
--   ImplRetry       retinue/impl_retry.py: the attempt counter (Counter)
--   Examples        the theorems at concrete inputs
--
-- Conventions. A text is the list of its code points. A call that may raise returns a Result. An
-- instant is its microseconds, and an amount of budget its millionths: sums are exact here, where
-- the source adds floats, which may round. What is not under
-- retinue/ (YAML, pydantic, Unicode tables, the gh command, Docker, the models) is a parameter.
-- A build and the pipeline act on a log, the newest event first, and every answer that they get is a
-- function of the log, so that a theorem speaks of every behaviour of what is outside.
-- SQLite tables are lists of rows in insertion order, and a transaction is one step. A write to the
-- run ledger may raise; those of the other tables do not here. int raises a ValueError over 4300
-- digits, which is modelled for blockers and cadences, and not for the chain depth and the issue
-- numbers.
--
-- Fuel and bounds. Only the decimal printer runs on fuel, one more than its number; every other loop
-- is structural in a list. Numbers are unbounded, as Python's are.
--
-- Concurrency. asyncio.gather runs the builds of a pass at the same time. They touch shared state
-- only in the shared budget and the run ledger, so the model runs them in any order in which they may
-- reach the meter, which a parameter gives, with any unchecked charges between one call of the meter
-- and the next, and a build that raises stops no other. Of several
-- exceptions the model passes on that of the first of these in that order. A sibling that is
-- still running when gather raises is counted to the same pass.
--
-- Not modelled: subprocess and HTTP calls, argv and JSON payloads, logging, SQLite's connections,
-- web endpoints, Docker, and the parts of the repository that this list of files does not name.

pub mod Base
pub mod Exec
pub mod Vocab
pub mod Roles
pub mod RepoConfig
pub mod Scheduler
pub mod Readiness
pub mod Budget
pub mod AdhocIssue
pub mod RunLedger
pub mod SingleRun
pub mod Drain
pub mod Cron
pub mod Heartbeat
pub mod Level
pub mod Routing
pub mod ImplRetry
pub mod Examples
pub mod AdhocBuild
pub mod Build
pub mod Container
pub mod DoneCheck
pub mod Gate
pub mod Github
pub mod Handoff
pub mod Lane
pub mod Notify
pub mod Pipeline
pub mod PrOpener
pub mod RunStateStore
