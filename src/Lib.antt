-- ===== src/Lib.antt =====
-- freshdock updates containers: it pulls the image of a container, swaps the container for a new one
-- under the same name, waits until the new one is healthy, and puts the old one back if it is not.
-- Containers of one Compose project are updated together, in the order of their dependencies. A
-- scheduler looks at the running containers on every tick, asks the registry about those that are
-- due, and applies or announces what it finds. This library models that engine and proves what its
-- results mean.
--
-- The parts, from the bottom up:
--   Prelude        texts as lists of code points, and the methods of strings, lists and results
--                  that the code uses
--   Image          src/registry/mod.rs (ImageRef::parse, familiar_repository), split_repository of
--                  src/registry/digest.rs, and the text by which src/docker/mod.rs names an image;
--                  Hosts and RoundTrip are proofs
--   Names          src/docker/rename.rs (archive names), src/selfid.rs, the network references of
--                  src/docker/mod.rs, is_pinned, is_image_id and behind_tag of src/probe.rs; Names.Own
--                  has own_container_id_prefix; Names.Fresh and Names.Archive are proofs
--   Labels         src/labels.rs: Values and Hooks hold the parsers of values and of hooks, Labels
--                  parse_policy and explicitly_opts_out, Diagnostics watchtower_diagnostics; Enabled
--                  and OptOut are proofs
--   Compose        src/compose.rs: the parser of Compose's labels and the graph; Compose.Order has
--                  topological_order, Compose.Order.Complete, Sorted and Ranked proofs on it
--   Daemon         what code outside this repository does: the traits DockerOps
--                  (src/docker/recreate.rs), DockerCheck (src/docker/check.rs), HealthProbe and
--                  Clock (src/health.rs) and Registry (src/registry/mod.rs), the dispatcher of
--                  src/notify/mod.rs, and the shutdown flag
--   Health         src/health.rs: wait_for_health, and wait_for_exit in Health.Exit; Verdict, Ends
--                  and OneShot are proofs
--   Rollback       src/rollback.rs; Rollback.Laws has the proofs
--   Recreate       src/docker/recreate.rs: Swap (swap_container), Hooks (the hooks and run_cleanup),
--                  Dependents (reattach_dependents and below), Cycle (recreate_one), Gated
--                  (recreate_with_health) and OneShot (recreate_one_shot); Untouched, Outcomes,
--                  Reattached, Ends, Kept and Repair are proofs
--   Rollout        src/rollout.rs: Decide (the body of the loop of plan), Plan, Members, Report,
--                  Execute and Entry (plan_for, for_container); Chosen, Values, Sound, Holds, Complete,
--                  Prefix, Ran and Claims are proofs
--   Docker         what src/docker/mod.rs and src/docker/spec.rs do around the client library:
--                  container_name, Rows (project_member, network_dependent_names), Inspected
--                  (classify_runtime_state, from_inspect), Versions (multi_network_guard) and Retry
--                  (retry_rate_limited, with the proofs on it)
--   Probe          src/probe.rs: LocalDigests; Digests (strip_tag, local_manifest_digests,
--                  pinned_digest) and Outcome (resolve_target, probe_image)
--   Cron           src/cron.rs: the parser, matches and next_after; Bits, Steps, Field, Grammar, Days
--                  and Next are proofs
--   Config         src/config.rs: ResolvedSettings; Env (the names of variables), Settings
--                  (resolve_settings), Credentials (build_store), Smtp (resolve_smtp_tls), Redact
--                  (redact_parse_message), Targets (declare_env_targets, build_notifications) with
--                  Targets.Parse (parse_notify_url), and Load (Config::load); Merged, Layers and
--                  Targets.Kept are proofs
--   Registry       Auth (src/registry/auth.rs), and src/registry/digest.rs: Fetch (fetch_digest and
--                  all below) over a Wire, which stands for the HTTP client; Rejected and Lifetime
--                  are proofs
--   Notify         src/notify/mod.rs and src/format.rs: triggers and texts; Backends (what each backend
--                  sends, also of src/notify/discord.rs, telegram.rs, webhook.rs and smtp.rs) and
--                  Dispatch (from_config, dispatch); Delivered is proofs
--   Commands       Recreate (run_with of src/commands/recreate.rs) and Check (collect_cells of
--                  src/commands/check.rs); Gate and Probed are proofs
--   Scheduler      src/scheduler.rs: the state of a container and when it is due; Summary
--                  (RunSummary), Apply (apply_update, report_rollout), Process (process_container),
--                  Tick (the body of the loop of run_tick) and Run (run_tick, run_with); Calm, Fleet,
--                  Advances, Live, Memory, Later, Verdicts and Announce are proofs
--   Tests          runs on a small daemon, and the theorems applied to them
--
-- How state is modelled. The code keeps no state of its own across a call: what it changes is the
-- daemon. A call is a value of Call, and an action takes the history of the calls so far, the last
-- one first, and returns its result with the longer history. A Daemon is a record of functions that
-- answer each call from the history before it, so answers may change over time and may be errors
-- anywhere. Its record holds the registry's answers and the shutdown flag as well, and a notification is
-- a call. A theorem that quantifies over the daemon holds for every such behaviour. The calls that
-- change containers are those that `swaps` picks out. Time is read from the history as well; where a
-- loop has to end, Ticking states what tokio's clock documents: it does not run backwards, and a
-- sleep lasts as long as asked. A duration is its number of nanoseconds; the range of i64 and u64 is
-- written out where the code saturates.
--
-- Fuel. The polling loops of the two gates run on fuel, one unit for each probe, and whatever calls
-- them returns `none` where it ran out. One unit more than the poll intervals that fit into the
-- longer of the health timeout and the grace period is enough for the health gate, and into its
-- timeout for the gate of a one-shot. topological_order runs on as many units as it has nodes, and
-- each of its rounds removes one at least.
--
-- The registry's client keeps a cache of tokens and the hosts it has warned about in a Session, which
-- each step takes and returns with the requests made so far; a Wire answers a request from those
-- before it. The configuration takes the parsers of TOML, of URLs and of percent codes and the file
-- system as parameters, and an environment as the list of its variables. The scheduler and the
-- rollout see the registry, the dispatcher and the client library through Daemon alone; Registry,
-- Notify and Docker model what stands behind it.
--
-- A HashMap is an association list and a HashSet a list: an iteration order is then the list's, and
-- theorems quantify over it. Of a container's specification the fields that this code reads or
-- writes are there, the others stand in one field that is passed on. Log lines are left out.
--
-- Not modelled: the calls of the client library and the copies into its types (src/docker/mod.rs,
-- to_create_body of src/docker/spec.rs), the HTTP requests, the connection test and the mail transport,
-- which are libraries; registry_override of src/registry/digest.rs, a seam of its tests; log lines,
-- among them log_configured and log_credentials_loaded; the command line, the layout of the table and
-- the wiring (src/main.rs, src/commands/run.rs, src/errors.rs), which only join the parts.
pub mod Prelude
pub mod Image
pub mod Compose
pub mod Labels
pub mod Names
pub mod Daemon
pub mod Health
pub mod Rollback
pub mod Recreate
pub mod Rollout
pub mod Probe
pub mod Cron
pub mod Config
pub mod Registry
pub mod Notify
pub mod Commands
pub mod Scheduler
pub mod Docker
pub mod Tests
