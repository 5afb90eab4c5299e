-- ===== src/Tests/Rollouts.antt =====
-- A rollout of two services, the second of which fails, and the order and policies behind a plan.
use freshdock.Prelude.{
  ◌≡◌, ◌≢◌, ◌⊎◌, ◌↔◌, refl, Bool, true, false, inl, inr, pos, Option, none, some, List, [], ◌∷◌,
  map, Text, codes, Result, ok, err, arith, lookup, length, leb, if◌then◌else◌,
}
use freshdock.Prelude.Chars.{trim, to_ascii_lowercase}
use freshdock.Compose.{Labels, Dependency, started, Graph, elem}
use freshdock.Compose.Order.{topological_order}
use freshdock.Compose.Order.Complete.{topological_order-elem}
use freshdock.Labels.{
  Policy, PolicyDefaults, enable_key, mode_key, parse_policy, explicitly_opts_out,
}
use freshdock.Labels.Values.{
  Mode, LabelError, live, watch, off, mode_text, parse_mode, wt_enable, wt_monitor_only,
}
use freshdock.Labels.Hooks.{no_hooks}
use freshdock.Labels.Enabled.{Enables, HasMode, parse_policy-Enables}
use freshdock.Labels.OptOut.{Overruled, explicitly_opts_out-policy}
use freshdock.Daemon.Types.{
  running_no_healthcheck, health_starting, ContainerRuntimeState, Fallible,
}
use freshdock.Daemon.Calls.{History}
use freshdock.Rollout.Decide.{service, planned, decide}
use freshdock.Rollout.Chosen.{IsDue, decide-planned_iff}
use freshdock.Rollout.Plan.{PlannedTarget, RolloutPlan}
use freshdock.Rollout.Report.{AbortReason, RolloutStep, RolloutReport}
use freshdock.Rollout.Execute.{RolloutConfig, execute}
use freshdock.Rollout.Ran.{IsRun, execute-IsRun}
use freshdock.Rollout.Claims.{AllClaimed, execute-AllClaimed}
use freshdock.Tests.Samples.{daemon, config}

abbrev web : Text
web = codes "web"

abbrev db : Text
db = codes "db"

abbrev labels : Labels
labels = (enable_key, codes " True ") ∷ (wt_enable, codes "false") ∷ (mode_key, codes "Live") ∷ []

abbrev defaults : PolicyDefaults
defaults = record { mode = none; cleanup = false; watch_all = false }

abbrev policy : Policy
policy = record {
  enabled = true;
  mode = live;
  notify = false;
  schedule = none;
  cleanup = false;
  hooks = no_hooks;
  auto_enabled = false;
}

parses : parse_policy labels defaults ≡ ok policy
unfolding parse_policy codes lookup freshdock.Prelude.◌==◌ freshdock.Labels.Values.parse_bool
    freshdock.Labels.enabled_policy parse_mode freshdock.Labels.Hooks.parse_hooks
parses = refl

parse_policy-Enables_example :
    ((true ≡ true) ↔ Enables (lookup enable_key labels) (lookup wt_enable labels) false)
    × ((true ≡ true) → HasMode (lookup mode_key labels) (lookup wt_monitor_only labels) none live)
parse_policy-Enables_example = parse_policy-Enables labels defaults policy parses

opts_out : explicitly_opts_out labels ≡ true
unfolding explicitly_opts_out codes freshdock.Prelude.◌==◌ lookup to_ascii_lowercase trim
opts_out = refl

-- The freshdock label enables this container, and it counts as opted out all the same.
explicitly_opts_out-policy_example :
    (true ≡ false) ⊎ (live ≡ off) ⊎ Overruled (lookup enable_key labels) (lookup wt_enable labels)
explicitly_opts_out-policy_example =
    explicitly_opts_out-policy labels defaults policy opts_out parses

abbrev needs : Text → Dependency
needs s = record { service = s; condition = started; restart = false }

-- Two services that wait for each other.
abbrev graph : Graph
graph = (web, needs db ∷ []) ∷ (db, needs web ∷ []) ∷ []

topological_order-elem_example :
    elem db (topological_order (web ∷ db ∷ []) graph) ≡ elem db (web ∷ db ∷ [])
topological_order-elem_example = topological_order-elem db (web ∷ db ∷ []) graph

decide-planned_iff_example :
    (decide false false false true none none (ok policy) ≡ planned service policy) ↔ (
      (false ≡ false)
      × (false ≡ false)
      × (◌≡◌ {A = Result Policy LabelError} (ok policy) (ok policy))
      × (live ≢ watch)
      × IsDue false true none none service policy)
decide-planned_iff_example =
    decide-planned_iff false false false true none none (ok policy) service policy

abbrev target : Text → PlannedTarget
target name = record { container = name; service = name; kind = service; policy = policy }

abbrev shop : RolloutPlan
shop = record {
  project = codes "shop";
  targets = target db ∷ target web ∷ [];
  skipped = [];
  restart_candidates = [];
  graph = graph;
}

abbrev rollout_config : RolloutConfig
rollout_config = record {
  health = config;
  prune_dangling = false;
  one_shot_timeout = 20;
  tag_image_id = none;
}

-- The gate of `db` finds it running, that of `web` waits for its healthcheck until it times out.
abbrev turns : History → Fallible ContainerRuntimeState
turns h = ok (if leb 13 (length h) then health_starting else running_no_healthcheck)

abbrev end : Option RolloutReport × History
end = execute (daemon turns) 9 rollout_config shop []

abbrev report : RolloutReport
report = record {
  project = codes "shop";
  steps = RolloutStep.updated db (codes "new") false ∷ [];
  aborted = some (AbortReason.rolled_back web);
  not_completed = web ∷ [];
  skipped = [];
}

aborts : execute (daemon turns) 9 rollout_config shop [] ≡ (some report, end.1)
unfolding execute codes freshdock.Rollout.Execute.run_targets freshdock.Rollout.Execute.run_target
    freshdock.Rollout.Execute.service_result freshdock.Recreate.Gated.recreate_with_health
    freshdock.Recreate.Cycle.recreate_one freshdock.Recreate.Hooks.run_pre_update_hook
    freshdock.Recreate.Cycle.replace freshdock.Recreate.Swap.swap_container
    freshdock.Recreate.Gated.gate freshdock.Recreate.Gated.act freshdock.Health.wait_for_health
    freshdock.Recreate.Gated.commit freshdock.Recreate.Gated.undo freshdock.Rollback.rollback
    freshdock.Prelude.◌==◌ freshdock.Recreate.Hooks.run_cleanup
    freshdock.Recreate.Hooks.run_post_update_hook freshdock.Recreate.Dependents.reattach_dependents
    freshdock.Recreate.Dependents.reattach_one freshdock.Recreate.Dependents.settle
    freshdock.Recreate.Dependents.repair_image
    freshdock.Recreate.Dependents.strip_shared_namespace_conflicts
    freshdock.Recreate.Dependents.rewrite_owner_reference freshdock.Names.container_reference
    freshdock.Names.is_pinned
aborts = refl

execute-IsRun_example :
    IsRun (daemon turns) 9 rollout_config (target db ∷ target web ∷ []) report [] end.1
execute-IsRun_example = execute-IsRun (daemon turns) 9 rollout_config shop [] end.1 report aborts

execute-AllClaimed_example : AllClaimed (target db ∷ target web ∷ []) report
execute-AllClaimed_example =
    execute-AllClaimed (daemon turns) 9 rollout_config shop [] end.1 report aborts
