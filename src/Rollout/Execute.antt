-- ===== src/Rollout/Execute.antt =====
-- `execute`: the plan in order, up to the first step that fails, then the restarts. The result is
-- `none` where the fuel of a gate ran out.
use freshdock.Prelude.{
  ℕ, Bool, not, Option, none, some, List, [], ◌∷◌, ◌++◌, map, Text, ok, err, keep,
}
use freshdock.Labels.Values.{Duration, from_secs}
use freshdock.Compose.{elem}
use freshdock.Daemon.Types.{Fallible}
use freshdock.Daemon.Calls.{Daemon}
use freshdock.Daemon.Actions.{Action, pure, ◌>>=◌, inspect, stop, start}
use freshdock.Health.{HealthConfig}
use freshdock.Recreate.Hooks.{Cleanup}
use freshdock.Recreate.Gated.{RecreateOutcome, recreate_with_health}
use freshdock.Recreate.OneShot.{OneShotOutcome, recreate_one_shot}
use freshdock.Rollout.Decide.{TargetKind, one_shot, service}
use freshdock.Rollout.Plan.{PlannedTarget, RolloutPlan, restarts_for}
use freshdock.Rollout.Report.{
  AbortReason, one_shot_failed, one_shot_timed_out, rolled_back, deferred, step_failed, RolloutStep,
  one_shot_completed, updated, restarted, RolloutReport, step_container,
}

pub record RolloutConfig : Type 0 where
  pub health : HealthConfig
  pub prune_dangling : Bool
  pub one_shot_timeout : Duration
  pub tag_image_id : Option Text

abbrev pub default_one_shot_timeout : Duration
default_one_shot_timeout = from_secs 600

-- What a target came to: a step, a reason to abort, or no verdict on this fuel.
pub data StepResult : Type 0 where
  stepped : RolloutStep → StepResult
  abort : AbortReason → StepResult
  waiting : StepResult

module _ (d : Daemon) where
  unfoldable pub one_shot_result : Text → Fallible (Option OneShotOutcome) → StepResult
  one_shot_result name (ok (some OneShotOutcome.completed)) = stepped (one_shot_completed name)
  one_shot_result name (ok (some (OneShotOutcome.failed exit_code))) =
      abort (one_shot_failed name exit_code)
  one_shot_result name (ok (some OneShotOutcome.timed_out)) = abort (one_shot_timed_out name)
  one_shot_result name (ok (some (OneShotOutcome.skipped_by_hook reason))) =
      abort (deferred name reason)
  one_shot_result name (ok none) = waiting
  one_shot_result name (err e) = abort (step_failed name (d.describe e))

  unfoldable pub service_result : Text → Bool → Fallible (Option RecreateOutcome) → StepResult
  service_result name notify (ok (some (RecreateOutcome.recreated old_name new_id))) =
      stepped (updated name new_id notify)
  service_result name notify (ok (some (RecreateOutcome.rolled_back event))) =
      abort (rolled_back name)
  service_result name notify (ok (some (RecreateOutcome.skipped_by_hook reason))) =
      abort (deferred name reason)
  service_result name notify (ok none) = waiting
  service_result name notify (err e) = abort (step_failed name (d.describe e))

  abbrev pub run_kind : ℕ → RolloutConfig → Cleanup → PlannedTarget → TargetKind → Action StepResult
  run_kind fuel cfg cleanup t one_shot =
      recreate_one_shot d fuel t.container cfg.one_shot_timeout cfg.health.poll_interval cleanup
      >>= λ r. pure (one_shot_result t.container r)
  run_kind fuel cfg cleanup t service =
      recreate_with_health d fuel t.container cfg.health cleanup t.policy.hooks >>= λ r.
      pure (service_result t.container t.policy.notify r)

  unfoldable pub run_target : ℕ → RolloutConfig → PlannedTarget → Action StepResult
  run_target fuel cfg t =
      run_kind fuel cfg
        (record { remove_replaced = t.policy.cleanup; prune_dangling = cfg.prune_dangling }) t
        t.kind

  -- The stop options of a dependent that is restarted: the daemon's where it cannot be inspected.
  abbrev stop_restarted : Text → Action (Fallible (Unit {0}))
  stop_restarted container = inspect d container >>= λ r. elim r [
    | ok s ↦ stop d container s.config.stop_signal s.config.stop_timeout
    | err e ↦ stop d container none none
  ]

  unfoldable pub restart : Text → Action (List RolloutStep)
  restart container = stop_restarted container >>= λ stopped. elim stopped [
    | err e ↦ pure []
    | ok _ ↦ start d container >>= λ started. elim started [
      | err e ↦ pure []
      | ok _ ↦ pure (restarted container ∷ [])
    ]
  ]

  unfoldable pub restart_all : List Text → Action (List RolloutStep)
  restart_all [] = pure []
  restart_all (c ∷ cs) = restart c >>= λ s. restart_all cs >>= λ ss. pure (s ++ ss)

  -- The containers of the plan that no step so far has touched.
  abbrev pub untouched : RolloutPlan → List RolloutStep → List Text
  untouched p steps =
      keep (λ c. not (elem c (map step_container steps)))
        (map (λ (t : PlannedTarget). t.container) p.targets)

  abbrev pub aborted_report : RolloutPlan → List RolloutStep → AbortReason → RolloutReport
  aborted_report p steps reason = record {
    project = p.project;
    steps = steps;
    aborted = some reason;
    not_completed = untouched p steps;
    skipped = p.skipped;
  }

  abbrev pub complete_report : RolloutPlan → List RolloutStep → RolloutReport
  complete_report p steps = record {
    project = p.project;
    steps = steps;
    aborted = none;
    not_completed = [];
    skipped = p.skipped;
  }

  module _ (fuel : ℕ) (cfg : RolloutConfig) (p : RolloutPlan) where
    -- The loop over the targets, with the steps and the updated services so far.
    unfoldable pub run_targets :
        List RolloutStep → List Text → List PlannedTarget → Action (Option RolloutReport)
    run_targets steps updated_services [] h =
        let (restarts, h') = restart_all (restarts_for p updated_services) h in
        (some (complete_report p (steps ++ restarts)), h')
    run_targets steps updated_services (t ∷ ts) h =
        let (result, h') = run_target fuel cfg t h in
        elim result [
          | stepped step ↦ run_targets (steps ++ step ∷ []) (t.service ∷ updated_services) ts h'
          | abort reason ↦ (some (aborted_report p steps reason), h')
          | waiting ↦ (none, h')
        ]

    unfoldable pub execute : Action (Option RolloutReport)
    execute = run_targets [] [] p.targets
