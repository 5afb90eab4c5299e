-- ===== src/Commands/Recreate.antt =====
-- `run_with` of src/commands/recreate.rs: the update of one container by hand. What is printed is its
-- result.
use freshdock.Prelude.{
  ℕ, Bool, true, false, not, ◌||◌, Option, none, some, [], Text, Result, ok, err, if◌then◌else◌,
}
use freshdock.Compose.{Labels}
use freshdock.Labels.Values.{Mode, off, LabelError}
use freshdock.Labels.{Policy, parse_policy}
use freshdock.Config.{ResolvedSettings, policy_defaults}
use freshdock.Daemon.Types.{DockerError, ContainerSpec, Fallible}
use freshdock.Daemon.Calls.{Daemon}
use freshdock.Daemon.Actions.{Action, pure, ◌>>=◌, inspect}
use freshdock.Health.{HealthConfig}
use freshdock.Recreate.Hooks.{Cleanup}
use freshdock.Recreate.Gated.{RecreateOutcome, recreate_with_health}
use freshdock.Rollout.Report.{RolloutReport}
use freshdock.Rollout.Execute.{RolloutConfig}
use freshdock.Rollout.Entry.{Entry, plain, reported, waiting, for_container}

-- `AppError`, as far as this command returns it.
pub data RunError : Type 0 where
  docker : DockerError → RunError
  labels : LabelError → RunError
  not_opted_in : (container : Text) (enabled : Bool) (mode : Mode) → RunError

-- What is printed.
pub data Printed : Type 0 where
  rollout : RolloutReport → Printed
  outcome : RecreateOutcome → Printed

abbrev pub labels_or_empty : Option Labels → Labels
labels_or_empty none = []
labels_or_empty (some ls) = ls

abbrev pub is_off : Mode → Bool
is_off off = true
is_off _ = false

-- The result is `none` where the fuel of a gate ran out.
abbrev pub Run : Type 0
Run = Action (Result (Option Printed) RunError)

module _ (d : Daemon) (fuel : ℕ) (name : Text) (health : HealthConfig) (settings : ResolvedSettings)
    (own_id_prefix : Option Text) where
  abbrev printed : Fallible (Option RecreateOutcome) → Result (Option Printed) RunError
  printed (err e) = err (docker e)
  printed (ok none) = ok none
  printed (ok (some o)) = ok (some (outcome o))

  abbrev cleanup_of : Policy → Cleanup
  cleanup_of policy = record {
    remove_replaced = policy.cleanup;
    prune_dangling = settings.prune_dangling;
  }

  unfoldable pub recreate : Policy → Run
  recreate policy =
      recreate_with_health d fuel name health (cleanup_of policy) policy.hooks >>= λ r.
      pure (printed r)

  abbrev rollout_config : RolloutConfig
  rollout_config = record {
    health = health;
    prune_dangling = settings.prune_dangling;
    one_shot_timeout = settings.one_shot_timeout;
    tag_image_id = none;
  }

  abbrev on_entry : Policy → Entry → Run
  on_entry policy plain = recreate policy
  on_entry policy (reported report) = pure (ok (some (rollout report)))
  on_entry policy waiting = pure (ok none)

  -- A member of a project is rolled out with the project.
  unfoldable pub update : ContainerSpec → Policy → Run
  unfolding recreate
  update s policy =
      if settings.compose_aware
      then (for_container d fuel s.name (labels_or_empty s.config.labels) rollout_config
            (policy_defaults settings) own_id_prefix
          >>= on_entry policy)
      else recreate policy

  abbrev pub gated : ContainerSpec → Policy → Run
  gated s policy =
      if not policy.enabled || is_off policy.mode
      then pure (err (not_opted_in name policy.enabled policy.mode))
      else update s policy

  abbrev pub on_policy : ContainerSpec → Result Policy LabelError → Run
  on_policy s (err e) = pure (err (labels e))
  on_policy s (ok policy) = gated s policy

  abbrev pub on_inspect : Fallible ContainerSpec → Run
  on_inspect (err e) = pure (err (docker e))
  on_inspect (ok s) =
      on_policy s (parse_policy (labels_or_empty s.config.labels) (policy_defaults settings))

  unfoldable pub run_with : Run
  unfolding update parse_policy
  run_with = inspect d name >>= on_inspect
