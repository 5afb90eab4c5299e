-- ===== src/Recreate/Cycle.antt =====
-- `recreate_one`: the cycle up to the start of the replacement.
use freshdock.Prelude.{Option, none, some, List, [], Text, ok, err}
use freshdock.Image
use freshdock.Labels.Hooks.{LifecycleHooks}
use freshdock.Daemon.Types.{ContainerSpec, HookSkipReason, Fallible}
use freshdock.Daemon.Calls.{Daemon}
use freshdock.Daemon.Actions.{
  Action, pure, ◌>>=◌, try, attempt, inspect, preflight_recreate, pull, list_network_dependents,
}
use freshdock.Recreate.Swap.{into_inner, swap_container}
use freshdock.Recreate.Hooks.{run_pre_update_hook}

pub record CycleResult : Type 0 where
  pub owner_name : Text
  pub old_name : Text
  pub new_id : Text
  pub old_image_ref : Text
  pub new_image_ref : Text
  pub old_image_id : Option Text
  pub dependents : List Text

pub data CycleOutcome : Type 0 where
  completed : CycleResult → CycleOutcome
  skipped : HookSkipReason → CycleOutcome

-- A listing that fails counts as no dependents.
abbrev pub listed : Fallible (List Text) → List Text
listed (ok dependents) = dependents
listed (err e) = []

abbrev pub cycle_result : ContainerSpec → List Text → (old_name new_id : Text) → CycleResult
cycle_result s dependents old_name new_id = record {
  owner_name = s.name;
  old_name = old_name;
  new_id = new_id;
  old_image_ref = s.image_ref;
  new_image_ref = s.image_ref;
  old_image_id = s.image_id;
  dependents = dependents;
}

-- The part behind a hook that cleared the update.
unfoldable pub replace : Daemon → Text → ContainerSpec → Action (Fallible CycleOutcome)
replace d name s = list_network_dependents d name >>= λ answer.
    attempt (swap_container d s.name s s.image_ref) (λ e. err (into_inner e))
      λ (old_name, new_id). pure (ok (completed (cycle_result s (listed answer) old_name new_id)))

abbrev unless_skipped :
    Option HookSkipReason → Action (Fallible CycleOutcome) → Action (Fallible CycleOutcome)
unless_skipped (some reason) go_on = pure (ok (skipped reason))
unless_skipped none go_on = go_on

unfoldable pub recreate_one : Daemon → Text → LifecycleHooks → Action (Fallible CycleOutcome)
recreate_one d name hooks = try (inspect d name) λ s. try (preflight_recreate d s) λ _.
    try (pull d (Image.parse s.image_ref)) λ _.
      run_pre_update_hook d name hooks.pre_update >>= λ skip. unless_skipped skip (replace d name s)
