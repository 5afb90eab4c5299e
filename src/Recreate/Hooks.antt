-- ===== src/Recreate/Hooks.antt =====
-- The lifecycle hooks, and the image cleanup after a success.
use freshdock.Prelude.{Bool, true, false, Option, none, some, Text, ok, err, is_code, if◌then◌else◌}
use freshdock.Labels.Hooks.{Hook}
use freshdock.Daemon.Types.{
  HookStatus, completed, HookSkipReason, non_zero_exit, exec_failed, Fallible,
}
use freshdock.Daemon.Calls.{Daemon}
use freshdock.Daemon.Actions.{
  Action, pure, ◌>>=◌, ◌>>◌, exec_hook, remove_image, prune_dangling_images,
}

-- Only an exit code of zero clears the update.
unfoldable pub skip_reason : Daemon → Fallible HookStatus → Option HookSkipReason
skip_reason d (ok (completed exit_code)) =
    if is_code 0 exit_code then none else some (non_zero_exit exit_code)
skip_reason d (ok HookStatus.timed_out) = some HookSkipReason.timed_out
skip_reason d (err e) = some (exec_failed (d.describe e))

unfoldable pub run_pre_update_hook : Daemon → Text → Option Hook → Action (Option HookSkipReason)
unfolding skip_reason
run_pre_update_hook d name none = pure none
run_pre_update_hook d name (some hook) = do
  status ← exec_hook d name hook.command hook.timeout
  pure (skip_reason d status)

unfoldable pub run_post_update_hook : Daemon → Text → Option Hook → Action (Unit {0})
run_post_update_hook d new_id none = pure tt
run_post_update_hook d new_id (some hook) = exec_hook d new_id hook.command hook.timeout >> pure tt

pub record Cleanup : Type 0 where
  pub remove_replaced : Bool
  pub prune_dangling : Bool

abbrev remove_replaced : Daemon → Bool → Option Text → Action (Unit {0})
remove_replaced d false id = pure tt
remove_replaced d true none = pure tt
remove_replaced d true (some id) = remove_image d id false >> pure tt

unfoldable pub run_cleanup : Daemon → Cleanup → Option Text → Action (Unit {0})
run_cleanup d cleanup old_image_id =
    remove_replaced d cleanup.remove_replaced old_image_id
    >> (if cleanup.prune_dangling then prune_dangling_images d >> pure tt else pure tt)
