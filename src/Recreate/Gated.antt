-- ===== src/Recreate/Gated.antt =====
-- `recreate_with_health`: the cycle, the health gate, and what follows from its verdict. The result
-- is `none` where the fuel of the gate ran out.
use freshdock.Prelude.{ℕ, false, Option, none, some, Text, ok}
use freshdock.Labels.Hooks.{LifecycleHooks}
use freshdock.Daemon.Types.{HookSkipReason, Fallible}
use freshdock.Daemon.Calls.{Daemon}
use freshdock.Daemon.Actions.{Action, pure, ◌>>=◌, ◌>>◌, try, remove}
use freshdock.Health.{HealthConfig, HealthOutcome, healthy, timeout, crashed, wait_for_health}
use freshdock.Rollback.{RollbackReason, health_timeout, RollbackEvent, rollback}
use freshdock.Recreate.Hooks.{Cleanup, run_cleanup, run_post_update_hook}
use freshdock.Recreate.Dependents.{reattach_dependents}
use freshdock.Recreate.Cycle.{CycleResult, CycleOutcome, completed, skipped, recreate_one}

pub data RecreateOutcome : Type 0 where
  recreated : (old_name new_id : Text) → RecreateOutcome
  rolled_back : RollbackEvent → RecreateOutcome
  skipped_by_hook : HookSkipReason → RecreateOutcome

module _ (d : Daemon) where
  -- The new container is healthy: dependents, archive, hook, images.
  unfoldable pub commit :
      Cleanup → LifecycleHooks → CycleResult → Action (Fallible (Option RecreateOutcome))
  commit cleanup hooks c =
      reattach_dependents d c.owner_name (some c.new_id) c.dependents
      >> (remove d c.old_name false
          >> (run_post_update_hook d c.new_id hooks.post_update
              >> (run_cleanup d cleanup c.old_image_id
                  >> pure (ok (some (recreated c.old_name c.new_id))))))

  -- The gate failed: the archive is restored, and the dependents attach to it again.
  unfoldable pub undo : CycleResult → RollbackReason → Action (Fallible (Option RecreateOutcome))
  undo c reason =
      try (rollback d c.owner_name c.new_id c.old_name (c.old_image_ref, c.new_image_ref) reason)
        λ event.
          reattach_dependents d c.owner_name none c.dependents
          >> pure (ok (some (rolled_back event)))

  unfoldable pub act :
      Cleanup
      → LifecycleHooks
      → CycleResult
      → Option HealthOutcome
      → Action (Fallible (Option RecreateOutcome))
  act cleanup hooks c none = pure (ok none)
  act cleanup hooks c (some healthy) = commit cleanup hooks c
  act cleanup hooks c (some timeout) = undo c health_timeout
  act cleanup hooks c (some crashed) = undo c RollbackReason.crashed

  unfoldable pub gate :
      ℕ
      → HealthConfig
      → Cleanup
      → LifecycleHooks
      → CycleOutcome
      → Action (Fallible (Option RecreateOutcome))
  gate fuel cfg cleanup hooks (skipped reason) = pure (ok (some (skipped_by_hook reason)))
  gate fuel cfg cleanup hooks (completed c) =
      wait_for_health d c.new_id fuel cfg >>= act cleanup hooks c

  unfoldable pub recreate_with_health :
      ℕ
      → Text
      → HealthConfig
      → Cleanup
      → LifecycleHooks
      → Action (Fallible (Option RecreateOutcome))
  recreate_with_health fuel name cfg cleanup hooks =
      try (recreate_one d name hooks) (gate fuel cfg cleanup hooks)
