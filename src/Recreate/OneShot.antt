-- ===== src/Recreate/OneShot.antt =====
-- `recreate_one_shot`: a Compose one-shot is run again, and has to exit with zero. Its hooks are
-- ignored, and a failure is not rolled back.
use freshdock.Prelude.{ℕ, ℤ, false, Option, none, some, Text, ok, is_code, if◌then◌else◌}
use freshdock.Labels.Values.{Duration}
use freshdock.Labels.Hooks.{no_hooks}
use freshdock.Daemon.Types.{HookSkipReason, Fallible}
use freshdock.Daemon.Calls.{Daemon}
use freshdock.Daemon.Actions.{Action, pure, ◌>>=◌, ◌>>◌, try, remove}
use freshdock.Health.Exit.{ExitOutcome, exited, wait_for_exit}
use freshdock.Recreate.Hooks.{Cleanup, run_cleanup}
use freshdock.Recreate.Dependents.{reattach_dependents}
use freshdock.Recreate.Cycle.{CycleResult, CycleOutcome, recreate_one}

pub data OneShotOutcome : Type 0 where
  completed : OneShotOutcome
  failed : (exit_code : ℤ) → OneShotOutcome
  timed_out : OneShotOutcome
  skipped_by_hook : HookSkipReason → OneShotOutcome

module _ (d : Daemon) where
  unfoldable pub finish : Cleanup → CycleResult → Action (Fallible (Option OneShotOutcome))
  finish cleanup c =
      reattach_dependents d c.owner_name (some c.new_id) c.dependents
      >> (remove d c.old_name false
          >> (run_cleanup d cleanup c.old_image_id >> pure (ok (some completed))))

  unfoldable pub act :
      Cleanup → CycleResult → Option ExitOutcome → Action (Fallible (Option OneShotOutcome))
  act cleanup c none = pure (ok none)
  act cleanup c (some (exited exit_code)) =
      if is_code 0 exit_code then finish cleanup c else pure (ok (some (failed exit_code)))
  act cleanup c (some ExitOutcome.timed_out) = pure (ok (some timed_out))

  unfoldable pub gate :
      ℕ
      → (timeout poll_interval : Duration) → Cleanup
      → CycleOutcome
      → Action (Fallible (Option OneShotOutcome))
  gate fuel timeout poll_interval cleanup (CycleOutcome.skipped reason) =
      pure (ok (some (skipped_by_hook reason)))
  gate fuel timeout poll_interval cleanup (CycleOutcome.completed c) =
      wait_for_exit d c.new_id timeout poll_interval fuel >>= act cleanup c

  unfoldable pub recreate_one_shot :
      ℕ
      → Text
      → (timeout poll_interval : Duration) → Cleanup
      → Action (Fallible (Option OneShotOutcome))
  recreate_one_shot fuel name timeout poll_interval cleanup =
      try (recreate_one d name no_hooks) (gate fuel timeout poll_interval cleanup)
