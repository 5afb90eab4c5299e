-- ===== src/Rollback.antt =====
-- src/rollback.rs: a failed update is undone.
pub mod Laws
use freshdock.Prelude.{none, Text, ok, true}
use freshdock.Daemon.Types.{Fallible}
pub use freshdock.Daemon.Types.{RollbackReason, health_timeout, crashed}
use freshdock.Daemon.Calls.{Daemon}
use freshdock.Daemon.Actions.{Action, pure, ◌>>◌, try, stop, remove, rename_to, start}

pub record RollbackEvent : Type 0 where
  pub container : Text
  pub reason : RollbackReason
  pub old_image_ref : Text
  pub new_image_ref : Text
  pub restored_from : Text

-- The answer to the stop is not looked at: the new container may be dead already.
unfoldable pub rollback :
    Daemon
    → (original_name new_id old_name : Text) (images : Text × Text) (reason : RollbackReason)
    → Action (Fallible RollbackEvent)
rollback d original_name new_id old_name (old_image_ref, new_image_ref) reason =
    stop d new_id none none
    >> try (remove d new_id true) λ _. try (rename_to d old_name original_name) λ _.
      try (start d original_name) λ _. pure (
        ok (record {
          container = original_name;
          reason = reason;
          old_image_ref = old_image_ref;
          new_image_ref = new_image_ref;
          restored_from = old_name;
        }))
