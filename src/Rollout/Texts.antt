-- ===== src/Rollout/Texts.antt =====
-- The `Display` texts of an abort and of a skip (src/rollout.rs), and of a hook's skip
-- (src/updater.rs).
use freshdock.Prelude.{Text, codes, ◌++◌, is_code, if◌then◌else◌}
use freshdock.Names.{decimal_ℤ}
use freshdock.Daemon.Types.{HookSkipReason, non_zero_exit, timed_out, exec_failed}
use freshdock.Rollout.Report.{
  AbortReason, one_shot_failed, one_shot_timed_out, rolled_back, deferred, step_failed,
}

unfoldable pub hook_skip_text : HookSkipReason → Text
unfolding decimal_ℤ
hook_skip_text (non_zero_exit code) =
    if is_code 75 code
    then codes "hook requested a deferral (exit code 75, EX_TEMPFAIL)"
    else codes "hook exited with code " ++ decimal_ℤ code
hook_skip_text timed_out = codes "hook timed out"
hook_skip_text (exec_failed e) = codes "hook could not be executed: " ++ e

unfoldable pub abort_text : AbortReason → Text
unfolding hook_skip_text
abort_text (one_shot_failed container exit_code) =
    container ++ (codes " exited with code " ++ decimal_ℤ exit_code)
abort_text (one_shot_timed_out container) = container ++ codes " did not finish within its timeout"
abort_text (rolled_back container) =
    container ++ codes " failed its health gate and was rolled back"
abort_text (deferred container reason) =
    container
    ++ (codes " was deferred by its pre-update hook (" ++ (hook_skip_text reason ++ codes ")"))
abort_text (step_failed container error) = container ++ (codes " could not be updated: " ++ error)
