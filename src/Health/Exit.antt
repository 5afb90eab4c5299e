-- ===== src/Health/Exit.antt =====
-- `wait_for_exit` of src/health.rs: the gate of a one-shot, which has to exit.
use freshdock.Prelude.{ℕ, zero, suc, ◌-◌, ℤ, Option, none, some, Text, ok, err, leb, if◌then◌else◌}
use freshdock.Labels.Values.{Duration}
use freshdock.Daemon.Types.{ContainerRuntimeState, Fallible}
use freshdock.Daemon.Calls.{Daemon}
use freshdock.Daemon.Actions.{Action, ◌>>◌, probe_state, sleep}

pub data ExitOutcome : Type 0 where
  exited : (exit_code : ℤ) → ExitOutcome
  timed_out : ExitOutcome

-- The exit code, where the answer of a probe has one.
unfoldable pub exit_seen : Fallible ContainerRuntimeState → Option ℤ
exit_seen (ok (ContainerRuntimeState.exited exit_code)) = some exit_code
exit_seen (ok state) = none
exit_seen (err e) = none

-- The verdict of a round: the exit first, then the deadline.
unfoldable pub judge_exit :
    (timeout elapsed : ℕ) → Fallible ContainerRuntimeState → Option ExitOutcome
unfolding exit_seen
judge_exit timeout elapsed state = elim (exit_seen state) [
  | some exit_code ↦ some (exited exit_code)
  | none ↦ if leb timeout elapsed then some timed_out else none
]

module _ (d : Daemon) (id : Text) (timeout poll_interval : Duration) where
  unfoldable pub poll_exit : (begin fuel : ℕ) → Action (Option ExitOutcome)
  unfolding judge_exit
  poll_exit begin zero h = (none, h)
  poll_exit begin (suc fuel) h =
      let (state, h') = probe_state d id h in
      elim (judge_exit timeout (d.now h' - begin) state) [
        | some outcome ↦ (some outcome, h')
        | none ↦ (sleep d poll_interval >> poll_exit begin fuel) h'
      ]

  unfoldable pub wait_for_exit : ℕ → Action (Option ExitOutcome)
  unfolding poll_exit
  wait_for_exit fuel h = poll_exit (d.now h) fuel h
