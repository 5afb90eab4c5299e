-- ===== src/Tests/Gates.antt =====
-- The gates on a container that runs without a healthcheck, and on one that exits.
use freshdock.Prelude.{◌≡◌, ◌≢◌, refl, pos, none, some, [], ◌∷◌, Text, codes, ok, arith}
use freshdock.Daemon.Types.{running_no_healthcheck, exited}
use freshdock.Daemon.Calls.{Call, History, Daemon}
use freshdock.Health.{healthy, wait_for_health}
use freshdock.Health.Exit.{ExitOutcome, wait_for_exit}
use freshdock.Health.Verdict.{Decided, wait_for_health-Decided}
use freshdock.Health.Ends.{wait_for_health-ends}
use freshdock.Health.OneShot.{DecidedExit, wait_for_exit-Decided, wait_for_exit-ends}
use freshdock.Rollback.{health_timeout}
use freshdock.Rollback.Laws.{Branches, rollback_branches}
use freshdock.Tests.Samples.{daemon, clock, config}

abbrev plain : Daemon
plain = daemon (λ h. ok running_no_healthcheck)

abbrev gone : Daemon
gone = daemon (λ h. ok (exited (pos 3)))

abbrev id : Text
id = codes "new"

-- Three probes, two sleeps.
abbrev waited : History
waited =
    Call.probe_state id
    ∷ Call.sleep 5
    ∷ Call.probe_state id
    ∷ Call.sleep 5
    ∷ Call.probe_state id
    ∷ []

waits : wait_for_health plain id 5 config [] ≡ (some healthy, waited)
unfolding wait_for_health codes
waits = refl

wait_for_health-Decided_example : Decided plain id config 0 healthy waited
wait_for_health-Decided_example = wait_for_health-Decided plain id 5 config [] waited healthy waits

wait_for_health-ends_example : (wait_for_health plain id 5 config []).0 ≢ none
wait_for_health-ends_example =
    wait_for_health-ends plain (clock (λ h. ok running_no_healthcheck)) id config 20 4 []
      (omega arith) (omega arith) (omega arith)

exits :
    wait_for_exit gone id 20 5 1 [] ≡ (some (ExitOutcome.exited (pos 3)), Call.probe_state id ∷ [])
unfolding wait_for_exit codes
exits = refl

wait_for_exit-Decided_example :
    DecidedExit gone id 20 5 0 (ExitOutcome.exited (pos 3)) (Call.probe_state id ∷ [])
wait_for_exit-Decided_example =
    wait_for_exit-Decided gone id 20 5 1 [] (Call.probe_state id ∷ []) (ExitOutcome.exited (pos 3))
      exits

wait_for_exit-ends_example : (wait_for_exit plain id 20 5 5 []).0 ≢ none
wait_for_exit-ends_example =
    wait_for_exit-ends plain (clock (λ h. ok running_no_healthcheck)) id 20 5 4 [] (omega arith)

abbrev images : Text × Text
images = (codes "redis:7", codes "redis:7")

rollback_branches_example : Branches plain (codes "app") id (codes "old") images health_timeout []
rollback_branches_example =
    rollback_branches plain (codes "app") id (codes "old") images health_timeout []
