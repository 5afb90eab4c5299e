-- ===== src/Recreate/Ends.antt =====
-- An update comes to an end.
use freshdock.Prelude.{ℕ, suc, ◌*◌, ◌≤◌, ◌≢◌, refl, Option, none, some, Text, ok}
use freshdock.Labels.Hooks.{LifecycleHooks}
use freshdock.Daemon.Calls.{History, Daemon}
use freshdock.Daemon.Laws.{Ticking, try-eq-ok}
use freshdock.Health.{HealthConfig, HealthOutcome, healthy, timeout, crashed}
use freshdock.Health.Ends.{wait_for_health-ends}
use freshdock.Rollback.{RollbackReason, rollback}
use freshdock.Recreate.Hooks.{Cleanup}
use freshdock.Recreate.Cycle.{CycleResult, CycleOutcome, completed, skipped, recreate_one}
use freshdock.Recreate.Gated.{commit, undo, act, gate, recreate_with_health}

undo-ne-waiting :
    (d : Daemon) (c : CycleResult) (reason : RollbackReason) (h h' : History)
    → undo d c reason h ≢ (ok none, h')
unfolding undo
undo-ne-waiting d c reason h h' e =
    let (event, mid, returned, rest) =
      try-eq-ok
        (rollback d c.owner_name c.new_id c.old_name (c.old_image_ref, c.new_image_ref) reason) _ h
        h' e in
    cc

act-ne-waiting :
    (d : Daemon) (cleanup : Cleanup) (hooks : LifecycleHooks) (c : CycleResult)
    (verdict : Option HealthOutcome) (h h' : History)
    → verdict ≢ none
    → act d cleanup hooks c verdict h ≢ (ok none, h')
unfolding act commit
act-ne-waiting d cleanup hooks c none h h' ends e = absurd (ends refl)
act-ne-waiting d cleanup hooks c (some healthy) h h' ends e = cc
act-ne-waiting d cleanup hooks c (some timeout) h h' ends e = undo-ne-waiting d c _ h h' e
act-ne-waiting d cleanup hooks c (some crashed) h h' ends e = undo-ne-waiting d c _ h h' e

-- An update never waits for ever: with a clock that ticks, and as many rounds of the health gate as
-- poll intervals fit into the longer of its two periods, the update returns an outcome or an error.
pub recreate_with_health-ends :
    (d : Daemon) (clock : Ticking d) (name : Text) (cfg : HealthConfig) (cleanup : Cleanup)
    (hooks : LifecycleHooks) (limit rounds : ℕ) (h : History)
    → cfg.health_timeout ≤ limit
    → cfg.grace_period ≤ limit
    → limit ≤ rounds * cfg.poll_interval
    → (recreate_with_health d (suc rounds) name cfg cleanup hooks h).0 ≢ ok none
unfolding recreate_with_health gate
recreate_with_health-ends d clock name cfg cleanup hooks limit rounds h a b enough e =
    let h' = (recreate_with_health d (suc rounds) name cfg cleanup hooks h).1 in
    let (out, swapped, cycle, rest) =
      try-eq-ok (recreate_one d name hooks) (gate d (suc rounds) cfg cleanup hooks) h h'
        (λ i. (e i, h')) in
    go out swapped h' rest
  where
    go :
        (out : CycleOutcome) (swapped h' : History)
        → gate d (suc rounds) cfg cleanup hooks out swapped ≢ (ok none, h')
    go (skipped reason) swapped h' x = cc
    go (completed c) swapped h' x =
        act-ne-waiting d cleanup hooks c _ _ h'
          (wait_for_health-ends d clock c.new_id cfg limit rounds swapped a b enough) x
