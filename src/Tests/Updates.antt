-- ===== src/Tests/Updates.antt =====
-- An update that succeeds, one that is rolled back, one that its hook holds back, and one-shots.
use freshdock.Prelude.{◌≡◌, ◌≢◌, refl, ℤ, pos, none, some, [], ◌∷◌, Text, codes, ok, arith}
use freshdock.Labels.Hooks.{LifecycleHooks, no_hooks}
use freshdock.Daemon.Types.{
  running_no_healthcheck, exited, health_starting, non_zero_exit, ContainerSpec,
}
use freshdock.Daemon.Calls.{History, Daemon}
use freshdock.Daemon.Laws.{swaps_of}
use freshdock.Health.{HealthConfig, HealthOutcome, healthy}
use freshdock.Health.Exit.{ExitOutcome}
use freshdock.Rollback.{RollbackReason, RollbackEvent}
use freshdock.Recreate.Hooks.{run_pre_update_hook}
use freshdock.Recreate.Swap.{swap_container}
use freshdock.Recreate.Cycle.{CycleResult, replace, completed, skipped, recreate_one}
use freshdock.Recreate.Gated.{RecreateOutcome, recreated, rolled_back, commit, recreate_with_health}
use freshdock.Recreate.OneShot.{OneShotOutcome, finish, recreate_one_shot}
use freshdock.Recreate.Untouched.{Describes, IsSwap, recreate_one_skipped, recreate_one_completed}
use freshdock.Recreate.Outcomes.{
  Gated, IsUndone, IsCommitted, recreate_with_health_recreated, recreate_with_health_rolled_back,
}
use freshdock.Recreate.Ends.{recreate_with_health-ends}
use freshdock.Recreate.Kept.{Waited, recreate_one_shot_completed, recreate_one_shot_failed}
use freshdock.Recreate.Repair.{Repaired, repair_image_cases}
use freshdock.Tests.Samples.{daemon, clock, config, cleanup, spec_of}

abbrev plain : Daemon
plain = daemon (λ h. ok running_no_healthcheck)

abbrev stuck : Daemon
stuck = daemon (λ h. ok health_starting)

abbrev app : Text
app = codes "app"

-- A pre-update hook; the daemon's hooks exit with 1.
abbrev held : LifecycleHooks
held = record {
  pre_update = some (record { command = codes "check"; timeout = none });
  post_update = none;
}

abbrev after_skip : History
after_skip = (recreate_one plain app held []).1

skips : recreate_one plain app held [] ≡ (ok (skipped (non_zero_exit (pos 1))), after_skip)
unfolding recreate_one run_pre_update_hook codes
skips = refl

recreate_one_skipped_example : swaps_of after_skip ≡ []
recreate_one_skipped_example =
    recreate_one_skipped plain app held [] after_skip (non_zero_exit (pos 1)) skips

abbrev after_cycle : History
after_cycle = (recreate_one plain app no_hooks []).1

abbrev cycle : CycleResult
cycle = record {
  owner_name = app;
  old_name = codes "old";
  new_id = codes "new";
  old_image_ref = codes "redis:7";
  new_image_ref = codes "redis:7";
  old_image_id = some (codes "sha256:1");
  dependents = app ∷ [];
}

completes : recreate_one plain app no_hooks [] ≡ (ok (completed cycle), after_cycle)
unfolding recreate_one run_pre_update_hook replace swap_container codes
completes = refl

recreate_one_completed_example :
    (s : ContainerSpec) × (plain.inspect [] app ≡ ok s)
    × Describes plain app no_hooks [] s cycle
    × IsSwap plain app no_hooks [] s cycle [] after_cycle
recreate_one_completed_example =
    recreate_one_completed plain app no_hooks [] after_cycle cycle completes

abbrev after_update : History
after_update = (recreate_with_health plain 5 app config cleanup no_hooks []).1

recreates :
    recreate_with_health plain 5 app config cleanup no_hooks []
    ≡ (ok (some (recreated (codes "old") (codes "new"))), after_update)
unfolding recreate_with_health recreate_one codes run_pre_update_hook replace swap_container
    freshdock.Recreate.Gated.gate freshdock.Recreate.Gated.act freshdock.Health.wait_for_health
    commit
recreates = refl

recreate_with_health_recreated_example :
    (g : Gated plain 5 app config cleanup no_hooks [] after_update healthy) × (g.c.old_name
      ≡ codes "old")
    × (g.c.new_id ≡ codes "new")
    × IsCommitted plain cleanup no_hooks g.c g.at after_update
recreate_with_health_recreated_example =
    recreate_with_health_recreated plain 5 app config cleanup no_hooks [] after_update (codes "old")
      (codes "new") recreates

abbrev after_rollback : History
after_rollback = (recreate_with_health stuck 5 app config cleanup no_hooks []).1

abbrev event : RollbackEvent
event = record {
  container = app;
  reason = RollbackReason.health_timeout;
  old_image_ref = codes "redis:7";
  new_image_ref = codes "redis:7";
  restored_from = codes "old";
}

rolls_back :
    recreate_with_health stuck 5 app config cleanup no_hooks []
    ≡ (ok (some (rolled_back event)), after_rollback)
unfolding recreate_with_health recreate_one codes run_pre_update_hook replace swap_container
    freshdock.Recreate.Gated.gate freshdock.Recreate.Gated.act freshdock.Health.wait_for_health
    freshdock.Recreate.Gated.undo freshdock.Rollback.rollback
rolls_back = refl

recreate_with_health_rolled_back_example :
    (g : Gated stuck 5 app config cleanup no_hooks [] after_rollback HealthOutcome.timeout)
    × IsUndone stuck 5 app config cleanup no_hooks [] after_rollback g.c event g.at
recreate_with_health_rolled_back_example =
    recreate_with_health_rolled_back stuck 5 app config cleanup no_hooks [] after_rollback event
      rolls_back

recreate_with_health-ends_example :
    (recreate_with_health stuck 5 app config cleanup no_hooks []).0 ≢ ok none
recreate_with_health-ends_example =
    recreate_with_health-ends stuck (clock (λ h. ok health_starting)) app config cleanup no_hooks 20
      4 [] (omega arith) (omega arith) (omega arith)

abbrev ended : ℤ → Daemon
ended code = daemon (λ h. ok (exited code))

abbrev after_run : ℤ → History
after_run code = (recreate_one_shot (ended code) 1 app 20 5 cleanup []).1

runs_once :
    recreate_one_shot (ended (pos 0)) 1 app 20 5 cleanup []
    ≡ (ok (some OneShotOutcome.completed), after_run (pos 0))
unfolding recreate_one_shot recreate_one codes run_pre_update_hook replace swap_container
    freshdock.Recreate.OneShot.gate freshdock.Recreate.OneShot.act
    freshdock.Health.Exit.wait_for_exit finish
runs_once = refl

recreate_one_shot_completed_example :
    (w : Waited
      (ended (pos 0))
      1
      app
      20
      5
      cleanup
      []
      (after_run (pos 0))
      (ExitOutcome.exited (pos 0)))
    × (after_run (pos 0) ≡ (finish (ended (pos 0)) cleanup w.c w.at).1)
recreate_one_shot_completed_example =
    recreate_one_shot_completed (ended (pos 0)) 1 app 20 5 cleanup [] (after_run (pos 0)) runs_once

fails :
    recreate_one_shot (ended (pos 3)) 1 app 20 5 cleanup []
    ≡ (ok (some (OneShotOutcome.failed (pos 3))), after_run (pos 3))
unfolding recreate_one_shot recreate_one codes run_pre_update_hook replace swap_container
    freshdock.Recreate.OneShot.gate freshdock.Recreate.OneShot.act
    freshdock.Health.Exit.wait_for_exit
fails = refl

recreate_one_shot_failed_example :
    (w : Waited
      (ended (pos 3))
      1
      app
      20
      5
      cleanup
      []
      (after_run (pos 3))
      (ExitOutcome.exited (pos 3)))
    × (pos 3 ≢ pos 0)
    × (swaps_of (after_run (pos 3)) ≡ swaps_of w.swapped)
recreate_one_shot_failed_example =
    recreate_one_shot_failed (ended (pos 3)) 1 app 20 5 cleanup [] (after_run (pos 3)) (pos 3) fails

repair_image_cases_example : Repaired plain (spec_of app) []
repair_image_cases_example = repair_image_cases plain (spec_of app) []
