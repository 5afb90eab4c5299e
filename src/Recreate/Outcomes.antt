-- ===== src/Recreate/Outcomes.antt =====
-- What each outcome of an update rests on.
use freshdock.Prelude.{
  ℕ, ◌≡◌, ◌≢◌, refl, ap, ◌∙◌, inl, inr, Bool, true, false, Option, none, some, List, [], ◌∷◌, ◌++◌,
  Text, ok, arith,
}
use freshdock.Labels.Hooks.{Hook, LifecycleHooks}
use freshdock.Daemon.Types.{HookSkipReason}
use freshdock.Daemon.Calls.{Call, History, Daemon}
use freshdock.Daemon.Laws.{swaps_of, try-eq-ok}
use freshdock.Health.{HealthConfig, HealthOutcome, healthy, timeout, crashed, wait_for_health}
use freshdock.Health.Verdict.{Decided, wait_for_health-Decided, wait_for_health-swaps_of}
use freshdock.Rollback.{RollbackReason, health_timeout, RollbackEvent, rollback}
use freshdock.Rollback.Laws.{restored, the_event, AllAnswered, rollback_branches}
use freshdock.Recreate.Hooks.{Cleanup, run_post_update_hook, run_cleanup}
use freshdock.Recreate.Reattached.{AllReattached, reattach_dependents-AllReattached}
use freshdock.Recreate.Dependents.{reattach_dependents}
use freshdock.Recreate.Cycle.{CycleResult, CycleOutcome, completed, skipped, recreate_one}
use freshdock.Recreate.Gated.{
  RecreateOutcome, recreated, rolled_back, skipped_by_hook, commit, undo, act, gate,
  recreate_with_health,
}

-- The verdict that a reason for a rollback stands for.
abbrev pub outcome_of : RollbackReason → HealthOutcome
outcome_of health_timeout = timeout
outcome_of RollbackReason.crashed = crashed

-- The calls of the post-update hook and of the cleanup, the last one first.
abbrev hook_calls : (new_id : Text) → Option Hook → List Call
hook_calls new_id none = []
hook_calls new_id (some hook) = Call.exec_hook new_id hook.command hook.timeout ∷ []

abbrev image_calls : Bool → Option Text → List Call
image_calls true (some id) = Call.remove_image id false ∷ []
image_calls _ _ = []

abbrev prune_calls : Bool → List Call
prune_calls true = Call.prune_dangling_images ∷ []
prune_calls false = []

module _ (d : Daemon) (cleanup : Cleanup) (hooks : LifecycleHooks) (c : CycleResult) where
  -- The dependents are repaired towards the new container; then the archive is removed, the hook
  -- runs, and the images are cleaned up.
  abbrev pub IsCommitted : (at h' : History) → Type 0
  IsCommitted at h' =
      (repaired : History) × AllReattached d c.owner_name (some c.new_id) c.dependents at repaired
      × (h'
          ≡ prune_calls cleanup.prune_dangling
            ++ (image_calls cleanup.remove_replaced c.old_image_id
                ++ (hook_calls c.new_id hooks.post_update
                    ++ Call.remove c.old_name false ∷ repaired)))

  hook-calls :
      (hook : Option Hook) (h : History)
      → (run_post_update_hook d c.new_id hook h).1 ≡ hook_calls c.new_id hook ++ h
  unfolding run_post_update_hook
  hook-calls none h = refl
  hook-calls (some hook) h = refl

  cleanup-calls :
      (replaced prune : Bool) (id : Option Text) (h : History)
      → (run_cleanup d (record { remove_replaced = replaced; prune_dangling = prune }) id h).1
        ≡ prune_calls prune ++ (image_calls replaced id ++ h)
  unfolding run_cleanup
  cleanup-calls false false id h = refl
  cleanup-calls false true id h = refl
  cleanup-calls true false none h = refl
  cleanup-calls true true none h = refl
  cleanup-calls true false (some id) h = refl
  cleanup-calls true true (some id) h = refl

  commit-IsCommitted : (at : History) → IsCommitted at (commit d cleanup hooks c at).1
  unfolding commit
  commit-IsCommitted at =
      let repaired = (reattach_dependents d c.owner_name (some c.new_id) c.dependents at).1 in
      let removed = Call.remove c.old_name false ∷ repaired in
      (
        repaired,
        reattach_dependents-AllReattached d c.owner_name (some c.new_id) c.dependents at,
        cleanup-calls cleanup.remove_replaced cleanup.prune_dangling c.old_image_id
              (run_post_update_hook d c.new_id hooks.post_update removed).1
            ∙ ap
                (λ h.
                  prune_calls cleanup.prune_dangling
                  ++ (image_calls cleanup.remove_replaced c.old_image_id ++ h))
                (hook-calls hooks.post_update removed),
      )

module _ (d : Daemon) (fuel : ℕ) (name : Text) (cfg : HealthConfig) (cleanup : Cleanup)
    (hooks : LifecycleHooks) (h h' : History) where
  -- The cycle completed, the gate gave this verdict at `at`, and until then no call
  -- but the cycle's changed containers.
  pub record Gated (outcome : HealthOutcome) : Type 0 where
    pub c : CycleResult
    pub swapped : History
    pub at : History
    pub cycle : recreate_one d name hooks h ≡ (ok (completed c), swapped)
    pub decided : Decided d c.new_id cfg (d.now swapped) outcome at
    pub quiet : swaps_of at ≡ swaps_of swapped

  act_recreated :
      (c : CycleResult) (verdict : Option HealthOutcome) (at : History) (old_name new_id : Text)
      → act d cleanup hooks c verdict at ≡ (ok (some (recreated old_name new_id)), h')
      → (verdict ≡ some healthy)
        × (c.old_name ≡ old_name)
        × (c.new_id ≡ new_id)
        × (h' ≡ (commit d cleanup hooks c at).1)
  unfolding act commit undo
  act_recreated c none at old_name new_id e = ground arith
  act_recreated c (some healthy) at old_name new_id e = (refl, cc, cc, cc)
  act_recreated c (some timeout) at old_name new_id e = ground arith
  act_recreated c (some crashed) at old_name new_id e = ground arith

  -- The histories after the restore that a rollback of this cycle ends with.
  abbrev pub restored_at : CycleResult → History → History
  restored_at c at = restored c.owner_name c.new_id c.old_name at

  abbrev pub IsUndone : CycleResult → RollbackEvent → (at : History) → Type 0
  IsUndone c event at =
      (event.container ≡ c.owner_name)
      × (event.restored_from ≡ c.old_name)
      × (event.old_image_ref ≡ c.old_image_ref)
      × (event.new_image_ref ≡ c.new_image_ref)
      × AllAnswered d c.owner_name c.new_id c.old_name (c.old_image_ref, c.new_image_ref)
          event.reason at
      × AllReattached d c.owner_name none c.dependents (restored_at c at) h'

  undo_rolled_back :
      (c : CycleResult) (reason : RollbackReason) (at : History) (event : RollbackEvent)
      → undo d c reason at ≡ (ok (some (rolled_back event)), h')
      → (event.reason ≡ reason) × IsUndone c event at
  unfolding undo
  undo_rolled_back c reason at event e =
      let images : Text × Text = (c.old_image_ref, c.new_image_ref) in
      let (ev, mid, returned, rest) =
        try-eq-ok (rollback d c.owner_name c.new_id c.old_name images reason) _ at h' e in
      elim (rollback_branches d c.owner_name c.new_id c.old_name images reason at) [
        | inl (x, _, fails) ↦ cc
        | inr (inl (x, _, _, fails)) ↦ cc
        | inr (inr (inl (x, _, _, _, fails))) ↦ cc
        | inr (inr (inr (did, works))) ↦
            let same : event ≡ the_event c.owner_name c.old_name images reason = cc in
            let ends : mid ≡ restored_at c at = cc in
            let last : h' ≡ (reattach_dependents d c.owner_name none c.dependents mid).1 = cc in
            (
              ap (λ v. v.reason) same,
              (
                ap (λ v. v.container) same,
                ap (λ v. v.restored_from) same,
                ap (λ v. v.old_image_ref) same,
                ap (λ v. v.new_image_ref) same,
                did,
                rw (last, ends)
                    (reattach_dependents-AllReattached d c.owner_name none c.dependents
                      (restored_at c at)),
              ),
            )
      ]

  act_rolled_back :
      (c : CycleResult) (verdict : Option HealthOutcome) (at : History) (event : RollbackEvent)
      → act d cleanup hooks c verdict at ≡ (ok (some (rolled_back event)), h')
      → (verdict ≡ some (outcome_of event.reason)) × IsUndone c event at
  unfolding act commit
  act_rolled_back c none at event e = cc
  act_rolled_back c (some healthy) at event e = cc
  act_rolled_back c (some timeout) at event e =
      let (same, undone) = undo_rolled_back c health_timeout at event e in (rw same, undone)
  act_rolled_back c (some crashed) at event e =
      let (same, undone) = undo_rolled_back c RollbackReason.crashed at event e in (rw same, undone)

  gate_completed :
      (out : CycleOutcome) (swapped : History) (r : RecreateOutcome)
      → ((reason : HookSkipReason) → r ≢ skipped_by_hook reason)
      → gate d fuel cfg cleanup hooks out swapped ≡ (ok (some r), h')
      → (c : CycleResult) × (out ≡ completed c)
        × (act d cleanup hooks c
              (wait_for_health d c.new_id fuel cfg swapped).0
              (wait_for_health d c.new_id fuel cfg swapped).1
            ≡ (ok (some r), h'))
  unfolding gate
  gate_completed (completed c) swapped r not_skipped e = (c, refl, e)
  gate_completed (skipped reason) swapped r not_skipped e = absurd (not_skipped reason cc)

  abbrev gated :
      (c : CycleResult) (swapped : History) (outcome : HealthOutcome)
      → recreate_one d name hooks h ≡ (ok (completed c), swapped)
      → (wait_for_health d c.new_id fuel cfg swapped).0 ≡ some outcome
      → Gated outcome
  gated c swapped outcome cycle verdict = record {
    c = c;
    swapped = swapped;
    at = (wait_for_health d c.new_id fuel cfg swapped).1;
    cycle = cycle;
    decided =
        wait_for_health-Decided d c.new_id fuel cfg swapped _ outcome
          (λ i. (verdict i, (wait_for_health d c.new_id fuel cfg swapped).1));
    quiet = wait_for_health-swaps_of d c.new_id fuel cfg swapped;
  }

  -- An update that reports success: the cycle completed, and the health gate found the container
  -- that the cycle started healthy, with no call in between that changes containers. Exactly these
  -- calls came after that: the repair of each dependent towards the new container, the removal of
  -- the archive, the post-update hook, the removal of the replaced image and the pruning, the last
  -- three where they are configured.
  pub recreate_with_health_recreated :
      (old_name new_id : Text)
      → recreate_with_health d fuel name cfg cleanup hooks h
        ≡ (ok (some (recreated old_name new_id)), h')
      → (g : Gated healthy) × (g.c.old_name ≡ old_name)
        × (g.c.new_id ≡ new_id)
        × IsCommitted d cleanup hooks g.c g.at h'
  unfolding recreate_with_health
  recreate_with_health_recreated old_name new_id e =
      let (out, swapped, cycle, rest) = try-eq-ok (recreate_one d name hooks) _ h h' e in
      let (c, is_completed, acted) =
        gate_completed out swapped (recreated old_name new_id) (λ reason x. cc) rest in
      let (verdict, same_old, same_new, ends) = act_recreated c _ _ old_name new_id acted in
      let g = gated c swapped healthy (rw (← is_completed) cycle) verdict in
      (g, same_old, same_new, rw ends (commit-IsCommitted d cleanup hooks c g.at))

  -- An update that reports a rollback: the cycle completed, and the health gate's verdict on the
  -- container that it started was a timeout or a crash, as the event says. The event names the
  -- container and its archive. The daemon removed the new container, renamed the
  -- archive back to the container's name and started it; exactly the repair of each dependent came
  -- after that.
  pub recreate_with_health_rolled_back :
      (event : RollbackEvent)
      → recreate_with_health d fuel name cfg cleanup hooks h ≡ (ok (some (rolled_back event)), h')
      → (g : Gated (outcome_of event.reason)) × IsUndone g.c event g.at
  unfolding recreate_with_health
  recreate_with_health_rolled_back event e =
      let (out, swapped, cycle, rest) = try-eq-ok (recreate_one d name hooks) _ h h' e in
      let (c, is_completed, acted) =
        gate_completed out swapped (rolled_back event) (λ reason x. cc) rest in
      let (verdict, undone) = act_rolled_back c _ _ event acted in
      (gated c swapped (outcome_of event.reason) (rw (← is_completed) cycle) verdict, undone)
