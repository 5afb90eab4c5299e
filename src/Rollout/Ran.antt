-- ===== src/Rollout/Ran.antt =====
-- What a rollout did: each update that it reports, in the order of the plan.
use freshdock.Prelude.{
  ℕ, ◌≡◌, refl, sym, ap, subst, ◌⊎◌, inl, inr, Option, none, some, List, [], ◌∷◌, ◌++◌, Text,
  Result-cases, ok, err,
}
use mathlib.Core.List.{append-nil, append_assoc}
use freshdock.Daemon.Calls.{Call, History, Daemon}
use freshdock.Daemon.Types.{DockerError, Fallible}
use freshdock.Rollback.{RollbackEvent}
use freshdock.Recreate.Hooks.{Cleanup}
use freshdock.Recreate.Gated.{RecreateOutcome, recreated, recreate_with_health}
use freshdock.Recreate.OneShot.{OneShotOutcome, recreate_one_shot}
use freshdock.Rollout.Decide.{TargetKind, one_shot, service}
use freshdock.Rollout.Plan.{PlannedTarget, RolloutPlan, restarts_for}
use freshdock.Rollout.Report.{
  AbortReason, one_shot_failed, one_shot_timed_out, rolled_back, deferred, step_failed, RolloutStep,
  one_shot_completed, updated, restarted, RolloutReport,
}
use freshdock.Rollout.Execute.{
  RolloutConfig, StepResult, stepped, abort, waiting, one_shot_result, service_result, run_kind,
  run_target, restart, restart_all, run_targets, execute, complete_report, aborted_report,
}
use freshdock.Rollout.Prefix.{StepResult-cases}

-- An update's result, with a verdict of its gate.
abbrev pub with_verdict : {A : Type 0} → Fallible A → Fallible (Option A)
with_verdict (ok a) = ok (some a)
with_verdict (err e) = err e

-- Only restarts.
abbrev pub AreRestarts : List RolloutStep → Type 0
AreRestarts [] = Unit
AreRestarts (restarted container ∷ steps) = AreRestarts steps
AreRestarts _ = ⊥

module _ (d : Daemon) (fuel : ℕ) (cfg : RolloutConfig) where
  abbrev pub cleanup_for : PlannedTarget → Cleanup
  cleanup_for t = record { remove_replaced = t.policy.cleanup; prune_dangling = cfg.prune_dangling }

  -- What the update of a one-shot, and of a service, returned.
  abbrev pub OneShotReturns :
      PlannedTarget → Fallible OneShotOutcome → (before after : History) → Type 0
  OneShotReturns t r before after =
      (t.kind ≡ one_shot)
      × (recreate_one_shot d fuel t.container cfg.one_shot_timeout cfg.health.poll_interval
            (cleanup_for t) before
          ≡ (with_verdict r, after))

  abbrev pub ServiceReturns :
      PlannedTarget → Fallible RecreateOutcome → (before after : History) → Type 0
  ServiceReturns t r before after =
      (t.kind ≡ service)
      × (recreate_with_health d fuel t.container cfg.health (cleanup_for t) t.policy.hooks before
          ≡ (with_verdict r, after))

  -- The target was updated: a one-shot completed, a service is healthy in its new container.
  abbrev pub Succeeded : PlannedTarget → RolloutStep → (before after : History) → Type 0
  Succeeded t (one_shot_completed container) before after =
      (container ≡ t.container) × OneShotReturns t (ok OneShotOutcome.completed) before after
  Succeeded t (updated container new_id notify) before after =
      (container ≡ t.container)
      × (notify ≡ t.policy.notify)
      × (old_name : Text) × ServiceReturns t (ok (recreated old_name new_id)) before after
  Succeeded t (restarted container) before after = ⊥

  -- The target's update ended as the reason says.
  abbrev pub Failed : PlannedTarget → AbortReason → (before after : History) → Type 0
  Failed t (one_shot_failed container exit_code) before after =
      (container ≡ t.container)
      × OneShotReturns t (ok (OneShotOutcome.failed exit_code)) before after
  Failed t (one_shot_timed_out container) before after =
      (container ≡ t.container) × OneShotReturns t (ok OneShotOutcome.timed_out) before after
  Failed t (rolled_back container) before after =
      (container ≡ t.container)
      × (event : RollbackEvent) × ServiceReturns t (ok (RecreateOutcome.rolled_back event)) before
          after
  Failed t (deferred container reason) before after =
      (container ≡ t.container)
      × (OneShotReturns t (ok (OneShotOutcome.skipped_by_hook reason)) before after
          ⊎ ServiceReturns t (ok (RecreateOutcome.skipped_by_hook reason)) before after)
  Failed t (step_failed container error) before after =
      (container ≡ t.container)
      × (e : DockerError) × (error ≡ d.describe e)
      × (OneShotReturns t (err e) before after ⊎ ServiceReturns t (err e) before after)

  -- The targets were updated one after the other, with these steps.
  abbrev pub Ran : List PlannedTarget → List RolloutStep → (before after : History) → Type 0
  Ran [] [] before after = after ≡ before
  Ran (t ∷ ts) (step ∷ steps) before after =
      (mid : History) × Succeeded t step before mid × Ran ts steps mid after
  Ran _ _ before after = ⊥

  -- How the rollout ended behind the targets that were updated: with none left, and the restarts, or
  -- with the first of the rest, whose update failed.
  abbrev pub Ended :
      (rest : List PlannedTarget) (updates : List RolloutStep) (r : RolloutReport) (at h' : History)
      → Option AbortReason
      → Type 0
  Ended rest updates r at h' none =
      (rest ≡ [])
      × (restarts : List RolloutStep) × (r.steps ≡ updates ++ restarts)
      × AreRestarts restarts
  Ended rest updates r at h' (some reason) =
      (t : PlannedTarget) × (later : List PlannedTarget) × (rest ≡ t ∷ later)
      × (r.steps ≡ updates)
      × Failed t reason at h'

  -- How far the rollout of these targets came, behind the steps so far.
  abbrev pub IsRunFrom :
      (steps : List RolloutStep) (targets : List PlannedTarget) (r : RolloutReport) (h h' : History)
      → Type 0
  IsRunFrom steps targets r h h' =
      (done : List PlannedTarget) × (rest : List PlannedTarget) × (targets ≡ done ++ rest)
      × (updates : List RolloutStep) × (at : History) × Ran done updates h at
      × Ended rest (steps ++ updates) r at h' r.aborted

  abbrev pub IsRun : (targets : List PlannedTarget) (r : RolloutReport) (h h' : History) → Type 0
  IsRun targets r h h' = IsRunFrom [] targets r h h'

  -- What `run_target` returns, as a step or an abort.
  abbrev IsResult : PlannedTarget → StepResult → (before after : History) → Type 0
  IsResult t (stepped step) before after = Succeeded t step before after
  IsResult t (abort reason) before after = Failed t reason before after
  IsResult t waiting before after = Unit {0}

  one_shot-IsResult :
      (t : PlannedTarget) (r : Fallible (Option OneShotOutcome)) (before after : History)
      → t.kind ≡ one_shot
      → recreate_one_shot d fuel t.container cfg.one_shot_timeout cfg.health.poll_interval
          (cleanup_for t)
          before
        ≡ (r, after)
      → IsResult t (one_shot_result d t.container r) before after
  unfolding one_shot_result
  one_shot-IsResult t (ok none) before after k e = tt
  one_shot-IsResult t (ok (some OneShotOutcome.completed)) before after k e = (refl, (k, e))
  one_shot-IsResult t (ok (some (OneShotOutcome.failed exit_code))) before after k e =
      (refl, (k, e))
  one_shot-IsResult t (ok (some OneShotOutcome.timed_out)) before after k e = (refl, (k, e))
  one_shot-IsResult t (ok (some (OneShotOutcome.skipped_by_hook reason))) before after k e =
      (refl, inl (k, e))
  one_shot-IsResult t (err x) before after k e = (refl, x, refl, inl (k, e))

  service-IsResult :
      (t : PlannedTarget) (r : Fallible (Option RecreateOutcome)) (before after : History)
      → t.kind ≡ service
      → recreate_with_health d fuel t.container cfg.health (cleanup_for t) t.policy.hooks before
        ≡ (r, after)
      → IsResult t (service_result d t.container t.policy.notify r) before after
  unfolding service_result
  service-IsResult t (ok none) before after k e = tt
  service-IsResult t (ok (some (recreated old_name new_id))) before after k e =
      (refl, refl, old_name, (k, e))
  service-IsResult t (ok (some (RecreateOutcome.rolled_back event))) before after k e =
      (refl, event, (k, e))
  service-IsResult t (ok (some (RecreateOutcome.skipped_by_hook reason))) before after k e =
      (refl, inr (k, e))
  service-IsResult t (err x) before after k e = (refl, x, refl, inr (k, e))

  run_kind-IsResult :
      (t : PlannedTarget) (kind : TargetKind) (h : History)
      → t.kind ≡ kind
      → IsResult t
          (run_kind d fuel cfg (cleanup_for t) t kind h).0
          h
          (run_kind d fuel cfg (cleanup_for t) t kind h).1
  run_kind-IsResult t one_shot h k = one_shot-IsResult t _ h _ k refl
  run_kind-IsResult t service h k = service-IsResult t _ h _ k refl

  run_target-IsResult :
      (t : PlannedTarget) (h : History)
      → IsResult t (run_target d fuel cfg t h).0 h (run_target d fuel cfg t h).1
  unfolding run_target
  run_target-IsResult t h = run_kind-IsResult t t.kind h refl

  AreRestarts-append :
      (a b : List RolloutStep) → AreRestarts a → AreRestarts b → AreRestarts (a ++ b)
  AreRestarts-append [] b ra rb = rb
  AreRestarts-append (restarted container ∷ a) b ra rb = AreRestarts-append a b ra rb
  AreRestarts-append (one_shot_completed container ∷ a) b ra rb = absurd ra
  AreRestarts-append (updated container new_id notify ∷ a) b ra rb = absurd ra

  restart-AreRestarts : (c : Text) (h : History) → AreRestarts (restart d c h).0
  unfolding restart
  restart-AreRestarts c h =
      let asked = Call.inspect c ∷ h in
      elim (Result-cases (d.inspect h c)) [
        | inl (s, found) ↦
            let signal = s.config.stop_signal in
            let timeout = s.config.stop_timeout in
            elim (Result-cases (d.stop asked c signal timeout)) [
              | inr (e, failed) ↦ rw (found, failed) tt
              | inl (u, done) ↦
                  elim (Result-cases (d.start (Call.stop c signal timeout ∷ asked) c)) [
                    | inr (e, failed) ↦ rw (found, done, failed) tt
                    | inl (v, up) ↦ rw (found, done, up) tt
                  ]
            ]
        | inr (x, unknown) ↦ elim (Result-cases (d.stop asked c none none)) [
          | inr (e, failed) ↦ rw (unknown, failed) tt
          | inl (u, done) ↦ elim (Result-cases (d.start (Call.stop c none none ∷ asked) c)) [
            | inr (e, failed) ↦ rw (unknown, done, failed) tt
            | inl (v, up) ↦ rw (unknown, done, up) tt
          ]
        ]
      ]

  restart_all-AreRestarts : (cs : List Text) (h : History) → AreRestarts (restart_all d cs h).0
  unfolding restart_all
  restart_all-AreRestarts [] h = tt
  restart_all-AreRestarts (c ∷ cs) h =
      AreRestarts-append (restart d c h).0 (restart_all d cs (restart d c h).1).0
        (restart-AreRestarts c h) (restart_all-AreRestarts cs (restart d c h).1)

  -- One more update in front.
  IsRun-cons :
      (t : PlannedTarget) (ts : List PlannedTarget) (step : RolloutStep) (steps : List RolloutStep)
      (r : RolloutReport) (h mid h' : History)
      → Succeeded t step h mid
      → IsRunFrom (steps ++ step ∷ []) ts r mid h'
      → IsRunFrom steps (t ∷ ts) r h h'
  IsRun-cons t ts step steps r h mid h' went (done, rest, split, updates, at, ran, end) = (
    t ∷ done,
    rest,
    ap (λ l. t ∷ l) split,
    step ∷ updates,
    at,
    (mid, went, ran),
    subst (λ l. Ended rest l r at h' r.aborted) (append_assoc steps (step ∷ []) updates) end,
  )

  module _ (p : RolloutPlan) where
    run_targets-IsRun :
        (steps : List RolloutStep) (services : List Text) (ts : List PlannedTarget) (h h' : History)
        (r : RolloutReport)
        → run_targets d fuel cfg p steps services ts h ≡ (some r, h')
        → IsRunFrom steps ts r h h'
    unfolding run_targets
    run_targets-IsRun steps services [] h h' r e =
        let (restarts, last) = restart_all d (restarts_for p services) h in
        let same : complete_report d p (steps ++ restarts) ≡ r = cc in
        subst (λ r'. IsRunFrom steps [] r' h h') same
          (
            [],
            [],
            refl,
            [],
            h,
            refl,
            (
              refl,
              restarts,
              ap (λ l. l ++ restarts) (sym (append-nil steps)),
              restart_all-AreRestarts (restarts_for p services) h,
            ),
          )
    run_targets-IsRun steps services (t ∷ ts) h h' r e =
        let mid = (run_target d fuel cfg t h).1 in
        let result = run_target-IsResult t h in
        elim (StepResult-cases (run_target d fuel cfg t h).0) [
          | inl (step, did) ↦ IsRun-cons t ts step steps r h mid h' (rw did at result) (
              run_targets-IsRun (steps ++ step ∷ []) (t.service ∷ services) ts mid h' r
                (rw (did, run_targets) at e))
          | inr (inl (reason, failed)) ↦
              let ends = rw (failed, run_targets) at e in
              let same : aborted_report d p steps reason ≡ r = cc in
              let last : mid ≡ h' = cc in
              subst (λ r'. IsRunFrom steps (t ∷ ts) r' h h') same
                (
                  [],
                  t ∷ ts,
                  refl,
                  [],
                  h,
                  refl,
                  (
                    t,
                    ts,
                    refl,
                    sym (append-nil steps),
                    subst (Failed t reason h) last (rw failed at result),
                  ),
                )
          | inr (inr pending) ↦ let waits = rw (pending, run_targets) at e in cc
        ]

-- A rollout updates the targets of its plan one after the other, in the plan's order: each reported
-- update is that of the next target, whose one-shot completed or whose service became healthy. A
-- rollout that was not aborted updated all, and only restarts followed in its report; one that was
-- aborted ended with the next target, whose update failed as the reason says.
pub execute-IsRun :
    (d : Daemon) (fuel : ℕ) (cfg : RolloutConfig) (p : RolloutPlan) (h h' : History)
    (r : RolloutReport)
    → execute d fuel cfg p h ≡ (some r, h')
    → IsRun d fuel cfg p.targets r h h'
unfolding execute
execute-IsRun d fuel cfg p h h' r e = run_targets-IsRun d fuel cfg p [] [] p.targets h h' r e
