-- ===== src/Rollout/Prefix.antt =====
-- How far a rollout came.
use freshdock.Prelude.{
  ℕ, ◌≡◌, refl, sym, ap, subst, ◌∙◌, ◌⊎◌, inl, inr, Bool, Option, none, some, List, [], ◌∷◌, ◌++◌,
  map, Text, ok, arith,
}
use mathlib.Core.List.{
  filter_map, filter_map-append, filter_map-cons-some, append-nil, append_assoc,
}
use mathlib.Core.Path.{ap₂}
use freshdock.Daemon.Calls.{History, Daemon}
use freshdock.Daemon.Types.{Fallible}
use freshdock.Recreate.Hooks.{Cleanup}
use freshdock.Recreate.Gated.{RecreateOutcome}
use freshdock.Recreate.OneShot.{OneShotOutcome}
use freshdock.Rollout.Decide.{TargetKind, one_shot, service}
use freshdock.Rollout.Plan.{PlannedTarget, RolloutPlan, restarts_for}
use freshdock.Rollout.Report.{
  AbortReason, one_shot_failed, one_shot_timed_out, rolled_back, deferred, step_failed, RolloutStep,
  RolloutReport, moved_container,
}
use freshdock.Rollout.Execute.{
  RolloutConfig, StepResult, stepped, abort, waiting, one_shot_result, service_result, run_kind,
  run_target, restart, restart_all, run_targets, execute, complete_report, aborted_report,
}

-- The container that an abort is about.
abbrev pub abort_container : AbortReason → Text
abort_container (one_shot_failed container exit_code) = container
abort_container (one_shot_timed_out container) = container
abort_container (rolled_back container) = container
abort_container (deferred container reason) = container
abort_container (step_failed container error) = container

-- A target's step or abort names the target's container.
abbrev Names : Text → StepResult → Type 0
Names name (stepped step) = moved_container step ≡ some name
Names name (abort reason) = abort_container reason ≡ name
Names name waiting = Unit {0}

abbrev pub moved : List RolloutStep → List Text
moved steps = filter_map moved_container steps

-- What is left of the targets, in the order of the plan, and why.
abbrev pub Remains : List Text → Option AbortReason → Type 0
Remains rest none = rest ≡ []
Remains rest (some reason) = (later : List Text) × (rest ≡ abort_container reason ∷ later)

abbrev containers : List PlannedTarget → List Text
containers ts = map (λ (t : PlannedTarget). t.container) ts

-- How far a report says that the plan came: the containers that it moved are the first ones of
-- the plan, in the plan's order.
abbrev pub IsPrefix : (planned : List Text) → RolloutReport → Type 0
IsPrefix planned r = (rest : List Text) × (planned ≡ moved r.steps ++ rest) × Remains rest r.aborted

pub StepResult-cases :
    (r : StepResult)
    → ((step : RolloutStep) × (r ≡ stepped step))
      ⊎ ((reason : AbortReason) × (r ≡ abort reason))
      ⊎ (r ≡ waiting)
StepResult-cases (stepped step) = inl (step, refl)
StepResult-cases (abort reason) = inr (inl (reason, refl))
StepResult-cases waiting = inr (inr refl)

moved-snoc :
    (steps : List RolloutStep) (step : RolloutStep) (cs : List Text) {c : Text}
    → moved_container step ≡ some c
    → moved (steps ++ step ∷ []) ++ cs ≡ moved steps ++ c ∷ cs
unfolding filter_map
moved-snoc steps step cs {c} e =
    ap (λ l. l ++ cs)
      (filter_map-append moved_container steps (step ∷ [])
        ∙ ap (λ l. moved steps ++ l) (filter_map-cons-some moved_container step [] e))
    ∙ append_assoc (moved steps) (c ∷ []) cs

module _ (d : Daemon) (fuel : ℕ) (cfg : RolloutConfig) where
  one_shot_result-Names :
      (name : Text) (r : Fallible (Option OneShotOutcome)) → Names name (one_shot_result d name r)
  unfolding one_shot_result
  one_shot_result-Names name (ok none) = tt
  one_shot_result-Names name (ok (some OneShotOutcome.completed)) = refl
  one_shot_result-Names name _ = refl

  service_result-Names :
      (name : Text) (notify : Bool) (r : Fallible (Option RecreateOutcome))
      → Names name (service_result d name notify r)
  unfolding service_result
  service_result-Names name notify (ok none) = tt
  service_result-Names name notify (ok (some (RecreateOutcome.recreated old_name new_id))) = refl
  service_result-Names name notify _ = refl

  run_kind-Names :
      (cleanup : Cleanup) (t : PlannedTarget) (kind : TargetKind) (h : History)
      → Names t.container (run_kind d fuel cfg cleanup t kind h).0
  run_kind-Names cleanup t one_shot h = one_shot_result-Names t.container _
  run_kind-Names cleanup t service h = service_result-Names t.container t.policy.notify _

  run_target-Names :
      (t : PlannedTarget) (h : History) → Names t.container (run_target d fuel cfg t h).0
  unfolding run_target
  run_target-Names t h = run_kind-Names _ t t.kind h

  restart-moved : (c : Text) (h : History) → moved (restart d c h).0 ≡ []
  unfolding restart filter_map
  restart-moved c h = ground arith

  restart_all-moved : (cs : List Text) (h : History) → moved (restart_all d cs h).0 ≡ []
  unfolding restart_all filter_map
  restart_all-moved [] h = refl
  restart_all-moved (c ∷ cs) h =
      let (first, mid) = restart d c h in
      filter_map-append moved_container first (restart_all d cs mid).0
      ∙ ap₂ ◌++◌ (restart-moved c h) (restart_all-moved cs mid)

  module _ (p : RolloutPlan) where
    run_targets-IsPrefix :
        (steps : List RolloutStep) (services : List Text) (ts : List PlannedTarget) (h h' : History)
        (r : RolloutReport)
        → run_targets d fuel cfg p steps services ts h ≡ (some r, h')
        → IsPrefix (moved steps ++ containers ts) r
    unfolding run_targets
    run_targets-IsPrefix steps services [] h h' r e =
        let (restarts, last) = restart_all d (restarts_for p services) h in
        let same : complete_report d p (steps ++ restarts) ≡ r = cc in
        subst (IsPrefix (moved steps ++ [])) same (
          [],
          ap (λ l. l ++ [])
              (sym (
                filter_map-append moved_container steps restarts
                ∙ ap (λ l. moved steps ++ l) (restart_all-moved (restarts_for p services) h)
                ∙ append-nil (moved steps))),
          refl,
        )
    run_targets-IsPrefix steps services (t ∷ ts) h h' r e =
        let mid = (run_target d fuel cfg t h).1 in
        let named = run_target-Names t h in
        elim (StepResult-cases (run_target d fuel cfg t h).0) [
          | inl (step, done) ↦
              subst (λ l. IsPrefix l r) (moved-snoc steps step (containers ts) (rw done at named))
                (run_targets-IsPrefix (steps ++ step ∷ []) (t.service ∷ services) ts mid h' r
                  (rw (done, run_targets) at e))
          | inr (inl (reason, failed)) ↦
              let ends = rw (failed, run_targets) at e in
              let same : aborted_report d p steps reason ≡ r = cc in
              subst (IsPrefix (moved steps ++ containers (t ∷ ts))) same (
                containers (t ∷ ts),
                refl,
                (containers ts, ap (λ c. c ∷ containers ts) (sym (rw failed at named))),
              )
          | inr (inr pending) ↦ let waits = rw (pending, run_targets) at e in cc
        ]

-- A rollout moves the containers of its plan in the plan's order, without leaving one out: those
-- that it moved are the first ones of the plan. If it was not aborted, they are all; if it was, the
-- container that the abort is about is the next one.
pub execute-IsPrefix :
    (d : Daemon) (fuel : ℕ) (cfg : RolloutConfig) (p : RolloutPlan) (h h' : History)
    (r : RolloutReport)
    → execute d fuel cfg p h ≡ (some r, h')
    → IsPrefix (map (λ (t : PlannedTarget). t.container) p.targets) r
unfolding execute filter_map
execute-IsPrefix d fuel cfg p h h' r e = run_targets-IsPrefix d fuel cfg p [] [] p.targets h h' r e
