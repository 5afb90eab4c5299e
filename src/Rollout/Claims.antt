-- ===== src/Rollout/Claims.antt =====
-- Every target of a rollout is accounted for.
use freshdock.Prelude.{
  ℕ, ◌≡◌, ap, ◌⊎◌, inl, inr, true, some, List, [], ◌∷◌, ◌++◌, map, Text, All, Bool-cases, arith,
}
use mathlib.Core.List.{filter_map, append-nil}
use freshdock.Compose.{elem}
use freshdock.Compose.Elem.{
  elem-append_left, elem-append_right, elem-keep-not, elem_self, elem-cons,
}
use freshdock.Daemon.Calls.{History, Daemon}
use freshdock.Rollout.Plan.{PlannedTarget, RolloutPlan, restarts_for}
use freshdock.Rollout.Report.{
  AbortReason, RolloutStep, one_shot_completed, updated, restarted, RolloutReport, step_container,
  touched, claimed,
}
use freshdock.Rollout.Execute.{
  RolloutConfig, run_target, restart_all, run_targets, execute, complete_report, aborted_report,
}
use freshdock.Rollout.Prefix.{StepResult-cases, moved, execute-IsPrefix}

module _ (d : Daemon) (fuel : ℕ) (cfg : RolloutConfig) (p : RolloutPlan) where
  -- A report is one of a rollout that ran to its end, or one of a rollout that was cut short.
  abbrev IsReport : RolloutReport → Type 0
  IsReport r =
      ((steps : List RolloutStep) × (r ≡ complete_report d p steps))
      ⊎ ((steps : List RolloutStep) × (reason : AbortReason) × (r
            ≡ aborted_report d p steps reason))

  run_targets-IsReport :
      (steps : List RolloutStep) (services : List Text) (ts : List PlannedTarget) (h h' : History)
      (r : RolloutReport)
      → run_targets d fuel cfg p steps services ts h ≡ (some r, h')
      → IsReport r
  unfolding run_targets
  run_targets-IsReport steps services [] h h' r e =
      inl (steps ++ (restart_all d (restarts_for p services) h).0, cc)
  run_targets-IsReport steps services (t ∷ ts) h h' r e =
      elim (StepResult-cases (run_target d fuel cfg t h).0) [
        | inl (step, done) ↦
            run_targets-IsReport (steps ++ step ∷ []) (t.service ∷ services) ts
              (run_target d fuel cfg t h).1 h' r (rw (done, run_targets) at e)
        | inr (inl (reason, failed)) ↦
            let ends = rw (failed, run_targets) at e in inr (steps, reason, cc)
        | inr (inr pending) ↦ let waits = rw (pending, run_targets) at e in cc
      ]

elem-moved :
    (c : Text) (steps : List RolloutStep)
    → elem c (moved steps) ≡ true
    → elem c (map step_container steps) ≡ true
unfolding filter_map
elem-moved c [] e = e
elem-moved c (one_shot_completed x ∷ steps) e = ground (arith, elem-moved c steps)
elem-moved c (updated x id notify ∷ steps) e = ground (arith, elem-moved c steps)
elem-moved c (restarted x ∷ steps) e = elem-cons c x _ (elem-moved c steps e)

-- Is every one of these targets claimed?
abbrev pub AllClaimed : List PlannedTarget → RolloutReport → Type 0
AllClaimed ts r = All (λ (t : PlannedTarget). elem t.container (claimed r) ≡ true) ts

-- From membership of all containers in a list that is claimed.
AllClaimed-of_elem :
    (r : RolloutReport) (ts : List PlannedTarget)
    → ((c : Text)
        → elem c (map (λ (t : PlannedTarget). t.container) ts) ≡ true
        → elem c (claimed r) ≡ true)
    → AllClaimed ts r
AllClaimed-of_elem r [] h = tt
AllClaimed-of_elem r (t ∷ ts) h = (
  h t.container (elem_self t.container _),
  AllClaimed-of_elem r ts (λ c m. h c (elem-cons c t.container _ m)),
)

-- Every target of the plan is claimed by the report: the rollout touched it, or lists it among
-- those that it did not complete.
pub execute-AllClaimed :
    (d : Daemon) (fuel : ℕ) (cfg : RolloutConfig) (p : RolloutPlan) (h h' : History)
    (r : RolloutReport)
    → execute d fuel cfg p h ≡ (some r, h')
    → AllClaimed p.targets r
unfolding execute claimed touched
execute-AllClaimed d fuel cfg p h h' r e =
    elim (run_targets-IsReport d fuel cfg p [] [] p.targets h h' r e) [
      | inl (steps, complete) ↦
          let (rest, all, remains) = execute-IsPrefix d fuel cfg p h h' r e in
          let nothing : rest ≡ [] = rw (ap (λ v. v.aborted) complete) at remains in
          AllClaimed-of_elem r p.targets (λ c m.
            elem-append_left c _ r.not_completed
              (elem-moved c r.steps (rw (all, nothing, append-nil) at m)))
      | inr (steps, reason, cut) ↦ AllClaimed-of_elem r p.targets (λ c m.
          rw cut (elim (Bool-cases (elem c (map step_container steps))) [
            | inl seen ↦ elem-append_left c _ _ seen
            | inr unseen ↦
                elem-append_right c (map step_container steps) _
                  (elem-keep-not c (map step_container steps) _ m unseen)
          ]))
    ]
