-- ===== src/Scheduler/Verdicts.antt =====
-- The verdicts of a rollout, and the notifications of a container in watch mode.
use freshdock.Prelude.{◌+◌, ◌≡◌, refl, List, [], ◌∷◌, ◌++◌, map, length, Text, arith}
use mathlib.Core.List.{filter_map}
use freshdock.Rollout.Report.{
  RolloutStep, one_shot_completed, updated, restarted, RolloutReport, image_targets,
  moved_container,
}
use freshdock.Scheduler.Apply.{step_verdict, rollout_verdicts}

length-append {ℓ} : {A : Type ℓ} (xs ys : List A) → length (xs ++ ys) ≡ length xs + length ys
length-append [] ys = omega arith
length-append (x ∷ xs) ys = omega (arith, length-append xs ys)

length-map {ℓ κ} :
    {A : Type ℓ} {B : Type κ} (f : A → B) (xs : List A) → length (map f xs) ≡ length xs
length-map f [] = refl
length-map f (x ∷ xs) = omega (arith, length-map f xs)

length-steps :
    (steps : List RolloutStep)
    → length (filter_map step_verdict steps) ≡ length (filter_map moved_container steps)
unfolding filter_map
length-steps [] = refl
length-steps (one_shot_completed c ∷ steps) = omega (arith, length-steps steps)
length-steps (updated c new_id notify ∷ steps) = omega (arith, length-steps steps)
length-steps (restarted c ∷ steps) = length-steps steps

length-both :
    {A : Type 0} (xs : List A) (names ys : List Text) (f : Text → A)
    → length xs ≡ length names
    → length (xs ++ map f ys) ≡ length (names ++ ys)
length-both xs names ys f e =
    omega (arith, length-append xs (map f ys), length-append names ys, length-map f ys, e)

-- A rollout has one verdict for each of its image targets.
pub length-rollout_verdicts :
    (report : RolloutReport) → length (rollout_verdicts report) ≡ length (image_targets report)
unfolding rollout_verdicts image_targets
length-rollout_verdicts report =
    length-both (filter_map step_verdict report.steps) (filter_map moved_container report.steps)
      report.not_completed _ (length-steps report.steps)
