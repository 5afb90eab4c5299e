-- ===== src/Recreate/Kept.antt =====
-- What becomes of a one-shot: its success is an exit with zero, its failure is kept.
use freshdock.Prelude.{
  ℕ, ℤ, pos, ◌≡◌, ◌≢◌, refl, sym, ap, ◌∙◌, inl, inr, true, Option, none, some, Text, ok, arith,
  is_code, Bool-cases,
}
use freshdock.Labels.Values.{Duration}
use freshdock.Labels.Hooks.{no_hooks}
use freshdock.Daemon.Types.{HookSkipReason}
use freshdock.Daemon.Calls.{History, Daemon}
use freshdock.Daemon.Laws.{swaps_of, try-eq-ok}
use freshdock.Health.Exit.{ExitOutcome, exited, wait_for_exit}
use freshdock.Health.OneShot.{DecidedExit, wait_for_exit-Decided, wait_for_exit-swaps_of}
use freshdock.Recreate.Hooks.{Cleanup}
use freshdock.Recreate.Cycle.{CycleResult, CycleOutcome, recreate_one}
use freshdock.Recreate.OneShot.{
  OneShotOutcome, completed, failed, skipped_by_hook, finish, act, gate, recreate_one_shot,
}

module _ (d : Daemon) (fuel : ℕ) (name : Text) (timeout interval : Duration) (cleanup : Cleanup)
    (h h' : History) where
  -- The cycle completed, without hooks, and the gate gave this verdict at `at`.
  pub record Waited (outcome : ExitOutcome) : Type 0 where
    pub c : CycleResult
    pub swapped : History
    pub at : History
    pub cycle : recreate_one d name no_hooks h ≡ (ok (CycleOutcome.completed c), swapped)
    pub decided : DecidedExit d c.new_id timeout interval (d.now swapped) outcome at
    pub quiet : swaps_of at ≡ swaps_of swapped

  is_code_zero : (code : ℤ) → is_code 0 code ≡ true → code ≡ pos 0
  is_code_zero (pos n) e = ground arith
  is_code_zero (ℤ.negsuc n) e = cc

  act_completed :
      (c : CycleResult) (verdict : Option ExitOutcome) (at : History)
      → act d cleanup c verdict at ≡ (ok (some completed), h')
      → (verdict ≡ some (exited (pos 0))) × (h' ≡ (finish d cleanup c at).1)
  unfolding act
  act_completed c none at e = cc
  act_completed c (some (exited code)) at e = elim (Bool-cases (is_code 0 code)) [
    | inl is_zero ↦ (
      ap (λ x. some (exited x)) (is_code_zero code is_zero),
      ap (λ r. r.1) (sym (rw is_zero at e)),
    )
    | inr other ↦ let e' = rw other at e in cc
  ]
  act_completed c (some ExitOutcome.timed_out) at e = cc

  gate_cases :
      (out : CycleOutcome) (swapped : History) (r : OneShotOutcome)
      → ((reason : HookSkipReason) → r ≢ skipped_by_hook reason)
      → gate d fuel timeout interval cleanup out swapped ≡ (ok (some r), h')
      → (c : CycleResult) × (out ≡ CycleOutcome.completed c)
        × (act d cleanup c
              (wait_for_exit d c.new_id timeout interval fuel swapped).0
              (wait_for_exit d c.new_id timeout interval fuel swapped).1
            ≡ (ok (some r), h'))
  unfolding gate
  gate_cases (CycleOutcome.completed c) swapped r not_skipped e = (c, refl, e)
  gate_cases (CycleOutcome.skipped reason) swapped r not_skipped e = absurd (not_skipped reason cc)

  abbrev waited :
      (c : CycleResult) (swapped : History) (outcome : ExitOutcome)
      → recreate_one d name no_hooks h ≡ (ok (CycleOutcome.completed c), swapped)
      → (wait_for_exit d c.new_id timeout interval fuel swapped).0 ≡ some outcome
      → Waited outcome
  waited c swapped outcome cycle verdict = record {
    c = c;
    swapped = swapped;
    at = (wait_for_exit d c.new_id timeout interval fuel swapped).1;
    cycle = cycle;
    decided =
        wait_for_exit-Decided d c.new_id timeout interval fuel swapped _ outcome
          (λ i. (verdict i, (wait_for_exit d c.new_id timeout interval fuel swapped).1));
    quiet = wait_for_exit-swaps_of d c.new_id timeout interval fuel swapped;
  }

  -- A one-shot counts as completed only if the last probe found that its new container had exited
  -- with code zero; the archive is removed after that.
  pub recreate_one_shot_completed :
      recreate_one_shot d fuel name timeout interval cleanup h ≡ (ok (some completed), h')
      → (w : Waited (exited (pos 0))) × (h' ≡ (finish d cleanup w.c w.at).1)
  unfolding recreate_one_shot
  recreate_one_shot_completed e =
      let (out, swapped, cycle, rest) = try-eq-ok (recreate_one d name no_hooks) _ h h' e in
      let (c, is_completed, acted) = gate_cases out swapped completed (λ reason x. cc) rest in
      let (verdict, ends) = act_completed c _ _ acted in
      (waited c swapped (exited (pos 0)) (rw (← is_completed) cycle) verdict, ends)

  act_failed :
      (c : CycleResult) (verdict : Option ExitOutcome) (at : History) (code : ℤ)
      → act d cleanup c verdict at ≡ (ok (some (failed code)), h')
      → (verdict ≡ some (exited code)) × (code ≢ pos 0) × (h' ≡ at)
  unfolding act finish
  act_failed c none at code e = cc
  act_failed c (some (exited code')) at code e = elim (Bool-cases (is_code 0 code')) [
    | inl is_zero ↦ let e' = rw is_zero at e in cc
    | inr other ↦ let e' = rw other at e in (cc, (λ z. ground (arith, z)), ap (λ r. r.1) (sym e'))
  ]
  act_failed c (some ExitOutcome.timed_out) at code e = cc

  -- A one-shot that failed exited with that code, which is not zero, and is left as it stands: since
  -- the swap of the cycle no container was stopped, renamed, created, started or removed, so the
  -- failed one and its archive are both kept.
  pub recreate_one_shot_failed :
      (code : ℤ)
      → recreate_one_shot d fuel name timeout interval cleanup h ≡ (ok (some (failed code)), h')
      → (w : Waited (exited code)) × (code ≢ pos 0) × (swaps_of h' ≡ swaps_of w.swapped)
  unfolding recreate_one_shot
  recreate_one_shot_failed code e =
      let (out, swapped, cycle, rest) = try-eq-ok (recreate_one d name no_hooks) _ h h' e in
      let (c, is_completed, acted) = gate_cases out swapped (failed code) (λ reason x. cc) rest in
      let (verdict, other, ends) = act_failed c _ _ code acted in
      let w = waited c swapped (exited code) (rw (← is_completed) cycle) verdict in
      (w, other, ap swaps_of ends ∙ w.quiet)
