-- ===== src/Health/OneShot.antt =====
-- The gate of a one-shot: it ends, and what its verdict rests on.
use freshdock.Prelude.{
  ℕ, zero, suc, ◌+◌, ◌-◌, ◌*◌, ◌≤◌, ◌<◌, ◌≡◌, refl, sym, ◌≢◌, ℤ, inl, inr, Option, none, some, ◌∷◌,
  Text, ok, arith, Option-cases,
}
use freshdock.Labels.Values.{Duration}
use freshdock.Daemon.Types.{ContainerRuntimeState, exited, Fallible}
use freshdock.Daemon.Calls.{Call, History, Daemon}
use freshdock.Daemon.Laws.{Ticking, swaps_of}
use freshdock.Health.Exit.{ExitOutcome, exit_seen, judge_exit, poll_exit, wait_for_exit}

module _ (d : Daemon) (clock : Ticking d) (id : Text) (timeout interval : Duration) where
  judge_exit_before :
      (elapsed : ℕ) (answer : Fallible ContainerRuntimeState)
      → judge_exit timeout elapsed answer ≡ none
      → elapsed < timeout
  unfolding judge_exit exit_seen
  judge_exit_before elapsed (ok (exited code)) e = cc
  judge_exit_before elapsed _ e = ground arith

  poll_exit_ends :
      (begin fuel : ℕ) (h : History)
      → begin + timeout ≤ d.now h + fuel * interval
      → (poll_exit d id timeout interval begin (suc fuel) h).0 ≢ none
  unfolding poll_exit
  poll_exit_ends begin zero h enough =
      let probed = Call.probe_state id ∷ h in
      elim (Option-cases (judge_exit timeout (d.now probed - begin) (d.probe_state h id))) [
        | inr (o, decided) ↦ rw (decided, poll_exit) (λ e. cc)
        | inl more ↦
            absurd
              (omega (arith, judge_exit_before _ _ more, clock.monotone (Call.probe_state id) h))
      ]
  poll_exit_ends begin (suc fuel) h enough =
      let probed = Call.probe_state id ∷ h in
      elim (Option-cases (judge_exit timeout (d.now probed - begin) (d.probe_state h id))) [
        | inr (o, decided) ↦ rw (decided, poll_exit) (λ e. cc)
        | inl more ↦
            rw (more, poll_exit)
              (poll_exit_ends begin fuel (Call.sleep interval ∷ probed) (
                omega
                  (arith, clock.monotone (Call.probe_state id) h, clock.sleeps interval probed)))
      ]

-- The gate of a one-shot always reaches a verdict: with a clock that ticks, it takes no more than
-- one round and as many as poll intervals fit into the timeout.
pub wait_for_exit-ends :
    (d : Daemon) (clock : Ticking d) (id : Text) (timeout interval : Duration) (rounds : ℕ)
    (h : History)
    → timeout ≤ rounds * interval
    → (wait_for_exit d id timeout interval (suc rounds) h).0 ≢ none
unfolding wait_for_exit
wait_for_exit-ends d clock id timeout interval rounds h enough =
    poll_exit_ends d clock id timeout interval (d.now h) rounds h (omega arith)

Exit-parts :
    {o o' : ExitOutcome} {h h' : History}
    → ◌≡◌ {A = Option ExitOutcome × History} (some o, h) (some o', h')
    → (o ≡ o') × (h ≡ h')
Exit-parts e = (cc, cc)

-- What the verdict of a one-shot's gate says of the last probe.
abbrev pub JustifiesExit :
    (timeout elapsed : ℕ) → Fallible ContainerRuntimeState → ExitOutcome → Type 0
JustifiesExit timeout elapsed answer (ExitOutcome.exited code) = answer ≡ ok (exited code)
JustifiesExit timeout elapsed answer ExitOutcome.timed_out =
    ((code : ℤ) → answer ≢ ok (exited code)) × (timeout ≤ elapsed)

judge_exit-Justifies :
    (timeout elapsed : ℕ) (answer : Fallible ContainerRuntimeState) (outcome : ExitOutcome)
    → judge_exit timeout elapsed answer ≡ some outcome
    → JustifiesExit timeout elapsed answer outcome
unfolding judge_exit exit_seen
judge_exit-Justifies timeout elapsed (ok (exited code)) (ExitOutcome.exited code') e = ground arith
judge_exit-Justifies timeout elapsed (ok (exited code)) ExitOutcome.timed_out e = cc
judge_exit-Justifies timeout elapsed _ (ExitOutcome.exited code') e = ground arith
judge_exit-Justifies timeout elapsed _ ExitOutcome.timed_out e = (λ c x. cc, ground arith)

module _ (d : Daemon) (id : Text) (timeout interval : Duration) where
  abbrev pub DecidedExit : ℕ → ExitOutcome → History → Type 0
  DecidedExit begin outcome h' =
      (h : History) × (h' ≡ Call.probe_state id ∷ h)
      × JustifiesExit timeout (d.now h' - begin) (d.probe_state h id) outcome

  poll_exit-Decided :
      (begin fuel : ℕ) (h h' : History) (outcome : ExitOutcome)
      → poll_exit d id timeout interval begin fuel h ≡ (some outcome, h')
      → DecidedExit begin outcome h'
  unfolding poll_exit
  poll_exit-Decided begin zero h h' outcome e = cc
  poll_exit-Decided begin (suc fuel) h h' outcome e =
      let probed = Call.probe_state id ∷ h in
      elim (Option-cases (judge_exit timeout (d.now probed - begin) (d.probe_state h id))) [
        | inr (o, decided) ↦
            let (same, ends) = Exit-parts (rw decided at e) in
            (h, sym ends, rw (← ends, ← same) (judge_exit-Justifies timeout _ _ o decided))
        | inl more ↦
            poll_exit-Decided begin fuel (Call.sleep interval ∷ probed) h' outcome (rw more at e)
      ]

-- The verdict on a one-shot comes straight from the last probe: an exit code is the one that it
-- found, and it times out only when that probe found no exit and the timeout was over.
pub wait_for_exit-Decided :
    (d : Daemon) (id : Text) (timeout interval : Duration) (fuel : ℕ) (h h' : History)
    (outcome : ExitOutcome)
    → wait_for_exit d id timeout interval fuel h ≡ (some outcome, h')
    → DecidedExit d id timeout interval (d.now h) outcome h'
unfolding wait_for_exit
wait_for_exit-Decided d id timeout interval fuel h h' outcome e =
    poll_exit-Decided d id timeout interval (d.now h) fuel h h' outcome e

poll_exit-swaps_of :
    (d : Daemon) (id : Text) (timeout interval : Duration) (begin fuel : ℕ) (h : History)
    → swaps_of (poll_exit d id timeout interval begin fuel h).1 ≡ swaps_of h
unfolding poll_exit
poll_exit-swaps_of d id timeout interval begin zero h = refl
poll_exit-swaps_of d id timeout interval begin (suc fuel) h =
    let probed = Call.probe_state id ∷ h in
    elim (Option-cases (judge_exit timeout (d.now probed - begin) (d.probe_state h id))) [
      | inr (o, decided) ↦ rw (decided, poll_exit) refl
      | inl more ↦
          rw (more, poll_exit)
            (poll_exit-swaps_of d id timeout interval begin fuel (Call.sleep interval ∷ probed))
    ]

pub wait_for_exit-swaps_of :
    (d : Daemon) (id : Text) (timeout interval : Duration) (fuel : ℕ) (h : History)
    → swaps_of (wait_for_exit d id timeout interval fuel h).1 ≡ swaps_of h
unfolding wait_for_exit
wait_for_exit-swaps_of d id timeout interval fuel h =
    poll_exit-swaps_of d id timeout interval (d.now h) fuel h
