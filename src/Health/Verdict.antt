-- ===== src/Health/Verdict.antt =====
-- What a verdict of the gates rests on.
use freshdock.Prelude.{
  ℕ, zero, suc, ◌-◌, ◌≤◌, ℤ, ◌≡◌, refl, sym, ◌⊎◌, inl, inr, Option, some, ◌∷◌, Text, ok, err, arith,
}
use freshdock.Daemon.Types.{
  ContainerRuntimeState, health_healthy, health_starting, health_unhealthy, running_no_healthcheck,
  exited, DockerError, Fallible,
}
use freshdock.Daemon.Calls.{Call, History, Daemon}
use freshdock.Daemon.Laws.{swaps_of}
use freshdock.Health.{
  HealthOutcome, healthy, timeout, crashed, HealthConfig, Round, verdict, again, judge, poll,
  wait_for_health,
}

-- The answer to the last probe that a verdict stands for, with the time since the gate opened.
abbrev pub Justifies :
    HealthConfig → (elapsed : ℕ) → Fallible ContainerRuntimeState → HealthOutcome → Type 0
Justifies cfg elapsed answer healthy =
    (answer ≡ ok health_healthy)
    ⊎ ((answer ≡ ok running_no_healthcheck) × (cfg.grace_period ≤ elapsed))
Justifies cfg elapsed answer crashed = (exit_code : ℤ) × (answer ≡ ok (exited exit_code))
Justifies cfg elapsed answer timeout =
    (((answer ≡ ok health_starting) ⊎ (answer ≡ ok health_unhealthy))
      × (cfg.health_timeout ≤ elapsed))
    ⊎ ((e : DockerError) × (answer ≡ err e)
        × ((cfg.health_timeout ≤ elapsed) ⊎ (cfg.grace_period ≤ elapsed)))

module _ (cfg : HealthConfig) where
  -- The deadline for failed probes is that of one of the two paths.
  abbrev IsDeadline : ℕ → Type 0
  IsDeadline deadline = (deadline ≡ cfg.health_timeout) ⊎ (deadline ≡ cfg.grace_period)

  judge-Justifies :
      (elapsed deadline : ℕ) (answer : Fallible ContainerRuntimeState) (outcome : HealthOutcome)
      → IsDeadline deadline
      → judge cfg elapsed deadline answer ≡ verdict outcome
      → Justifies cfg elapsed answer outcome
  unfolding judge
  judge-Justifies elapsed deadline (ok health_healthy) healthy k e = ground arith
  judge-Justifies elapsed deadline (ok health_starting) timeout k e = inl (inl refl, ground arith)
  judge-Justifies elapsed deadline (ok health_unhealthy) timeout k e = inl (inr refl, ground arith)
  judge-Justifies elapsed deadline (err x) timeout (inl same) e = inr (x, refl, inl (ground arith))
  judge-Justifies elapsed deadline (err x) timeout (inr same) e = inr (x, refl, inr (ground arith))
  judge-Justifies elapsed deadline (ok (exited code)) crashed k e = (code, refl)
  judge-Justifies elapsed deadline _ _ k e = ground arith

  judge-IsDeadline :
      (elapsed deadline deadline' : ℕ) (answer : Fallible ContainerRuntimeState)
      → IsDeadline deadline
      → judge cfg elapsed deadline answer ≡ again deadline'
      → IsDeadline deadline'
  unfolding judge
  judge-IsDeadline elapsed deadline deadline' (ok health_healthy) k e = cc
  judge-IsDeadline elapsed deadline deadline' _ k e = ground arith

parts :
    {o o' : HealthOutcome} {h h' : History}
    → ◌≡◌ {A = Option HealthOutcome × History} (some o, h) (some o', h')
    → (o ≡ o') × (h ≡ h')
parts e = (cc, cc)

pub Round-cases : (r : Round) → ((o : HealthOutcome) × (r ≡ verdict o)) ⊎ ((t : ℕ) × (r ≡ again t))
Round-cases (verdict o) = inl (o, refl)
Round-cases (again t) = inr (t, refl)

module _ (d : Daemon) (id : Text) (cfg : HealthConfig) (begin : ℕ) where
  -- A history that ends with the probe that decided.
  abbrev pub Decided : HealthOutcome → History → Type 0
  Decided outcome h' =
      (h : History) × (h' ≡ Call.probe_state id ∷ h)
      × Justifies cfg (d.now h' - begin) (d.probe_state h id) outcome

  poll-Decided :
      (fuel deadline : ℕ) (h h' : History) (outcome : HealthOutcome)
      → IsDeadline cfg deadline
      → poll d id cfg begin fuel deadline h ≡ (some outcome, h')
      → Decided outcome h'
  unfolding poll
  poll-Decided zero deadline h h' outcome k e = cc
  poll-Decided (suc fuel) deadline h h' outcome k e =
      let probed = Call.probe_state id ∷ h in
      elim (Round-cases (judge cfg (d.now probed - begin) deadline (d.probe_state h id))) [
        | inl (o, decided) ↦
            let (same, ends) = parts (rw decided at e) in
            (h, sym ends, rw (← ends, ← same) (judge-Justifies cfg _ deadline _ o k decided))
        | inr (t, more) ↦
            poll-Decided fuel t (Call.sleep cfg.poll_interval ∷ probed) h' outcome
              (judge-IsDeadline cfg _ deadline t _ k more) (rw more at e)
      ]

-- A verdict of the health gate comes straight from its last probe: healthy means that the probe
-- said so, or that it found the container running without a healthcheck once the grace period was
-- over; crashed means that it found the container exited; a timeout means that it found the
-- container starting or unhealthy once the health timeout was over, or that the probe itself failed
-- once the health timeout or the grace period was.
pub wait_for_health-Decided :
    (d : Daemon) (id : Text) (fuel : ℕ) (cfg : HealthConfig) (h h' : History)
    (outcome : HealthOutcome)
    → wait_for_health d id fuel cfg h ≡ (some outcome, h')
    → Decided d id cfg (d.now h) outcome h'
unfolding wait_for_health
wait_for_health-Decided d id fuel cfg h h' outcome e =
    poll-Decided d id cfg (d.now h) fuel cfg.health_timeout h h' outcome (inl refl) e

-- The gate only probes and sleeps.
poll-swaps_of :
    (d : Daemon) (id : Text) (cfg : HealthConfig) (begin fuel deadline : ℕ) (h : History)
    → swaps_of (poll d id cfg begin fuel deadline h).1 ≡ swaps_of h
unfolding poll
poll-swaps_of d id cfg begin zero deadline h = refl
poll-swaps_of d id cfg begin (suc fuel) deadline h =
    let probed = Call.probe_state id ∷ h in
    elim (Round-cases (judge cfg (d.now probed - begin) deadline (d.probe_state h id))) [
      | inl (o, decided) ↦ rw (decided, poll) refl
      | inr (t, more) ↦
          rw (more, poll)
            (poll-swaps_of d id cfg begin fuel t (Call.sleep cfg.poll_interval ∷ probed))
    ]

pub wait_for_health-swaps_of :
    (d : Daemon) (id : Text) (fuel : ℕ) (cfg : HealthConfig) (h : History)
    → swaps_of (wait_for_health d id fuel cfg h).1 ≡ swaps_of h
unfolding wait_for_health
wait_for_health-swaps_of d id fuel cfg h =
    poll-swaps_of d id cfg (d.now h) fuel cfg.health_timeout h
