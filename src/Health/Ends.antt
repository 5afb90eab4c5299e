-- ===== src/Health/Ends.antt =====
-- The loops of the gates end: enough fuel gives a verdict.
use freshdock.Prelude.{
  ℕ, zero, suc, ◌+◌, ◌-◌, ◌*◌, ◌≤◌, ◌<◌, ◌≡◌, ◌≢◌, inl, inr, none, ◌∷◌, Text, ok, arith,
}
use freshdock.Daemon.Types.{ContainerRuntimeState, health_healthy, Fallible}
use freshdock.Daemon.Calls.{Call, History, Daemon}
use freshdock.Daemon.Laws.{Ticking}
use freshdock.Health.{HealthConfig, again, judge, poll, wait_for_health}
use freshdock.Health.Verdict.{Round-cases}

-- Another round is made only before the deadline, and its deadline is no later than the limit.
judge_before :
    (cfg : HealthConfig) (limit elapsed deadline deadline' : ℕ)
    (answer : Fallible ContainerRuntimeState)
    → cfg.health_timeout ≤ limit
    → cfg.grace_period ≤ limit
    → deadline ≤ limit
    → judge cfg elapsed deadline answer ≡ again deadline'
    → (elapsed < limit) × (deadline' ≤ limit)
unfolding judge
judge_before cfg limit elapsed deadline deadline' (ok health_healthy) a b c e = cc
judge_before cfg limit elapsed deadline deadline' _ a b c e = ground arith

module _ (d : Daemon) (clock : Ticking d) (id : Text) (cfg : HealthConfig) (limit : ℕ)
    (timeout_fits : cfg.health_timeout ≤ limit) (grace_fits : cfg.grace_period ≤ limit) where
  poll_ends :
      (begin fuel deadline : ℕ) (h : History)
      → begin + limit ≤ d.now h + fuel * cfg.poll_interval
      → deadline ≤ limit
      → (poll d id cfg begin (suc fuel) deadline h).0 ≢ none
  unfolding poll
  poll_ends begin zero deadline h enough k =
      let probed = Call.probe_state id ∷ h in
      elim (Round-cases (judge cfg (d.now probed - begin) deadline (d.probe_state h id))) [
        | inl (o, decided) ↦ rw (decided, poll) (λ e. cc)
        | inr (t, more) ↦
            let (early, fits) =
              judge_before cfg limit _ deadline t _ timeout_fits grace_fits k more in
            absurd (omega (arith, clock.monotone (Call.probe_state id) h))
      ]
  poll_ends begin (suc fuel) deadline h enough k =
      let probed = Call.probe_state id ∷ h in
      elim (Round-cases (judge cfg (d.now probed - begin) deadline (d.probe_state h id))) [
        | inl (o, decided) ↦ rw (decided, poll) (λ e. cc)
        | inr (t, more) ↦
            let (early, fits) =
              judge_before cfg limit _ deadline t _ timeout_fits grace_fits k more in
            rw (more, poll)
              (poll_ends begin fuel t (Call.sleep cfg.poll_interval ∷ probed)
                (omega (
                  arith,
                  clock.monotone (Call.probe_state id) h,
                  clock.sleeps cfg.poll_interval probed,
                ))
                fits)
      ]

-- The health gate always reaches a verdict: with a clock that ticks, it takes no more than one
-- round and as many as poll intervals fit into the longer of the health timeout and the grace
-- period.
pub wait_for_health-ends :
    (d : Daemon) (clock : Ticking d) (id : Text) (cfg : HealthConfig) (limit rounds : ℕ)
    (h : History)
    → cfg.health_timeout ≤ limit
    → cfg.grace_period ≤ limit
    → limit ≤ rounds * cfg.poll_interval
    → (wait_for_health d id (suc rounds) cfg h).0 ≢ none
unfolding wait_for_health
wait_for_health-ends d clock id cfg limit rounds h a b enough =
    poll_ends d clock id cfg limit a b (d.now h) rounds cfg.health_timeout h (omega arith) a
