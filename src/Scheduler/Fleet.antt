-- ===== src/Scheduler/Fleet.antt =====
-- A fleet in which nothing applies updates is left alone.
use freshdock.Prelude.{
  ℕ, ◌≡◌, refl, inl, inr, true, not, ◌&&◌, ◌||◌, List, [], ◌∷◌, Text, Result, ok, err, All, lookup,
  Bool-cases, Result-cases,
}
use freshdock.Compose.{elem}
use freshdock.Labels.{Policy, parse_policy}
use freshdock.Labels.Values.{LabelError}
use freshdock.Names.{is_archive_name, is_own_container}
use freshdock.Config.{ResolvedSettings, policy_defaults}
use freshdock.Docker.{container_name}
use freshdock.Daemon.Types.{ContainerSummary, Fallible}
use freshdock.Daemon.Calls.{Call, History, Daemon}
use freshdock.Daemon.Actions.{onwards}
use freshdock.Probe.Outcome.{ProbeTarget, resolve_target}
use freshdock.Scheduler.{SchedulerConfig, LocalTime, ContainerState, due}
use freshdock.Scheduler.Tick.{
  Book, Pass, labels_of, state_or_seed, advance, is_off_mode, probe_due, visit_enabled,
  visit_policy, visit_listed, with_live, with_state,
}
use freshdock.Scheduler.Run.{Wake, ticked, changed, fresh_pass, visit_running, run_tick, run_with}
use freshdock.Scheduler.Calm.{
  IsCalm, IsActive, then-IsCalm, choose-IsCalm, onwards-IsCalm, resolve_target-IsCalm,
  process_container-IsToApply,
}

-- The container's labels give it no mode that applies updates.
abbrev pub IsPassive : ResolvedSettings → ContainerSummary → Type 0
IsPassive settings c =
    (policy : Policy)
    → parse_policy (labels_of c) (policy_defaults settings) ≡ ok policy
    → policy.enabled ≡ true
    → IsActive policy.mode
    → ⊥

module _ {Instant : Type 0} (time : LocalTime Instant) (d : Daemon) (fuel : ℕ)
    (cfg : SchedulerConfig) (settings : ResolvedSettings) where
  module _ (now : Instant) where
    probe_due-IsCalm :
        (name : Text) (policy : Policy) (labels : List (Text × Text))
        (state : ContainerState Instant) (p : Pass Instant) (answer : Fallible ProbeTarget)
        → (IsActive policy.mode → ⊥)
        → IsCalm (probe_due time d fuel cfg settings now name policy labels state p answer)
    probe_due-IsCalm name policy labels state p (err e) passive h = refl
    probe_due-IsCalm name policy labels state p (ok target) passive h =
        elim (process_container-IsToApply d fuel cfg (time.timestamp now) name policy labels target
          (lookup name p.book.failed) (advance time policy.mode now state).last_notified_digest
          settings h) [
            | inl calm ↦ calm
            | inr (free, (img, latest, seen, served, update, active, differs)) ↦
                absurd (passive active)
          ]

    visit_enabled-IsCalm :
        (c : ContainerSummary) (name : Text) (policy : Policy) (p : Pass Instant)
        → (IsActive policy.mode → ⊥)
        → IsCalm (visit_enabled time d fuel cfg settings now c name policy p)
    unfolding visit_enabled
    visit_enabled-IsCalm c name policy p passive =
        let state = state_or_seed time (lookup name p.book.states) policy now in
        choose-IsCalm (due time policy state now cfg.poll_interval) _ _
          (λ is_due.
            then-IsCalm (resolve_target d c)
              (probe_due time d fuel cfg settings now name policy (labels_of c) state
                (with_state name state p))
              (resolve_target-IsCalm d c)
              (λ answer.
                probe_due-IsCalm name policy (labels_of c) state (with_state name state p) answer
                  passive))
          (λ not_due h. refl)

    visit_policy-IsCalm :
        (c : ContainerSummary) (name : Text) (p : Pass Instant) (r : Result Policy LabelError)
        → ((policy : Policy) → r ≡ ok policy → policy.enabled ≡ true → IsActive policy.mode → ⊥)
        → IsCalm (visit_policy time d fuel cfg settings now c name p r)
    visit_policy-IsCalm c name p (err e) passive = λ h. refl
    visit_policy-IsCalm c name p (ok policy) passive = elim (Bool-cases policy.enabled) [
      | inr disabled ↦ rw (disabled) (λ h. refl)
      | inl enabled ↦
          choose-IsCalm (not policy.enabled || is_off_mode policy.mode) _ _ (λ is_off_mode h. refl)
            λ is_on.
              choose-IsCalm (policy.auto_enabled && is_own_container cfg.own_id_prefix c.id) _ _
                (λ own h. refl)
                (λ other.
                  visit_enabled-IsCalm c name policy (with_live name p)
                    (passive policy refl enabled))
    ]

    pub visit_listed-IsCalm :
        (c : ContainerSummary) (p : Pass Instant)
        → IsPassive settings c
        → IsCalm (visit_listed time d fuel cfg settings now c p)
    unfolding visit_listed
    visit_listed-IsCalm c p passive =
        let name = container_name c in
        choose-IsCalm (is_archive_name name) _ _ (λ archive h. refl)
          λ plain.
            choose-IsCalm (elem name p.handled) _ _ (λ handled h. refl)
              λ fresh.
                visit_policy-IsCalm c name p (parse_policy (labels_of c) (policy_defaults settings))
                  passive

    visit_running-IsCalm :
        (cs : List ContainerSummary) (p : Pass Instant)
        → All (IsPassive settings) cs
        → IsCalm (visit_running time d fuel cfg settings now cs p)
    unfolding visit_running
    visit_running-IsCalm [] p passive h = refl
    visit_running-IsCalm (c ∷ cs) p (here, rest) h =
        choose-IsCalm (d.is_shutdown h) _ _ (λ stop h. refl)
          (λ go.
            then-IsCalm (visit_listed time d fuel cfg settings now c p)
              (onwards (visit_running time d fuel cfg settings now cs))
              (visit_listed-IsCalm c p here)
              (λ next.
                onwards-IsCalm (visit_running time d fuel cfg settings now cs) next
                  (λ p'. visit_running-IsCalm cs p' rest)))
          h

  -- Every listing holds passive containers alone.
  abbrev pub IsPassiveFleet : Type 0
  IsPassiveFleet =
      (h : History) (cs : List ContainerSummary)
      → d.list_running h ≡ ok cs
      → All (IsPassive settings) cs

  run_tick-IsCalm :
      (book : Book Instant) → IsPassiveFleet → IsCalm (run_tick time d fuel cfg settings book)
  unfolding run_tick
  run_tick-IsCalm book passive h = elim (Result-cases (d.list_running h)) [
    | inr (x, bad) ↦ rw (bad, run_tick) refl
    | inl (cs, listed) ↦
        rw (listed, run_tick)
          (visit_running-IsCalm (time.now_provider (Call.list_running ∷ h)) cs (fresh_pass book)
            (passive h cs listed) (Call.list_running ∷ h))
  ]

  -- However its loop is woken, the scheduler stops, renames, creates, starts and removes no container
  -- where the labels of no listed container give it the mode live, nightly, weekly or monthly.
  pub run_with-IsCalm :
      (wakes : List Wake) (book : Book Instant)
      → IsPassiveFleet
      → IsCalm (run_with time d fuel cfg settings wakes book)
  unfolding run_with
  run_with-IsCalm [] book passive h = refl
  run_with-IsCalm (ticked ∷ wakes) book passive h =
      choose-IsCalm (d.is_shutdown h) _ _ (λ stop h. refl)
        (λ go.
          then-IsCalm (run_tick time d fuel cfg settings book)
            (onwards (λ (book', summary). run_with time d fuel cfg settings wakes book'))
            (run_tick-IsCalm book passive)
            (λ result.
              onwards-IsCalm (λ (book', summary). run_with time d fuel cfg settings wakes book')
                result (λ (book', summary). run_with-IsCalm wakes book' passive)))
        h
  run_with-IsCalm (changed is_sender_alive ∷ wakes) book passive h =
      choose-IsCalm (not is_sender_alive || d.is_shutdown h) _ _ (λ stop h. refl)
        (λ go. run_with-IsCalm wakes book passive) h
