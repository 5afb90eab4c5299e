-- ===== src/Scheduler/Advances.antt =====
-- What one visit of a pass changes in its list of live names and in its tally.
use freshdock.Prelude.{
  ℕ, ◌≡◌, refl, ◌⊎◌, inl, inr, Bool, true, false, not, ◌&&◌, ◌||◌, Option, none, some, List, [],
  ◌∷◌, Text, Result, ok, err, lookup, if◌then◌else◌,
}
use freshdock.Compose.{elem}
use freshdock.Labels.{Policy, parse_policy}
use freshdock.Labels.Values.{Mode, live, LabelError}
use freshdock.Names.{is_archive_name, is_own_container}
use freshdock.Config.{ResolvedSettings, policy_defaults}
use freshdock.Docker.{container_name}
use freshdock.Daemon.Types.{ContainerSummary, Fallible}
use freshdock.Daemon.Calls.{History, Daemon}
use freshdock.Daemon.Actions.{Action, ◌>>=◌, onwards}
use freshdock.Probe.Outcome.{ProbeTarget, resolve_target}
use freshdock.Scheduler.{SchedulerConfig, LocalTime, ContainerState, due}
use freshdock.Scheduler.Summary.{Verdict, failed}
use freshdock.Scheduler.Apply.{Processed}
use freshdock.Scheduler.Tick.{
  Pass, include, labels_of, state_or_seed, advance, is_off_mode, record_all, settle_processed,
  probe_due, visit_enabled, visit_policy, visit_listed, with_live, with_state,
}

-- The result, where there is one.
abbrev pub Holds : {A : Type 0} → (A → Type 0) → Option A → Type 0
Holds P none = Unit
Holds P (some a) = P a

-- The action has no result, or one that the predicate holds of.
abbrev pub Yields : {A : Type 0} → (A → Type 0) → Action (Option A) → Type 0
Yields P m = (h : History) → Holds P (m h).0

pub choose-Yields :
    {A : Type 0} (P : A → Type 0) (b : Bool) (m k : Action (Option A))
    → (b ≡ true → Yields P m)
    → (b ≡ false → Yields P k)
    → Yields P (if b then m else k)
choose-Yields P true m k first second = first refl
choose-Yields P false m k first second = second refl

pub onwards-Yields :
    {A B : Type 0} (P : A → Type 0) (Q : B → Type 0) (m : Action (Option A))
    (f : A → Action (Option B))
    → Yields P m
    → ((a : A) → P a → Yields Q (f a))
    → Yields Q (m >>= onwards f)
onwards-Yields {A = A} P Q m f first next h = go (m h).0 (first h)
  where
    go : (o : Option A) → Holds P o → Holds Q (onwards f o (m h).1).0
    go none held = tt
    go (some a) held = next a held (m h).1

module _ {Instant : Type 0} where
  -- The name of the container may have been added to the live ones, and verdicts to the tally.
  abbrev pub Advances : ContainerSummary → (before after : Pass Instant) → Type 0
  Advances c before after =
      ((after.live ≡ before.live) ⊎ (after.live ≡ include (container_name c) before.live))
      × ((verdicts : List Verdict) × (mode : Mode) × (after.summary
            ≡ record_all verdicts mode before.summary))

module _ {Instant : Type 0} (time : LocalTime Instant) (d : Daemon) (fuel : ℕ)
    (cfg : SchedulerConfig) (settings : ResolvedSettings) (now : Instant) (c : ContainerSummary)
    (p : Pass Instant) where
  settle_processed-Advances :
      (name : Text) (mode : Mode) (state : ContainerState Instant) (q : Pass Instant)
      (r : Option Processed × Option Text)
      → q.live ≡ include (container_name c) p.live
      → q.summary ≡ p.summary
      → Holds (Advances c p) (settle_processed time d fuel cfg settings now name mode state q r)
  unfolding settle_processed
  settle_processed-Advances name mode state q (none, notified) same tally = tt
  settle_processed-Advances name mode state q (some processed, notified) same tally =
      (inr same, (processed.verdicts, mode, rw (tally) refl))

  probe_due-Advances :
      (name : Text) (policy : Policy) (labels : List (Text × Text)) (state : ContainerState Instant)
      (q : Pass Instant) (answer : Fallible ProbeTarget)
      → q.live ≡ include (container_name c) p.live
      → q.summary ≡ p.summary
      → Yields
          (Advances c p)
          (probe_due time d fuel cfg settings now name policy labels state q answer)
  unfolding record_all
  probe_due-Advances name policy labels state q (err e) same tally h =
      (inr same, (failed ∷ [], policy.mode, rw (tally) refl))
  probe_due-Advances name policy labels state q (ok target) same tally h =
      settle_processed-Advances name policy.mode (advance time policy.mode now state) q _ same tally

  visit_enabled-Advances :
      (name : Text) (policy : Policy) (q : Pass Instant)
      → q.live ≡ include (container_name c) p.live
      → q.summary ≡ p.summary
      → Yields (Advances c p) (visit_enabled time d fuel cfg settings now c name policy q)
  unfolding visit_enabled record_all
  visit_enabled-Advances name policy q same tally =
      let state = state_or_seed time (lookup name q.book.states) policy now in
      choose-Yields (Advances c p) (due time policy state now cfg.poll_interval) _ _
        (λ is_due h.
          probe_due-Advances name policy (labels_of c) state (with_state name state q)
            (resolve_target d c h).0 same tally (resolve_target d c h).1)
        (λ not_due h. (inr same, ([], live, tally)))

  visit_policy-Advances :
      (r : Result Policy LabelError)
      → Yields (Advances c p) (visit_policy time d fuel cfg settings now c (container_name c) p r)
  unfolding record_all
  visit_policy-Advances (err e) = λ h. (inr refl, ([], live, refl))
  visit_policy-Advances (ok policy) =
      choose-Yields (Advances c p) (not policy.enabled || is_off_mode policy.mode) _ _
        (λ off h. (inl refl, ([], live, refl)))
        λ on.
          choose-Yields (Advances c p)
            (policy.auto_enabled && is_own_container cfg.own_id_prefix c.id) _ _
            (λ own h. (inr refl, ([], live, refl)))
            (λ other.
              visit_enabled-Advances (container_name c) policy (with_live (container_name c) p) refl
                refl)

  pub visit_listed-Advances : Yields (Advances c p) (visit_listed time d fuel cfg settings now c p)
  unfolding visit_listed record_all
  visit_listed-Advances =
      choose-Yields (Advances c p) (is_archive_name (container_name c)) _ _
        (λ archive h. (inl refl, ([], live, refl)))
        λ plain.
          choose-Yields (Advances c p) (elem (container_name c) p.handled) _ _
            (λ handled h. (inr refl, ([], live, refl)))
            (λ fresh. visit_policy-Advances (parse_policy (labels_of c) (policy_defaults settings)))
