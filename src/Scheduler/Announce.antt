-- ===== src/Scheduler/Announce.antt =====
-- The notifications of a container in watch mode.
use freshdock.Prelude.{
  ℕ, ℤ, ◌≡◌, ◌≢◌, refl, ◌⊎◌, inl, inr, Bool, true, false, not, ◌&&◌, Option, none, some, List, [],
  ◌∷◌, Text, ok, eq_refl, Bool-cases, arith,
}
use freshdock.Compose.{Labels}
use freshdock.Labels.{Policy}
use freshdock.Labels.Values.{watch}
use freshdock.Image
use freshdock.Config.{ResolvedSettings}
use freshdock.Daemon.Types.{NotifyEvent, update_available}
use freshdock.Daemon.Calls.{Call, History, Daemon}
use freshdock.Probe.{LocalDigests, update_available_for}
use freshdock.Probe.Outcome.{ProbeOutcome, fetched, ProbeTarget, probe_image}
use freshdock.Scheduler.{SchedulerConfig}
use freshdock.Scheduler.Apply.{Processed}
use freshdock.Scheduler.Process.{is_text, announce, on_comparison, on_outcome, process_container}
use freshdock.Scheduler.Calm.{probe_image-IsFetched}

-- The notifications sent, the last one first.
abbrev pub notices : History → List NotifyEvent
notices [] = []
notices (Call.dispatch event ∷ h) = event ∷ notices h
notices (_ ∷ h) = notices h

-- Nothing is sent, or one notice about a digest that was not notified about, which is remembered.
-- `answer` is what the processing returns: its result, the digest to remember, and the calls.
abbrev pub AnnouncesOnce :
    (name image : Text) (policy : Policy) (last_notified : Option Text) (served : Text → Type 0)
    (h : History) (answer : (Option Processed × Option Text) × History)
    → Type 0
AnnouncesOnce name image policy last_notified served h answer =
    ((notices answer.1 ≡ notices h) × ((answer.0).1 ≡ last_notified))
    ⊎ ((latest : Text) × served latest
        × (policy.notify ≡ true)
        × (last_notified ≢ some latest)
        × ((answer.0).1 ≡ some latest)
        × (notices answer.1 ≡ update_available name image latest ∷ notices h))

module _ (d : Daemon) (fuel : ℕ) (cfg : SchedulerConfig) (ts : ℤ) (name : Text) (policy : Policy)
    (labels : Labels) (target : ProbeTarget) (last_failed last_notified : Option Text)
    (settings : ResolvedSettings) where
  announce-AnnouncesOnce :
      (served : Text → Type 0) (latest : Text) (h : History)
      → served latest
      → AnnouncesOnce name target.image policy last_notified served h (
          announce d fuel cfg ts name policy labels target last_failed last_notified settings latest
            h)
  announce-AnnouncesOnce served latest h is =
      elim (Bool-cases (policy.notify && not (is_text last_notified latest))) [
        | inr quiet ↦ rw (quiet) (inl (refl, refl))
        | inl news ↦
            let notify : policy.notify ≡ true = ground arith in
            rw (news) (
              inr (
                latest,
                is,
                notify,
                λ same. let is_same = eq_refl latest in ground arith,
                refl,
                refl,
              ))
      ]

  on_comparison-AnnouncesOnce :
      (served : Text → Type 0) (update : Option Bool) (local : LocalDigests) (latest : Text)
      (tag_image_id : Option Text) (h : History)
      → policy.mode ≡ watch
      → served latest
      → AnnouncesOnce name target.image policy last_notified served h (
          on_comparison d fuel cfg ts name policy labels target last_failed last_notified settings
            update local latest tag_image_id h)
  on_comparison-AnnouncesOnce served none local latest tag_image_id h watching is = inl (refl, refl)
  on_comparison-AnnouncesOnce served (some false) local latest tag_image_id h watching is =
      inl (refl, refl)
  on_comparison-AnnouncesOnce served (some true) local latest tag_image_id h watching is =
      rw (watching) (announce-AnnouncesOnce served latest h is)

  outcome-AnnouncesOnce :
      (h at : History) (o : ProbeOutcome)
      → (probe_image d target.image h).0 ≡ o
      → policy.mode ≡ watch
      → AnnouncesOnce name target.image policy last_notified
          (λ latest.
            d.fetch_digest (Call.inspect_image target.image ∷ h) (Image.parse target.image)
            ≡ ok latest)
          at
          (on_outcome d fuel cfg ts name policy labels target last_failed last_notified settings o
            at)
  outcome-AnnouncesOnce h at (fetched local latest tag_image_id) e watching =
      let (free, served, seen) =
        probe_image-IsFetched d target.image h local latest tag_image_id e in
      on_comparison-AnnouncesOnce _ (update_available_for local latest target.image_id tag_image_id)
        local latest tag_image_id at watching served
  outcome-AnnouncesOnce h at ProbeOutcome.pinned e watching = inl (refl, refl)
  outcome-AnnouncesOnce h at ProbeOutcome.auth_required e watching = inl (refl, refl)
  outcome-AnnouncesOnce h at ProbeOutcome.credentials_rejected e watching = inl (refl, refl)
  outcome-AnnouncesOnce h at ProbeOutcome.network_unavailable e watching = inl (refl, refl)
  outcome-AnnouncesOnce h at (ProbeOutcome.error message) e watching = inl (refl, refl)

  notices-probe_image : (h : History) → notices (probe_image d target.image h).1 ≡ notices h
  unfolding probe_image
  notices-probe_image h = ground arith

  -- A container in watch mode is notified about at most once for a digest: a notice is sent only for
  -- the digest that the registry served, if its labels ask for notices and the last notice was about
  -- another digest, and the digest is remembered then.
  pub process_container-AnnouncesOnce :
      (h : History)
      → policy.mode ≡ watch
      → AnnouncesOnce name target.image policy last_notified
          (λ latest.
            d.fetch_digest (Call.inspect_image target.image ∷ h) (Image.parse target.image)
            ≡ ok latest)
          h
          (process_container d fuel cfg ts name policy labels target last_failed last_notified
            settings h)
  unfolding process_container
  process_container-AnnouncesOnce h watching =
      let same = notices-probe_image h in
      rw (notices-probe_image h) at (
        outcome-AnnouncesOnce h (probe_image d target.image h).1 (probe_image d target.image h).0
          refl watching)
