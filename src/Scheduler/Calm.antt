-- ===== src/Scheduler/Calm.antt =====
-- The parts of a tick that change no container, and when an update is applied.
use freshdock.Prelude.{
  ℕ, ℤ, ◌≡◌, ◌≢◌, refl, sym, ◌∙◌, ◌⊎◌, inl, inr, Bool, true, false, Option, none, some, [], ◌∷◌,
  Text, ok, err, eq_refl, Bool-cases, Result-cases, if◌then◌else◌, arith,
}
use freshdock.Compose.{Labels}
use freshdock.Labels.{Policy}
use freshdock.Labels.Values.{Mode, live, nightly, weekly, monthly, watch, off}
use freshdock.Image
use freshdock.Names.{is_pinned}
use freshdock.Config.{ResolvedSettings}
use freshdock.Daemon.Types.{ContainerSummary, LocalImage, RegistryError}
use freshdock.Daemon.Calls.{Call, History, Daemon}
use freshdock.Daemon.Actions.{Action, ◌>>=◌, onwards}
use freshdock.Daemon.Laws.{swaps_of}
use freshdock.Probe.{LocalDigests, update_available_for}
use freshdock.Probe.Digests.{local_manifest_digests}
use freshdock.Probe.Outcome.{
  ProbeOutcome, fetched, ProbeTarget, local_of, outcome_of, probe_image, resolve_target,
}
use freshdock.Scheduler.{SchedulerConfig}
use freshdock.Scheduler.Process.{
  is_text, on_comparison, on_outcome, by_mode, apply, process_container,
}

-- The action stops, renames, creates, starts and removes no container.
abbrev pub IsCalm : {A : Type 0} → Action A → Type 0
IsCalm m = (h : History) → swaps_of (m h).1 ≡ swaps_of h

pub then-IsCalm :
    {A B : Type 0} (m : Action A) (f : A → Action B)
    → IsCalm m
    → ((a : A) → IsCalm (f a))
    → IsCalm (m >>= f)
then-IsCalm m f first next h = next (m h).0 (m h).1 ∙ first h

pub choose-IsCalm :
    {A : Type 0} (b : Bool) (m k : Action A)
    → (b ≡ true → IsCalm m)
    → (b ≡ false → IsCalm k)
    → IsCalm (if b then m else k)
choose-IsCalm true m k first second = first refl
choose-IsCalm false m k first second = second refl

pub onwards-IsCalm :
    {A B : Type 0} (f : A → Action (Option B)) (o : Option A)
    → ((a : A) → IsCalm (f a))
    → IsCalm (onwards f o)
onwards-IsCalm f none next h = refl
onwards-IsCalm f (some a) next h = next a h

-- A mode that applies updates.
abbrev pub IsActive : Mode → Type 0
IsActive live = Unit
IsActive nightly = Unit
IsActive weekly = Unit
IsActive monthly = Unit
IsActive watch = ⊥
IsActive off = ⊥

module _ (d : Daemon) where
  pub resolve_target-IsCalm : (c : ContainerSummary) → IsCalm (resolve_target d c)
  unfolding resolve_target
  resolve_target-IsCalm c h = ground arith

  pub probe_image-IsCalm : (image : Text) → IsCalm (probe_image d image)
  unfolding probe_image
  probe_image-IsCalm image h = ground arith

  -- Where a digest was fetched, the reference is not pinned, and the local digests are those of the
  -- image that the reference names, none where it could not be inspected.
  abbrev pub IsFetched :
      (image : Text) (h : History) (local : LocalDigests) (latest : Text)
      (tag_image_id : Option Text)
      → Type 0
  IsFetched image h local latest tag_image_id =
      (is_pinned image ≡ false)
      × (d.fetch_digest (Call.inspect_image image ∷ h) (Image.parse image) ≡ ok latest)
      × (((img : LocalImage) × (d.inspect_image h image ≡ ok img)
            × (local ≡ local_manifest_digests image img.repo_digests)
            × (tag_image_id ≡ img.id))
          ⊎ (local ≡ []))

  not_fetched :
      (at : LocalDigests × Option Text) (x : RegistryError) {local : LocalDigests} {latest : Text}
      {tag_image_id : Option Text}
      → outcome_of d at (err x) ≡ fetched local latest tag_image_id
      → ⊥
  not_fetched at (RegistryError.network_unavailable reason) e = cc
  not_fetched at (RegistryError.http reason) e = cc
  not_fetched at (RegistryError.auth reason) e = cc
  not_fetched at (RegistryError.credentials_rejected reason) e = cc
  not_fetched at RegistryError.missing_digest e = cc
  not_fetched at (RegistryError.invalid_endpoint reason) e = cc

  pub probe_image-IsFetched :
      (image : Text) (h : History) (local : LocalDigests) (latest : Text)
      (tag_image_id : Option Text)
      → (probe_image d image h).0 ≡ fetched local latest tag_image_id
      → IsFetched image h local latest tag_image_id
  unfolding probe_image
  probe_image-IsFetched image h local latest tag_image_id e = elim (Bool-cases (is_pinned image)) [
    | inl is ↦ let e' = rw (is, probe_image) at e in cc
    | inr free ↦
        let e' = rw (free, probe_image) at e in
        elim (Result-cases (d.fetch_digest (Call.inspect_image image ∷ h) (Image.parse image))) [
          | inr (x, bad) ↦
              let e'' = rw (bad) at e' in
              absurd (not_fetched (local_of image (d.inspect_image h image)) x e'')
          | inl (g, good) ↦ elim (Result-cases (d.inspect_image h image)) [
            | inl (img, seen) ↦
                let e'' = rw (good, seen) at e' in (free, cc, inl (img, seen, cc, cc))
            | inr (x, unseen) ↦ let e'' = rw (good, unseen) at e' in (free, cc, inr cc)
          ]
        ]
  ]

module _ (d : Daemon) (fuel : ℕ) (cfg : SchedulerConfig) (ts : ℤ) (name : Text) (policy : Policy)
    (labels : Labels) (target : ProbeTarget) (last_failed last_notified : Option Text)
    (settings : ResolvedSettings) where
  -- The mode acts on updates, and the digest is not the one that failed.
  abbrev IsTried : Mode → (latest : Text) → Type 0
  IsTried mode latest = IsActive mode × (is_text last_failed latest ≡ false)

  apply-IsTried :
      (local : LocalDigests) (latest : Text) (tag_image_id : Option Text) (h : History)
      → (swaps_of
            (apply d fuel cfg ts name policy labels target last_failed last_notified settings local
              latest tag_image_id h).1
          ≡ swaps_of h)
        ⊎ (is_text last_failed latest ≡ false)
  apply-IsTried local latest tag_image_id h = elim (Bool-cases (is_text last_failed latest)) [
    | inl same ↦ inl (rw (same) refl)
    | inr other ↦ inr other
  ]

  by_mode-IsTried :
      (mode : Mode) (local : LocalDigests) (latest : Text) (tag_image_id : Option Text)
      (h : History)
      → (swaps_of
            (by_mode d fuel cfg ts name policy labels target last_failed last_notified settings mode
              local latest tag_image_id h).1
          ≡ swaps_of h)
        ⊎ IsTried mode latest
  by_mode-IsTried watch local latest tag_image_id h = inl ground arith
  by_mode-IsTried off local latest tag_image_id h = inl refl
  by_mode-IsTried live local latest tag_image_id h =
      elim (apply-IsTried local latest tag_image_id h) [
        | inl calm ↦ inl calm
        | inr other ↦ inr (tt, other)
      ]
  by_mode-IsTried nightly local latest tag_image_id h =
      elim (apply-IsTried local latest tag_image_id h) [
        | inl calm ↦ inl calm
        | inr other ↦ inr (tt, other)
      ]
  by_mode-IsTried weekly local latest tag_image_id h =
      elim (apply-IsTried local latest tag_image_id h) [
        | inl calm ↦ inl calm
        | inr other ↦ inr (tt, other)
      ]
  by_mode-IsTried monthly local latest tag_image_id h =
      elim (apply-IsTried local latest tag_image_id h) [
        | inl calm ↦ inl calm
        | inr other ↦ inr (tt, other)
      ]

  on_comparison-IsTried :
      (update : Option Bool) (local : LocalDigests) (latest : Text) (tag_image_id : Option Text)
      (h : History)
      → (swaps_of
            (on_comparison d fuel cfg ts name policy labels target last_failed last_notified
              settings update local latest tag_image_id h).1
          ≡ swaps_of h)
        ⊎ (update ≡ some true) × IsTried policy.mode latest
  on_comparison-IsTried none local latest tag_image_id h = inl refl
  on_comparison-IsTried (some false) local latest tag_image_id h = inl refl
  on_comparison-IsTried (some true) local latest tag_image_id h =
      elim (by_mode-IsTried policy.mode local latest tag_image_id h) [
        | inl calm ↦ inl calm
        | inr tried ↦ inr (refl, tried)
      ]

  -- The update of the container is one to apply: its image and the registry's digest are known, the
  -- container is behind them, its mode applies updates, and the digest is not the one that failed.
  abbrev pub IsToApply : History → Type 0
  IsToApply h =
      (is_pinned target.image ≡ false)
      × ((img : LocalImage) × (latest : Text) × (d.inspect_image h target.image ≡ ok img)
          × (d.fetch_digest (Call.inspect_image target.image ∷ h) (Image.parse target.image)
              ≡ ok latest)
          × (update_available_for (local_manifest_digests target.image img.repo_digests) latest
                target.image_id img.id
              ≡ some true)
          × IsActive policy.mode
          × (last_failed ≢ some latest))

  outcome-IsToApply :
      (h at : History) (o : ProbeOutcome)
      → (probe_image d target.image h).0 ≡ o
      → (swaps_of
            (on_outcome d fuel cfg ts name policy labels target last_failed last_notified settings o
              at).1
          ≡ swaps_of at)
        ⊎ IsToApply h
  unfolding update_available_for freshdock.Probe.update_available
  outcome-IsToApply h at (fetched local latest tag_image_id) e =
      elim (on_comparison-IsTried (update_available_for local latest target.image_id tag_image_id)
        local latest tag_image_id at) [
          | inl calm ↦ inl calm
          | inr (update, (active, differs)) ↦
              let (free, served, seen) =
                probe_image-IsFetched d target.image h local latest tag_image_id e in
              elim seen [
                | inl (img, inspected, digests, id) ↦ inr (
                  free,
                  (
                    img,
                    latest,
                    inspected,
                    served,
                    rw (sym digests, sym id) update,
                    active,
                    λ same. let is = eq_refl latest in ground arith,
                  ),
                )
                | inr nothing ↦ let never = rw (nothing) at update in cc
              ]
        ]
  outcome-IsToApply h at ProbeOutcome.pinned e = inl refl
  outcome-IsToApply h at ProbeOutcome.auth_required e = inl refl
  outcome-IsToApply h at ProbeOutcome.credentials_rejected e = inl refl
  outcome-IsToApply h at ProbeOutcome.network_unavailable e = inl refl
  outcome-IsToApply h at (ProbeOutcome.error message) e = inl refl

  -- A due container is left alone unless its image is not pinned and could be inspected, the
  -- registry served a digest, that digest and the image ids make an update available, its mode is
  -- live, nightly, weekly or monthly, and the digest is not the one that failed before.
  pub process_container-IsToApply :
      (h : History)
      → (swaps_of
            (process_container d fuel cfg ts name policy labels target last_failed last_notified
              settings h).1
          ≡ swaps_of h)
        ⊎ IsToApply h
  unfolding process_container
  process_container-IsToApply h =
      elim (outcome-IsToApply h (probe_image d target.image h).1 (probe_image d target.image h).0
        refl) [ inl calm ↦ inl (calm ∙ probe_image-IsCalm d target.image h) | inr due ↦ inr due ]
