-- ===== src/Recreate/Reattached.antt =====
-- The repair of the network dependents, call by call.
use freshdock.Prelude.{
  ◌≡◌, ◌≢◌, refl, ◌∙◌, ◌⊎◌, inl, inr, false, Option, none, some, List, [], ◌∷◌, ◌++◌, Text, codes,
  ◌==◌, eq_iff, ok, err, Result-cases, Bool-cases, Option-cases,
}
use freshdock.Daemon.Types.{ContainerSpec, HostConfig, DockerError}
use freshdock.Daemon.Calls.{Call, History, Daemon}
use freshdock.Recreate.Swap.{swap_container}
use freshdock.Recreate.Dependents.{
  joined, rewrite_owner_reference, strip_shared_namespace_conflicts, repair_image, settle,
  restore_after_failed_reattach, reattach_one, reattach_dependents,
}

module _ (d : Daemon) (dependent : Text) where
  -- The archive is renamed back, and the dependent started if the daemon did that.
  abbrev pub Restored : (archive : Text) (before after : History) → Type 0
  Restored archive before after =
      ((e : DockerError) × (d.rename_to before archive dependent ≡ err e)
        × (after ≡ Call.rename_to archive dependent ∷ before))
      ⊎ (d.rename_to before archive dependent ≡ ok tt)
        × (after ≡ Call.start dependent ∷ Call.rename_to archive dependent ∷ before)

  module _ (s : ContainerSpec) (image : Text) (h : History) where
    -- The histories after the stop, the rename, the creation and the start of the swap.
    abbrev pub stopping : History
    stopping = Call.stop dependent s.config.stop_signal s.config.stop_timeout ∷ h

    abbrev pub archiving : History
    archiving = Call.rename dependent (d.timestamp stopping) ∷ stopping

    abbrev pub creating : History
    creating = Call.create_from_spec dependent s image ∷ archiving

    abbrev pub starting : Text → History
    starting new_id = Call.start new_id ∷ creating

    -- The dependent is swapped for a container with this specification, and its archive removed; the
    -- first call that the daemon does not do ends that, and behind the rename the archive is restored.
    pub data IsReplaced (after : History) : Type 0 where
      not_stopped :
          (e : DockerError)
          → d.stop h dependent s.config.stop_signal s.config.stop_timeout ≡ err e
          → after ≡ stopping
          → IsReplaced after
      not_archived :
          (e : DockerError)
          → d.stop h dependent s.config.stop_signal s.config.stop_timeout ≡ ok tt
          → d.rename stopping dependent (d.timestamp stopping) ≡ err e
          → after ≡ archiving
          → IsReplaced after
      not_created :
          (archive : Text) (e : DockerError)
          → d.stop h dependent s.config.stop_signal s.config.stop_timeout ≡ ok tt
          → d.rename stopping dependent (d.timestamp stopping) ≡ ok archive
          → d.create_from_spec archiving dependent s image ≡ err e
          → Restored archive creating after
          → IsReplaced after
      not_started :
          (archive new_id : Text) (e : DockerError)
          → d.stop h dependent s.config.stop_signal s.config.stop_timeout ≡ ok tt
          → d.rename stopping dependent (d.timestamp stopping) ≡ ok archive
          → d.create_from_spec archiving dependent s image ≡ ok new_id
          → d.start creating new_id ≡ err e
          → Restored archive (starting new_id) after
          → IsReplaced after
      replaced :
          (archive new_id : Text)
          → d.stop h dependent s.config.stop_signal s.config.stop_timeout ≡ ok tt
          → d.rename stopping dependent (d.timestamp stopping) ≡ ok archive
          → d.create_from_spec archiving dependent s image ≡ ok new_id
          → d.start creating new_id ≡ ok tt
          → after ≡ Call.remove archive false ∷ starting new_id
          → IsReplaced after

  restore-Restored :
      (archive : Text) (h : History)
      → Restored archive h (restore_after_failed_reattach d dependent archive h).1
  unfolding restore_after_failed_reattach
  restore-Restored archive h = elim (Result-cases (d.rename_to h archive dependent)) [
    | inr (e, failed) ↦ inl (e, failed, rw failed refl)
    | inl (u, done) ↦ inr (done, rw done refl)
  ]

  swap-IsReplaced :
      (s : ContainerSpec) (image : Text) (h : History)
      → IsReplaced s image h
          (let (r, mid) = swap_container d dependent s image h in (settle d dependent r mid).1)
  unfolding swap_container settle
  swap-IsReplaced s image h =
      elim (Result-cases (d.stop h dependent s.config.stop_signal s.config.stop_timeout)) [
        | inr (e, f) ↦ rw f (not_stopped e f refl)
        | inl (u, a) ↦
            let at = stopping s image h in
            elim (Result-cases (d.rename at dependent (d.timestamp at))) [
              | inr (e, f) ↦ rw (a, f) (not_archived e a f refl)
              | inl (archive, b) ↦
                  elim (Result-cases (d.create_from_spec (archiving s image h) dependent s image)) [
                    | inr (e, f) ↦
                        rw (a, b, f) (not_created archive e a b f (restore-Restored archive _))
                    | inl (new_id, c) ↦ elim (Result-cases (d.start (creating s image h) new_id)) [
                      | inr (e, f) ↦
                          rw (a, b, c, f)
                            (not_started archive new_id e a b c f (restore-Restored archive _))
                      | inl (v, g) ↦ rw (a, b, c, g) (replaced archive new_id a b c g refl)
                    ]
                  ]
            ]
      ]

module _ (owner_name : Text) (new_owner_id : Option Text) where
  -- The specification joins the new owner where it joined another container by an id; a container
  -- that shares a namespace keeps its stop options.
  abbrev pub IsMended : (s s' : ContainerSpec) → Type 0
  IsMended s s' =
      (s'.name ≡ s.name)
      × (s'.image_ref ≡ s.image_ref)
      × (s'.image_id ≡ s.image_id)
      × (s'.config.stop_signal ≡ s.config.stop_signal)
      × (s'.config.stop_timeout ≡ s.config.stop_timeout)
      × (new_owner_id ≡ none → s'.host_config ≡ s.host_config)
      × ((id reference : Text) (host : HostConfig)
          → new_owner_id ≡ some id
          → s.host_config ≡ some host
          → joined (some host) ≡ some reference
          → reference ≢ owner_name
          → s'.host_config ≡ some (record host { network_mode = some (codes "container:" ++ id) }))

  abbrev mend : ContainerSpec → ContainerSpec
  mend s = strip_shared_namespace_conflicts (rewrite_owner_reference s owner_name new_owner_id)

  -- The fields that neither step changes.
  abbrev Keeps : (s s' : ContainerSpec) → Type 0
  Keeps s s' =
      (s'.name ≡ s.name)
      × (s'.image_ref ≡ s.image_ref)
      × (s'.image_id ≡ s.image_id)
      × (s'.config.stop_signal ≡ s.config.stop_signal)
      × (s'.config.stop_timeout ≡ s.config.stop_timeout)

  strip-Keeps :
      (s : ContainerSpec)
      → Keeps s (strip_shared_namespace_conflicts s)
        × ((strip_shared_namespace_conflicts s).host_config ≡ s.host_config)
  unfolding strip_shared_namespace_conflicts
  strip-Keeps s = elim (Option-cases (joined s.host_config)) [
    | inl own ↦ rw own ((refl, refl, refl, refl, refl), refl)
    | inr (reference, shared) ↦ rw shared ((refl, refl, refl, refl, refl), refl)
  ]

  rewrite-Keeps : (s : ContainerSpec) → Keeps s (rewrite_owner_reference s owner_name new_owner_id)
  unfolding rewrite_owner_reference
  rewrite-Keeps s = elim (Option-cases new_owner_id) [
    | inl gone ↦ rw gone (refl, refl, refl, refl, refl)
    | inr (id, there) ↦ elim (Option-cases (joined s.host_config)) [
      | inl own ↦ rw (there, own) (refl, refl, refl, refl, refl)
      | inr (reference, shared) ↦ elim (Bool-cases (reference == owner_name)) [
        | inl same ↦ rw (there, shared, same) (refl, refl, refl, refl, refl)
        | inr other ↦ rw (there, shared, other) (refl, refl, refl, refl, refl)
      ]
    ]
  ]

  rewrite-joins :
      (s : ContainerSpec) (id reference : Text) (host : HostConfig)
      → new_owner_id ≡ some id
      → s.host_config ≡ some host
      → joined (some host) ≡ some reference
      → reference ≢ owner_name
      → (rewrite_owner_reference s owner_name new_owner_id).host_config
        ≡ some (record host { network_mode = some (codes "container:" ++ id) })
  unfolding rewrite_owner_reference
  rewrite-joins s id reference host there hosted shared differs =
      elim (Bool-cases (reference == owner_name)) [
        | inl same ↦ absurd (differs ((eq_iff reference owner_name).0 same))
        | inr other ↦ rw (there, hosted, shared, other) refl
      ]

  mend-IsMended : (s : ContainerSpec) → IsMended s (mend s)
  unfolding rewrite_owner_reference
  mend-IsMended s =
      let ((n, r, i, g, t), host) =
        strip-Keeps (rewrite_owner_reference s owner_name new_owner_id) in
      let (n', r', i', g', t') = rewrite-Keeps s in
      (
        n ∙ n',
        r ∙ r',
        i ∙ i',
        g ∙ g',
        t ∙ t',
        (λ gone. host ∙ rw gone refl),
        (λ id reference hc there hosted shared differs.
            host ∙ rewrite-joins s id reference hc there hosted shared differs),
      )

module _ (d : Daemon) (owner_name : Text) (new_owner_id : Option Text) where
  -- One dependent: left alone where it cannot be inspected, and replaced otherwise, with its mended
  -- specification and the image that the repair picks for it.
  abbrev pub IsReattached : (dependent : Text) (before after : History) → Type 0
  IsReattached dependent before after =
      let asked = Call.inspect dependent ∷ before in
      ((e : DockerError) × (d.inspect before dependent ≡ err e) × (after ≡ asked))
      ⊎ (s : ContainerSpec) × (s' : ContainerSpec) × (d.inspect before dependent ≡ ok s)
        × IsMended owner_name new_owner_id s s'
        × IsReplaced d dependent s' (repair_image d s' asked).0 (repair_image d s' asked).1 after

  abbrev pub AllReattached : (dependents : List Text) (before after : History) → Type 0
  AllReattached [] before after = after ≡ before
  AllReattached (x ∷ xs) before after =
      (mid : History) × IsReattached x before mid × AllReattached xs mid after

  reattach_one-IsReattached :
      (dependent : Text) (h : History)
      → IsReattached dependent h (reattach_one d owner_name new_owner_id dependent h).1
  unfolding reattach_one
  reattach_one-IsReattached dependent h = elim (Result-cases (d.inspect h dependent)) [
    | inr (e, failed) ↦ inl (e, failed, rw failed refl)
    | inl (s, found) ↦
        let s' = mend owner_name new_owner_id s in
        let asked = Call.inspect dependent ∷ h in
        inr (
          s,
          s',
          found,
          mend-IsMended owner_name new_owner_id s,
          rw found (
              swap-IsReplaced d dependent s' (repair_image d s' asked).0
                (repair_image d s' asked).1),
        )
  ]

  pub reattach_dependents-AllReattached :
      (dependents : List Text) (h : History)
      → AllReattached dependents h (reattach_dependents d owner_name new_owner_id dependents h).1
  unfolding reattach_dependents
  reattach_dependents-AllReattached [] h = refl
  reattach_dependents-AllReattached (x ∷ xs) h =
      let mid = (reattach_one d owner_name new_owner_id x h).1 in
      (mid, reattach_one-IsReattached x h, reattach_dependents-AllReattached xs mid)
