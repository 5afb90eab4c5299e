-- ===== src/Recreate/Untouched.antt =====
-- What the cycle leaves alone, and what it does to the containers when it completes.
use freshdock.Prelude.{
  ◌≡◌, ◌≢◌, refl, sym, ap, ◌∙◌, Option-cases, ◌⊎◌, inl, inr, ◌∷◌, ℤ, Text, ok, Result-cases, arith,
}
use freshdock.Image
use freshdock.Labels.Hooks.{LifecycleHooks}
use freshdock.Daemon.Types.{ContainerSpec, HookSkipReason}
use freshdock.Daemon.Calls.{Call, History, Daemon}
use freshdock.Daemon.Laws.{swaps_of}
use freshdock.Recreate.Swap.{swap_container}
use freshdock.Recreate.Hooks.{skip_reason, run_pre_update_hook}
use freshdock.Recreate.Cycle.{CycleResult, completed, skipped, replace, recreate_one}

module _ (d : Daemon) (name : Text) (hooks : LifecycleHooks) (h h' : History) where
  -- An update that the pre-update hook holds back stops, renames, creates, starts and removes no
  -- container.
  pub recreate_one_skipped :
      (reason : HookSkipReason)
      → recreate_one d name hooks h ≡ (ok (skipped reason), h')
      → swaps_of h' ≡ swaps_of h
  unfolding recreate_one run_pre_update_hook skip_reason replace swap_container
  recreate_one_skipped reason e = ground arith

module _ (d : Daemon) (name : Text) (hooks : LifecycleHooks) (h : History) where
  -- The answers that let the cycle pass on to the swap.
  pub record Cleared : Type 0 where
    pub s : ContainerSpec
    pub at : History
    pub inspected : d.inspect h name ≡ ok s
    pub fits : d.preflight_recreate (Call.inspect name ∷ h) s ≡ ok tt
    pub same : swaps_of at ≡ swaps_of h
    pub goes_on : recreate_one d name hooks h ≡ replace d name s at

  -- Without them the containers are left alone, and the cycle does not complete.
  abbrev pub Held : Type 0
  Held =
      (swaps_of (recreate_one d name hooks h).1 ≡ swaps_of h)
      × ((c : CycleResult) → (recreate_one d name hooks h).0 ≢ ok (completed c))

  pub recreate_one_cases : Cleared ⊎ Held
  unfolding recreate_one run_pre_update_hook skip_reason replace swap_container
  recreate_one_cases =
      let asked = Call.inspect name ∷ h in
      elim (Result-cases (d.inspect h name)) [
        | inr (e, f) ↦ inr (rw f refl, λ c. rw f (λ x. cc))
        | inl (s, f) ↦
            let checked = Call.preflight_recreate s ∷ asked in
            elim (Result-cases (d.preflight_recreate asked s)) [
              | inr (e, g) ↦ inr (rw (f, g) refl, λ c. rw (f, g) (λ x. cc))
              | inl (u, g) ↦
                  let pulled = Call.pull (Image.parse s.image_ref) ∷ checked in
                  elim (Result-cases (d.pull checked (Image.parse s.image_ref))) [
                    | inr (e, p) ↦ inr (rw (f, g, p) refl, λ c. rw (f, g, p) (λ x. cc))
                    | inl (v, p) ↦ elim (Option-cases hooks.pre_update) [
                      | inl none_set ↦ inl (record {
                        s = s;
                        at = pulled;
                        inspected = f;
                        fits = g;
                        same = refl;
                        goes_on = rw (f, g, p, none_set);
                      })
                      | inr (hook, set) ↦
                          let status = d.exec_hook pulled name hook.command hook.timeout in
                          elim (Option-cases (skip_reason d status)) [
                            | inl clear ↦ inl (record {
                              s = s;
                              at = Call.exec_hook name hook.command hook.timeout ∷ pulled;
                              inspected = f;
                              fits = g;
                              same = refl;
                              goes_on = rw (f, g, p, set, clear);
                            })
                            | inr (reason, held) ↦ inr (
                              rw (f, g, p, set, held) refl,
                              λ c. rw (f, g, p, set, held) (λ x. cc),
                            )
                          ]
                    ]
                  ]
            ]
      ]

  -- The swap of a container with this specification, as the calls of a history show it.
  abbrev pub IsSwap : ContainerSpec → CycleResult → (before after : History) → Type 0
  IsSwap s c before after =
      (ts : ℤ) × (swaps_of after
        ≡ Call.start c.new_id
          ∷ Call.create_from_spec s.name s s.image_ref
          ∷ Call.rename s.name ts
          ∷ Call.stop s.name s.config.stop_signal s.config.stop_timeout
          ∷ swaps_of before)

  -- The result of a cycle names the container as it was inspected.
  abbrev pub Describes : ContainerSpec → CycleResult → Type 0
  Describes s c =
      (c.owner_name ≡ s.name)
      × (c.old_image_ref ≡ s.image_ref)
      × (c.new_image_ref ≡ s.image_ref)
      × (c.old_image_id ≡ s.image_id)

  replace_completed :
      (s : ContainerSpec) (at h' : History) (c : CycleResult)
      → replace d name s at ≡ (ok (completed c), h')
      → Describes s c × IsSwap s c at h'
  unfolding replace swap_container
  replace_completed s at h' c e =
      let answered = Call.list_network_dependents name ∷ at in
      let stopped = Call.stop s.name s.config.stop_signal s.config.stop_timeout ∷ answered in
      (ground arith, (d.timestamp stopped, ground arith))

module _ (d : Daemon) (name : Text) (hooks : LifecycleHooks) (h h' : History) where
  -- A cycle that completes describes the container as it was inspected, whatever string it was
  -- addressed by, and does these calls to containers and no others, in this order: it stops the
  -- container with its own stop options, renames it, creates the replacement under the inspected
  -- name from the inspected specification and the image reference as it stands there, and starts
  -- the replacement.
  pub recreate_one_completed :
      (c : CycleResult)
      → recreate_one d name hooks h ≡ (ok (completed c), h')
      → (s : ContainerSpec) × (d.inspect h name ≡ ok s)
        × Describes d name hooks h s c
        × IsSwap d name hooks h s c h h'
  recreate_one_completed c e = elim (recreate_one_cases d name hooks h) [
    | inr held ↦ absurd (held.1 c (ap (λ r. r.0) e))
    | inl cleared ↦
        let (describes, (ts, swap)) =
          replace_completed d name hooks h cleared.s cleared.at h' c (sym cleared.goes_on ∙ e) in
        (cleared.s, cleared.inspected, describes, (ts, rw cleared.same at swap))
  ]
