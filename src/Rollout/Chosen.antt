-- ===== src/Rollout/Chosen.antt =====
-- Which members of a project are updated.
use freshdock.Prelude.{
  ◌≡◌, ◌≢◌, refl, ap, ◌⊎◌, Bool-cases, inl, inr, ◌↔◌, Bool, true, false, Option, none, some, Text,
  ◌==◌, eq_iff, Result, ok, err, arith,
}
use freshdock.Labels.Values.{watch, off, LabelError}
use freshdock.Labels.{Policy}
use freshdock.Rollout.Decide.{
  TargetKind, one_shot, service, planned, decide_policy, decide, on_current,
}

-- A one-shot that something waits for has to be stopped. Any other service has to run, to be opted
-- in, and not to run the image of the tag already.
abbrev pub IsDue :
    (awaited running : Bool) (tag_image_id image_id : Option Text) → TargetKind → Policy → Type 0
IsDue awaited running tag_image_id image_id one_shot policy = (awaited ≡ true) × (running ≡ false)
IsDue awaited running tag_image_id image_id service policy =
    (awaited ≡ false)
    × (running ≡ true)
    × (policy.enabled ≡ true)
    × (policy.mode ≢ off)
    × ((tag_image_id ≡ none) ⊎ (image_id ≢ tag_image_id))

on_current-false :
    (tag_image_id image_id : Option Text)
    → on_current tag_image_id image_id ≡ false
    → (tag_image_id ≡ none) ⊎ (image_id ≢ tag_image_id)
unfolding on_current
on_current-false none image_id e = inl refl
on_current-false (some current) none e = inr (λ x. cc)
on_current-false (some current) (some id) e =
    inr (λ x. let same : id ≡ current = cc in let b = (eq_iff id current).1 same in cc)

false-on_current :
    (tag_image_id image_id : Option Text)
    → (tag_image_id ≡ none) ⊎ (image_id ≢ tag_image_id)
    → on_current tag_image_id image_id ≡ false
unfolding on_current
false-on_current none image_id e = refl
false-on_current (some current) none e = refl
false-on_current (some current) (some id) (inl x) = cc
false-on_current (some current) (some id) (inr differs) = elim (Bool-cases (id == current)) [
  | inl same ↦ absurd (differs (ap some ((eq_iff id current).0 same)))
  | inr other ↦ other
]

module _ (awaited running : Bool) (tag_image_id image_id : Option Text) (policy : Policy) where
  decide_policy_sound :
      (kind : TargetKind) (policy' : Policy)
      → decide_policy awaited running tag_image_id image_id policy ≡ planned kind policy'
      → (policy ≡ policy')
        × (policy.mode ≢ watch)
        × IsDue awaited running tag_image_id image_id kind policy
  unfolding decide_policy
  decide_policy_sound one_shot policy' e = ground arith
  decide_policy_sound service policy' e = ground (arith, on_current-false tag_image_id image_id)

  decide_policy_complete :
      (kind : TargetKind)
      → policy.mode ≢ watch
      → IsDue awaited running tag_image_id image_id kind policy
      → decide_policy awaited running tag_image_id image_id policy ≡ planned kind policy
  unfolding decide_policy
  decide_policy_complete one_shot w due = ground arith
  decide_policy_complete service w due = ground (arith, false-on_current tag_image_id image_id)

-- A member on the image that moved is planned exactly when it is not freshdock itself, does not
-- opt out explicitly, has readable labels whose mode is not `watch`, and is due: as a one-shot, if
-- the project waits for its completion and it is not running; as a service, if the project does
-- not, it runs, its policy enables it with a mode other than `off`, and it does not run the image
-- that the tag resolves to already.
pub decide-planned_iff :
    (is_self opts_out awaited running : Bool) (tag_image_id image_id : Option Text)
    (parsed : Result Policy LabelError) (kind : TargetKind) (policy : Policy)
    → (decide is_self opts_out awaited running tag_image_id image_id parsed ≡ planned kind policy)
      ↔ ((is_self ≡ false)
          × (opts_out ≡ false)
          × (parsed ≡ ok policy)
          × (policy.mode ≢ watch)
          × IsDue awaited running tag_image_id image_id kind policy)
unfolding decide
decide-planned_iff is_self opts_out awaited running tag_image_id image_id parsed kind policy =
    (sound is_self opts_out parsed, complete)
  where
    sound :
        (is_self opts_out : Bool) (parsed : Result Policy LabelError)
        → decide is_self opts_out awaited running tag_image_id image_id parsed ≡ planned kind policy
        → (is_self ≡ false)
          × (opts_out ≡ false)
          × (parsed ≡ ok policy)
          × (policy.mode ≢ watch)
          × IsDue awaited running tag_image_id image_id kind policy
    sound true opts_out parsed e = cc
    sound false true parsed e = cc
    sound false false (err x) e = cc
    sound false false (ok p) e =
        let (same, w, due) =
          decide_policy_sound awaited running tag_image_id image_id p kind policy e in
        (refl, refl, ap ok same, rw same at w, rw same at due)

    complete :
        (is_self ≡ false)
          × (opts_out ≡ false)
          × (parsed ≡ ok policy)
          × (policy.mode ≢ watch)
          × IsDue awaited running tag_image_id image_id kind policy
        → decide is_self opts_out awaited running tag_image_id image_id parsed ≡ planned kind policy
    complete (a, b, c, w, due) =
        rw (a, b, c, decide)
          (decide_policy_complete awaited running tag_image_id image_id policy kind w due)
