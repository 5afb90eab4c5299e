-- ===== src/Recreate/Repair.antt =====
-- The repair of a network dependent: what it is created from.
use freshdock.Prelude.{
  ◌≡◌, ◌≢◌, refl, sym, ◌∙◌, ◌⊎◌, inl, inr, true, false, Option, none, some, Text, ◌==◌, eq_iff, ok,
  Result-cases, Bool-cases, Option-cases,
}
use freshdock.Names.{is_pinned, behind_tag}
use freshdock.Daemon.Types.{ContainerSpec, Fallible}
use freshdock.Daemon.Calls.{History, Daemon}
use freshdock.Recreate.Dependents.{repair_image}

other :
    (id tag_id : Text)
    → (id == tag_id) ≡ false
    → ◌≢◌ {A = Fallible (Option Text)} (ok (some tag_id)) (ok (some id))
other id tag_id differs x = let e : id ≡ tag_id = cc in let same = (eq_iff id tag_id).1 e in cc

-- Which image the repair chose, and why.
abbrev pub Repaired : Daemon → ContainerSpec → History → Type 0
Repaired d s h =
    ((repair_image d s h).0 ≡ s.image_ref)
      × ((s.image_id ≡ none)
          ⊎ (is_pinned s.image_ref ≡ true)
          ⊎ ((id : Text) × (s.image_id ≡ some id)
              × (d.local_image_id h s.image_ref ≡ ok (some id))))
    ⊎ (id : Text) × (s.image_id ≡ some id)
      × (is_pinned s.image_ref ≡ false)
      × ((repair_image d s h).0 ≡ id)
      × (d.local_image_id h s.image_ref ≢ ok (some id))

-- The image that a dependent is created from is one that it runs already: its own reference, where
-- it has no known image id, the reference is pinned, or the daemon says that the reference resolves
-- to that id; and the id only where the reference is not pinned and does not resolve to it.
pub repair_image_cases : (d : Daemon) (s : ContainerSpec) (h : History) → Repaired d s h
unfolding repair_image behind_tag
repair_image_cases d s h = elim (Option-cases s.image_id) [
  | inl unknown ↦ inl (rw unknown refl, inl unknown)
  | inr (id, known) ↦ elim (Bool-cases (is_pinned s.image_ref)) [
    | inl pinned ↦ inl (rw (known, pinned) refl, inr (inl pinned))
    | inr tagged ↦ elim (Result-cases (d.local_image_id h s.image_ref)) [
      | inr (e, failed) ↦
          inr (id, known, tagged, rw (known, tagged, failed) refl, rw failed (λ x. cc))
      | inl (none, gone) ↦ inr (id, known, tagged, rw (known, tagged, gone) refl, rw gone (λ x. cc))
      | inl (some tag_id, found) ↦ elim (Bool-cases (id == tag_id)) [
        | inl same ↦ inl (
          rw (known, tagged, found, same) refl,
          inr (inr (id, known, rw (← (eq_iff id tag_id).0 same) at found)),
        )
        | inr differs ↦ inr (
          id,
          known,
          tagged,
          rw (known, tagged, found, differs) refl,
          λ x. other id tag_id differs (sym found ∙ x),
        )
      ]
    ]
  ]
]
