-- ===== src/Probe.antt =====
-- src/probe.rs: whether the local digests of an image are behind the registry's.
pub mod Digests
pub mod Outcome
use freshdock.Prelude.{
  ◌≡◌, ◌≢◌, refl, ◌⊎◌, inl, inr, ◌↔◌, Bool, true, false, not, ◌&&◌, Option, none, some, List, [],
  ◌∷◌, Text, ◌==◌, eq_iff, if◌then◌else◌, Bool-cases, arith,
}
use freshdock.Compose.{elem}
use freshdock.Names.{behind_tag}

-- The digests in a list, as `LocalDigests` wraps them.
abbrev pub LocalDigests : Type 0
LocalDigests = List Text

unfoldable pub update_available : LocalDigests → (latest : Text) → Option Bool
update_available [] latest = none
update_available (d ∷ ds) latest = some (not (elem latest (d ∷ ds)))

abbrev is_nonempty : LocalDigests → Bool
is_nonempty [] = false
is_nonempty (d ∷ ds) = true

unfoldable pub update_available_for :
    LocalDigests → (latest : Text) (container_image_id tag_image_id : Option Text) → Option Bool
unfolding update_available
update_available_for digests latest container_image_id tag_image_id =
    if is_nonempty digests && behind_tag container_image_id tag_image_id
    then some true
    else update_available digests latest

unfoldable pub current_for : LocalDigests → (latest : Text) → Option Text
current_for [] latest = none
current_for (d ∷ ds) latest = if elem latest (d ∷ ds) then some latest else some d

behind_iff :
    (container_image_id tag_image_id : Option Text)
    → (behind_tag container_image_id tag_image_id ≡ true)
      ↔ (c : Text) × (t : Text) × (container_image_id ≡ some c) × (tag_image_id ≡ some t) × (c ≢ t)
unfolding behind_tag
behind_iff none t = (λ e. cc, λ (c, t', e, e', x). cc)
behind_iff (some c) none = (λ e. cc, λ (c', t', e, e', x). cc)
behind_iff (some c) (some t) = (
  λ e. (c, t, refl, refl, λ same. let equal = (eq_iff c t).1 same in ground (arith, e, equal)),
  λ (c', t', e, e', differs). elim (Bool-cases (c == t)) [
    | inl same ↦ let is = (eq_iff c t).0 same in absurd (differs cc)
    | inr other ↦ rw other refl
  ],
)

-- An update is available exactly where some local digest is known, and the registry's digest is not
-- among the local ones, or the container and the tag have known images and they differ.
pub update_available_for_iff :
    (digests : LocalDigests) (latest : Text) (container_image_id tag_image_id : Option Text)
    → (update_available_for digests latest container_image_id tag_image_id ≡ some true) ↔ (
        (digests ≢ [])
        × ((elem latest digests ≡ false)
            ⊎ ((c : Text) × (t : Text) × (container_image_id ≡ some c)
                × (tag_image_id ≡ some t)
                × (c ≢ t))))
unfolding update_available_for update_available
update_available_for_iff [] latest c t = (λ e. cc, λ (known, rest). absurd (known refl))
update_available_for_iff (d ∷ ds) latest c t = elim (Bool-cases (behind_tag c t)) [
  | inl behind ↦
      rw (behind, update_available_for)
        (λ e. (λ x. cc, inr ((behind_iff c t).0 behind)), λ rest. refl)
  | inr current ↦
      rw (current, update_available_for)
        (
          λ e. (λ x. cc, inl (ground (arith, e))),
          λ (known, why). elim why [
            | inl out ↦ rw out refl
            | inr stale ↦ let never = (behind_iff c t).1 stale in cc
          ],
        )
]
