-- ===== src/Rollout/Sound.antt =====
-- What the targets of a plan have behind them.
use freshdock.Prelude.{
  ◌≡◌, ◌≢◌, refl, ◌↔◌, inl, inr, Bool, true, false, Option, some, List, [], ◌∷◌, Text, ◌==◌, All,
  Any, Bool-cases, Option-cases, find?, ok,
}
use freshdock.Rollout.Values.{Values, Values-push, All-in_order}
use freshdock.Compose
use freshdock.Compose.{ComposeInfo, ProjectMember, elem, graph_of}
use freshdock.Labels.{PolicyDefaults, parse_policy, explicitly_opts_out}
use freshdock.Labels.Values.{watch}
use freshdock.Names.{is_archive_name}
use freshdock.Rollout.Decide.{Decision, left_out, planned, same_image}
use freshdock.Rollout.Chosen.{IsDue, decide-planned_iff}
use freshdock.Rollout.Plan.{
  PlannedTarget, Draft, empty_draft, PlanContext, self, decision, with_candidate, with_decision,
  visit, visit_all, present, context, plan,
}

module _ (c : PlanContext) where
  -- What a member has to be for a target of its own. The member runs the image that moved, is not
  -- freshdock itself, does not opt out, and is due under the policy that its labels state.
  abbrev pub Earns : PlannedTarget → ProjectMember → Type 0
  Earns t m =
      (info : ComposeInfo) × (Compose.parse m.labels ≡ some info)
      × (t.container ≡ m.name)
      × (t.service ≡ info.service)
      × (same_image m c.updated_image c.updated_image_id ≡ true)
      × (self c m ≡ false)
      × (explicitly_opts_out m.labels ≡ false)
      × (parse_policy m.labels c.defaults ≡ ok t.policy)
      × (t.policy.mode ≢ watch)
      × IsDue (elem info.service c.awaited) m.running c.tag_image_id m.image_id t.kind t.policy

  module _ (P : PlannedTarget → Type 0) where
    by_service_kept :
        (b : Bool) (service name : Text) (draft : Draft)
        → Values P draft.by_service
        → Values P (with_candidate b service name draft).by_service
    by_service_kept true service name draft a = a
    by_service_kept false service name draft a = a

    with_decision-Values :
        (m : ProjectMember) (info : ComposeInfo) (d : Decision) (draft : Draft)
        → Compose.parse m.labels ≡ some info
        → same_image m c.updated_image c.updated_image_id ≡ true
        → decision c m info.service ≡ d
        → ((t : PlannedTarget) → Earns t m → P t)
        → Values P draft.by_service
        → Values P (with_decision m info.service d draft).by_service
    with_decision-Values m info (left_out reason) draft parsed same e earn a = a
    with_decision-Values m info (planned kind policy) draft parsed same e earn a =
        let (others, stays, reads, acts, due) =
          (decide-planned_iff _ _ _ _ _ _ _ kind policy).0 e in
        Values-push P info.service _ draft.by_service
          (earn _ (info, parsed, refl, refl, same, others, stays, reads, acts, due)) a

    visit-Values :
        (m : ProjectMember) (draft : Draft)
        → ((t : PlannedTarget) → Earns t m → P t)
        → Values P draft.by_service
        → Values P (visit c m draft).by_service
    unfolding visit
    visit-Values m draft earn a = elim (Option-cases (Compose.parse m.labels)) [
      | inl none_found ↦ rw (none_found, visit) a
      | inr (info, parsed) ↦
          let kept = by_service_kept _ info.service m.name draft a in
          elim (Bool-cases (same_image m c.updated_image c.updated_image_id)) [
            | inl same ↦
                rw (parsed, same, visit)
                  (with_decision-Values m info _ _ parsed same refl earn kept)
            | inr other ↦ rw (parsed, other, visit) kept
          ]
    ]

    visit_all-Values :
        (ms : List ProjectMember) (draft : Draft)
        → ((t : PlannedTarget) → Any (Earns t) ms → P t)
        → Values P draft.by_service
        → Values P (visit_all c ms draft).by_service
    unfolding visit_all
    visit_all-Values [] draft earn a = a
    visit_all-Values (m ∷ ms) draft earn a =
        visit_all-Values ms (visit c m draft) (λ t e. earn t (inr e))
          (visit-Values m draft (λ t e. earn t (inl e)) a)

differ : true ≢ false
differ e = cc

-- The members that are no archives.
pub Any-present :
    (P : ProjectMember → Type 0) (ms : List ProjectMember)
    → Any P (present ms) ↔ Any (λ (m : ProjectMember). (is_archive_name m.name ≡ false) × P m) ms
Any-present P [] = (λ h. h, λ h. h)
Any-present P (m ∷ ms) = elim (Bool-cases (is_archive_name m.name)) [
  | inl archive ↦ rw archive (
    λ h. inr ((Any-present P ms).0 h),
    λ h. elim h [
      | inl (differs, p) ↦ absurd (differ differs)
      | inr rest ↦ (Any-present P ms).1 rest
    ],
  )
  | inr kept ↦ rw kept (
    λ h. elim h [ inl p ↦ inl (refl, p) | inr rest ↦ inr ((Any-present P ms).0 rest) ],
    λ h. elim h [ inl (kept', p) ↦ inl p | inr rest ↦ inr ((Any-present P ms).1 rest) ],
  )
]

-- A target of a plan: the container that the update is about is a member, and some member that is no
-- archive earns the target.
abbrev pub IsEarned :
    (members : List ProjectMember) (trigger : Text) (tag_image_id : Option Text)
    (defaults : PolicyDefaults) (own_id_prefix : Option Text)
    → PlannedTarget
    → Type 0
IsEarned members trigger tag_image_id defaults own_id_prefix t =
    (origin : ProjectMember) × (find? (λ (m : ProjectMember). m.name == trigger) (present members)
      ≡ some origin)
    × Any
        (λ (m : ProjectMember).
          (is_archive_name m.name ≡ false)
          × Earns (context (graph_of (present members)) tag_image_id defaults own_id_prefix origin)
              t m)
        members

-- Every target of a plan is earned by a member of the project that is no archive: the target has
-- that member's name, service and policy, and the member runs the image of the container that the
-- update is about, is not freshdock itself, does not opt out, and is due.
pub plan-IsEarned :
    (project : Text) (members : List ProjectMember) (trigger : Text) (tag_image_id : Option Text)
    (defaults : PolicyDefaults) (own_id_prefix : Option Text)
    → All
        (IsEarned members trigger tag_image_id defaults own_id_prefix)
        (plan project members trigger tag_image_id defaults own_id_prefix).targets
unfolding plan
plan-IsEarned project members trigger tag_image_id defaults own_id_prefix =
    elim (Option-cases (find? (λ (m : ProjectMember). m.name == trigger) (present members))) [
      | inl missing ↦ rw (missing, plan) tt
      | inr (origin, found) ↦
          let P = IsEarned members trigger tag_image_id defaults own_id_prefix in
          let c = context (graph_of (present members)) tag_image_id defaults own_id_prefix origin in
          rw (found, plan)
            (All-in_order P _ _ (
              visit_all-Values c P (present members) empty_draft
                (λ t e. (origin, found, (Any-present (Earns c t) members).0 e)) tt))
    ]
