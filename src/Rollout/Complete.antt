-- ===== src/Rollout/Complete.antt =====
-- No member that earns a target is left out of a plan.
use freshdock.Prelude.{
  ◌≡◌, sym, ◌∙◌, inl, inr, ◌↔◌, Bool, true, false, Option, List, [], ◌∷◌, map, Text, ◌==◌, eq_iff,
  All, Any, Bool-cases, Option-cases, lookup, subst,
}
use freshdock.Rollout.Holds.{
  Has, Has-append_left, Has-append_right, Has-sort_by, Holds, Holds-push_new, Holds-push_old,
  Holds-remove, Holds-elem,
}
use freshdock.Compose
use freshdock.Compose.{ComposeInfo, ProjectMember, Graph, elem, graph_of}
use freshdock.Compose.Order.{topological_order}
use freshdock.Compose.Order.Complete.{topological_order-elem}
use freshdock.Labels.{PolicyDefaults}
use freshdock.Rollout.Decide.{Decision, left_out, planned, same_image}
use freshdock.Rollout.Chosen.{decide-planned_iff}
use freshdock.Rollout.Plan.{
  PlannedTarget, Draft, empty_draft, PlanContext, decision, with_candidate, with_decision, visit,
  visit_all, remove, replicas, in_order, present, context, plan,
}
use freshdock.Rollout.Sound.{Earns, Any-present, IsEarned, plan-IsEarned}

module _ (t : PlannedTarget) where
  Has-in_order :
      (k : Text) (order : List Text) (m : List (Text × List PlannedTarget))
      → elem k order ≡ true
      → Holds t k m
      → Has t (in_order order m)
  unfolding in_order
  Has-in_order k [] m e h = cc
  Has-in_order k (s ∷ order) m e (xs, found, h) = elim (Bool-cases (s == k)) [
    | inl here ↦
        Has-append_left t (replicas (lookup s m)) (in_order order (remove s m)) (
          rw ((eq_iff s k).0 here, found) (Has-sort_by t (λ (u : PlannedTarget). u.container) xs h))
    | inr later ↦ Has-append_right t (replicas (lookup s m)) (in_order order (remove s m)) (
        Has-in_order k order (remove s m) (rw later at e)
          (Holds-remove t k s m later (xs, found, h)))
  ]

  module _ (c : PlanContext) where
    candidate-Holds :
        (k : Text) (b : Bool) (service name : Text) (draft : Draft)
        → Holds t k draft.by_service
        → Holds t k (with_candidate b service name draft).by_service
    candidate-Holds k true service name draft h = h
    candidate-Holds k false service name draft h = h

    decision-Holds :
        (k : Text) (m : ProjectMember) (service : Text) (d : Decision) (draft : Draft)
        → Holds t k draft.by_service
        → Holds t k (with_decision m service d draft).by_service
    decision-Holds k m service (left_out reason) draft h = h
    decision-Holds k m service (planned kind policy) draft h =
        Holds-push_old t k service _ draft.by_service h

    visit_old :
        (k : Text) (m : ProjectMember) (draft : Draft)
        → Holds t k draft.by_service
        → Holds t k (visit c m draft).by_service
    unfolding visit
    visit_old k m draft h = elim (Option-cases (Compose.parse m.labels)) [
      | inl none_found ↦ rw (none_found, visit) h
      | inr (info, parsed) ↦
          let kept = candidate-Holds k _ info.service m.name draft h in
          elim (Bool-cases (same_image m c.updated_image c.updated_image_id)) [
            | inl same ↦ rw (parsed, same, visit) (decision-Holds k m info.service _ _ kept)
            | inr other ↦ rw (parsed, other, visit) kept
          ]
    ]

    -- The round of the member that earns the target.
    visit_new :
        (m : ProjectMember) (draft : Draft)
        → Earns c t m
        → Holds t t.service (visit c m draft).by_service
    unfolding visit
    visit_new m draft (info, parsed, named, of, same, others, stays, reads, acts, due) =
        let made : decision c m info.service ≡ planned t.kind t.policy =
          (decide-planned_iff _ _ _ _ _ _ _ t.kind t.policy).1 (others, stays, reads, acts, due) in
        let u : PlannedTarget = record {
          container = m.name;
          service = info.service;
          kind = t.kind;
          policy = t.policy;
        } in
        let is : u ≡ t = λ i. record {
          container = sym named i;
          service = sym of i;
          kind = t.kind;
          policy = t.policy;
        } in
        subst (λ v. Holds v v.service (visit c m draft).by_service) is
          (rw (parsed, same, made, visit) (Holds-push_new u info.service _))

    visit_all_old :
        (k : Text) (ms : List ProjectMember) (draft : Draft)
        → Holds t k draft.by_service
        → Holds t k (visit_all c ms draft).by_service
    unfolding visit_all
    visit_all_old k [] draft h = h
    visit_all_old k (m ∷ ms) draft h = visit_all_old k ms (visit c m draft) (visit_old k m draft h)

    visit_all_new :
        (ms : List ProjectMember) (draft : Draft)
        → Any (Earns c t) ms
        → Holds t t.service (visit_all c ms draft).by_service
    unfolding visit_all
    visit_all_new [] draft h = absurd h
    visit_all_new (m ∷ ms) draft (inl e) =
        visit_all_old t.service ms (visit c m draft) (visit_new m draft e)
    visit_all_new (m ∷ ms) draft (inr h) = visit_all_new ms (visit c m draft) h

Has-All :
    (P : PlannedTarget → Type 0) (t : PlannedTarget) (ts : List PlannedTarget)
    → All P ts
    → Has t ts
    → P t
Has-All P t [] a h = absurd h
Has-All P t (u ∷ ts) (p, a) (inl e) = subst P e p
Has-All P t (u ∷ ts) (p, a) (inr h) = Has-All P t ts a h

-- A plan has exactly the targets that the project's members earn: a target is in the plan if and
-- only if the container that the update is about is a member, and some member that is no archive
-- has the target's name and service, runs the image of that container, is not freshdock itself,
-- does not opt out, has readable labels that state the target's policy with a mode other than
-- `watch`, and is due.
pub plan-IsEarned_iff :
    (project : Text) (members : List ProjectMember) (trigger : Text) (tag_image_id : Option Text)
    (defaults : PolicyDefaults) (own_id_prefix : Option Text) (t : PlannedTarget)
    → Has t (plan project members trigger tag_image_id defaults own_id_prefix).targets
      ↔ IsEarned members trigger tag_image_id defaults own_id_prefix t
unfolding plan
plan-IsEarned_iff project members trigger tag_image_id defaults own_id_prefix t = (
  Has-All _ t _ (plan-IsEarned project members trigger tag_image_id defaults own_id_prefix),
  λ (origin, found, earned).
      let graph = graph_of (present members) in
      let c = context graph tag_image_id defaults own_id_prefix origin in
      let drawn = visit_all c (present members) empty_draft in
      let held =
        visit_all_new t c (present members) empty_draft
          ((Any-present (Earns c t) members).1 earned) in
      rw (found, plan)
        (Has-in_order t t.service (topological_order (map (λ e. e.0) drawn.by_service) graph) _
          (topological_order-elem t.service _ graph ∙ Holds-elem t t.service _ held) held),
)
