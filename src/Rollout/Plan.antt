-- ===== src/Rollout/Plan.antt =====
-- `RolloutPlan` and `plan`.
use freshdock.Prelude.{
  Bool, true, false, not, ◌&&◌, Option, none, some, List, [], ◌∷◌, ◌++◌, map, Text, ◌==◌, lookup,
  if◌then◌else◌, keep, any, find?,
}
use mathlib.Core.List.{filter_map, flatten}
use freshdock.Image
use freshdock.Image.{ImageRef}
use freshdock.Prelude.Sort.{sort, sort_by}
use freshdock.Compose
use freshdock.Compose.{
  Graph, ProjectMember, ComposeInfo, graph_of, services_awaited_for_completion, restart_dependents,
  elem,
}
use freshdock.Compose.Order.{topological_order, is_nil}
use freshdock.Labels.{Policy, PolicyDefaults, parse_policy, explicitly_opts_out}
use freshdock.Names.{is_archive_name, is_own_container}
use freshdock.Rollout.Decide.{
  TargetKind, SkipReason, Decision, left_out, planned, same_image, restartable, decide,
}

pub record PlannedTarget : Type 0 where
  pub container : Text
  pub service : Text
  pub kind : TargetKind
  pub policy : Policy

pub record SkippedMember : Type 0 where
  pub container : Text
  pub reason : SkipReason

pub record RolloutPlan : Type 0 where
  pub project : Text
  pub targets : List PlannedTarget
  pub skipped : List SkippedMember
  pub restart_candidates : List (Text × List Text)
  pub graph : Graph

-- `entry(k).or_default().push(x)`.
unfoldable pub push {ℓ} : {A : Type ℓ} → Text → A → List (Text × List A) → List (Text × List A)
push k x [] = (k, x ∷ []) ∷ []
push k x ((j, xs) ∷ m) = if j == k then (j, xs ++ x ∷ []) ∷ m else (j, xs) ∷ push k x m

-- The three collections that the loop over the members fills.
pub record Draft : Type 0 where
  pub by_service : List (Text × List PlannedTarget)
  pub skipped : List SkippedMember
  pub restart_candidates : List (Text × List Text)

abbrev pub empty_draft : Draft
empty_draft = record { by_service = []; skipped = []; restart_candidates = [] }

-- What the loop reads: the image that moved, and who waits for completion.
pub record PlanContext : Type 0 where
  pub awaited : List Text
  pub updated_image : ImageRef
  pub updated_image_id : Option Text
  pub tag_image_id : Option Text
  pub defaults : PolicyDefaults
  pub own_id_prefix : Option Text

abbrev pub with_candidate : Bool → Text → Text → Draft → Draft
with_candidate false service name draft = draft
with_candidate true service name draft = record draft {
  restart_candidates = push service name draft.restart_candidates;
}

abbrev pub with_decision : ProjectMember → Text → Decision → Draft → Draft
with_decision member service (left_out reason) draft = record draft {
  skipped = draft.skipped ++ record { container = member.name; reason = reason } ∷ [];
}
with_decision member service (planned kind policy) draft = record draft {
  by_service =
      push service
        (record { container = member.name; service = service; kind = kind; policy = policy })
        draft.by_service;
}

module _ (c : PlanContext) where
  abbrev pub self : ProjectMember → Bool
  self member = is_own_container c.own_id_prefix (some member.id)

  abbrev pub decision : ProjectMember → Text → Decision
  decision member service =
      decide (self member) (explicitly_opts_out member.labels) (elem service c.awaited)
        member.running c.tag_image_id member.image_id (parse_policy member.labels c.defaults)

  abbrev pub visit_member : ProjectMember → Text → Draft → Draft
  visit_member member service draft =
      let draft' =
        with_candidate
          (restartable member.running (self member) (explicitly_opts_out member.labels)
            (parse_policy member.labels c.defaults))
          service member.name draft in
      if not (same_image member c.updated_image c.updated_image_id)
      then draft'
      else with_decision member service (decision member service) draft'

  -- One round of the loop over the members.
  unfoldable pub visit : ProjectMember → Draft → Draft
  visit member draft = elim (Compose.parse member.labels) [
    | none ↦ draft
    | some info ↦ visit_member member info.service draft
  ]

  unfoldable pub visit_all : List ProjectMember → Draft → Draft
  visit_all [] draft = draft
  visit_all (member ∷ members) draft = visit_all members (visit member draft)

-- `by_service.remove(&service)`.
unfoldable pub remove {ℓ} : {A : Type ℓ} → Text → List (Text × A) → List (Text × A)
remove k m = keep (λ e. not (e.0 == k)) m

abbrev pub replicas : Option (List PlannedTarget) → List PlannedTarget
replicas none = []
replicas (some targets) = sort_by (λ (t : PlannedTarget). t.container) targets

-- The targets of the services in their order, each service's once.
unfoldable pub in_order : List Text → List (Text × List PlannedTarget) → List PlannedTarget
in_order [] by_service = []
in_order (service ∷ order) by_service =
    replicas (lookup service by_service) ++ in_order order (remove service by_service)

abbrev finished : Text → Graph → Draft → RolloutPlan
finished project graph draft = record {
  project = project;
  targets = in_order (topological_order (map (λ e. e.0) draft.by_service) graph) draft.by_service;
  skipped = sort_by (λ (s : SkippedMember). s.container) draft.skipped;
  restart_candidates = map (λ e. (e.0, sort e.1)) draft.restart_candidates;
  graph = graph;
}

abbrev pub present : List ProjectMember → List ProjectMember
present members = keep (λ (m : ProjectMember). not (is_archive_name m.name)) members

-- What the loop reads once the member that the update is about is found.
abbrev pub context :
    Graph
    → (tag_image_id : Option Text) → PolicyDefaults
    → (own_id_prefix : Option Text) → (origin : ProjectMember) → PlanContext
context graph tag_image_id defaults own_id_prefix origin = record {
  awaited = services_awaited_for_completion graph;
  updated_image = Image.parse origin.image_ref;
  updated_image_id = origin.image_id;
  tag_image_id = tag_image_id;
  defaults = defaults;
  own_id_prefix = own_id_prefix;
}

unfoldable pub plan :
    (project : Text) (members : List ProjectMember) (trigger : Text) (tag_image_id : Option Text)
    (defaults : PolicyDefaults) (own_id_prefix : Option Text)
    → RolloutPlan
plan project members trigger tag_image_id defaults own_id_prefix =
    let graph = graph_of (present members) in
    elim (find? (λ (m : ProjectMember). m.name == trigger) (present members)) [
      | none ↦ record {
        project = project;
        targets = [];
        skipped = [];
        restart_candidates = [];
        graph = graph;
      }
      | some origin ↦ finished project graph (
          visit_all (context graph tag_image_id defaults own_id_prefix origin) (present members)
            empty_draft)
    ]

unfoldable pub restarts_for : RolloutPlan → List Text → List Text
restarts_for p updated = flatten (
    filter_map (λ service. lookup service p.restart_candidates)
      (restart_dependents p.graph updated))

unfoldable pub all_target_services : RolloutPlan → List Text
all_target_services p = map (λ (t : PlannedTarget). t.service) p.targets

abbrev is_only : Text → List PlannedTarget → Bool
is_only container [] = false
is_only container (only ∷ []) = only.container == container
is_only container (t ∷ u ∷ ts) = false

unfoldable pub adds_nothing_for : RolloutPlan → Text → Bool
adds_nothing_for p container =
    is_nil (restarts_for p (all_target_services p)) && is_only container p.targets

unfoldable pub covers : RolloutPlan → Text → Bool
covers p container = any (λ (t : PlannedTarget). t.container == container) p.targets

abbrev reason_of : Option SkippedMember → Option SkipReason
reason_of none = none
reason_of (some s) = some s.reason

unfoldable pub skip_reason_for : RolloutPlan → Text → Option SkipReason
skip_reason_for p container =
    reason_of (find? (λ (s : SkippedMember). s.container == container) p.skipped)
