-- ===== src/Tests/Plans.antt =====
-- The plan of a project of two services on one image.
use freshdock.Prelude.{
  ◌≡◌, ◌↔◌, refl, true, false, Option, none, some, List, [], ◌∷◌, Text, codes, pos,
}
use freshdock.Compose.{Labels, ProjectMember, label_project, label_service, label_depends_on}
use freshdock.Labels.{Policy, PolicyDefaults, enable_key, mode_key}
use freshdock.Labels.Values.{live}
use freshdock.Labels.Hooks.{no_hooks}
use freshdock.Rollout.Decide.{TargetKind, service}
use freshdock.Rollout.Plan.{PlannedTarget, RolloutPlan, plan}
use freshdock.Rollout.Sound.{IsEarned}
use freshdock.Rollout.Holds.{Has}
use freshdock.Rollout.Complete.{plan-IsEarned_iff}

abbrev member : (name depends_on : Text) → ProjectMember
member name depends_on = record {
  name = name;
  id = codes "0123456789ab";
  image_ref = codes "app:1";
  image_id = none;
  labels =
      (label_project, codes "shop")
      ∷ (label_service, name)
      ∷ (label_depends_on, depends_on)
      ∷ (enable_key, codes "true")
      ∷ (mode_key, codes "live")
      ∷ [];
  running = true;
}

-- `api` waits for `web`, and the last one is an archive.
abbrev members : List ProjectMember
members =
    member (codes "api") (codes "web:service_started:false")
    ∷ member (codes "web") []
    ∷ member (codes "web-old-7") []
    ∷ []

abbrev defaults : PolicyDefaults
defaults = record { mode = none; cleanup = false; watch_all = false }

abbrev target : Text → PlannedTarget
target name = record {
  container = name;
  service = name;
  kind = service;
  policy = record {
    enabled = true;
    mode = live;
    notify = false;
    schedule = none;
    cleanup = false;
    hooks = no_hooks;
    auto_enabled = false;
  };
}

planned :
    (plan (codes "shop") members (codes "api") none defaults none).targets
    ≡ target (codes "web") ∷ target (codes "api") ∷ []
unfolding plan codes freshdock.Names.is_archive_name freshdock.Prelude.◌==◌
    freshdock.Rollout.Plan.in_order freshdock.Compose.Order.topological_order
    freshdock.Rollout.Plan.visit_all freshdock.Rollout.Plan.visit freshdock.Compose.parse
    freshdock.Rollout.Decide.same_image freshdock.Image.parse freshdock.Rollout.Decide.decide
    freshdock.Names.is_own_container freshdock.Labels.explicitly_opts_out
    freshdock.Labels.parse_policy freshdock.Labels.Values.parse_bool freshdock.Labels.enabled_policy
    freshdock.Labels.Values.parse_mode freshdock.Labels.Hooks.parse_hooks
    freshdock.Compose.Order.drain freshdock.Compose.Order.pending_from
    freshdock.Compose.Order.ready_of freshdock.Compose.Order.without freshdock.Compose.collect
    freshdock.Compose.dedup freshdock.Compose.graph_of freshdock.Compose.insert
    freshdock.Compose.parse_condition freshdock.Compose.parse_depends_on
    freshdock.Compose.services_awaited_for_completion freshdock.Prelude.lookup
    freshdock.Rollout.Decide.decide_policy freshdock.Rollout.Decide.on_current
    freshdock.Rollout.Plan.push freshdock.Rollout.Plan.remove mathlib.Core.List.filter_map
    mathlib.Core.List.flat_map freshdock.Prelude.Sort.sort_by freshdock.Names.is_pinned
    freshdock.Prelude.Sort.sort freshdock.Prelude.Chars.trim
    freshdock.Prelude.Chars.to_ascii_lowercase
planned = refl

plan-IsEarned_iff_example :
    Has
      (target (codes "web"))
      (plan (codes "shop") members (codes "api") none defaults none).targets
    ↔ IsEarned members (codes "api") none defaults none (target (codes "web"))
plan-IsEarned_iff_example =
    plan-IsEarned_iff (codes "shop") members (codes "api") none defaults none (target (codes "web"))
