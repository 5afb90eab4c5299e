-- ===== src/Tests/Schedules.antt =====
-- A fleet of one watched container, a wall clock that stands still, and the scheduler on them.
use freshdock.Prelude.{
  ℕ, ◌+◌, ◌-◌, ◌*◌, ◌%◌, ◌^◌, ◌≤◌, ◌≡◌, ◌≢◌, refl, sym, subst, ◌⊎◌, Bool, true, false, Option, none,
  some, List, [], ◌∷◌, map, length, Text, codes, pos, negsuc, ok, lookup, leb, if◌then◌else◌, All,
  arith,
}
use freshdock.Labels.{Policy, parse_policy}
use freshdock.Labels.Values.{live, watch}
use freshdock.Labels.Hooks.{no_hooks}
use freshdock.Image
use freshdock.Config.{default_settings, policy_defaults}
use freshdock.Daemon.Types.{health_healthy, ContainerSummary}
use freshdock.Daemon.Calls.{Call, Daemon}
use freshdock.Daemon.Laws.{swaps_of}
use freshdock.Rollout.Report.{RolloutReport, one_shot_completed, updated, restarted, step_failed}
use freshdock.Probe.Outcome.{ProbeTarget}
use freshdock.Scheduler.{SchedulerConfig, LocalTime, ContainerState}
use freshdock.Scheduler.Process.{process_container}
use freshdock.Scheduler.Tick.{labels_of}
use freshdock.Scheduler.Run.{ticked, changed, empty_book, run_with}
use freshdock.Scheduler.Calm.{IsToApply, process_container-IsToApply}
use freshdock.Scheduler.Fleet.{IsPassive, IsPassiveFleet, run_with-IsCalm}
use freshdock.Scheduler.Later.{Orderly}
use freshdock.Scheduler.Announce.{AnnouncesOnce, process_container-AnnouncesOnce}
use freshdock.Tests.Samples.{daemon, config}
use freshdock.Tests.Crons.{seconds}

abbrev clock : LocalTime ℕ
clock = record {
  calendar = seconds;
  now_provider = λ h. 86463;
  is_at_or_after = λ t u. leb u t;
  signed_duration_since =
      λ t u. if leb u t then pos ((t - u) * 10 ^ 9) else negsuc ((u - t) * 10 ^ 9 - 1);
  timestamp = λ t. pos t;
}

orderly : Orderly clock
unfolding freshdock.Cron.floor_to_minute
orderly = record {
  next_minute = λ t whole e. let is : t - t % 60 ≡ whole = cc in ground arith;
  later_minute = λ t u e. ground arith;
  same_instant = λ t. ground arith;
}

abbrev watched : ContainerSummary
watched = record {
  id = some (codes "c1");
  names = some (codes "/web" ∷ []);
  image = some (codes "redis:7");
  image_id = some (codes "sha256:1");
  labels =
      some
        ((codes "freshdock.enable", codes "true") ∷ (codes "freshdock.mode", codes "watch") ∷ []);
}

abbrev host : Daemon
host = record (daemon (λ h. ok health_healthy)) {
  list_running = λ h. ok (watched ∷ []);
  inspect_image = λ h image.
      ok (record { id = some (codes "sha256:1"); repo_digests = codes "redis@sha256:a" ∷ [] });
}

abbrev scheduler : SchedulerConfig
scheduler = record { poll_interval = 60; tick = 30; health = config; own_id_prefix = none }

abbrev policy_in : freshdock.Labels.Values.Mode → Policy
policy_in mode = record {
  enabled = true;
  mode = mode;
  notify = true;
  schedule = none;
  cleanup = false;
  hooks = no_hooks;
  auto_enabled = false;
}

abbrev target : ProbeTarget
target = record { image = codes "redis:7"; image_id = some (codes "sha256:1") }

process_container-IsToApply_example :
    (swaps_of
        (process_container host 9 scheduler
          (pos 7)
          (codes "web")
          (policy_in live)
          []
          target
          none
          none
          default_settings
          []).1
      ≡ swaps_of [])
    ⊎ IsToApply host 9 scheduler
        (pos 7)
        (codes "web")
        (policy_in live)
        []
        target
        none
        none
        default_settings
        []
process_container-IsToApply_example =
    process_container-IsToApply host 9 scheduler (pos 7) (codes "web") (policy_in live) [] target
      none none default_settings []

process_container-AnnouncesOnce_example :
    AnnouncesOnce
      (codes "web")
      target.image
      (policy_in watch)
      none
      (λ latest.
        host.fetch_digest (Call.inspect_image target.image ∷ []) (Image.parse target.image)
        ≡ ok latest)
      []
      (process_container host 9 scheduler
        (pos 7)
        (codes "web")
        (policy_in watch)
        []
        target
        none
        none
        default_settings
        [])
process_container-AnnouncesOnce_example =
    process_container-AnnouncesOnce host 9 scheduler (pos 7) (codes "web") (policy_in watch) []
      target none none default_settings [] refl

watched_policy :
    parse_policy (labels_of watched) (policy_defaults default_settings)
    ≡ ok (record (policy_in watch) { notify = false })
unfolding parse_policy lookup freshdock.Prelude.◌==◌ codes freshdock.Labels.Values.parse_bool
    freshdock.Labels.enabled_policy freshdock.Labels.Values.parse_mode
    freshdock.Labels.Hooks.parse_hooks
watched_policy = refl

passive : IsPassive default_settings watched
passive policy e enabled active =
    let run = watched_policy in
    let same : policy ≡ record (policy_in watch) { notify = false } = cc in rw (same) at active

passive_fleet : IsPassiveFleet clock host 9 scheduler default_settings
passive_fleet h cs e =
    let same : watched ∷ [] ≡ cs = cc in subst (All (IsPassive default_settings)) same (passive, tt)

run_with-IsCalm_example :
    swaps_of
      (run_with clock host 9 scheduler default_settings
        (ticked ∷ changed true ∷ ticked ∷ [])
        empty_book
        []).1
    ≡ swaps_of []
run_with-IsCalm_example =
    run_with-IsCalm clock host 9 scheduler default_settings (ticked ∷ changed true ∷ ticked ∷ [])
      empty_book passive_fleet []

abbrev known : List (Text × Text)
known = (codes "web", codes "sha256:0") ∷ (codes "db", codes "sha256:5") ∷ []

abbrev state : ContainerState ℕ
state = record {
  last_checked = some 86400;
  next_fire = none;
  cron = none;
  last_notified_digest = none;
  unknown_digest_warned = false;
}

abbrev report : RolloutReport
report = record {
  project = codes "shop";
  steps =
      one_shot_completed (codes "migrate")
      ∷ updated (codes "web") (codes "n") true
      ∷ restarted (codes "proxy")
      ∷ [];
  aborted = some (step_failed (codes "worker") (codes "gone"));
  not_completed = codes "worker" ∷ codes "cron" ∷ [];
  skipped = [];
}
