-- ===== src/Tests/Samples.antt =====
-- A small daemon: every call succeeds, the probe answers as it is told, and time passes in sleeps
-- alone.
use freshdock.Prelude.{true, false, ℕ, ◌+◌, pos, none, some, [], ◌∷◌, Text, codes, ok, arith}
use freshdock.Daemon.Types.{ContainerSpec, ContainerRuntimeState, completed, Fallible}
use freshdock.Daemon.Calls.{Call, History, Daemon}
use freshdock.Daemon.Laws.{Ticking}
use freshdock.Health.{HealthConfig}
use freshdock.Recreate.Hooks.{Cleanup}

abbrev pub lasts : Call → ℕ
lasts (Call.sleep time) = time
lasts _ = 0

-- The sum of the sleeps.
abbrev pub elapsed : History → ℕ
elapsed [] = 0
elapsed (c ∷ h) = elapsed h + lasts c

-- A container that runs `redis:7`, on the network of `vpn`.
abbrev pub spec_of : Text → ContainerSpec
spec_of name = record {
  name = name;
  image_ref = codes "redis:7";
  image_id = some (codes "sha256:1");
  config = record {
    hostname = none;
    domainname = none;
    exposed_ports = none;
    stop_signal = some (codes "SIGINT");
    stop_timeout = some (pos 30);
    labels = none;
    other = [];
  };
  host_config = some (record { network_mode = some (codes "container:vpn"); other = [] });
  network_endpoints = none;
}

abbrev pub daemon : (History → Fallible ContainerRuntimeState) → Daemon
daemon probe = record {
  inspect = λ h name. ok (spec_of name);
  preflight_recreate = λ h s. ok tt;
  pull = λ h image. ok tt;
  stop = λ h name signal timeout. ok tt;
  rename = λ h name ts. ok (codes "old");
  create_from_spec = λ h name s image. ok (codes "new");
  start = λ h name. ok tt;
  remove = λ h name force. ok tt;
  rename_to = λ h from to. ok tt;
  remove_image = λ h id force. ok tt;
  prune_dangling_images = λ h. ok tt;
  exec_hook = λ h name command timeout. ok (completed (pos 1));
  list_network_dependents = λ h name. ok (codes "app" ∷ []);
  list_project = λ h project. ok [];
  local_image_id = λ h reference. ok (some (codes "sha256:2"));
  probe_state = λ h name. probe h;
  list_running = λ h. ok [];
  inspect_image = λ h image. ok (record { id = some (codes "sha256:2"); repo_digests = [] });
  container_image = λ h id. ok (record { reference = codes "redis:7"; image_id = none });
  fetch_digest = λ h image. ok (codes "sha256:b");
  is_shutdown = λ h. false;
  now = elapsed;
  timestamp = λ h. pos 7;
  describe = λ e. codes "failed";
}

-- It ticks.
pub clock : (probe : History → Fallible ContainerRuntimeState) → Ticking (daemon probe)
clock probe = record { monotone = λ c h. omega arith; sleeps = λ time h. omega arith }

-- A gate that polls every 5 units, for 20 units, or 10 without a healthcheck.
abbrev pub config : HealthConfig
config = record { health_timeout = 20; grace_period = 10; poll_interval = 5 }

abbrev pub cleanup : Cleanup
cleanup = record { remove_replaced = true; prune_dangling = true }
