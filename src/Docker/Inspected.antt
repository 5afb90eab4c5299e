-- ===== src/Docker/Inspected.antt =====
-- What is read of an inspect: `classify_runtime_state` of src/docker/mod.rs, and
-- `ContainerSpec::from_inspect` and `split_labels` of src/docker/spec.rs.
use freshdock.Prelude.{
  ℤ, pos, Bool, true, false, ◌&&◌, ◌||◌, Option, none, some, List, [], ◌∷◌, Text, codes, Result, ok,
  err, eqb, leb, if◌then◌else◌,
}
use freshdock.Prelude.Results.{◌>>=◌}
use freshdock.Prelude.Chars.{len}
use freshdock.Prelude.Split.{starts_with}
use freshdock.Compose.{Labels}
use freshdock.Docker.{trim_start_matches}
use freshdock.Daemon.Types.{ContainerConfig, HostConfig, ContainerSpec, ContainerRuntimeState}

pub data Status : Type 0 where
  running other : Status

pub data HealthStatus : Type 0 where
  empty none_declared starting healthy unhealthy : HealthStatus

pub record ContainerState : Type 0 where
  pub status : Option Status
  pub running : Option Bool
  pub exit_code : Option ℤ
  pub health : Option HealthStatus

abbrev is_running : Option Status → Bool
is_running (some Status.running) = true
is_running _ = false

abbrev is_true : Option Bool → Bool
is_true none = false
is_true (some b) = b

abbrev code_or_zero : Option ℤ → ℤ
code_or_zero none = pos 0
code_or_zero (some code) = code

abbrev of_health : Option HealthStatus → ContainerRuntimeState
of_health (some healthy) = ContainerRuntimeState.health_healthy
of_health (some unhealthy) = ContainerRuntimeState.health_unhealthy
of_health (some starting) = ContainerRuntimeState.health_starting
of_health _ = ContainerRuntimeState.running_no_healthcheck

unfoldable pub classify_runtime_state : Option ContainerState → ContainerRuntimeState
classify_runtime_state none = ContainerRuntimeState.exited (pos 0)
classify_runtime_state (some state) =
    if is_running state.status || is_true state.running
    then of_health state.health
    else ContainerRuntimeState.exited (code_or_zero state.exit_code)

-- The client library's inspect response, as far as it is read. `image` is the reference of the
-- configuration.
pub record InspectResponse : Type 0 where
  pub id : Option Text
  pub name : Option Text
  pub config : Option (ContainerConfig × Option Text)
  pub image : Option Text
  pub host_config : Option HostConfig
  pub networks : Option (List (Text × Text))

abbrev require : {A : Type 0} → (field : Text) → Option A → Result A Text
require field none = err field
require field (some a) = ok a

-- The first twelve characters of the id, as the daemon names a container by itself.
unfoldable pub is_daemon_assigned_hostname : (container_id hostname : Text) → Bool
unfolding len starts_with
is_daemon_assigned_hostname container_id hostname =
    eqb (len hostname) 12 && leb 12 (len container_id) && starts_with hostname container_id

abbrev own_hostname : Option Text → Option Text → Bool
own_hostname (some id) (some host) = is_daemon_assigned_hostname id host
own_hostname _ _ = false

abbrev without_own_hostname : Option Text → ContainerConfig → ContainerConfig
without_own_hostname id config =
    if own_hostname id config.hostname then record config { hostname = none } else config

-- The error is the name of the missing field.
unfoldable pub from_inspect : InspectResponse → Result ContainerSpec Text
unfolding is_daemon_assigned_hostname
from_inspect resp = do
  name ← require (codes "Name") resp.name
  config ← require (codes "Config") resp.config
  image_ref ← require (codes "Config.Image") config.1
  ok (record {
    name = trim_start_matches name;
    image_ref = image_ref;
    image_id = resp.image;
    config = without_own_hostname resp.id config.0;
    host_config = resp.host_config;
    network_endpoints = resp.networks;
  })

-- The labels that freshdock manages, and the others.
unfoldable pub split_labels : Labels → Labels × Labels
unfolding starts_with
split_labels [] = ([], [])
split_labels ((k, v) ∷ labels) =
    let (managed, user) = split_labels labels in
    if starts_with (codes "freshdock.") k
    then ((k, v) ∷ managed, user)
    else (managed, (k, v) ∷ user)
