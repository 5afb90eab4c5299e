-- ===== src/Tests/Daemons.antt =====
-- Rows, inspect responses, API versions, label notes and failing configuration files.
use freshdock.Prelude.{◌≡◌, refl, true, pos, none, some, [], ◌∷◌, ◌++◌, Text, codes, ◌==◌, ok, err}
use freshdock.Names.{is_own_container, network_mode_references}
use freshdock.Daemon.Types.{api_too_old_for_multi_network, exited, health_starting}
use freshdock.Docker.{container_name}
use freshdock.Docker.Rows.{Row, running, network_dependent_names}
use freshdock.Docker.Versions.{multi_network_guard, parse_api_version}
use freshdock.Docker.Inspected.{Status, starting, classify_runtime_state, from_inspect}
use freshdock.Labels.Diagnostics.{watchtower_diagnostics}
use freshdock.Config.Load.{ConfigError, System, load, read_file, describe_parse_error}

old_daemon :
    multi_network_guard (codes "1.43") 2 ≡ err (api_too_old_for_multi_network (codes "1.43") 2)
unfolding multi_network_guard parse_api_version codes
old_daemon = refl

new_daemon : multi_network_guard (codes "v1.44-rc1") 2 ≡ ok tt
unfolding multi_network_guard parse_api_version codes
new_daemon = refl

one_network : multi_network_guard (codes "1.24") 1 ≡ ok tt
unfolding multi_network_guard
one_network = refl

up :
    classify_runtime_state (
      some (record {
        status = none;
        running = some true;
        exit_code = some (pos 9);
        health = some starting;
      }))
    ≡ health_starting
unfolding classify_runtime_state
up = refl

down :
    classify_runtime_state (
      some (record {
        status = some Status.other;
        running = none;
        exit_code = some (pos 9);
        health = some starting;
      }))
    ≡ exited (pos 9)
unfolding classify_runtime_state
down = refl

incomplete :
    from_inspect (record {
      id = none;
      name = some (codes "/app");
      config = none;
      image = none;
      host_config = none;
      networks = none;
    })
    ≡ err (codes "Config")
unfolding from_inspect codes
incomplete = refl

abbrev row : (name mode : Text) → Row
row name mode = record {
  summary = record {
    id = some name;
    names = some (name ∷ []);
    image = none;
    image_id = none;
    labels = none;
  };
  state = some running;
  network_mode = some mode;
}

-- By name, and by the first twelve characters of the id; not the owner itself.
dependents :
    network_dependent_names
      (row (codes "/a") (codes "container:vpn")
        ∷ row (codes "/b") (codes "container:0123456789ab")
        ∷ row (codes "/c") (codes "bridge")
        ∷ row (codes "/vpn") (codes "container:vpn")
        ∷ [])
      (codes "vpn")
      (codes "0123456789abcdef")
      none
    ≡ codes "a" ∷ codes "b" ∷ []
unfolding network_dependent_names container_name codes ◌==◌ network_mode_references is_own_container
dependents = refl

notes :
    watchtower_diagnostics (
      (codes "com.centurylinklabs.watchtower.enable", codes "false")
      ∷ (codes "freshdock.enable", codes "true")
      ∷ (codes "com.centurylinklabs.watchtower.scope", codes "x")
      ∷ [])
    ≡ codes
        "`com.centurylinklabs.watchtower.enable=false` conflicts with `freshdock.enable=true`; the freshdock label wins"
      ∷ codes
          "unsupported watchtower label `com.centurylinklabs.watchtower.scope` ignored (no freshdock equivalent)"
      ∷ []
unfolding watchtower_diagnostics codes ◌==◌
notes = refl

-- A file whose second line does not parse.
abbrev broken : System
broken = record {
  try_exists = λ path. ok true;
  read_to_string = λ path. ok (codes "a" ++ 10 ∷ codes "b");
  from_toml = λ body. err (record { start = some 2; message = codes "bad `s3`" });
  url_parse = λ raw. err (codes "no");
  pct_decode = λ s. s;
  vars = [];
}

second_line :
    load broken none
    ≡ err (ConfigError.parse (codes "freshdock.toml") (some 2) (codes "bad `<redacted>`"))
unfolding load read_file describe_parse_error codes
second_line = refl
