-- ===== src/Tests/Commands.antt =====
-- An update by hand of a container that opts in, and a table of two rows.
use freshdock.Prelude.{◌≡◌, refl, none, some, List, [], ◌∷◌, Text, codes, ok, err, ◌==◌}
use freshdock.Labels.Values.{watch}
use freshdock.Prelude.Maps.{keys}
use freshdock.Compose.{elem}
use freshdock.Config.{default_settings}
use freshdock.Daemon.Types.{running_no_healthcheck, ContainerSpec}
use freshdock.Daemon.Calls.{Daemon}
use freshdock.Probe.Outcome.{ProbeOutcome}
use freshdock.Commands.Check.{RowPrep, unique_images, table}
use freshdock.Commands.Gate.{IsGated, run_with-IsGated}
use freshdock.Commands.Probed.{IsDistinct, Probed, images_of, TableShows, table-TableShows}
use freshdock.Tests.Samples.{daemon, spec_of, config}

abbrev labelled : Text → ContainerSpec
labelled name =
    let s = spec_of name in
    record s {
      config = record s.config {
        labels = some (
            (codes "freshdock.enable", codes "true") ∷ (codes "freshdock.mode", codes "live") ∷ []);
      };
    }

abbrev plain : Daemon
plain = record (daemon (λ h. ok running_no_healthcheck)) { inspect = λ h name. ok (labelled name) }

run_with-IsGated_example : IsGated plain 5 (codes "app") config default_settings none []
run_with-IsGated_example = run_with-IsGated plain 5 (codes "app") config default_settings none []

abbrev row : Text → RowPrep
row name = record {
  name = name;
  mode = watch;
  target = ok (record { image = codes "redis:7"; image_id = some (codes "sha256:1") });
  listed_image = codes "redis:7";
}

abbrev rows : List RowPrep
rows =
    row (codes "a")
    ∷ row (codes "b")
    ∷ record (row (codes "c")) { target = err (codes "gone") }
    ∷ []

-- Two containers on one image: one probe.
once : unique_images rows [] ≡ codes "redis:7" ∷ []
unfolding unique_images codes ◌==◌
once = refl

table-TableShows_example :
    (probes : List (Text × ProbeOutcome)) × Probed plain probes [] (table plain rows []).1
    × IsDistinct (keys probes)
    × ((image : Text) → elem image (keys probes) ≡ elem image (images_of rows))
    × TableShows probes rows (table plain rows []).0
table-TableShows_example = table-TableShows plain rows []
