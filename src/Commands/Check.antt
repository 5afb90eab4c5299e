-- ===== src/Commands/Check.antt =====
-- `collect_cells` of src/commands/check.rs: the rows of the status table. The requests that the code
-- makes side by side are made one after the other, in order.
use freshdock.Prelude.{
  Bool, true, false, not, ◌&&◌, Option, none, some, List, [], ◌∷◌, ◌++◌, Text, codes, lookup,
  Result, ok, err, if◌then◌else◌,
}
use freshdock.Compose.{Labels, elem}
use freshdock.Labels.Values.{Mode, mode_text, LabelError}
use freshdock.Labels.{Policy, PolicyDefaults, parse_policy}
use freshdock.Names.{is_own_container, behind_tag}
use freshdock.Daemon.Types.{ContainerSummary, Fallible}
use freshdock.Daemon.Calls.{Daemon}
use freshdock.Daemon.Actions.{Action, pure, ◌>>=◌, try, list_running}
use freshdock.Docker.{trim_start_matches}
use freshdock.Probe.{current_for, update_available_for}
use freshdock.Probe.Digests.{pinned_digest}
use freshdock.Probe.Outcome.{
  ProbeOutcome, fetched, pinned, auth_required, credentials_rejected, network_unavailable, error,
  ProbeTarget, resolve_target, probe_image,
}
use freshdock.Notify.{short_digest}

pub record Pending : Type 0 where
  pub name : Text
  pub mode : Mode
  pub summary : ContainerSummary

pub record RowPrep : Type 0 where
  pub name : Text
  pub mode : Mode
  pub target : Result ProbeTarget Text
  pub listed_image : Text

-- The six cells of a row.
pub record Cells : Type 0 where
  pub container : Text
  pub image : Text
  pub mode : Text
  pub current : Text
  pub latest : Text
  pub update : Text

abbrev first_name : Option (List Text) → Text
first_name (some (name ∷ names)) = trim_start_matches name
first_name _ = codes "?"

abbrev labels_of : Option Labels → Labels
labels_of none = []
labels_of (some ls) = ls

module _ (defaults : PolicyDefaults) (own_id_prefix : Option Text) where
  abbrev pending_of : ContainerSummary → Result Policy LabelError → Option Pending
  pending_of c (err e) = none
  pending_of c (ok policy) =
      if not policy.enabled
      then none
      else (if policy.auto_enabled && is_own_container own_id_prefix c.id
          then none
          else some (record { name = first_name c.names; mode = policy.mode; summary = c }))

  abbrev cons_some : {A : Type 0} → Option A → List A → List A
  cons_some none xs = xs
  cons_some (some x) xs = x ∷ xs

  -- The containers that the table is about.
  unfoldable pub select : List ContainerSummary → List Pending
  unfolding parse_policy
  select [] = []
  select (c ∷ containers) =
      cons_some (pending_of c (parse_policy (labels_of c.labels) defaults)) (select containers)

abbrev or_unknown : Option Text → Text
or_unknown none = codes "?"
or_unknown (some s) = s

abbrev dash : Text
dash = codes "-"

abbrev short_or_dash : Option Text → Text
short_or_dash none = dash
short_or_dash (some d) = short_digest d

abbrev answer_text : Option Bool → Text
answer_text (some true) = codes "yes"
answer_text (some false) = codes "no"
answer_text none = codes "?"

-- The current digest, the latest one, and whether there is an update.
unfoldable pub render_cells :
    (image : Text) → ProbeOutcome → (container_image_id : Option Text) → Text × Text × Text
unfolding short_digest
render_cells image (fetched local latest tag_image_id) container_image_id = (
  if behind_tag container_image_id tag_image_id
      then dash
      else short_or_dash (current_for local latest),
  short_digest latest,
  answer_text (update_available_for local latest container_image_id tag_image_id),
)
render_cells image pinned container_image_id =
    (short_or_dash (pinned_digest image), codes "pinned (no check)", dash)
render_cells image auth_required container_image_id =
    (dash, codes "auth required (set credentials)", dash)
render_cells image credentials_rejected container_image_id =
    (dash, codes "credentials rejected (check token)", dash)
render_cells image network_unavailable container_image_id =
    (dash, codes "network unavailable", dash)
render_cells image (error msg) container_image_id = (dash, codes "error: " ++ msg, dash)

abbrev pub include_target : (seen : List Text) → Result ProbeTarget Text → Option Text
include_target seen (err e) = none
include_target seen (ok t) = if elem t.image seen then none else some t.image

abbrev pub add_image : Option Text → (List Text → List Text) → List Text → List Text
add_image none rest seen = rest seen
add_image (some image) rest seen = image ∷ rest (image ∷ seen)

-- Each image once, in the order of its first row; `seen` are those of the rows before.
unfoldable pub unique_images : List RowPrep → (seen : List Text) → List Text
unique_images [] seen = []
unique_images (row ∷ rows) seen =
    add_image (include_target seen row.target) (unique_images rows) seen

abbrev pub missing : ProbeOutcome
missing = error (codes "internal: missing fetch result")

abbrev pub outcome_or_missing : Option ProbeOutcome → ProbeOutcome
outcome_or_missing none = missing
outcome_or_missing (some o) = o

-- What a row shows: its image, the image that its container runs, and the outcome.
abbrev pub shown_by :
    (by_image : List (Text × ProbeOutcome)) (listed_image : Text)
    → Result ProbeTarget Text
    → Text × Option Text × ProbeOutcome
shown_by by_image listed_image (ok t) =
    (t.image, t.image_id, outcome_or_missing (lookup t.image by_image))
shown_by by_image listed_image (err e) =
    (listed_image, none, error (codes "container inspect failed: " ++ e))

abbrev pub cells_with : RowPrep → (image : Text) (image_id : Option Text) → ProbeOutcome → Cells
cells_with row image image_id outcome =
    let (current, latest, update) = render_cells image outcome image_id in
    record {
      container = row.name;
      image = image;
      mode = mode_text row.mode;
      current = current;
      latest = latest;
      update = update;
    }

abbrev pub cells_of : (by_image : List (Text × ProbeOutcome)) → RowPrep → Cells
cells_of by_image row =
    let (image, image_id, outcome) = shown_by by_image row.listed_image row.target in
    cells_with row image image_id outcome

abbrev pub all_cells : (by_image : List (Text × ProbeOutcome)) → List RowPrep → List Cells
all_cells by_image [] = []
all_cells by_image (row ∷ rows) = cells_of by_image row ∷ all_cells by_image rows

module _ (d : Daemon) where
  abbrev target_of : Fallible ProbeTarget → Result ProbeTarget Text
  target_of (ok t) = ok t
  target_of (err e) = err (d.describe e)

  unfoldable pub prepare : List Pending → Action (List RowPrep)
  unfolding resolve_target
  prepare [] = pure []
  prepare (p ∷ pending) = resolve_target d p.summary >>= λ target. prepare pending >>= λ rows.
      pure (
        record {
          name = p.name;
          mode = p.mode;
          target = target_of target;
          listed_image = or_unknown p.summary.image;
        }
        ∷ rows)

  unfoldable pub probe_all : List Text → Action (List (Text × ProbeOutcome))
  probe_all [] = pure []
  probe_all (image ∷ images) =
      probe_image d image >>= λ outcome. probe_all images >>= λ rest. pure ((image, outcome) ∷ rest)

  unfoldable pub table : List RowPrep → Action (List Cells)
  unfolding unique_images probe_all lookup render_cells
  table rows = probe_all (unique_images rows []) >>= λ by_image. pure (all_cells by_image rows)

  unfoldable pub collect_cells : PolicyDefaults → Option Text → Action (Fallible (List Cells))
  unfolding select prepare table
  collect_cells defaults own_id_prefix = try (list_running d) λ containers.
      prepare (select defaults own_id_prefix containers) >>= λ rows.
      table rows >>= λ cells. pure (ok cells)
