-- ===== src/Docker/Rows.antt =====
-- What is read of the rows of a listing: `project_member` and `network_dependent_names`.
use freshdock.Prelude.{
  Bool, true, false, not, Option, none, some, List, [], ◌∷◌, Text, ◌==◌, if◌then◌else◌,
}
use freshdock.Compose.{Labels, ProjectMember}
use freshdock.Labels
use freshdock.Names.{network_mode_references, is_own_container}
use freshdock.Daemon.Types.{ContainerSummary}
use freshdock.Docker.{container_name}

pub data SummaryState : Type 0 where
  created running restarting paused exited removing dead empty : SummaryState

-- A row: the fields that other code reads as well, the state, and the network mode.
pub record Row : Type 0 where
  pub summary : ContainerSummary
  pub state : Option SummaryState
  pub network_mode : Option Text

abbrev is_up : Option SummaryState → Bool
is_up (some running) = true
is_up (some restarting) = true
is_up (some paused) = true
is_up _ = false

abbrev or_default : Option Text → Text
or_default none = []
or_default (some s) = s

abbrev labels_or_default : Option Labels → Labels
labels_or_default none = []
labels_or_default (some labels) = labels

unfoldable pub project_member : Row → ProjectMember
unfolding container_name
project_member row = record {
  name = container_name row.summary;
  id = or_default row.summary.id;
  image_ref = or_default row.summary.image;
  image_id = row.summary.image_id;
  labels = labels_or_default row.summary.labels;
  running = is_up row.state;
}

abbrev opts_out : Option Labels → Bool
opts_out none = false
opts_out (some labels) = Labels.explicitly_opts_out labels

abbrev pub is_dependent : (owner_name full_id : Text) (self_hostname : Option Text) → Row → Bool
is_dependent owner_name full_id self_hostname row = elim row.network_mode [
  | none ↦ false
  | some mode ↦
      if not (network_mode_references mode owner_name full_id)
      then false
      else (if container_name row.summary == owner_name
          then false
          else (if is_own_container self_hostname row.summary.id
              then false
              else not (opts_out row.summary.labels)))
]

unfoldable pub network_dependent_names :
    List Row → (owner_name full_id : Text) (self_hostname : Option Text) → List Text
unfolding container_name
network_dependent_names [] owner_name full_id self_hostname = []
network_dependent_names (row ∷ rows) owner_name full_id self_hostname =
    if is_dependent owner_name full_id self_hostname row
    then container_name row.summary ∷ network_dependent_names rows owner_name full_id self_hostname
    else network_dependent_names rows owner_name full_id self_hostname
