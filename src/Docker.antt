-- ===== src/Docker.antt =====
-- The helpers of src/docker/mod.rs and src/docker/spec.rs that need no daemon. Retry has the retries
-- of a pull, Versions the guard on the API version, Rows what is read of a listing, and Inspected what
-- is read of an inspect.
pub mod Retry
pub mod Versions
pub mod Rows
pub mod Inspected
use freshdock.Prelude.{Option, none, some, [], ◌∷◌, List, Text, codes, eqb, if◌then◌else◌}
use freshdock.Daemon.Types.{ContainerSummary}

abbrev pub trim_start_matches : Text → Text
trim_start_matches [] = []
trim_start_matches (c ∷ s) = if eqb c b'/' then trim_start_matches s else c ∷ s

abbrev id_or_unknown : Option Text → Text
id_or_unknown none = codes "?"
id_or_unknown (some id) = id

-- The first name where there is one, then the id.
abbrev first_name : Option (List Text) → Option Text → Text
first_name none id = id_or_unknown id
first_name (some []) id = id_or_unknown id
first_name (some (name ∷ names)) id = trim_start_matches name

unfoldable pub container_name : ContainerSummary → Text
container_name c = first_name c.names c.id
