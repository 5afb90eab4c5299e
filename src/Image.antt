-- ===== src/Image.antt =====
-- Image references: src/registry/mod.rs, and `split_repository` of src/registry/digest.rs.
pub mod RoundTrip
pub mod Hosts
use freshdock.Prelude.{
  Bool, not, ◌&&◌, ◌||◌, Option, none, some, [], ◌∷◌, ◌++◌, Text, codes, ◌==◌, if◌then◌else◌,
}
use freshdock.Prelude.Chars.{eq_ignore_ascii_case, is_empty}
use freshdock.Prelude.Split.{split_once, rsplit_once, contains, strip_prefix}

pub record ImageRef : Type 0 where
  pub repository : Text
  pub tag : Text

-- `repository.split('/').next().unwrap_or("")`
abbrev first_segment : Option (Text × Text) → Text → Text
first_segment none repository = repository
first_segment (some (first, rest)) repository = first

abbrev path_after : Option (Text × Text) → Text
path_after none = []
path_after (some (first, rest)) = rest

abbrev pub is_host : Text → Bool
is_host first =
    eq_ignore_ascii_case first (codes "localhost") || contains b'.' first || contains b':' first

unfoldable pub split_repository : Text → Text × Text
unfolding split_once eq_ignore_ascii_case contains
split_repository repository =
    let cut = split_once b'/' repository in
    let first = first_segment cut repository in
    if is_host first then (first, path_after cut) else (codes "docker.io", repository)

unfoldable pub is_docker_hub_host : Text → Bool
is_docker_hub_host host = host == codes "docker.io" || host == codes "index.docker.io"

unfoldable pub strip_docker_hub_host : Text → Text
unfolding split_repository is_docker_hub_host
strip_docker_hub_host name =
    let (host, rest) = split_repository name in
    let rest_stays_on_hub = not (is_empty rest) && is_docker_hub_host (split_repository rest).0 in
    if is_docker_hub_host host && rest_stays_on_hub then rest else name

-- `name[:tag]`: the last colon starts a tag unless a slash follows it.
abbrev pub name_and_tag : Option (Text × Text) → Text → Text × Text
name_and_tag none input = (input, codes "latest")
name_and_tag (some (n, t)) input = if not (contains b'/' t) then (n, t) else (input, codes "latest")

unfoldable pub parse : Text → ImageRef
unfolding rsplit_once contains strip_docker_hub_host
parse input =
    let (name, tag) = name_and_tag (rsplit_once b':' input) input in
    let name' = strip_docker_hub_host name in
    record {
      repository = if contains b'/' name' then name' else codes "library/" ++ name';
      tag = tag;
    }

abbrev without_library : Option Text → Text → Text
without_library none path = path
without_library (some rest) path = if not (contains b'/' rest) then rest else path

unfoldable pub familiar_repository : Text → Text
unfolding split_repository is_docker_hub_host strip_prefix contains
familiar_repository repository =
    let (host, path) = split_repository repository in
    if is_docker_hub_host host
    then without_library (strip_prefix (codes "library/") path) path
    else repository

-- `format!("{}:{}", repository, tag)`, as `pull` of src/docker/mod.rs names an image.
unfoldable pub image_text : ImageRef → Text
image_text image = image.repository ++ b':' ∷ image.tag
