-- ===== src/Probe/Digests.antt =====
-- The digests of a local image that belong to a reference, and that of a pinned one.
use freshdock.Prelude.{Option, none, some, List, Text, codes, ◌==◌, if◌then◌else◌}
use mathlib.Core.List.{filter_map}
use freshdock.Prelude.Split.{split_once, rsplit_once, contains, starts_with}
use freshdock.Image.{familiar_repository}

-- A colon is a tag's unless a slash follows it.
unfoldable pub strip_tag : Text → Text
unfolding rsplit_once contains
strip_tag image_no_digest = elim (rsplit_once b':' image_no_digest) [
  | none ↦ image_no_digest
  | some (name, tag) ↦ if contains b'/' tag then image_no_digest else name
]

-- `image.split('@').next().unwrap_or(image)`
abbrev without_digest : Text → Text
without_digest image = elim (split_once b'@' image) [ none ↦ image | some (name, rest) ↦ name ]

abbrev digest_for : (want_repo entry : Text) → Option Text
digest_for want_repo entry = elim (split_once b'@' entry) [
  | none ↦ none
  | some (repo, digest) ↦ if familiar_repository repo == want_repo then some digest else none
]

unfoldable pub local_manifest_digests : (image : Text) (repo_digests : List Text) → List Text
unfolding split_once strip_tag familiar_repository
local_manifest_digests image repo_digests =
    let want_repo = familiar_repository (strip_tag (without_digest image)) in
    filter_map (digest_for want_repo) repo_digests

unfoldable pub pinned_digest : Text → Option Text
unfolding split_once starts_with codes
pinned_digest image = elim (split_once b'@' image) [
  | some (name, digest) ↦ some digest
  | none ↦ if starts_with (codes "sha256:") image then some image else none
]
