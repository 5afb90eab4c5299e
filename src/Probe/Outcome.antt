-- ===== src/Probe/Outcome.antt =====
-- `resolve_target` and `probe_image`: what a container runs, and what the registry serves for it.
use freshdock.Prelude.{Option, none, some, [], Text, codes, Result, ok, err, if◌then◌else◌, ◌++◌}
use freshdock.Image
use freshdock.Image.{ImageRef}
use freshdock.Names.{is_pinned, is_image_id}
use freshdock.Daemon.Types.{
  DockerError, ContainerSummary, LocalImage, RegistryError, http, auth, missing_digest,
  invalid_endpoint, Fallible,
}
use freshdock.Daemon.Calls.{Daemon}
use freshdock.Daemon.Actions.{
  Action, pure, ◌>>=◌, try, inspect_image, container_image, fetch_digest,
}
use freshdock.Probe.{LocalDigests}
use freshdock.Probe.Digests.{local_manifest_digests}

pub data ProbeOutcome : Type 0 where
  fetched : (local : LocalDigests) (latest : Text) (tag_image_id : Option Text) → ProbeOutcome
  pinned auth_required credentials_rejected network_unavailable : ProbeOutcome
  error : (message : Text) → ProbeOutcome

pub record ProbeTarget : Type 0 where
  pub image : Text
  pub image_id : Option Text

-- `Display` of a registry's error.
unfoldable pub registry_error_text : RegistryError → Text
registry_error_text (RegistryError.network_unavailable reason) =
    codes "network unavailable: " ++ reason
registry_error_text (http reason) = codes "registry HTTP error: " ++ reason
registry_error_text (auth reason) = codes "authentication failed: " ++ reason
registry_error_text (RegistryError.credentials_rejected reason) =
    codes "configured credentials rejected for " ++ reason
registry_error_text missing_digest = codes "manifest digest header missing or unparseable"
registry_error_text (invalid_endpoint reason) = codes "invalid endpoint url: " ++ reason

abbrev pub local_of : Text → Fallible LocalImage → LocalDigests × Option Text
local_of image (err e) = ([], none)
local_of image (ok img) = (local_manifest_digests image img.repo_digests, img.id)

module _ (d : Daemon) where
  -- The image where the listing names it, else what an inspect of the container names.
  unfoldable pub resolve_target : ContainerSummary → Action (Fallible ProbeTarget)
  unfolding is_image_id
  resolve_target container = elim container.image [
    | none ↦ pure (err (DockerError.spec (codes "Image")))
    | some image ↦
        if is_image_id image
        then elim container.id [
          | none ↦ pure (err (DockerError.spec (codes "Id")))
          | some id ↦ try (container_image d id) λ identity.
              pure (ok (record { image = identity.reference; image_id = identity.image_id }))
        ]
        else pure (ok (record { image = image; image_id = container.image_id }))
  ]

  abbrev pub outcome_of : LocalDigests × Option Text → Result Text RegistryError → ProbeOutcome
  outcome_of (local, tag_image_id) (ok latest) = fetched local latest tag_image_id
  outcome_of at (err (RegistryError.network_unavailable reason)) = network_unavailable
  outcome_of at (err (auth reason)) = auth_required
  outcome_of at (err (RegistryError.credentials_rejected host)) = credentials_rejected
  outcome_of at (err e) = error (registry_error_text e)

  unfoldable pub probe_image : (image : Text) → Action ProbeOutcome
  unfolding is_pinned local_manifest_digests
  probe_image image =
      if is_pinned image
      then pure pinned
      else (inspect_image d image >>= λ answer. fetch_digest d (Image.parse image) >>= λ digest.
          pure (outcome_of (local_of image answer) digest))
