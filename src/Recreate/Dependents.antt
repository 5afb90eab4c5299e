-- ===== src/Recreate/Dependents.antt =====
-- The containers that share the network namespace of the one updated: each is created anew.
use freshdock.Prelude.{
  false, not, Option, none, some, List, ◌++◌, Text, codes, ◌==◌, Result, ok, err, if◌then◌else◌,
}
use freshdock.Names.{container_reference, is_pinned, behind_tag}
use freshdock.Daemon.Types.{ContainerSpec, HostConfig, Fallible}
use freshdock.Daemon.Calls.{Daemon}
use freshdock.Daemon.Actions.{
  Action, pure, ◌>>=◌, ◌>>◌, try, for_each, inspect, local_image_id, remove, rename_to, start,
}
use freshdock.Recreate.Swap.{SwapError, stop_failed, after_stop, swap_container}

-- The container that a network mode joins, where it is there and joins one.
abbrev pub joined : Option HostConfig → Option Text
joined none = none
joined (some host) = elim host.network_mode [ none ↦ none | some mode ↦ container_reference mode ]

abbrev with_mode : Text → Option HostConfig → Option HostConfig
with_mode mode none = none
with_mode mode (some host) = some (record host { network_mode = some mode })

abbrev rewritten : ContainerSpec → Text → Text → Option Text → ContainerSpec
rewritten s owner_name new_id none = s
rewritten s owner_name new_id (some reference) =
    if reference == owner_name
    then s
    else record s { host_config = with_mode (codes "container:" ++ new_id) s.host_config }

unfoldable pub rewrite_owner_reference : ContainerSpec → Text → Option Text → ContainerSpec
rewrite_owner_reference s owner_name none = s
rewrite_owner_reference s owner_name (some new_id) =
    rewritten s owner_name new_id (joined s.host_config)

abbrev stripped : ContainerSpec → Option Text → ContainerSpec
stripped s none = s
stripped s (some reference) = record s {
  config = record (s.config) { hostname = none; domainname = none; exposed_ports = none };
  network_endpoints = none;
}

unfoldable pub strip_shared_namespace_conflicts : ContainerSpec → ContainerSpec
strip_shared_namespace_conflicts s = stripped s (joined s.host_config)

-- The image that a dependent is created from: its own reference, or its image id where the tag
-- does not resolve to the image that it runs.
abbrev kept_or_id : Text → Text → Fallible (Option Text) → Text
kept_or_id image_ref id (ok (some tag_id)) =
    if not (behind_tag (some id) (some tag_id)) then image_ref else id
kept_or_id image_ref id (ok none) = id
kept_or_id image_ref id (err e) = id

abbrev image_for : Daemon → Text → Option Text → Action Text
image_for d image_ref none = pure image_ref
image_for d image_ref (some id) =
    if is_pinned image_ref
    then pure image_ref
    else (local_image_id d image_ref >>= λ answer. pure (kept_or_id image_ref id answer))

unfoldable pub repair_image : Daemon → ContainerSpec → Action Text
repair_image d s = image_for d s.image_ref s.image_id

abbrev start_restored : Daemon → Text → Fallible (Unit {0}) → Action (Unit {0})
start_restored d dependent (err e) = pure tt
start_restored d dependent (ok _) = start d dependent >> pure tt

unfoldable pub restore_after_failed_reattach : Daemon → Text → Text → Action (Unit {0})
restore_after_failed_reattach d dependent archive =
    rename_to d archive dependent >>= start_restored d dependent

-- What follows the swap: the archive is removed, or the dependent restored if it was renamed.
unfoldable pub settle :
    Daemon → Text → Result (Text × Text) SwapError → Action (Fallible (Unit {0}))
settle d dependent (ok (archive, new_id)) = remove d archive false >> pure (ok tt)
settle d dependent (err (stop_failed e)) = pure (err e)
settle d dependent (err (after_stop error none)) = pure (err error)
settle d dependent (err (after_stop error (some archive))) =
    restore_after_failed_reattach d dependent archive >> pure (err error)

unfoldable pub reattach_one : Daemon → Text → Option Text → Text → Action (Fallible (Unit {0}))
reattach_one d owner_name new_owner_id dependent = try (inspect d dependent) λ inspected.
    let s =
      strip_shared_namespace_conflicts
        (rewrite_owner_reference inspected owner_name new_owner_id) in
    repair_image d s >>= λ image. swap_container d dependent s image >>= settle d dependent

-- Best effort: no failure of a dependent is passed on.
unfoldable pub reattach_dependents : Daemon → Text → Option Text → List Text → Action (Unit {0})
reattach_dependents d owner_name new_owner_id dependents =
    for_each dependents (λ x. reattach_one d owner_name new_owner_id x >> pure tt)
