-- ===== src/Rollout/Members.antt =====
-- `resolve_member_images`: members that the listing names by a bare image id are inspected.
use freshdock.Prelude.{List, [], ◌∷◌, ok, if◌then◌else◌}
use freshdock.Compose.{ProjectMember}
use freshdock.Names.{is_image_id}
use freshdock.Daemon.Types.{Fallible}
use freshdock.Daemon.Calls.{Daemon}
use freshdock.Daemon.Actions.{Action, pure, try, inspect}

module _ (d : Daemon) where
  unfoldable pub resolve_member : ProjectMember → Action (Fallible ProjectMember)
  resolve_member m =
      if is_image_id m.image_ref
      then (try (inspect d m.id)
          λ s. pure (ok (record m { image_ref = s.image_ref; image_id = s.image_id })))
      else pure (ok m)

  unfoldable pub resolve_member_images : List ProjectMember → Action (Fallible (List ProjectMember))
  resolve_member_images [] = pure (ok [])
  resolve_member_images (m ∷ members) =
      try (resolve_member m)
        λ m'. try (resolve_member_images members) λ members'. pure (ok (m' ∷ members'))
