-- ===== src/Tests/Probes.antt =====
-- A container behind its tag, whose image carries the registry's digest.
use freshdock.Prelude.{◌≡◌, refl, true, some, [], ◌∷◌, codes, ◌==◌}
use freshdock.Names.{behind_tag}
use freshdock.Probe.{LocalDigests, update_available_for}

abbrev digests : LocalDigests
digests = codes "sha256:a" ∷ []

stale :
    update_available_for digests (codes "sha256:a") (some (codes "1")) (some (codes "2"))
    ≡ some true
unfolding update_available_for behind_tag codes ◌==◌
stale = refl
