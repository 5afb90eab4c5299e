-- ===== src/Tests/Archives.antt =====
-- The archive name of a container where one is taken already.
use freshdock.Prelude.{◌≡◌, refl, ◌⊎◌, pos, Bool, true, false, Text, codes, ◌==◌}
use freshdock.Names.{old_name_for, is_archive_name, max_collision_attempts, next_available_old_name}
use freshdock.Names.Fresh.{Taken}
use freshdock.Names.Archive.{next_available_old_name-picked}

abbrev exists : Text → Bool
exists name = name == codes "app-old-7"

picks : next_available_old_name (codes "app") (pos 7) exists ≡ codes "app-old-7-1"
unfolding next_available_old_name codes ◌==◌
picks = refl

recognised : is_archive_name (codes "app-old-7-1") ≡ true
unfolding is_archive_name codes ◌==◌
recognised = refl

next_available_old_name-picked_example :
    (is_archive_name (next_available_old_name (codes "app") (pos 7) exists) ≡ true)
    × ((exists (next_available_old_name (codes "app") (pos 7) exists) ≡ false)
        ⊎ (exists (old_name_for (codes "app") (pos 7)) ≡ true)
          × Taken exists (old_name_for (codes "app") (pos 7)) max_collision_attempts 1)
next_available_old_name-picked_example = next_available_old_name-picked (codes "app") 7 exists
