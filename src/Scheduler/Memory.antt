-- ===== src/Scheduler/Memory.antt =====
-- The digests that failed, as a map from names.
use freshdock.Prelude.{
  ◌≡◌, refl, Option, none, some, List, [], ◌∷◌, Text, lookup, if◌then◌else◌, arith,
}
use freshdock.Prelude.Maps.{put, delete, lookup-put, lookup-delete}
use freshdock.Compose.{elem}
use freshdock.Scheduler.Apply.{UpdateOutcome, rejected, landed}
use freshdock.Scheduler.Tick.{put_all, delete_all, remember}

put_all-lookup :
    (k digest : Text) (cs : List Text) (m : List (Text × Text))
    → lookup k (put_all digest cs m) ≡ (if elem k cs then some digest else lookup k m)
put_all-lookup k digest [] m = refl
put_all-lookup k digest (c ∷ cs) m =
    ground (arith, put_all-lookup k digest cs (put c digest m), lookup-put k c digest m)

delete_all-lookup :
    (k : Text) (cs : List Text) (m : List (Text × Text))
    → lookup k (delete_all cs m) ≡ (if elem k cs then none else lookup k m)
delete_all-lookup k [] m = refl
delete_all-lookup k (c ∷ cs) m =
    ground (arith, delete_all-lookup k cs (delete c m), lookup-delete k c m)

-- The digests that failed as a function of the name.
abbrev pub remembered : Option UpdateOutcome → (Text → Option Text) → (Text → Option Text)
remembered none known k = known k
remembered (some (rejected digest containers)) known k =
    if elem k containers then some digest else known k
remembered (some (landed containers)) known k = if elem k containers then none else known k

-- The map of failed digests implements a function of the name: a rejected update sets the digest
-- for its containers, one that landed clears it, and the other names keep theirs.
pub lookup-remember :
    (outcome : Option UpdateOutcome) (m : List (Text × Text)) (k : Text)
    → lookup k (remember outcome m) ≡ remembered outcome (λ j. lookup j m) k
unfolding remember
lookup-remember none m k = refl
lookup-remember (some (rejected digest containers)) m k = put_all-lookup k digest containers m
lookup-remember (some (landed containers)) m k = delete_all-lookup k containers m
