-- ===== src/Compose.antt =====
-- src/compose.rs: Compose's labels, and the dependency graph of a project. A `HashMap` is an
-- association list in some iteration order, a `HashSet` a list.
pub mod Order
pub mod Elem
use freshdock.Prelude.{
  Bool, true, false, not, ◌&&◌, ◌||◌, Option, none, some, List, [], ◌∷◌, map, Text, codes, ◌==◌,
  eqb, if◌then◌else◌, any, keep, lookup,
}
use mathlib.Core.List.{filter_map, flat_map}
use freshdock.Prelude.Chars.{trim, eq_ignore_ascii_case, is_empty}
use freshdock.Prelude.Split.{split}
use freshdock.Prelude.Sort.{sort_by, sort}

abbrev pub Labels : Type 0
Labels = List (Text × Text)

abbrev pub label_project : Text
label_project = codes "com.docker.compose.project"

abbrev pub label_service : Text
label_service = codes "com.docker.compose.service"

abbrev pub label_depends_on : Text
label_depends_on = codes "com.docker.compose.depends_on"

abbrev pub label_oneoff : Text
label_oneoff = codes "com.docker.compose.oneoff"

pub data Condition : Type 0 where
  started healthy completed_successfully : Condition

abbrev pub is_completed_successfully : Condition → Bool
is_completed_successfully completed_successfully = true
is_completed_successfully _ = false

pub record Dependency : Type 0 where
  pub service : Text
  pub condition : Condition
  pub restart : Bool

pub record ComposeInfo : Type 0 where
  pub project : Text
  pub service : Text
  pub depends_on : List Dependency

pub record ProjectMember : Type 0 where
  pub name : Text
  pub id : Text
  pub image_ref : Text
  pub image_id : Option Text
  pub labels : Labels
  pub running : Bool

unfoldable pub parse_condition : Text → Condition
unfolding trim
parse_condition raw =
    let raw' = trim raw in
    if raw' == codes "service_healthy"
    then healthy
    else (if raw' == codes "service_completed_successfully"
        then completed_successfully
        else started)

abbrev is_true : Text → Bool
is_true v = eq_ignore_ascii_case (trim v) (codes "true")

-- The second and third field of an entry, where it has them.
abbrev condition_field : List Text → Condition
condition_field [] = started
condition_field (field ∷ fields) = parse_condition field

abbrev restart_field : List Text → Bool
restart_field [] = false
restart_field (condition ∷ []) = false
restart_field (condition ∷ restart ∷ fields) = is_true restart

abbrev dependency : List Text → Option Dependency
dependency [] = none
dependency (name ∷ fields) =
    let service = trim name in
    if is_empty service
    then none
    else some (record {
      service = service;
      condition = condition_field fields;
      restart = restart_field fields;
    })

-- `dedup_by`: of neighbours with the same service the first stays.
abbrev dedup_from : Dependency → List Dependency → List Dependency
dedup_from d [] = d ∷ []
dedup_from d (e ∷ es) = if d.service == e.service then dedup_from d es else d ∷ dedup_from e es

unfoldable pub dedup : List Dependency → List Dependency
dedup [] = []
dedup (d ∷ ds) = dedup_from d ds

unfoldable pub parse_depends_on : Text → List Dependency
unfolding split parse_condition trim eq_ignore_ascii_case sort_by dedup
parse_depends_on raw = dedup (
    sort_by (λ (d : Dependency). d.service)
      (filter_map (λ entry. dependency (split b':' entry)) (split b',' raw)))

abbrev non_empty : Option Text → Option Text
non_empty none = none
non_empty (some value) = let trimmed = trim value in if is_empty trimmed then none else some trimmed

abbrev text_or_empty : Option Text → Text
text_or_empty none = []
text_or_empty (some value) = value

abbrev is_oneoff : Option Text → Bool
is_oneoff none = false
is_oneoff (some v) = is_true v

abbrev info_of : Option Text → Option Text → List Dependency → Option ComposeInfo
info_of none service depends_on = none
info_of (some project) none depends_on = none
info_of (some project) (some service) depends_on =
    some (record { project = project; service = service; depends_on = depends_on })

unfoldable pub parse : Labels → Option ComposeInfo
unfolding lookup parse_depends_on
parse labels =
    if is_oneoff (lookup label_oneoff labels)
    then none
    else info_of (non_empty (lookup label_project labels)) (non_empty (lookup label_service labels))
        (parse_depends_on (text_or_empty (lookup label_depends_on labels)))

abbrev pub Graph : Type 0
Graph = List (Text × List Dependency)

-- `HashMap::insert`.
unfoldable pub insert {ℓ} : {V : Type ℓ} → Text → V → List (Text × V) → List (Text × V)
insert k v [] = (k, v) ∷ []
insert k v ((j, w) ∷ m) = if j == k then (j, v) ∷ m else (j, w) ∷ insert k v m

-- `collect` into a `HashMap`: a later entry replaces an earlier one.
unfoldable pub collect {ℓ} : {V : Type ℓ} → List (Text × V) → List (Text × V) → List (Text × V)
unfolding insert
collect m [] = m
collect m ((k, v) ∷ entries) = collect (insert k v m) entries

abbrev graph_entry : Option ComposeInfo → Option (Text × List Dependency)
graph_entry none = none
graph_entry (some info) = some (info.service, info.depends_on)

unfoldable pub graph_of : List ProjectMember → Graph
unfolding parse collect
graph_of members =
    collect [] (filter_map (λ (m : ProjectMember). graph_entry (parse m.labels)) members)

abbrev pub elem : Text → List Text → Bool
elem x xs = any (λ y. y == x) xs

unfoldable pub services_awaited_for_completion : Graph → List Text
services_awaited_for_completion graph =
    map (λ (d : Dependency). d.service)
      (keep (λ (d : Dependency). is_completed_successfully d.condition) (flat_map (λ e. e.1) graph))

unfoldable pub restart_dependents : Graph → List Text → List Text
unfolding sort
restart_dependents graph updated = sort (
    map (λ e. e.0)
      (keep (λ e. any (λ (d : Dependency). d.restart && elem d.service updated) e.1)
        (keep (λ e. not (elem e.0 updated)) graph)))
