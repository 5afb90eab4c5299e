-- ===== src/Compose/Order.antt =====
-- `topological_order` of src/compose.rs.
pub mod Complete
pub mod Sorted
pub mod Ranked
use freshdock.Prelude.{
  ℕ, zero, suc, Bool, true, false, not, ◌&&◌, Option, none, some, List, [], ◌∷◌, ◌++◌, map, Text,
  ◌==◌, if◌then◌else◌, keep, length, lookup,
}
use freshdock.Prelude.Sort.{sort}
use freshdock.Compose.{Dependency, Graph, insert, elem}

-- Each pending node with its dependencies that are pending too.
abbrev pub Pending : Type 0
Pending = List (Text × List Text)

abbrev services : Option (List Dependency) → List Text
services none = []
services (some deps) = map (λ (d : Dependency). d.service) deps

-- The dependencies of a node inside the set of nodes, itself left out.
abbrev pub deps_within : List Text → Graph → Text → List Text
deps_within nodes graph node =
    keep (λ s. elem s nodes && not (s == node)) (services (lookup node graph))

unfoldable pub pending_from : List Text → Graph → List Text → Pending → Pending
unfolding insert lookup
pending_from nodes graph [] pending = pending
pending_from nodes graph (node ∷ rest) pending =
    pending_from nodes graph rest (insert node (deps_within nodes graph node) pending)

abbrev pub no_deps : Text × List Text → Bool
no_deps (node, []) = true
no_deps (node, d ∷ ds) = false

abbrev pub names : Pending → List Text
names pending = map (λ e. e.0) pending

unfoldable pub ready_of : Pending → List Text
unfolding sort
ready_of pending = sort (names (keep no_deps pending))

-- `pending.remove` of the ready nodes, then `deps.retain` on what is left.
unfoldable pub without : List Text → Pending → Pending
without ready pending =
    map (λ e. (e.0, keep (λ d. not (elem d ready)) e.1)) (keep (λ e. not (elem e.0 ready)) pending)

abbrev pub is_nil : List Text → Bool
is_nil [] = true
is_nil (x ∷ xs) = false

-- The `while` loop, on fuel.
unfoldable pub drain : ℕ → Pending → List Text
unfolding ready_of without sort
drain zero pending = []
drain (suc fuel) [] = []
drain (suc fuel) (e ∷ pending) =
    let ready = ready_of (e ∷ pending) in
    let rest = drain fuel (without ready (e ∷ pending)) in
    if is_nil ready then sort (names (e ∷ pending)) else ready ++ rest

-- Each round takes one node at least, so as many rounds as nodes suffice.
unfoldable pub topological_order : List Text → Graph → List Text
unfolding pending_from drain
topological_order nodes graph =
    let pending = pending_from nodes graph nodes [] in drain (length pending) pending
