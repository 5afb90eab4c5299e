-- ===== src/Tests/Orders.antt =====
-- The order of a service and the database that it waits for.
use freshdock.Prelude.{
  ℕ, ◌<◌, ◌≡◌, refl, inl, inr, true, false, List, [], ◌∷◌, Text, codes, ◌==◌, eq_iff, lookup, arith,
  Bool-cases, if◌then◌else◌,
}
use freshdock.Compose.{started, Graph, elem}
use freshdock.Compose.Order.{deps_within, topological_order}
use freshdock.Compose.Order.Sorted.{Precedes}
use freshdock.Compose.Order.Ranked.{topological_order-Precedes}

abbrev web : Text
web = codes "web"

abbrev db : Text
db = codes "db"

abbrev nodes : List Text
nodes = web ∷ db ∷ []

abbrev graph : Graph
graph = (web, record { service = db; condition = started; restart = false } ∷ []) ∷ (db, []) ∷ []

abbrev rank : Text → ℕ
rank x = if x == web then 1 else 0

waits : elem db (deps_within nodes graph web) ≡ true
unfolding lookup codes ◌==◌
waits = refl

falls :
    (n x : Text) → elem n nodes ≡ true → elem x (deps_within nodes graph n) ≡ true → rank x < rank n
unfolding lookup codes ◌==◌
falls n x m e = elim (Bool-cases (web == n)) [
  | inl is_web ↦
      let e' : elem x (deps_within nodes graph web) ≡ true = rw (← (eq_iff web n).0 is_web) at e in
      elim (Bool-cases (db == x)) [
        | inl is_db ↦ rw (← (eq_iff db x).0 is_db, ← (eq_iff web n).0 is_web) (omega arith)
        | inr other ↦ let never = rw other at e' in cc
      ]
  | inr not_web ↦ elim (Bool-cases (db == n)) [
    | inl is_db ↦ let never = rw (← (eq_iff db n).0 is_db) at e in cc
    | inr other ↦ let never = rw (not_web, other) at m in cc
  ]
]

sorted : topological_order nodes graph ≡ db ∷ web ∷ []
unfolding topological_order lookup codes ◌==◌
sorted = refl

topological_order-Precedes_example : Precedes db web (topological_order nodes graph)
topological_order-Precedes_example = topological_order-Precedes nodes graph rank falls db web waits
