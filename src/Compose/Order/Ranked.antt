-- ===== src/Compose/Order/Ranked.antt =====
-- The order of services whose dependencies have no cycle.
use freshdock.Prelude.{
  ℕ, ◌<◌, ◌≡◌, refl, sym, ap, ◌∙◌, inl, inr, true, not, ◌&&◌, List, [], ◌∷◌, Text, ◌==◌, eq_iff,
  keep, length, arith, Bool-cases, All,
}
use freshdock.Compose.{Graph, elem, insert}
use freshdock.Compose.Elem.{elem_self, elem-cons}
use freshdock.Compose.Order.{Pending, names, deps_within, pending_from, topological_order}
use freshdock.Compose.Order.Complete.{names-pending_from}
use freshdock.Compose.Order.Sorted.{Precedes, Ranked, Waits, drain-Precedes}

module _ (nodes : List Text) (graph : Graph) where
  -- Each entry is a node with its dependencies among the nodes.
  abbrev Drawn : Pending → Type 0
  Drawn q = All (λ e. (e.1 ≡ deps_within nodes graph e.0) × (elem e.0 nodes ≡ true)) q

  Drawn-insert :
      (n : Text) (q : Pending)
      → elem n nodes ≡ true
      → Drawn q
      → Drawn (insert n (deps_within nodes graph n) q)
  unfolding insert
  Drawn-insert n [] m w = ((refl, m), tt)
  Drawn-insert n ((j, ds) ∷ q) m ((e, k), w) = elim (Bool-cases (j == n)) [
    | inl same ↦ rw same ((ap (deps_within nodes graph) (sym ((eq_iff j n).0 same)), k), w)
    | inr other ↦ rw other ((e, k), Drawn-insert n q m w)
  ]

  Drawn-pending_from :
      (rest : List Text) (q : Pending)
      → ((x : Text) → elem x rest ≡ true → elem x nodes ≡ true)
      → Drawn q
      → Drawn (pending_from nodes graph rest q)
  unfolding pending_from
  Drawn-pending_from [] q inside w = w
  Drawn-pending_from (n ∷ rest) q inside w =
      Drawn-pending_from rest (insert n (deps_within nodes graph n) q)
        (λ x e. inside x (elem-cons x n rest e)) (Drawn-insert n q (inside n (elem_self n rest)) w)

  within_nodes :
      (n x : Text) (xs : List Text)
      → elem x (keep (λ s. elem s nodes && not (s == n)) xs) ≡ true
      → elem x nodes ≡ true
  within_nodes n x [] e = cc
  within_nodes n x (y ∷ ys) e = elim (Bool-cases (elem y nodes && not (y == n))) [
    | inl kept ↦ elim (Bool-cases (y == x)) [
      | inl same ↦ rw (← (eq_iff y x).0 same) (ground (arith, kept))
      | inr other ↦ within_nodes n x ys (rw other at rw kept at e)
    ]
    | inr dropped ↦ within_nodes n x ys (rw dropped at e)
  ]

  module _ (rank : Text → ℕ)
      (falls : (n x : Text)
        → elem n nodes ≡ true
        → elem x (deps_within nodes graph n) ≡ true
        → rank x < rank n) where
    Drawn-Ranked :
        (all : List Text) (q : Pending)
        → ((x : Text) → elem x nodes ≡ true → elem x all ≡ true)
        → Drawn q
        → Ranked rank all q
    Drawn-Ranked all [] covers w = tt
    Drawn-Ranked all ((n, ds) ∷ q) covers ((e, m), w) = (
      λ x f. let g = rw e at f in (falls n x m g, covers x (within_nodes n x _ g)),
      Drawn-Ranked all q covers w,
    )

    Drawn-Waits :
        (d a : Text) (q : Pending)
        → elem d (deps_within nodes graph a) ≡ true
        → Drawn q
        → Waits d a q
    Drawn-Waits d a [] on w = tt
    Drawn-Waits d a ((n, ds) ∷ q) on ((e, m), w) =
        (λ same. rw (e, (eq_iff n a).0 same) on, Drawn-Waits d a q on w)

    -- Where the dependencies among the services have no cycle, which a rank that falls along each
    -- of them shows, no service comes in the order before a service that it depends on.
    pub topological_order-Precedes :
        (d a : Text)
        → elem d (deps_within nodes graph a) ≡ true
        → Precedes d a (topological_order nodes graph)
    unfolding topological_order
    topological_order-Precedes d a on =
        let q = pending_from nodes graph nodes [] in
        let drawn = Drawn-pending_from nodes [] (λ x e. e) tt in
        let all : (x : Text) → elem x nodes ≡ true → elem x (names q) ≡ true =
          λ x e. names-pending_from x nodes graph nodes [] ∙ ground (arith, e) in
        drain-Precedes rank d a (length q) q (omega arith) (Drawn-Ranked (names q) q all drawn)
          (Drawn-Waits d a q on drawn) (all d (within_nodes a d _ on))
