-- ===== src/Compose/Order/Complete.antt =====
-- The order of a project holds each of its nodes.
use freshdock.Prelude.{
  ℕ, zero, suc, ◌≤◌, ◌<◌, ◌≡◌, refl, sym, ap, ◌∙◌, inl, inr, Bool, true, false, not, ◌&&◌, ◌||◌,
  List, [], ◌∷◌, Text, ◌==◌, eq_iff, eq_refl, keep, length, arith, Bool-cases,
}
use freshdock.Prelude.Sort.{insert_by, sort_by, sort}
use freshdock.Compose.{Graph, elem, insert}
use freshdock.Compose.Elem.{elem-append}
use freshdock.Compose.Order.{
  Pending, names, no_deps, is_nil, ready_of, without, drain, deps_within, pending_from,
  topological_order,
}

insert_by-elem :
    (c x : Text) (xs : List Text) → elem c (insert_by (λ y. y) x xs) ≡ ((x == c) || elem c xs)
unfolding insert_by
insert_by-elem c x [] = refl
insert_by-elem c x (y ∷ ys) = ground (arith, insert_by-elem c x ys)

sort_by-elem : (c : Text) (xs : List Text) → elem c (sort_by (λ y. y) xs) ≡ elem c xs
unfolding sort_by
sort_by-elem c [] = refl
sort_by-elem c (x ∷ xs) =
    insert_by-elem c x (sort_by (λ y. y) xs) ∙ ap (λ b. (x == c) || b) (sort_by-elem c xs)

pub sort-elem : (c : Text) (xs : List Text) → elem c (sort xs) ≡ elem c xs
unfolding sort
sort-elem c xs = sort_by-elem c xs

pub names-without :
    (ready : List Text) (q : Pending)
    → names (without ready q) ≡ keep (λ n. not (elem n ready)) (names q)
unfolding without
names-without ready [] = refl
names-without ready (e ∷ q) = ground (arith, names-without ready q)

pub elem-keep_out :
    (c : Text) (out xs : List Text)
    → elem c (keep (λ n. not (elem n out)) xs) ≡ (elem c xs && not (elem c out))
elem-keep_out c out [] = refl
elem-keep_out c out (x ∷ xs) = elim (Bool-cases (x == c)) [
  | inl same ↦ rw ((eq_iff x c).0 same) (ground (arith, eq_refl c, elem-keep_out c out xs))
  | inr other ↦ ground (arith, elem-keep_out c out xs)
]

elem-keep-le :
    (c : Text) (q : Pending) → elem c (names (keep no_deps q)) ≡ true → elem c (names q) ≡ true
elem-keep-le c [] e = e
elem-keep-le c ((n, []) ∷ q) e = ground (arith, elem-keep-le c q)
elem-keep-le c ((n, x ∷ xs) ∷ q) e = ground (arith, elem-keep-le c q)

length-keep-le : (p : Text → Bool) (xs : List Text) → length (keep p xs) ≤ length xs
length-keep-le p [] = omega arith
length-keep-le p (x ∷ xs) = ground (arith, length-keep-le p xs)

-- Taking out a list with a member of `xs` makes `xs` shorter.
length-keep_out-lt :
    (c : Text) (out xs : List Text)
    → elem c out ≡ true
    → elem c xs ≡ true
    → length (keep (λ n. not (elem n out)) xs) < length xs
length-keep_out-lt c out [] a e = cc
length-keep_out-lt c out (x ∷ xs) a e = elim (Bool-cases (x == c)) [
  | inl same ↦
      rw ((eq_iff x c).0 same, a) (omega (arith, length-keep-le (λ n. not (elem n out)) xs))
  | inr other ↦ ground (arith, length-keep_out-lt c out xs)
]

length-names : (q : Pending) → length (names q) ≡ length q
length-names [] = refl
length-names (e ∷ q) = ap suc (length-names q)

ready-elem : (c : Text) (q : Pending) → elem c (ready_of q) ≡ true → elem c (names q) ≡ true
unfolding ready_of
ready-elem c q e = elem-keep-le c q (sym (sort-elem c _) ∙ e)

-- A list that is not empty has a member.
member : (xs : List Text) → is_nil xs ≡ false → (c : Text) × (elem c xs ≡ true)
member [] e = cc
member (x ∷ xs) e = (x, ground (arith, eq_refl x))

-- A round in which a node is ready leaves fewer nodes.
pub without-lt :
    (q : Pending) → is_nil (ready_of q) ≡ false → length (without (ready_of q) q) < length q
without-lt q e =
    let (c, found) = member (ready_of q) e in
    let shorter = length-keep_out-lt c (ready_of q) (names q) found (ready-elem c q found) in
    omega (
      arith,
      shorter,
      ap length (names-without (ready_of q) q),
      length-names q,
      length-names (without (ready_of q) q),
    )

drain-elem :
    (c : Text) (fuel : ℕ) (q : Pending) → length q ≤ fuel → elem c (drain fuel q) ≡ elem c (names q)
unfolding drain
drain-elem c zero [] h = refl
drain-elem c zero (e ∷ q) h = absurd (omega arith)
drain-elem c (suc fuel) [] h = refl
drain-elem c (suc fuel) (e ∷ q) h =
    let pending = e ∷ q in
    let ready = ready_of pending in
    elim (Bool-cases (is_nil ready)) [
      | inl stuck ↦ rw (stuck, drain) (sort-elem c (names pending))
      | inr some_ready ↦
          let rest =
            drain-elem c fuel (without ready pending)
              (omega (arith, without-lt pending some_ready)) in
          rw (some_ready, drain)
            (elem-append c ready _
              ∙ ap (λ b. elem c ready || b)
                  (rest
                    ∙ ap (elem c) (names-without ready pending)
                    ∙ elem-keep_out c ready (names pending))
              ∙ ground (arith, ready-elem c pending))
    ]

names-insert :
    (c k : Text) (v : List Text) (q : Pending)
    → elem c (names (insert k v q)) ≡ ((k == c) || elem c (names q))
unfolding insert
names-insert c k v [] = refl
names-insert c k v ((j, w) ∷ q) = elim (Bool-cases (j == k)) [
  | inl same ↦ rw ((eq_iff j k).0 same) (ground (arith, eq_refl k))
  | inr other ↦ ground (arith, names-insert c k v q)
]

pub names-pending_from :
    (c : Text) (nodes : List Text) (graph : Graph) (rest : List Text) (q : Pending)
    → elem c (names (pending_from nodes graph rest q)) ≡ (elem c rest || elem c (names q))
unfolding pending_from
names-pending_from c nodes graph [] q = refl
names-pending_from c nodes graph (node ∷ rest) q =
    names-pending_from c nodes graph rest (insert node (deps_within nodes graph node) q)
    ∙ ap (λ b. elem c rest || b) (names-insert c node (deps_within nodes graph node) q)
    ∙ ground arith

-- The order of some services holds exactly those services, whatever the graph says of them, its
-- cycles included.
pub topological_order-elem :
    (c : Text) (nodes : List Text) (graph : Graph)
    → elem c (topological_order nodes graph) ≡ elem c nodes
unfolding topological_order
topological_order-elem c nodes graph =
    drain-elem c _ (pending_from nodes graph nodes []) (omega arith)
    ∙ names-pending_from c nodes graph nodes []
    ∙ ground arith
