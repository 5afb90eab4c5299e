-- ===== src/Compose/Order/Sorted.antt =====
-- The order of a project puts a service behind the services that it depends on.
use freshdock.Prelude.{
  ℕ, zero, suc, ◌≤◌, ◌<◌, ◌≡◌, refl, sym, ◌∙◌, inl, inr, ◌⊎◌, true, false, not, List, [], ◌∷◌, ◌++◌,
  Text, ◌==◌, eq_iff, keep, length, arith, Bool-cases, All,
}
use freshdock.Compose.{elem}
use freshdock.Compose.Elem.{elem_self}
use freshdock.Compose.Order.{Pending, names, no_deps, is_nil, ready_of, without, drain}
use freshdock.Compose.Order.Complete.{sort-elem, without-lt, names-without, elem-keep_out}

-- No `a` comes before the first `d`.
abbrev pub Precedes : (d a : Text) → List Text → Type 0
Precedes d a [] = Unit {0}
Precedes d a (x ∷ xs) = ((x == d) ≡ true) ⊎ (((x == a) ≡ false) × Precedes d a xs)

Precedes-append :
    (d a : Text) (xs ys : List Text)
    → elem a xs ≡ false
    → (elem d xs ≡ true) ⊎ Precedes d a ys
    → Precedes d a (xs ++ ys)
Precedes-append d a [] ys out (inl e) = cc
Precedes-append d a [] ys out (inr p) = p
Precedes-append d a (x ∷ xs) ys out (inl e) = elim (Bool-cases (x == d)) [
  | inl same ↦ inl same
  | inr other ↦ inr (ground arith, Precedes-append d a xs ys (ground arith) (inl (ground arith)))
]
Precedes-append d a (x ∷ xs) ys out (inr p) =
    inr (ground arith, Precedes-append d a xs ys (ground arith) (inr p))

-- Each pending node has only dependencies of a lower rank, and each of them is pending.
abbrev pub Ranked : (Text → ℕ) → (all : List Text) → Pending → Type 0
Ranked rank all q =
    All (λ e. (x : Text) → elem x e.1 ≡ true → (rank x < rank e.0) × (elem x all ≡ true)) q

-- Each entry of `a` waits for `d`.
abbrev pub Waits : (d a : Text) → Pending → Type 0
Waits d a q = All (λ e. (e.0 == a) ≡ true → elem d e.1 ≡ true) q

Waits-ready : (d a : Text) (q : Pending) → Waits d a q → elem a (names (keep no_deps q)) ≡ false
Waits-ready d a [] w = refl
Waits-ready d a ((n, x ∷ xs) ∷ q) (w, ws) = Waits-ready d a q ws
Waits-ready d a ((n, []) ∷ q) (w, ws) = elim (Bool-cases (n == a)) [
  | inl same ↦ let never = w same in cc
  | inr other ↦ rw other (Waits-ready d a q ws)
]

-- A pending node either has no dependencies or one of a lower rank.
free_or_lower :
    (rank : Text → ℕ) (all : List Text) (x : Text) (q : Pending)
    → Ranked rank all q
    → elem x (names q) ≡ true
    → (elem x (names (keep no_deps q)) ≡ true)
      ⊎ ((y : Text) × (rank y < rank x) × (elem y all ≡ true))
free_or_lower rank all x [] r e = cc
free_or_lower rank all x ((n, []) ∷ q) (r, rs) e = elim (Bool-cases (n == x)) [
  | inl same ↦ inl (rw same refl)
  | inr other ↦ elim (free_or_lower rank all x q rs (rw other at e)) [
    | inl free ↦ inl (rw other free)
    | inr lower ↦ inr lower
  ]
]
free_or_lower rank all x ((n, y ∷ ys) ∷ q) (r, rs) e = elim (Bool-cases (n == x)) [
  | inl same ↦
      let (lower, pending) = r y (elem_self y ys) in
      inr (y, rw ((eq_iff n x).0 same) at lower, pending)
  | inr other ↦ free_or_lower rank all x q rs (rw other at e)
]

-- So some node is ready as long as one is pending.
descend :
    (rank : Text → ℕ) (q : Pending) (limit : ℕ) (x : Text)
    → Ranked rank (names q) q
    → rank x < limit
    → elem x (names q) ≡ true
    → (c : Text) × (elem c (names (keep no_deps q)) ≡ true)
descend rank q zero x r low e = absurd (omega arith)
descend rank q (suc limit) x r low e = elim (free_or_lower rank (names q) x q r e) [
  | inl free ↦ (x, free)
  | inr (y, lower, pending) ↦ descend rank q limit y r (omega arith) pending
]

not_stuck :
    (rank : Text → ℕ) (q : Pending) (x : Text)
    → Ranked rank (names q) q
    → elem x (names q) ≡ true
    → is_nil (ready_of q) ≡ false
unfolding ready_of
not_stuck rank q x r e =
    let (c, free) = descend rank q (suc (rank x)) x r (omega arith) e in
    not_nil c (ready_of q) (sort-elem c (names (keep no_deps q)) ∙ free)
  where
    not_nil : (c : Text) (xs : List Text) → elem c xs ≡ true → is_nil xs ≡ false
    not_nil c [] e = cc
    not_nil c (x ∷ xs) e = refl

module _ (ready : List Text) where
  left : List Text → List Text
  left xs = keep (λ n. not (elem n ready)) xs

  Ranked-without :
      (rank : Text → ℕ) (all : List Text) (q : Pending)
      → Ranked rank all q
      → Ranked rank (left all) (without ready q)
  unfolding without left
  Ranked-without rank all [] r = tt
  Ranked-without rank all ((n, ds) ∷ q) (r, rs) = elim (Bool-cases (elem n ready)) [
    | inl gone ↦ rw gone (Ranked-without rank all q rs)
    | inr stays ↦ rw stays (
      λ x e.
          let both = sym (elem-keep_out x ready ds) ∙ e in
          let (lower, pending) = r x (ground (arith, both)) in
          (lower, elem-keep_out x ready all ∙ ground (arith, both, pending)),
      Ranked-without rank all q rs,
    )
  ]

  Waits-without :
      (d a : Text) (q : Pending) → elem d ready ≡ false → Waits d a q → Waits d a (without ready q)
  unfolding without
  Waits-without d a [] out w = tt
  Waits-without d a ((n, ds) ∷ q) out (w, ws) = elim (Bool-cases (elem n ready)) [
    | inl gone ↦ rw gone (Waits-without d a q out ws)
    | inr stays ↦
        rw stays (
          λ same. elem-keep_out d ready ds ∙ ground (arith, w same, out),
          Waits-without d a q out ws,
        )
  ]

pub drain-Precedes :
    (rank : Text → ℕ) (d a : Text) (fuel : ℕ) (q : Pending)
    → length q ≤ fuel
    → Ranked rank (names q) q
    → Waits d a q
    → elem d (names q) ≡ true
    → Precedes d a (drain fuel q)
unfolding drain ready_of left
drain-Precedes rank d a fuel [] fits r w e = cc
drain-Precedes rank d a zero (e ∷ q) fits r w f = absurd (omega arith)
drain-Precedes rank d a (suc fuel) (e ∷ q) fits r w f =
    let pending = e ∷ q in
    let ready = ready_of pending in
    let moves = not_stuck rank pending d r f in
    let out = sort-elem a (names (keep no_deps pending)) ∙ Waits-ready d a pending w in
    rw (moves, drain)
      (Precedes-append d a ready _ out (elim (Bool-cases (elem d ready)) [
        | inl now ↦ inl now
        | inr later ↦ inr (
            drain-Precedes rank d a fuel (without ready pending)
              (omega (arith, without-lt pending moves))
              (rw (names-without ready pending)
                (Ranked-without ready rank (names pending) pending r))
              (Waits-without ready d a pending later w)
              (rw (names-without ready pending)
                (elem-keep_out d ready (names pending) ∙ ground arith)))
      ]))
