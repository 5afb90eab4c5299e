-- ===== src/Cron/Grammar.antt =====
-- The values that the text of a field stands for, and that the parsed field contains.
use freshdock.Prelude.{
  ℕ, ◌+◌, ◌^◌, ◌≤◌, ◌<◌, ◌≡◌, ◌≢◌, refl, sym, ◌∙◌, ◌↔◌, ◌⊎◌, inl, inr, true, false, some, List, [],
  ◌∷◌, Text, codes, ◌==◌, eq_iff, ok, ltb, eqb, Any, All, Bool-cases, Option-cases, arith,
}
use freshdock.Prelude.Results.{>>=-eq-ok}
use freshdock.Prelude.Chars.{parse_uint}
use freshdock.Prelude.Split.{split, split_once, contains}
use freshdock.Prelude.Cuts.{
  IsCut, split_once-none, split_once-append, none-contains, split_once-IsCut,
}
use freshdock.Cron
use freshdock.Cron.{FieldSet, parse_value, parse_step, parse_range, parse_field}
use freshdock.Cron.Steps.{IsStep}
use freshdock.Cron.Field.{Denotes, HasShortStep, parse_field-Denotes}

-- The text is that of a number of 32 bits.
abbrev pub IsNumber : Text → ℕ → Type 0
IsNumber s n = parse_uint 32 s ≡ some n

-- `range` or `range/step`
abbrev pub HasStep : (part range : Text) (step : ℕ) → Type 0
HasStep part range step =
    ((contains b'/' part ≡ false) × (range ≡ part) × (step ≡ 1))
    ⊎ (s : Text) × IsCut b'/' part range s × IsNumber s step × (1 ≤ step)

-- A step that is written out is too small to overflow 32 bits.
abbrev pub IsShort : (max : ℕ) (part : Text) → Type 0
IsShort max part =
    (range s : Text) (step : ℕ) → IsCut b'/' part range s → IsNumber s step → step + max < 2 ^ 32

-- Either `*`, or `a-b`, or `a`, which ends at `a` without a step or with the step 1, and at the last
-- value of the field with any other.
abbrev pub Spans : (min max : ℕ) (range : Text) (step start end : ℕ) → Type 0
Spans min max range step start end =
    ((range ≡ codes "*") × (start ≡ min) × (end ≡ max))
    ⊎ ((range ≢ codes "*")
        × ((a : Text) × (b : Text) × IsCut b'-' range a b
            × (IsNumber a start × (min ≤ start) × (start ≤ max))
            × (IsNumber b end × (min ≤ end) × (end ≤ max))
            × (start ≤ end)))
    ⊎ ((range ≢ codes "*")
        × (contains b'-' range ≡ false)
        × (IsNumber range start × (min ≤ start) × (start ≤ max))
        × (((step ≡ 1) × (end ≡ start)) ⊎ ((step ≢ 1) × (end ≡ max))))

-- The value is the start of the part's span, or a number of its steps after it, up to its end.
abbrev pub StandsFor : (min max : ℕ) (part : Text) (value : ℕ) → Type 0
StandsFor min max part value =
    (range : Text) × (step : ℕ) × (start : ℕ) × (end : ℕ) × HasStep part range step
    × Spans min max range step start end
    × IsStep start end step value

not_star : (range : Text) → range ≢ codes "*" → (range == codes "*") ≡ false
not_star range differs = elim (Bool-cases (range == codes "*")) [
  | inr other ↦ other
  | inl is ↦ absurd (differs ((eq_iff range (codes "*")).0 is))
]

module _ (min max : ℕ) (name : Text) where
  parse_step-HasStep :
      (part range : Text) (step : ℕ)
      → parse_step part name ≡ ok (range, step)
      → HasStep part range step
  unfolding parse_step
  parse_step-HasStep part range step e = elim (Option-cases (split_once b'/' part)) [
    | inl bare ↦ let e' = rw (bare, parse_step) at e in inl (none-contains b'/' part bare, cc, cc)
    | inr ((r, s), cut) ↦
        let e' = rw (cut, parse_step) at e in
        elim (Option-cases (parse_uint 32 s)) [
          | inl bad ↦ let e'' = rw bad at e' in cc
          | inr (n, good) ↦
              let e'' = rw good at e' in
              elim (Bool-cases (eqb n 0)) [
                | inl zero ↦ let e''' = rw zero at e'' in cc
                | inr positive ↦
                    let e''' = rw positive at e'' in
                    let same_range : r ≡ range = cc in
                    let same_step : n ≡ step = cc in
                    inr (
                      s,
                      rw (← same_range) (split_once-IsCut b'/' part r s cut),
                      rw (← same_step) good,
                      ground arith,
                    )
              ]
        ]
  ]

  HasStep-parse_step :
      (part range : Text) (step : ℕ)
      → HasStep part range step
      → parse_step part name ≡ ok (range, step)
  unfolding parse_step
  HasStep-parse_step part range step (inl (lacks, same, one)) =
      rw (split_once-none b'/' part lacks, same, one, parse_step) refl
  HasStep-parse_step part range step (inr (s, (whole, lacks), number, positive)) =
      let nonzero : eqb step 0 ≡ false = ground arith in
      rw (whole, split_once-append b'/' range s lacks, number, nonzero, parse_step) refl

  -- A number between the bounds.
  IsValue : Text → ℕ → Type 0
  IsValue tok v = IsNumber tok v × (min ≤ v) × (v ≤ max)

  parse_value-IsValue : (tok : Text) (v : ℕ) → parse_value tok min max name ≡ ok v → IsValue tok v
  unfolding parse_value IsValue
  parse_value-IsValue tok v e = elim (Option-cases (parse_uint 32 tok)) [
    | inl bad ↦ let h = rw (bad, parse_value) at e in cc
    | inr (w, good) ↦
        let h = rw (good, parse_value) at e in
        let same : w ≡ v = ground arith in (rw (← same) good, ground arith, ground arith)
  ]

  IsValue-parse_value : (tok : Text) (v : ℕ) → IsValue tok v → parse_value tok min max name ≡ ok v
  unfolding parse_value IsValue
  IsValue-parse_value tok v (number, low, high) = rw (number, parse_value) (ground arith)

  parse_range-Spans :
      (range : Text) (step start end : ℕ)
      → parse_range range step min max name ≡ ok (start, end)
      → Spans min max range step start end
  unfolding parse_range IsValue
  parse_range-Spans range step start end e = elim (Bool-cases (range == codes "*")) [
    | inl star ↦
        let h = rw (star, parse_range) at e in inl ((eq_iff range (codes "*")).0 star, cc, cc)
    | inr other ↦
        let h = rw (other, parse_range) at e in
        let differs : range ≢ codes "*" =
          λ is. let found : true ≡ false = sym ((eq_iff range (codes "*")).1 is) ∙ other in cc in
        elim (Option-cases (split_once b'-' range)) [
          | inl single ↦
              let h' = rw (single) at h in
              let (v, read, rest) = >>=-eq-ok (parse_value range min max name) _ h' in
              let (number, low, high) = parse_value-IsValue range v read in
              elim (Bool-cases (eqb step 1)) [
                | inl one ↦
                    let r = rw one at rest in
                    let first : v ≡ start = cc in
                    let last : v ≡ end = cc in
                    inr (
                      inr (
                        differs,
                        none-contains b'-' range single,
                        rw (← first) (number, low, high),
                        inl (ground arith, sym last ∙ first),
                      ))
                | inr many ↦
                    let r = rw many at rest in
                    let first : v ≡ start = cc in
                    let last : max ≡ end = cc in
                    inr (
                      inr (
                        differs,
                        none-contains b'-' range single,
                        rw (← first) (number, low, high),
                        inr ((λ one. ground (arith, one)), sym last),
                      ))
              ]
          | inr ((a, b), cut) ↦
              let h' = rw (cut) at h in
              let (v, read, rest) = >>=-eq-ok (parse_value a min max name) _ h' in
              let (w, read', rest') = >>=-eq-ok (parse_value b min max name) _ rest in
              elim (Bool-cases (ltb w v)) [
                | inl inverted ↦ let r = rw inverted at rest' in cc
                | inr order ↦
                    let r = rw order at rest' in
                    let first : v ≡ start = cc in
                    let last : w ≡ end = cc in
                    inr (
                      inl (
                        differs,
                        (
                          a,
                          b,
                          split_once-IsCut b'-' range a b cut,
                          rw (← first) (parse_value-IsValue a v read),
                          rw (← last) (parse_value-IsValue b w read'),
                          ground arith,
                        ),
                      ))
              ]
        ]
  ]

  Spans-parse_range :
      (range : Text) (step start end : ℕ)
      → Spans min max range step start end
      → parse_range range step min max name ≡ ok (start, end)
  unfolding parse_range IsValue
  Spans-parse_range range step start end (inl (star, first, last)) =
      rw (star, first, last, parse_range) refl
  Spans-parse_range range step start end (inr (inl (differs, (a, b, (whole, lacks), va, vb, le)))) =
      let order : ltb end start ≡ false = ground arith in
      rw (not_star range differs, parse_range)
        (rw
          (
            whole,
            split_once-append b'-' a b lacks,
            IsValue-parse_value a start va,
            IsValue-parse_value b end vb,
            order,
          )
          refl)
  Spans-parse_range range step start end (inr (inr (differs, lacks, v, how))) = elim how [
    | inl (one, last) ↦
        let is_one : eqb step 1 ≡ true = ground arith in
        rw
          (
            not_star range differs,
            split_once-none b'-' range lacks,
            IsValue-parse_value range start v,
            is_one,
            last,
            parse_range,
          )
          refl
    | inr (many, last) ↦
        let is_many : eqb step 1 ≡ false = ground arith in
        rw
          (
            not_star range differs,
            split_once-none b'-' range lacks,
            IsValue-parse_value range start v,
            is_many,
            last,
            parse_range,
          )
          refl
  ]

  Denotes-StandsFor :
      (part : Text) (value : ℕ) → Denotes min max name part value ↔ StandsFor min max part value
  Denotes-StandsFor part value = (
    λ (range, step, start, end, cut, read, k). (
      range,
      step,
      start,
      end,
      parse_step-HasStep part range step cut,
      parse_range-Spans range step start end read,
      k,
    ),
    λ (range, step, start, end, cut, read, k). (
      range,
      step,
      start,
      end,
      HasStep-parse_step part range step cut,
      Spans-parse_range range step start end read,
      k,
    ),
  )

  Any-StandsFor :
      (value : ℕ) (parts : List Text)
      → Any (λ part. Denotes min max name part value) parts
        ↔ Any (λ part. StandsFor min max part value) parts
  Any-StandsFor value [] = ((λ never. never), (λ never. never))
  Any-StandsFor value (part ∷ parts) =
      let (out, back) = Denotes-StandsFor part value in
      let (outs, backs) = Any-StandsFor value parts in
      (
        λ why. elim why [ inl here ↦ inl (out here) | inr later ↦ inr (outs later) ],
        λ why. elim why [ inl here ↦ inl (back here) | inr later ↦ inr (backs later) ],
      )

  short-IsShort : (part : Text) → max < 64 → IsShort max part → HasShortStep min max name part
  short-IsShort part low short range step cut = elim (parse_step-HasStep part range step cut) [
    | inl (lacks, same, one) ↦ omega arith
    | inr (s, whole, number, positive) ↦ short range s step whole number
  ]

  All-IsShort :
      (parts : List Text)
      → max < 64
      → All (IsShort max) parts
      → All (HasShortStep min max name) parts
  All-IsShort [] low short = tt
  All-IsShort (part ∷ parts) low (s, short) =
      (short-IsShort part low s, All-IsShort parts low short)

-- A parsed field, with bounds that are in order and below 64, contains exactly the values that some
-- part of its comma list stands for, where no step that is written out is so large that it overflows
-- 32 bits behind the field's last value; it has the star mark exactly where its text is `*`.
pub parse_field-StandsFor :
    (field : Text) (min max : ℕ) (name : Text) (set : FieldSet) (value : ℕ)
    → min ≤ max
    → max < 64
    → All (IsShort max) (split b',' field)
    → parse_field field min max name ≡ ok set
    → ((Cron.contains set value ≡ true)
        ↔ Any (λ part. StandsFor min max part value) (split b',' field))
      × (set.star ≡ (field == codes "*"))
parse_field-StandsFor field min max name set value le low short e =
    let ((out, back), star) =
      parse_field-Denotes field min max name set value le low
        (All-IsShort min max name (split b',' field) low short) e in
    let (there, again) = Any-StandsFor min max name value (split b',' field) in
    ((λ c. there (out c), λ why. back (again why)), star)
