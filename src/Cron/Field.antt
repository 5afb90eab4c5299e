-- ===== src/Cron/Field.antt =====
-- The values that a parsed field contains.
use freshdock.Prelude.{
  ℕ, ◌+◌, ◌^◌, ◌≤◌, ◌<◌, ◌≡◌, sym, ◌∙◌, ◌↔◌, ◌⊎◌, inl, inr, true, List, [], ◌∷◌, Text, codes, ◌==◌,
  Result, ok, ltb, Any, All, Bool-cases, Option-cases, arith,
}
use freshdock.Prelude.Results.{>>=-eq-ok}
use freshdock.Prelude.Chars.{parse_uint, parse_uint-bound}
use freshdock.Prelude.Split.{split, split_once}
use freshdock.Cron.{
  CronError, FieldSet, bit, contains, parse_value, parse_step, parse_range, mark, parse_part,
  parse_parts, parse_field,
}
use freshdock.Cron.Bits.{bit-zero}
use freshdock.Cron.Steps.{IsStep, bit-mark}

module _ (min max : ℕ) (name : Text) where
  parse_value-bounds :
      (tok : Text) (v : ℕ) → parse_value tok min max name ≡ ok v → (min ≤ v) × (v ≤ max)
  unfolding parse_value
  parse_value-bounds tok v e = elim (Option-cases (parse_uint 32 tok)) [
    | inl bad ↦ let h = rw (bad, parse_value) at e in cc
    | inr (w, good) ↦ let h = rw (good, parse_value) at e in (ground arith, ground arith)
  ]

  parse_step-bounds :
      (part range : Text) (step : ℕ)
      → parse_step part name ≡ ok (range, step)
      → (1 ≤ step) × (step < 2 ^ 32)
  unfolding parse_step
  parse_step-bounds part range step e = elim (Option-cases (split_once b'/' part)) [
    | inl bare ↦ let h = rw (bare, parse_step) at e in (ground arith, ground arith)
    | inr ((r, s), cut) ↦
        let h = rw (cut, parse_step) at e in
        elim (Option-cases (parse_uint 32 s)) [
          | inl bad ↦ let h' = rw (bad) at h in cc
          | inr (n, good) ↦
              let small : n < 2 ^ 32 = parse_uint-bound 32 s n good in
              let h' = rw (good) at h in (ground arith, ground arith)
        ]
  ]

  parse_range-bounds :
      (range : Text) (step start end : ℕ)
      → min ≤ max
      → parse_range range step min max name ≡ ok (start, end)
      → (min ≤ start) × (start ≤ end) × (end ≤ max)
  unfolding parse_range
  parse_range-bounds range step start end le e = elim (Bool-cases (range == codes "*")) [
    | inl star ↦ let h = rw (star, parse_range) at e in (ground arith, ground arith, ground arith)
    | inr other ↦
        let h = rw (other, parse_range) at e in
        elim (Option-cases (split_once b'-' range)) [
          | inl single ↦
              let h' = rw (single) at h in
              let (v, read, rest) = >>=-eq-ok (parse_value range min max name) _ h' in
              let (low, high) = parse_value-bounds range v read in
              (ground arith, ground arith, ground arith)
          | inr ((a, b), cut) ↦
              let h' = rw (cut) at h in
              let (v, read, rest) = >>=-eq-ok (parse_value a min max name) _ h' in
              let (w, read', rest') = >>=-eq-ok (parse_value b min max name) _ rest in
              let (low, high) = parse_value-bounds a v read in
              let (low', high') = parse_value-bounds b w read' in
              (ground arith, ground arith, ground arith)
        ]
  ]

  -- The value is one that the part stands for: its start, or a number of its steps after it, up to
  -- its end.
  abbrev pub Denotes : (part : Text) (value : ℕ) → Type 0
  Denotes part value =
      (range : Text) × (step : ℕ) × (start : ℕ) × (end : ℕ) × (parse_step part name
        ≡ ok (range, step))
      × (parse_range range step min max name ≡ ok (start, end))
      × IsStep start end step value

  -- The part's step, where it has one, is too small to overflow 32 bits.
  abbrev pub HasShortStep : (part : Text) → Type 0
  HasShortStep part =
      (range : Text) (step : ℕ) → parse_step part name ≡ ok (range, step) → step + max < 2 ^ 32

  -- What a part was read as is all that it stands for.
  Denotes-read :
      (part range : Text) (step start end value : ℕ)
      → parse_step part name ≡ ok (range, step)
      → parse_range range step min max name ≡ ok (start, end)
      → Denotes part value
      → IsStep start end step value
  Denotes-read part range step start end value cut read
        (range', step', start', end', cut', read', k) =
      let pair : ◌≡◌ {A = Result (Text × ℕ) CronError} (ok (range, step)) (ok (range', step')) =
        sym cut ∙ cut' in
      let range_eq : range ≡ range' = cc in
      let step_eq : step ≡ step' = cc in
      let both : ◌≡◌ {A = Result (ℕ × ℕ) CronError} (ok (start, end)) (ok (start', end')) =
        sym (rw (range_eq, step_eq) at read) ∙ read' in
      let start_eq : start ≡ start' = cc in
      let end_eq : end ≡ end' = cc in rw (start_eq, end_eq, step_eq) k

  module _ (le : min ≤ max) (value : ℕ) where
    parse_part-Denotes :
        (part : Text) (mask next : ℕ)
        → HasShortStep part
        → parse_part part min max name mask ≡ ok next
        → (bit value next ≡ true) ↔ (Denotes part value ⊎ (bit value mask ≡ true))
    unfolding parse_part
    parse_part-Denotes part mask next short e =
        let ((range, step), cut, e') = >>=-eq-ok (parse_step part name) _ e in
        let ((start, end), read, e'') = >>=-eq-ok (parse_range range step min max name) _ e' in
        go range step start end cut read cc
      where
        go :
            (range : Text) (step start end : ℕ)
            → parse_step part name ≡ ok (range, step)
            → parse_range range step min max name ≡ ok (start, end)
            → next ≡ mark (end + 1) start end step mask
            → (bit value next ≡ true) ↔ (Denotes part value ⊎ (bit value mask ≡ true))
        go range step start end cut read same =
            let (low, order, high) = parse_range-bounds range step start end le read in
            let (positive, word) = parse_step-bounds part range step cut in
            let small = short range step cut in
            let (out, back) =
              bit-mark end step value positive (omega arith) (end + 1) start mask (omega arith) in
            rw (same) (
              λ b. elim (out b) [
                | inl k ↦ inl (range, step, start, end, cut, read, k)
                | inr old ↦ inr old
              ],
              λ why. elim why [
                | inl d ↦ back (inl (Denotes-read part range step start end value cut read d))
                | inr old ↦ back (inr old)
              ],
            )

    parse_parts-Denotes :
        (parts : List Text) (mask next : ℕ)
        → All HasShortStep parts
        → parse_parts parts min max name mask ≡ ok next
        → (bit value next ≡ true)
          ↔ (Any (λ part. Denotes part value) parts ⊎ (bit value mask ≡ true))
    unfolding parse_parts
    parse_parts-Denotes [] mask next short e =
        let same : mask ≡ next = cc in
        (
          λ b. inr (rw (same) b),
          λ why. elim why [ inl never ↦ absurd never | inr b ↦ rw (same) at b ],
        )
    parse_parts-Denotes (part ∷ parts) mask next (s, short) e =
        let (m, here, there) = >>=-eq-ok (parse_part part min max name mask) _ e in
        let (out, back) = parse_part-Denotes part mask m s here in
        let (outs, backs) = parse_parts-Denotes parts m next short there in
        (
          λ b. elim (outs b) [
            | inl later ↦ inl (inr later)
            | inr b' ↦ elim (out b') [ inl d ↦ inl (inl d) | inr old ↦ inr old ]
          ],
          λ why. elim why [
            | inl (inl d) ↦ backs (inr (back (inl d)))
            | inl (inr later) ↦ backs (inl later)
            | inr old ↦ backs (inr (back (inr old)))
          ],
        )

parts-bounds :
    (min max : ℕ) (name : Text) (value : ℕ) (parts : List Text)
    → min ≤ max
    → Any (λ part. Denotes min max name part value) parts
    → (min ≤ value) × (value ≤ max)
parts-bounds min max name value [] le never = absurd never
parts-bounds min max name value (part ∷ parts) le (inr later) =
    parts-bounds min max name value parts le later
parts-bounds min max name value (part ∷ parts) le
      (inl (range, step, start, end, cut, read, (k, e, high))) =
    let (low, order, top) = parse_range-bounds min max name range step start end le read in
    (omega arith, omega arith)

-- A field contains exactly the values that some part of its comma list stands for, where no step is
-- so large that it overflows 32 bits; it has the star mark exactly where its text is `*`.
pub parse_field-Denotes :
    (field : Text) (min max : ℕ) (name : Text) (set : FieldSet) (value : ℕ)
    → min ≤ max
    → max < 64
    → All (HasShortStep min max name) (split b',' field)
    → parse_field field min max name ≡ ok set
    → ((contains set value ≡ true)
        ↔ Any (λ part. Denotes min max name part value) (split b',' field))
      × (set.star ≡ (field == codes "*"))
unfolding parse_field contains
parse_field-Denotes field min max name set value le low short e =
    let (mask, read, e') = >>=-eq-ok (parse_parts (split b',' field) min max name 0) _ e in
    let (out, back) =
      parse_parts-Denotes min max name le value (split b',' field) 0 mask short read in
    let same : set.mask ≡ mask = cc in
    (
      (
        λ c. elim (out (ground arith)) [ inl d ↦ d | inr b ↦ let no_bit = bit-zero value in cc ],
        λ d.
            let (bottom, top) = parts-bounds min max name value (split b',' field) le d in
            let small : ltb value 64 ≡ true = ground arith in rw (small, same) (back (inl d)),
      ),
      cc,
    )

-- A field contains only values between its bounds, where no step overflows 32 bits.
pub parse_field-bounds :
    (field : Text) (min max : ℕ) (name : Text) (set : FieldSet) (value : ℕ)
    → min ≤ max
    → max < 64
    → All (HasShortStep min max name) (split b',' field)
    → parse_field field min max name ≡ ok set
    → contains set value ≡ true
    → (min ≤ value) × (value ≤ max)
parse_field-bounds field min max name set value le low short e c =
    let ((out, back), star) = parse_field-Denotes field min max name set value le low short e in
    parts-bounds min max name value (split b',' field) le (out c)
