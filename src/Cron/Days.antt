-- ===== src/Cron/Days.antt =====
-- How the day of the month and the day of the week of an expression combine.
use freshdock.Prelude.{
  ℕ, ◌-◌, ◌≤◌, ◌<◌, ◌≡◌, ◌↔◌, ◌⊎◌, inl, refl, Bool, true, false, not, ◌&&◌, ◌||◌, if◌then◌else◌,
  List, [], ◌∷◌, Text, codes, ◌==◌, eq_iff, ok, arith,
}
use freshdock.Prelude.Results.{>>=-eq-ok}
use freshdock.Prelude.Split.{split, split_once, split_whitespace}
use freshdock.Cron.{
  FieldSet, CronExpr, contains, parse_step, parse_range, parse_parts, parse_field, parse_fields,
  parse, matches,
}
use freshdock.Cron.Field.{HasShortStep, parse_field-Denotes}

star_step : (name : Text) → parse_step (codes "*") name ≡ ok (codes "*", 1)
unfolding parse_step codes split_once
star_step name = refl

star_range : (min max : ℕ) (name : Text) → parse_range (codes "*") 1 min max name ≡ ok (min, max)
unfolding parse_range codes ◌==◌
star_range min max name = refl

star_parts : split b',' (codes "*") ≡ codes "*" ∷ []
unfolding split codes
star_parts = refl

-- The text `*` gives every value between the bounds.
star-contains :
    (min max : ℕ) (name : Text) (set : FieldSet) (value : ℕ)
    → max < 64
    → parse_field (codes "*") min max name ≡ ok set
    → min ≤ value
    → value ≤ max
    → contains set value ≡ true
star-contains min max name set value low e from to =
    let short : HasShortStep min max name (codes "*") =
      λ range step cut. let same = star_step name in let one : step ≡ 1 = cc in omega arith in
    let ((out, back), mark) =
      parse_field-Denotes (codes "*") min max name set value (omega arith) low
        (rw (star_parts) (short, tt)) e in
    back (
      rw (star_parts) (
        inl (
          codes "*",
          1,
          min,
          max,
          star_step name,
          star_range min max name,
          (value - min, omega arith, to),
        )))

star_field-contains :
    (field : Text) (min max : ℕ) (name : Text) (set : FieldSet) (value : ℕ)
    → max < 64
    → parse_field field min max name ≡ ok set
    → set.star ≡ true
    → min ≤ value
    → value ≤ max
    → contains set value ≡ true
unfolding parse_field
star_field-contains field min max name set value low e star from to =
    let (mask, read, e') = >>=-eq-ok (parse_parts (split b',' field) min max name 0) _ e in
    let same : field ≡ codes "*" = (eq_iff field (codes "*")).0 cc in
    star-contains min max name set value low (rw (same) at e) from to

-- The two day fields of a parsed expression come from fields of its text.
parse_fields-days :
    (fields : List Text) (e : CronExpr)
    → parse_fields fields ≡ ok e
    → (d : Text) × (w : Text) × (parse_field d 1 31 (codes "day-of-month") ≡ ok e.dom)
      × (parse_field w 0 6 (codes "day-of-week") ≡ ok e.dow)
unfolding parse_fields
parse_fields-days (m ∷ h ∷ d ∷ mo ∷ w ∷ []) e eq =
    let (minute, e1, r1) = >>=-eq-ok (parse_field m 0 59 (codes "minute")) _ eq in
    let (hour, e2, r2) = >>=-eq-ok (parse_field h 0 23 (codes "hour")) _ r1 in
    let (dom, e3, r3) = >>=-eq-ok (parse_field d 1 31 (codes "day-of-month")) _ r2 in
    let (month, e4, r4) = >>=-eq-ok (parse_field mo 1 12 (codes "month")) _ r3 in
    let (dow, e5, r5) = >>=-eq-ok (parse_field w 0 6 (codes "day-of-week")) _ r4 in
    let dom_eq : dom ≡ e.dom = cc in let dow_eq : dow ≡ e.dow = cc in (d, w, cc, cc)
parse_fields-days _ e eq = cc

-- Two restricted day fields match together where one of them matches; a `*` leaves the day to the
-- other one.
abbrev pub Combined : (dom_star dow_star dom_matches dow_matches : Bool) → Type 0
Combined true true dom_matches dow_matches = Unit
Combined true false dom_matches dow_matches = dow_matches ≡ true
Combined false true dom_matches dow_matches = dom_matches ≡ true
Combined false false dom_matches dow_matches = (dom_matches ≡ true) ⊎ (dow_matches ≡ true)

abbrev pub DayMatches : CronExpr → (dom dow : ℕ) → Type 0
DayMatches e dom dow = Combined e.dom.star e.dow.star (contains e.dom dom) (contains e.dow dow)

Combined-iff :
    (s s' a b : Bool)
    → (s ≡ true → a ≡ true)
    → (s' ≡ true → b ≡ true)
    → ((if not s && not s' then a || b else a && b) ≡ true) ↔ Combined s s' a b
Combined-iff true true a b f g = rw (f refl, g refl) (λ e. tt, λ u. refl)
Combined-iff true false a b f g = rw (f refl) (λ e. e, λ e. e)
Combined-iff false true a b f g = rw (g refl) (λ e. ground arith, λ e. ground arith)
Combined-iff false false a b f g = (λ e. ground arith, λ e. ground arith)

guarded_iff :
    (a b c r : Bool) (P : Type 0)
    → (r ≡ true) ↔ P
    → ((if not a || not b || not c then false else r) ≡ true)
      ↔ ((a ≡ true) × (b ≡ true) × (c ≡ true) × P)
guarded_iff true true true r P (out, back) =
    (λ e. (refl, refl, refl, out e), λ (x, y, z, p). back p)
guarded_iff true true false r P k = (λ e. cc, λ (x, y, z, p). cc)
guarded_iff true false c r P k = (λ e. cc, λ (x, y, z, p). cc)
guarded_iff false b c r P k = (λ e. cc, λ (x, y, z, p). cc)

-- For days within the calendar's bounds a parsed expression matches where the minute, the hour and
-- the month do and the two day fields match together.
pub matches-DayMatches :
    (text : Text) (e : CronExpr) (minute hour dom month dow : ℕ)
    → parse text ≡ ok e
    → 1 ≤ dom
    → dom ≤ 31
    → dow ≤ 6
    → (matches e minute hour dom month dow ≡ true) ↔ (
        (contains e.minute minute ≡ true)
        × (contains e.hour hour ≡ true)
        × (contains e.month month ≡ true)
        × DayMatches e dom dow)
unfolding parse matches
matches-DayMatches text e minute hour dom month dow read low high short =
    let (d, w, dom_read, dow_read) = parse_fields-days (split_whitespace text) e read in
    let all_doms = λ (star : e.dom.star ≡ true).
      star_field-contains d 1 31 (codes "day-of-month") e.dom dom (omega arith) dom_read star low
        high in
    let all_dows = λ (star : e.dow.star ≡ true).
      star_field-contains w 0 6 (codes "day-of-week") e.dow dow (omega arith) dow_read star
        (omega arith) short in
    guarded_iff (contains e.minute minute) (contains e.hour hour) (contains e.month month) _
      (DayMatches e dom dow)
      (Combined-iff e.dom.star e.dow.star (contains e.dom dom) (contains e.dow dow) all_doms
        all_dows)
