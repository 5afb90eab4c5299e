-- ===== src/Cron.antt =====
-- src/cron.rs: the five-field cron expressions and their next match. An instant of the calendar
-- library is a parameter: its local fields, the instant a minute later, and its whole minute.
pub mod Bits
pub mod Steps
pub mod Field
pub mod Grammar
pub mod Next
pub mod Days
use freshdock.Prelude.{
  ℕ, zero, suc, ◌+◌, ◌*◌, ◌/◌, ◌%◌, ◌^◌, Bool, true, false, ◌&&◌, ◌||◌, not, Option, none, some,
  List, [], ◌∷◌, Text, codes, ◌==◌, Result, ok, err, leb, ltb, eqb, if◌then◌else◌, length,
}
use freshdock.Prelude.Results.{◌>>=◌}
use freshdock.Prelude.Chars.{parse_uint}
use freshdock.Prelude.Split.{split, split_once, split_whitespace}

pub data CronError : Type 0 where
  field_count : ℕ → CronError
  bad_token : (field token : Text) → CronError
  out_of_range : (field : Text) (value min max : ℕ) → CronError
  inverted_range : (field : Text) (start end : ℕ) → CronError
  zero_step : (field : Text) → CronError

pub record FieldSet : Type 0 where
  pub mask : ℕ
  pub star : Bool

pub record CronExpr : Type 0 where
  pub minute : FieldSet
  pub hour : FieldSet
  pub dom : FieldSet
  pub month : FieldSet
  pub dow : FieldSet

-- `mask & (1 << i) != 0`
unfoldable pub bit : (i mask : ℕ) → Bool
bit zero mask = eqb (mask % 2) 1
bit (suc i) mask = bit i (mask / 2)

-- `mask | (1 << i)`
unfoldable pub set_bit : (i mask : ℕ) → ℕ
set_bit zero mask = if eqb (mask % 2) 1 then mask else mask + 1
set_bit (suc i) mask = 2 * set_bit i (mask / 2) + mask % 2

unfoldable pub contains : FieldSet → (value : ℕ) → Bool
unfolding bit
contains set value = ltb value 64 && bit value set.mask

unfoldable pub parse_value : (tok : Text) (min max : ℕ) (name : Text) → Result ℕ CronError
unfolding parse_uint
parse_value tok min max name = elim (parse_uint 32 tok) [
  | none ↦ err (bad_token name tok)
  | some v ↦ if ltb v min || ltb max v then err (out_of_range name v min max) else ok v
]

-- The part before a `/`, and the step after it; `1` where there is none.
unfoldable pub parse_step : (part name : Text) → Result (Text × ℕ) CronError
unfolding split_once parse_uint
parse_step part name = elim (split_once b'/' part) [
  | none ↦ ok (part, 1)
  | some (r, s) ↦ elim (parse_uint 32 s) [
    | none ↦ err (bad_token name part)
    | some step ↦ if eqb step 0 then err (zero_step name) else ok (r, step)
  ]
]

-- The values that a part starts and ends at.
unfoldable pub parse_range :
    (range : Text) (step min max : ℕ) (name : Text) → Result (ℕ × ℕ) CronError
unfolding codes ◌==◌ split_once parse_value
parse_range range step min max name =
    if range == codes "*" then ok (min, max) else elim (split_once b'-' range) [
      | some (a, b) ↦ do
        start ← parse_value a min max name
        end ← parse_value b min max name
        if ltb end start then err (inverted_range name start end) else ok (start, end)
      | none ↦ do v ← parse_value range min max name; if eqb step 1 then ok (v, v) else ok (v, max)
    ]

-- `while i <= end { mask |= 1 << i; i += step; }` on 32-bit numbers; `end + 1` rounds are enough.
unfoldable pub mark : (fuel i end step mask : ℕ) → ℕ
unfolding set_bit
mark zero i end step mask = mask
mark (suc fuel) i end step mask =
    let rest = mark fuel ((i + step) % 2 ^ 32) end step (set_bit i mask) in
    if leb i end then rest else mask

-- What one part of a comma list adds to the mask.
unfoldable pub parse_part :
    (part : Text) (min max : ℕ) (name : Text) (mask : ℕ) → Result ℕ CronError
unfolding parse_step parse_range mark
parse_part part min max name mask = do
  (range, step) ← parse_step part name
  (start, end) ← parse_range range step min max name
  ok (mark (end + 1) start end step mask)

unfoldable pub parse_parts : List Text → (min max : ℕ) (name : Text) (mask : ℕ) → Result ℕ CronError
unfolding parse_part
parse_parts [] min max name mask = ok mask
parse_parts (part ∷ parts) min max name mask = do
  next ← parse_part part min max name mask
  parse_parts parts min max name next

unfoldable pub parse_field : (field : Text) (min max : ℕ) (name : Text) → Result FieldSet CronError
unfolding codes ◌==◌ split parse_parts
parse_field field min max name = do
  mask ← parse_parts (split b',' field) min max name 0
  ok (record { mask = mask; star = field == codes "*" })

unfoldable pub parse_fields : List Text → Result CronExpr CronError
unfolding codes parse_field
parse_fields (m ∷ h ∷ d ∷ mo ∷ w ∷ []) = do
  minute ← parse_field m 0 59 (codes "minute")
  hour ← parse_field h 0 23 (codes "hour")
  dom ← parse_field d 1 31 (codes "day-of-month")
  month ← parse_field mo 1 12 (codes "month")
  dow ← parse_field w 0 6 (codes "day-of-week")
  ok (record { minute = minute; hour = hour; dom = dom; month = month; dow = dow })
parse_fields fields = err (field_count (length fields))

unfoldable pub parse : Text → Result CronExpr CronError
unfolding split_whitespace parse_fields
parse expr = parse_fields (split_whitespace expr)

unfoldable pub matches : CronExpr → (minute hour dom month dow : ℕ) → Bool
unfolding contains
matches e minute hour dom month dow =
    if not (contains e.minute minute) || not (contains e.hour hour) || not (contains e.month month)
    then false
    else if not e.dom.star && not e.dow.star
    then contains e.dom dom || contains e.dow dow
    else contains e.dom dom && contains e.dow dow

abbrev pub max_step_minutes : ℕ
max_step_minutes = 4 * 366 * 24 * 60

-- What the code uses of `DateTime<Tz>`.
pub record Calendar (Instant : Type 0) : Type 0 where
  pub minute : Instant → ℕ
  pub hour : Instant → ℕ
  pub day : Instant → ℕ
  pub month : Instant → ℕ
  pub num_days_from_sunday : Instant → ℕ
  pub plus_minute : Instant → Instant
  pub with_second_zero : Instant → Option Instant
  pub with_nanosecond_zero : Instant → Option Instant

module _ {Instant : Type 0} (calendar : Calendar Instant) where
  unfoldable pub floor_to_minute : Instant → Option Instant
  floor_to_minute dt = elim (calendar.with_second_zero dt) [
    | none ↦ none
    | some whole ↦ calendar.with_nanosecond_zero whole
  ]

  unfoldable pub fires_at : CronExpr → Instant → Bool
  unfolding matches
  fires_at e t =
      matches e (calendar.minute t) (calendar.hour t) (calendar.day t) (calendar.month t)
        (calendar.num_days_from_sunday t)

  unfoldable pub search_from : CronExpr → (left : ℕ) → Instant → Option Instant
  unfolding fires_at
  search_from e zero t = none
  search_from e (suc left) t = elim (fires_at e t) [
    | true ↦ some t
    | false ↦ search_from e left (calendar.plus_minute t)
  ]

  unfoldable pub next_after : CronExpr → (after : Instant) → Option Instant
  unfolding floor_to_minute search_from
  next_after e after = elim (floor_to_minute after) [
    | none ↦ none
    | some t ↦ search_from e max_step_minutes (calendar.plus_minute t)
  ]
