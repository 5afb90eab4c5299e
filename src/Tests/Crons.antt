-- ===== src/Tests/Crons.antt =====
-- A nightly expression, a list with a step, a step that overflows, and a plain calendar.
use freshdock.Prelude.{
  ℕ, ◌+◌, ◌-◌, ◌/◌, ◌%◌, ◌^◌, ◌≡◌, refl, ◌⊎◌, ◌↔◌, true, false, none, some, [], ◌∷◌, Text, codes,
  ◌==◌, ok, All, Any, arith,
}
use freshdock.Prelude.Split.{split, split_once}
use freshdock.Cron.{
  FieldSet, CronExpr, contains, parse_field, parse, matches, Calendar, floor_to_minute, next_after,
  max_step_minutes,
}
use freshdock.Cron.Grammar.{StandsFor, IsShort, parse_field-StandsFor}
use freshdock.Prelude.Cuts.{IsCut-split_once}
use freshdock.Prelude.Chars.{parse_uint}
use freshdock.Cron.Next.{minutes_later, FirstFires, NeverFires, next_after-FirstFires}
use freshdock.Cron.Days.{DayMatches, matches-DayMatches}

abbrev field : Text
field = codes "5,10-20/5"

abbrev minutes : FieldSet
minutes = record { mask = 2 ^ 5 + 2 ^ 10 + 2 ^ 15 + 2 ^ 20; star = false }

field_run : parse_field field 0 59 (codes "minute") ≡ ok minutes
unfolding parse_field
field_run = refl

-- The step wraps, and the minutes before the start are marked as well.
overflow_run :
    parse_field (codes "5/4294967295") 0 59 (codes "minute")
    ≡ ok (record { mask = 63; star = false })
unfolding parse_field
overflow_run = refl

first_cut : split_once b'/' (codes "5") ≡ none
unfolding split_once codes
first_cut = refl

second_cut : split_once b'/' (codes "10-20/5") ≡ some (codes "10-20", codes "5")
unfolding split_once codes
second_cut = refl

five : parse_uint 32 (codes "5") ≡ some 5
unfolding parse_uint codes
five = refl

field-split : split b',' field ≡ codes "5" ∷ codes "10-20/5" ∷ []
unfolding split codes
field-split = refl

first_part : IsShort 59 (codes "5")
first_part range s step cut number =
    let is = IsCut-split_once b'/' (codes "5") range s cut in let same = first_cut in cc

second_part : IsShort 59 (codes "10-20/5")
second_part range s step cut number =
    let is = IsCut-split_once b'/' (codes "10-20/5") range s cut in
    let same = second_cut in
    let text : codes "5" ≡ s = cc in
    let number' : parse_uint 32 (codes "5") ≡ some step = rw text number in
    let run = five in let step_five : step ≡ 5 = cc in omega arith

short : All (IsShort 59) (split b',' field)
short = rw (field-split) (first_part, (second_part, tt))

fifteen : contains minutes 15 ≡ true
unfolding contains
fifteen = refl

parse_field-StandsFor_example :
    ((contains minutes 15 ≡ true) ↔ Any (λ part. StandsFor 0 59 part 15) (split b',' field))
    × (minutes.star ≡ (field == codes "*"))
parse_field-StandsFor_example =
    parse_field-StandsFor field 0 59 (codes "minute") minutes 15 (omega arith) (omega arith) short
      field_run

-- Instants are seconds from the start of a Sunday, in months of 30 days.
abbrev pub seconds : Calendar ℕ
seconds = record {
  minute = λ t. t / 60 % 60;
  hour = λ t. t / 3600 % 24;
  day = λ t. 1 + t / 86400 % 30;
  month = λ t. 1 + t / 2592000 % 12;
  num_days_from_sunday = λ t. t / 86400 % 7;
  plus_minute = λ t. t + 60;
  with_second_zero = λ t. some (t - t % 60);
  with_nanosecond_zero = λ t. some t;
}

abbrev every_five : CronExpr
every_five = record {
  minute = record { mask = 2 ^ 0 + 2 ^ 5 + 2 ^ 10; star = false };
  hour = record { mask = 2 ^ 24 - 1; star = true };
  dom = record { mask = 2 ^ 32 - 2; star = true };
  month = record { mask = 2 ^ 13 - 2; star = true };
  dow = record { mask = 2 ^ 1 + 2 ^ 2; star = false };
}

expr_run : parse (codes "0,5,10 *  * * 1-2") ≡ ok every_five
unfolding parse parse_field
expr_run = refl

next_run : next_after seconds every_five 86463 ≡ some 86700
unfolding next_after
next_run = refl

matches-DayMatches_example : (matches every_five 5 4 17 3 2 ≡ true) ↔ (
    (contains every_five.minute 5 ≡ true)
    × (contains every_five.hour 4 ≡ true)
    × (contains every_five.month 3 ≡ true)
    × DayMatches every_five 17 2)
matches-DayMatches_example =
    matches-DayMatches (codes "0,5,10 *  * * 1-2") every_five 5 4 17 3 2 expr_run (omega arith)
      (omega arith) (omega arith)

next_after-FirstFires_example :
    ((floor_to_minute seconds 86463 ≡ none) × (next_after seconds every_five 86463 ≡ none))
    ⊎ ((whole : ℕ) × (floor_to_minute seconds 86463 ≡ some whole)
        × (((k : ℕ) × FirstFires seconds every_five max_step_minutes
                (minutes_later seconds 1 whole)
                k
              × (next_after seconds every_five 86463
                  ≡ some (minutes_later seconds k (minutes_later seconds 1 whole))))
            ⊎ NeverFires seconds every_five max_step_minutes (minutes_later seconds 1 whole)
              × (next_after seconds every_five 86463 ≡ none)))
next_after-FirstFires_example = next_after-FirstFires seconds every_five 86463
