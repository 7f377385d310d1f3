-- ===== src/Examples/Mental.antt =====
-- Schedules of crates/memgardend/src/mental/cron.rs, over a calendar of one long January whose instants
-- are minutes.
use memgarden.Prelude.{
  ℕ, zero, suc, ◌+◌, ◌*◌, ◌/◌, ◌%◌, ◌≡◌, ◌↔◌, true, false, Option, none, some, [], ◌∷◌, refl,
}
use memgarden.Prelude.Int.{pos, negsuc}
use memgarden.Prelude.Text.{Text, codes, split, contains, trim, is_white}
use memgarden.Prelude.Sort.{sort_by}
use memgarden.Mental.Field.{parse_field, has}
use memgarden.Mental.Field.Complete.{Among, parse_field-Written}
use memgarden.Mental.Field.Grammar.{Written}
use memgarden.Mental.Field.Bounds.{Ascending, Within, parse_field-Ascending}
use memgarden.Mental.Cron.{
  Cron, Calendar, parse, latest_minute_at_or_before, prev_fire, is_due, after_consolidation,
}
use memgarden.Mental.Cron.Latest.{Latest, latest_minute_at_or_before_lem}

abbrev before : ℕ → Option ℕ
before zero = none
before (suc d) = some d

abbrev january : Calendar
january = record {
  Date = ℕ;
  civil = λ t. some (elim t [ pos n ↦ (n / 1440, n % 1440) | negsuc n ↦ (0, 0) ]);
  month = λ d. 1;
  day = λ d. d;
  weekday = λ d. d % 7;
  yesterday = before;
  instant = λ d m. some (pos (d * 1440 + m));
}

abbrev half_past : Cron
half_past = record {
  minute = 0 ∷ 30 ∷ [];
  hour = 9 ∷ 17 ∷ [];
  dom = 2 ∷ [];
  month = 1 ∷ [];
  dow = 0 ∷ 1 ∷ 2 ∷ 3 ∷ 4 ∷ 5 ∷ 6 ∷ 0 ∷ [];
  dom_restricted = true;
  dow_restricted = false;
}

half_past_run :
    parse (codes "*/30 9,17 2 * *")
    ≡ some (record half_past { month = 1 ∷ 2 ∷ 3 ∷ 4 ∷ 5 ∷ 6 ∷ 7 ∷ 8 ∷ 9 ∷ 10 ∷ 11 ∷ 12 ∷ [] })
unfolding parse contains trim split sort_by
half_past_run = refl

-- The reserved word is no cron expression, and is never due by the clock.
reserved_run :
    (parse after_consolidation ≡ none) × (is_due january after_consolidation none (pos 5) ≡ false)
unfolding parse is_due
reserved_run = (refl, refl)

field_run : parse_field (codes "10-12,5,11") 0 59 ≡ some (5 ∷ 10 ∷ 11 ∷ 12 ∷ [])
unfolding parse_field split trim is_white contains sort_by
field_run = refl

parse_field-Written_example :
    (has 11 (5 ∷ 10 ∷ 11 ∷ 12 ∷ []) ≡ true)
    ↔ ((part : Text) × Among part (split (44 ∷ []) (codes "10-12,5,11")) × Written 0 59 part 11)
parse_field-Written_example =
    parse_field-Written (codes "10-12,5,11") 0 59 (5 ∷ 10 ∷ 11 ∷ 12 ∷ []) 11 field_run

parse_field-Ascending_example :
    Within 0 59 (5 ∷ 10 ∷ 11 ∷ 12 ∷ []) × Ascending (5 ∷ 10 ∷ 11 ∷ 12 ∷ [])
parse_field-Ascending_example =
    parse_field-Ascending (codes "10-12,5,11") 0 59 (5 ∷ 10 ∷ 11 ∷ 12 ∷ []) field_run

latest_minute_at_or_before_lem_example : Latest (9 ∷ 17 ∷ []) (0 ∷ 30 ∷ []) 1025 (
    latest_minute_at_or_before
      (record half_past { month = 1 ∷ 2 ∷ 3 ∷ 4 ∷ 5 ∷ 6 ∷ 7 ∷ 8 ∷ 9 ∷ 10 ∷ 11 ∷ 12 ∷ [] })
      1025)
latest_minute_at_or_before_lem_example =
    latest_minute_at_or_before_lem (codes "*/30 9,17 2 * *") _ 1025 half_past_run

-- Five past five on the fourth: the last time was half past five in the afternoon of the second.
prev_fire_run : prev_fire january half_past (pos (4 * 1440 + 305)) ≡ some (pos (2 * 1440 + 1050))
unfolding prev_fire
prev_fire_run = refl
