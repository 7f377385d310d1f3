-- ===== src/Mental/Cron.antt =====
-- crates/memgardend/src/mental/cron.rs: the schedule and when it has last fired. The civil calendar of
-- the crate jiff is a parameter.
pub mod Latest
pub mod Walk
use memgarden.Prelude.{
  ℕ, zero, suc, ◌+◌, ◌-◌, ◌*◌, Bool, true, false, not, ◌&&◌, ◌||◌, Option, none, some, List, [],
  ◌∷◌, map, ltb, leb, ◌==◌, if◌then◌else◌,
}
use mathlib.Core.Option
use memgarden.Prelude.Int.{ℤ, ltb_ℤ}
use memgarden.Prelude.Lists.{keep_if}
use memgarden.Prelude.Text.{Text, codes, cons_head, is_nil, is_white, same_text}
use memgarden.Mental.Field.{parse_field, has}

abbrev pub max_lookback_days : ℕ
max_lookback_days = 366 * 4

pub record Cron : Type 0 where
  pub minute : List ℕ
  pub hour : List ℕ
  pub dom : List ℕ
  pub month : List ℕ
  pub dow : List ℕ
  pub dom_restricted : Bool
  pub dow_restricted : Bool

unfoldable cut_white : Text → List Text
unfolding is_white
cut_white [] = [] ∷ []
cut_white (c ∷ s) = let rest = cut_white s in if is_white c then [] ∷ rest else cons_head c rest

-- `expr.split_whitespace()`
unfoldable pub words : Text → List Text
unfolding cut_white
words s = keep_if (λ w. not (is_nil w)) (cut_white s)

-- `7` is Sunday as well.
abbrev pub sunday : ℕ → ℕ
sunday d = if d == 7 then 0 else d

unfoldable pub cron_of : Text → Text → Text → Text → Text → Option Cron
unfolding parse_field
cron_of minute hour dom month dow = elim (parse_field minute 0 59) [
  | none ↦ none
  | some mi ↦ elim (parse_field hour 0 23) [
    | none ↦ none
    | some ho ↦ elim (parse_field dom 1 31) [
      | none ↦ none
      | some dm ↦ elim (parse_field month 1 12) [
        | none ↦ none
        | some mo ↦ elim (parse_field dow 0 7) [
          | none ↦ none
          | some dw ↦ some (record {
            minute = mi;
            hour = ho;
            dom = dm;
            month = mo;
            dow = map sunday dw;
            dom_restricted = not (same_text dom (codes "*"));
            dow_restricted = not (same_text dow (codes "*"));
          })
        ]
      ]
    ]
  ]
]

abbrev pub of_fields : List Text → Option Cron
of_fields (a ∷ b ∷ c ∷ d ∷ e ∷ []) = cron_of a b c d e
of_fields _ = none

unfoldable pub parse : Text → Option Cron
unfolding words cron_of
parse expr = of_fields (words expr)

-- `iter().rev().find(p)` and `iter().rev().find_map(f)`
unfoldable pub find_last {ℓ} : {A : Type ℓ} → (A → Bool) → List A → Option A
find_last p [] = none
find_last p (x ∷ xs) = elim (find_last p xs) [
  | some y ↦ some y
  | none ↦ if p x then some x else none
]

unfoldable pub find_map_last {ℓ κ} : {A : Type ℓ} {B : Type κ} → (A → Option B) → List A → Option B
find_map_last f [] = none
find_map_last f (x ∷ xs) = elim (find_map_last f xs) [ some y ↦ some y | none ↦ f x ]

-- One hour of `latest_minute_at_or_before`.
unfoldable pub latest_in_hour : List ℕ → ℕ → ℕ → Option ℕ
unfolding find_last
latest_in_hour minutes cutoff h =
    if ltb cutoff (h * 60) then none else elim (find_last (λ m. leb m (cutoff - h * 60)) minutes) [
      | none ↦ none
      | some m ↦ some (h * 60 + m)
    ]

unfoldable pub latest_minute_at_or_before : Cron → ℕ → Option ℕ
unfolding find_map_last latest_in_hour
latest_minute_at_or_before c cutoff = find_map_last (latest_in_hour c.minute cutoff) c.hour

-- What the code uses of jiff. `civil` is the date and the minute of the day of an instant.
pub record Calendar : Type 1 where
  pub Date : Type 0
  pub civil : ℤ → Option (Date × ℕ)
  pub month : Date → ℕ
  pub day : Date → ℕ
  pub weekday : Date → ℕ
  pub yesterday : Date → Option Date
  pub instant : Date → ℕ → Option ℤ

-- `AFTER_CONSOLIDATION`
abbrev pub after_consolidation : Text
after_consolidation = codes "@after-consolidation"

module _ (k : Calendar) where
  open k use {Date, civil, yesterday, instant}

  unfoldable pub matches_date : Cron → Date → Bool
  matches_date c date =
      let dom_hit = has (k.day date) c.dom in
      let dow_hit = has (k.weekday date) c.dow in
      if has (k.month date) c.month
      then (if c.dom_restricted && c.dow_restricted then dom_hit || dow_hit else dom_hit && dow_hit)
      else false

  -- The day's fire time, in minutes.
  unfoldable pub fires_on : Cron → Date → ℕ → Option ℕ
  unfolding matches_date latest_minute_at_or_before
  fires_on c date cutoff = if matches_date c date then latest_minute_at_or_before c cutoff else none

  -- The loop over the days, with the days that are left.
  unfoldable pub walk : Cron → ℕ → Date → ℕ → Option ℤ
  unfolding fires_on
  walk c zero date cutoff = none
  walk c (suc left) date cutoff = elim (fires_on c date cutoff) [
    | some mins ↦ instant date mins
    | none ↦ elim (yesterday date) [ none ↦ none | some y ↦ walk c left y (23 * 60 + 59) ]
  ]

  unfoldable pub prev_fire : Cron → ℤ → Option ℤ
  unfolding walk
  prev_fire c now = elim (civil now) [
    | none ↦ none
    | some (date, cutoff) ↦ walk c max_lookback_days date cutoff
  ]

  abbrev pub due_since : Option ℤ → Option ℤ → Bool
  due_since none fired = true
  due_since (some last) (some fired) = ltb_ℤ last fired
  due_since (some last) none = false

  unfoldable pub is_due : Text → Option ℤ → ℤ → Bool
  unfolding parse prev_fire
  is_due expr last now =
      if same_text expr after_consolidation
      then false
      else elim (parse expr) [ none ↦ false | some c ↦ due_since last (prev_fire c now) ]
