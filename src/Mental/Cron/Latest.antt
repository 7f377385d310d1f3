-- ===== src/Mental/Cron/Latest.antt =====
-- Which minute of a day `latest_minute_at_or_before` of crates/memgardend/src/mental/cron.rs picks.
use memgarden.Prelude.{
  ℕ, ◌+◌, ◌-◌, ◌*◌, ◌≤◌, ◌<◌, true, ◌≡◌, Option, none, some, List, [], ◌∷◌, inl, inr, refl, subst,
  arith, ltb, leb, ◌==◌, if◌then◌else◌, Bool-cases, leb→le,
}
use memgarden.Prelude.Lists.{All, All-map}
use memgarden.Prelude.Text.{Text}
use memgarden.Mental.Field.{parse_field, has}
use memgarden.Mental.Field.Bounds.{Ascending, Within, parse_field-Ascending}
use memgarden.Mental.Cron.{
  Cron, find_last, find_map_last, latest_in_hour, latest_minute_at_or_before, cron_of, of_fields,
  parse, words,
}

-- `o` is the last of `xs` that is no more than `room`.
abbrev LastOf : List ℕ → ℕ → Option ℕ → Type 0
LastOf xs room none = All (λ x. room < x) xs
LastOf xs room (some m) = (m ≤ room) × (has m xs ≡ true) × All (λ x. x ≤ room → x ≤ m) xs

All-has : (P : ℕ → Type 0) (m : ℕ) (xs : List ℕ) → All P xs → has m xs ≡ true → P m
All-has P m [] h e = cc
All-has P m (y ∷ ys) h e = elim (Bool-cases (y == m)) [
  | inl f ↦ let g : y ≡ m = ground arith in subst P g h.0
  | inr f ↦ All-has P m ys h.1 (rw f at e)
]

same_self : (x : ℕ) → (x == x) ≡ true
same_self x = ground arith

find_last-LastOf :
    (xs : List ℕ) (room : ℕ) → Ascending xs → LastOf xs room (find_last (λ m. leb m room) xs)
unfolding find_last
find_last-LastOf [] room a = tt
find_last-LastOf (x ∷ xs) room a =
    step (find_last (λ m. leb m room) xs) (find_last-LastOf xs room a.1)
  where
    step :
        (o : Option ℕ)
        → LastOf xs room o
        → LastOf (x ∷ xs) room (elim o as (λ _. Option ℕ) [
          | some y ↦ some y
          | none ↦ if leb x room then some x else none
        ])
    step (some m) h =
        (h.0, ground (arith, h.1), ((λ l. omega (arith, All-has (λ y. x < y) m xs a.0 h.1)), h.2))
    step none h = elim (Bool-cases (leb x room)) [
      | inl e ↦ rw e (
        leb→le x room e,
        ground (arith, same_self x),
        ((λ l. omega arith), All-map (λ y b c. absurd (omega arith)) xs h),
      )
      | inr e ↦ rw e (ground arith, h)
    ]

-- `o` is the latest minute of the day, among the given hours and minutes, that is not after `cutoff`.
abbrev pub Latest : List ℕ → List ℕ → ℕ → Option ℕ → Type 0
Latest hours minutes cutoff none = All (λ h. All (λ m. cutoff < h * 60 + m) minutes) hours
Latest hours minutes cutoff (some t) =
    (t ≤ cutoff)
    × ((h : ℕ) × (m : ℕ) × (has h hours ≡ true) × (has m minutes ≡ true) × (t ≡ h * 60 + m))
    × All (λ h. All (λ m. h * 60 + m ≤ cutoff → h * 60 + m ≤ t) minutes) hours

-- The same for one hour.
abbrev InHour : List ℕ → ℕ → ℕ → Option ℕ → Type 0
InHour minutes cutoff h none = All (λ m. cutoff < h * 60 + m) minutes
InHour minutes cutoff h (some t) =
    (t ≤ cutoff)
    × ((m : ℕ) × (has m minutes ≡ true) × (t ≡ h * 60 + m))
    × All (λ m. h * 60 + m ≤ cutoff → h * 60 + m ≤ t) minutes

all_of : (P : ℕ → Type 0) (xs : List ℕ) → ((x : ℕ) → P x) → All P xs
all_of P [] f = tt
all_of P (x ∷ xs) f = (f x, all_of P xs f)

latest_in_hour-InHour :
    (minutes : List ℕ) (cutoff h : ℕ)
    → Ascending minutes
    → InHour minutes cutoff h (latest_in_hour minutes cutoff h)
unfolding latest_in_hour
latest_in_hour-InHour minutes cutoff h a = elim (Bool-cases (ltb cutoff (h * 60))) [
  | inl e ↦ rw e (all_of (λ m. cutoff < h * 60 + m) minutes (λ m. ground arith))
  | inr e ↦
      let b : h * 60 ≤ cutoff = ground arith in
      rw e (
        step b (find_last (λ m. leb m (cutoff - h * 60)) minutes)
          (find_last-LastOf minutes (cutoff - h * 60) a))
]
  where
    step :
        h * 60 ≤ cutoff
        → (o : Option ℕ) → LastOf minutes (cutoff - h * 60) o
        → InHour minutes cutoff h
            (elim o as (λ _. Option ℕ) [ none ↦ none | some m ↦ some (h * 60 + m) ])
    step b none k = All-map (λ m l. omega arith) minutes k
    step b (some m) k =
        (omega arith, (m, k.1, refl), All-map (λ x f l. omega (arith, f (omega arith))) minutes k.2)

-- Hours apart leave no room for a later minute of an earlier hour.
latest_minute_lem :
    (minutes hours : List ℕ) (cutoff : ℕ)
    → Within 0 59 minutes
    → Ascending minutes
    → Ascending hours
    → Latest hours minutes cutoff (find_map_last (latest_in_hour minutes cutoff) hours)
unfolding find_map_last
latest_minute_lem minutes [] cutoff w a b = tt
latest_minute_lem minutes (x ∷ hours) cutoff w a b =
    step (find_map_last (latest_in_hour minutes cutoff) hours)
      (latest_minute_lem minutes hours cutoff w a b.1) (latest_in_hour minutes cutoff x)
      (latest_in_hour-InHour minutes cutoff x a)
  where
    step :
        (o : Option ℕ)
        → Latest hours minutes cutoff o
        → (p : Option ℕ) → InHour minutes cutoff x p
        → Latest
            (x ∷ hours)
            minutes
            cutoff
            (elim o as (λ _. Option ℕ) [ some y ↦ some y | none ↦ p ])
    step none h none k = (k, h)
    step none h (some t) k =
        let (m, e, f) = k.1 in
        (
          k.0,
          (x, m, ground (arith, same_self x), e, f),
          (k.2, All-map (λ y. All-map (λ n c l. absurd (omega arith)) minutes) hours h),
        )
    step (some t) h p k =
        let (y, m, e, f, g) = h.1 in
        let later : x < y = All-has (λ z. x < z) y hours b.0 e in
        (h.0, (y, m, ground (arith, e), f, g), (All-map (λ n c l. omega arith) minutes w, h.2))

cron_of-fields :
    (a b c d e : Text) (k : Cron)
    → cron_of a b c d e ≡ some k
    → (parse_field a 0 59 ≡ some k.minute) × (parse_field b 0 23 ≡ some k.hour)
unfolding cron_of
cron_of-fields a b c d e k h = ground arith

of_fields-IsField :
    (ws : List Text) (k : Cron)
    → of_fields ws ≡ some k
    → (a : Text) × (b : Text) × (parse_field a 0 59 ≡ some k.minute)
      × (parse_field b 0 23 ≡ some k.hour)
of_fields-IsField (a ∷ b ∷ c ∷ d ∷ e ∷ []) k h =
    let (p, q) = cron_of-fields a b c d e k h in (a, b, p, q)
of_fields-IsField [] k h = cc
of_fields-IsField (a ∷ []) k h = cc
of_fields-IsField (a ∷ b ∷ []) k h = cc
of_fields-IsField (a ∷ b ∷ c ∷ []) k h = cc
of_fields-IsField (a ∷ b ∷ c ∷ d ∷ []) k h = cc
of_fields-IsField (a ∷ b ∷ c ∷ d ∷ e ∷ f ∷ g) k h = cc

-- For every expression that parses: the minute of the day that is picked is the latest one, of all
-- hours and minutes that the expression allows, which is not after the cutoff; there is none exactly
-- when each of them is after it.
pub latest_minute_at_or_before_lem :
    (expr : Text) (k : Cron) (cutoff : ℕ)
    → parse expr ≡ some k
    → Latest k.hour k.minute cutoff (latest_minute_at_or_before k cutoff)
unfolding parse latest_minute_at_or_before
latest_minute_at_or_before_lem expr k cutoff h =
    let (a, b, p, q) = of_fields-IsField (words expr) k h in
    let (within, up) = parse_field-Ascending a 0 59 k.minute p in
    latest_minute_lem k.minute k.hour cutoff within up (parse_field-Ascending b 0 23 k.hour q).1
