-- ===== src/Mental/Field.antt =====
-- crates/memgardend/src/mental/cron.rs: one field of a cron expression. A failure is none; its message
-- is left out. An `i8` of a field is a native number once it is known to be in the field's range.
pub mod Bounds
pub mod Complete
pub mod Grammar
use memgarden.Prelude.{
  ℕ, zero, suc, ◌+◌, ◌-◌, ◌*◌, Bool, true, false, not, ◌&&◌, ◌||◌, Option, none, some, List, [],
  ◌∷◌, ◌++◌, ltb, leb, ◌==◌, if◌then◌else◌,
}
use memgarden.Prelude.Int.{ℤ, pos, negsuc}
use memgarden.Prelude.Sort.{sort_by}
use memgarden.Prelude.Text.{Text, contains, trim, split, same_text}

-- The digits behind `n`, while the number stays within `limit`.
unfoldable pub digits : ℕ → ℕ → Text → Option ℕ
digits limit n [] = some n
digits limit n (c ∷ s) =
    let rest = digits limit (n * 10 + (c - 48)) s in
    if leb 48 c && (leb c 57 && leb (n * 10 + (c - 48)) limit) then rest else none

unfoldable pub unsigned : ℕ → Text → Option ℕ
unfolding digits
unsigned limit [] = none
unsigned limit (c ∷ s) = digits limit 0 (c ∷ s)

abbrev pub negated : Option ℕ → Option ℤ
negated none = none
negated (some zero) = some (pos 0)
negated (some (suc n)) = some (negsuc n)

abbrev pub positive : Option ℕ → Option ℤ
positive none = none
positive (some n) = some (pos n)

-- `s.parse::<i8>()`
unfoldable pub parse_i8 : Text → Option ℤ
unfolding unsigned
parse_i8 [] = none
parse_i8 (c ∷ s) =
    if c == 45
    then negated (unsigned 128 s)
    else if c == 43
    then positive (unsigned 127 s)
    else positive (unsigned 127 (c ∷ s))

abbrev pub in_range : ℕ → ℕ → Option ℤ → Option ℕ
in_range min max none = none
in_range min max (some (negsuc n)) = none
in_range min max (some (pos n)) = if leb min n && leb n max then some n else none

unfoldable pub num : Text → ℕ → ℕ → Option ℕ
unfolding parse_i8
num s min max = in_range min max (parse_i8 (trim s))

-- `s.split_once(c)`
unfoldable pub split_once : ℕ → Text → Option (Text × Text)
split_once c [] = none
split_once c (x ∷ s) = elim (split_once c s) [
  | none ↦ if x == c then some ([], s) else none
  | some (a, b) ↦ if x == c then some ([], s) else some (x ∷ a, b)
]

abbrev pub step_of : Option ℤ → Option ℕ
step_of (some (pos (suc n))) = some (suc n)
step_of _ = none

-- The range and the step of a part.
unfoldable pub range_step : Text → Option (Text × ℕ)
unfolding split_once parse_i8
range_step part = elim (split_once 47 part) [
  | none ↦ some (part, 1)
  | some (r, s) ↦ elim (step_of (parse_i8 s)) [ none ↦ none | some n ↦ some (r, n) ]
]

abbrev pub pair : Option ℕ → Option ℕ → Option (ℕ × ℕ)
pair (some a) (some b) = some (a, b)
pair _ _ = none

-- The two ends of a range; `open_end` says that the part has a step.
unfoldable pub ends : ℕ → ℕ → Bool → Text → Option (ℕ × ℕ)
unfolding num split_once
ends min max open_end range =
    if same_text range (42 ∷ []) then some (min, max) else elim (split_once 45 range) [
      | some (a, b) ↦ pair (num a min max) (num b min max)
      | none ↦ elim (num range min max) [
        | none ↦ none
        | some v ↦ some (v, if open_end then max else v)
      ]
    ]

-- `(lo..=hi).step_by(step)`, on fuel: one for each number up to `hi` is enough.
unfoldable pub step_by : ℕ → ℕ → ℕ → ℕ → List ℕ
step_by zero lo hi step = []
step_by (suc fuel) lo hi step =
    let rest = step_by fuel (lo + step) hi step in if leb lo hi then lo ∷ rest else []

-- The values that a part adds.
unfoldable pub part_values : ℕ → ℕ → Text → Option (List ℕ)
unfolding range_step ends step_by
part_values min max part = elim (range_step part) [
  | none ↦ none
  | some (range, step) ↦ elim (ends min max (contains (47 ∷ []) part) range) [
    | none ↦ none
    | some (lo, hi) ↦ if ltb hi lo then none else some (step_by (suc hi - lo) lo hi step)
  ]
]

unfoldable pub all_parts : ℕ → ℕ → List Text → Option (List ℕ)
unfolding part_values
all_parts min max [] = some []
all_parts min max (part ∷ parts) = elim (part_values min max part) [
  | none ↦ none
  | some vs ↦ elim (all_parts min max parts) [ none ↦ none | some ws ↦ some (vs ++ ws) ]
]

-- `dedup`: of equal neighbours the first stays.
unfoldable pub dedup : List ℕ → List ℕ
dedup [] = []
dedup (x ∷ []) = x ∷ []
dedup (x ∷ y ∷ ys) = let rest = dedup (y ∷ ys) in if x == y then rest else x ∷ rest

unfoldable pub parse_field : Text → ℕ → ℕ → Option (List ℕ)
unfolding all_parts dedup
parse_field field min max = elim (all_parts min max (split (44 ∷ []) field)) [
  | none ↦ none
  | some vs ↦ some (dedup (sort_by leb vs))
]

-- `xs.contains(&x)`
abbrev pub has : ℕ → List ℕ → Bool
has x [] = false
has x (y ∷ ys) = (y == x) || has x ys
