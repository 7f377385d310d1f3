-- ===== src/Mental/Field/Bounds.antt =====
-- What a field of crates/memgardend/src/mental/cron.rs holds once it is parsed.
use memgarden.Prelude.{
  ℕ, zero, suc, ◌+◌, ◌-◌, ◌≤◌, ◌<◌, Bool, true, false, ◌≡◌, Option, none, some, List, [], ◌∷◌, ◌++◌,
  inl, inr, arith, ltb, leb, ◌==◌, Bool-cases, Option-cases, leb→le,
}
use memgarden.Prelude.Int.{ℤ, pos, negsuc}
use memgarden.Prelude.Lists.{All, All-append, All-map}
use memgarden.Prelude.Sort.{sort_by, sort_by-All, sort_by-IsSorted, IsSorted}
use memgarden.Prelude.Text.{Text, same_text, split, contains, trim}
use memgarden.Mental.Field.{
  num, in_range, parse_i8, split_once, range_step, ends, pair, step_by, part_values, all_parts,
  dedup, parse_field,
}

-- Each number is lower than those behind it.
abbrev pub Ascending : List ℕ → Type 0
Ascending [] = Unit {0}
Ascending (x ∷ xs) = All (λ y. x < y) xs × Ascending xs

abbrev pub Within : ℕ → ℕ → List ℕ → Type 0
Within min max = All (λ x. (min ≤ x) × (x ≤ max))

in_range_lem : (min max v : ℕ) (z : Option ℤ) → in_range min max z ≡ some v → (min ≤ v) × (v ≤ max)
in_range_lem min max v none h = cc
in_range_lem min max v (some (negsuc n)) h = cc
in_range_lem min max v (some (pos n)) h = ground arith

num_lem : (s : Text) (min max v : ℕ) → num s min max ≡ some v → (min ≤ v) × (v ≤ max)
unfolding num
num_lem s min max v h = in_range_lem min max v (parse_i8 (trim s)) h

pair_lem : (p q : Option ℕ) (lo hi : ℕ) → pair p q ≡ some (lo, hi) → (p ≡ some lo) × (q ≡ some hi)
pair_lem none q lo hi h = cc
pair_lem (some a) none lo hi h = cc
pair_lem (some a) (some b) lo hi h = ground arith

ends_lem :
    (min max : ℕ) (open_end : Bool) (range : Text) (lo hi : ℕ)
    → ends min max open_end range ≡ some (lo, hi)
    → (min ≤ lo) × (hi ≤ max)
unfolding ends
ends_lem min max open_end range lo hi h = elim (Bool-cases (same_text range (42 ∷ []))) [
  | inl e ↦ ground arith
  | inr e ↦ elim (Option-cases (split_once 45 range)) [
    | inr ((a, b), f) ↦
        let (p, q) = pair_lem (num a min max) (num b min max) lo hi (rw (e, f) at h) in
        ((num_lem a min max lo p).0, (num_lem b min max hi q).1)
    | inl f ↦ elim (Option-cases (num range min max)) [
      | inl g ↦ ground arith
      | inr (v, g) ↦ let n = num_lem range min max v g in ground arith
    ]
  ]
]

step_by-Within :
    (min max fuel lo hi step : ℕ) → min ≤ lo → hi ≤ max → Within min max (step_by fuel lo hi step)
unfolding step_by
step_by-Within min max zero lo hi step p q = tt
step_by-Within min max (suc fuel) lo hi step p q = elim (Bool-cases (leb lo hi)) [
  | inl e ↦
      let l = leb→le lo hi e in
      rw e ((p, omega arith), step_by-Within min max fuel (lo + step) hi step (omega arith) q)
  | inr e ↦ rw e tt
]

part_values-Within :
    (min max : ℕ) (part : Text) (vs : List ℕ)
    → part_values min max part ≡ some vs
    → Within min max vs
unfolding part_values
part_values-Within min max part vs h = elim (Option-cases (range_step part)) [
  | inl e ↦ cc (rw (e, part_values) at h)
  | inr ((range, step), e) ↦ elim (Option-cases (ends min max (contains (47 ∷ []) part) range)) [
    | inl f ↦ cc (rw (e, part_values, f) at h)
    | inr ((lo, hi), f) ↦
        let (p, q) = ends_lem min max (contains (47 ∷ []) part) range lo hi f in
        elim (Bool-cases (ltb hi lo)) [
          | inl g ↦ cc (rw (e, part_values, f, g) at h)
          | inr g ↦
              let same : vs ≡ step_by (suc hi - lo) lo hi step =
                cc (rw (e, part_values, f, g) at h) in
              rw same (step_by-Within min max (suc hi - lo) lo hi step p q)
        ]
  ]
]

all_parts-Within :
    (min max : ℕ) (parts : List Text) (vs : List ℕ)
    → all_parts min max parts ≡ some vs
    → Within min max vs
unfolding all_parts
all_parts-Within min max [] vs h = let e : vs ≡ [] = cc h in rw e tt
all_parts-Within min max (part ∷ parts) vs h = elim (Option-cases (part_values min max part)) [
  | inl e ↦ cc (rw (e, all_parts) at h)
  | inr (us, e) ↦ elim (Option-cases (all_parts min max parts)) [
    | inl f ↦ cc (rw (e, all_parts, f) at h)
    | inr (ws, f) ↦
        let same : vs ≡ us ++ ws = cc (rw (e, all_parts, f) at h) in
        rw same (
          All-append _ us ws (part_values-Within min max part us e)
            (all_parts-Within min max parts ws f))
  ]
]

dedup-All : (P : ℕ → Type 0) (xs : List ℕ) → All P xs → All P (dedup xs)
unfolding dedup
dedup-All P [] h = tt
dedup-All P (x ∷ []) h = h
dedup-All P (x ∷ y ∷ ys) h = elim (Bool-cases (x == y)) [
  | inl e ↦ rw e (dedup-All P (y ∷ ys) h.1)
  | inr e ↦ rw e (h.0, dedup-All P (y ∷ ys) h.1)
]

above :
    (x y : ℕ) (ys : List ℕ)
    → leb x y ≡ true
    → (x == y) ≡ false
    → All (λ z. leb y z ≡ true) ys
    → All (λ z. x < z) (y ∷ ys)
above x y ys a b h = (ground arith, All-map (λ z k. ground arith) ys h)

dedup-Ascending : (xs : List ℕ) → IsSorted leb xs → Ascending (dedup xs)
unfolding dedup
dedup-Ascending [] s = tt
dedup-Ascending (x ∷ []) s = (tt, tt)
dedup-Ascending (x ∷ y ∷ ys) s = elim (Bool-cases (x == y)) [
  | inl e ↦ rw e (dedup-Ascending (y ∷ ys) s.1)
  | inr e ↦ rw e (dedup-All _ (y ∷ ys) (above x y ys s.0.0 e s.1.0), dedup-Ascending (y ∷ ys) s.1)
]

-- A field that parses holds numbers of its own range only, each once and in ascending order, whatever
-- lists, ranges and steps it is written with.
pub parse_field-Ascending :
    (field : Text) (min max : ℕ) (vs : List ℕ)
    → parse_field field min max ≡ some vs
    → Within min max vs × Ascending vs
unfolding parse_field
parse_field-Ascending field min max vs h =
    elim (Option-cases (all_parts min max (split (44 ∷ []) field))) [
      | inl e ↦ cc (rw (e, parse_field) at h)
      | inr (us, e) ↦
          let same : vs ≡ dedup (sort_by leb us) = cc (rw (e, parse_field) at h) in
          rw same (
            dedup-All _ (sort_by leb us)
                (sort_by-All leb _ us (all_parts-Within min max (split (44 ∷ []) field) us e)),
            dedup-Ascending (sort_by leb us)
                (sort_by-IsSorted leb (λ x y k. ground arith) (λ x y z k l. ground arith) us),
          )
    ]
