-- ===== src/Mental/Field/Complete.antt =====
-- A field of crates/memgardend/src/mental/cron.rs holds every value that it is written with.
use memgarden.Prelude.{
  ◌⊎◌, ℕ, false, zero, suc, ◌+◌, ◌-◌, ◌*◌, ap, ◌≤◌, true, ◌≡◌, ◌↔◌, refl, subst, Option, none, some,
  List, [], ◌∷◌, ◌++◌, inl, inr, arith, ltb, leb, ◌==◌, Bool-cases, Option-cases, sym, ◌∙◌,
}
use memgarden.Prelude.Int.{ℤ, pos, negsuc}
use memgarden.Prelude.Sort.{insert_by, sort_by}
use memgarden.Prelude.Text.{Text, split, contains}
use memgarden.Mental.Field.Grammar.{
  Absent, Written, plain, by_steps, split_once-none, split_once-some, split_once_cases,
  contains-Absent, contains_cut, Span-ends, ends-Span,
}
use memgarden.Mental.Field.{
  split_once, parse_i8, step_of, range_step, ends, step_by, part_values, all_parts, dedup,
  parse_field, has,
}

-- The value that `n` steps lead to.
abbrev pub value_at : ℕ → ℕ → ℕ → ℕ
value_at lo step zero = lo
value_at lo step (suc n) = value_at (lo + step) step n

-- The part is one of the parts.
abbrev pub Among : Text → List Text → Type 0
Among part [] = ⊥
Among part (p ∷ ps) = (p ≡ part) ⊎ Among part ps

le-value_at : (lo step n : ℕ) → lo ≤ value_at lo step n
le-value_at lo step zero = omega arith
le-value_at lo step (suc n) = omega (arith, le-value_at (lo + step) step n)

has-step_by :
    (fuel lo hi step n : ℕ)
    → 1 ≤ step
    → suc hi - lo ≤ fuel
    → value_at lo step n ≤ hi
    → has (value_at lo step n) (step_by fuel lo hi step) ≡ true
unfolding step_by
has-step_by zero lo hi step n p f h = absurd (omega (arith, le-value_at lo step n))
has-step_by (suc fuel) lo hi step zero p f h = ground arith
has-step_by (suc fuel) lo hi step (suc n) p f h =
    let low = le-value_at (lo + step) step n in
    let fits : suc hi - (lo + step) ≤ fuel = omega arith in
    ground (arith, has-step_by fuel (lo + step) hi step n p fits h)

has-append_left : (v : ℕ) (xs ys : List ℕ) → has v xs ≡ true → has v (xs ++ ys) ≡ true
has-append_left v [] ys h = cc
has-append_left v (x ∷ xs) ys h = ground (arith, has-append_left v xs ys)

has-append_right : (v : ℕ) (xs ys : List ℕ) → has v ys ≡ true → has v (xs ++ ys) ≡ true
has-append_right v [] ys h = h
has-append_right v (x ∷ xs) ys h = ground (arith, has-append_right v xs ys h)

has-insert_by : (v x : ℕ) (ys : List ℕ) → has v (insert_by leb x ys) ≡ has v (x ∷ ys)
unfolding insert_by
has-insert_by v x [] = ground arith
has-insert_by v x (y ∷ ys) = ground (arith, has-insert_by v x ys)

has-sort_by : (v : ℕ) (xs : List ℕ) → has v (sort_by leb xs) ≡ has v xs
unfolding sort_by
has-sort_by v [] = ground arith
has-sort_by v (x ∷ xs) = has-insert_by v x (sort_by leb xs) ∙ ground (arith, has-sort_by v xs)

has-dedup : (v : ℕ) (xs : List ℕ) → has v (dedup xs) ≡ has v xs
unfolding dedup
has-dedup v [] = ground arith
has-dedup v (x ∷ []) = ground arith
has-dedup v (x ∷ y ∷ ys) = ground (arith, has-dedup v (y ∷ ys))

step_by_sound :
    (fuel lo hi step v : ℕ)
    → has v (step_by fuel lo hi step) ≡ true
    → (n : ℕ) × (v ≡ value_at lo step n) × (v ≤ hi)
unfolding step_by
step_by_sound zero lo hi step v h = cc
step_by_sound (suc fuel) lo hi step v h = elim (Bool-cases (leb lo hi)) [
  | inr e ↦ cc (rw e at h)
  | inl e ↦ elim (Bool-cases (lo == v)) [
    | inl f ↦ (0, ground arith, ground arith)
    | inr f ↦
        let (n, p, q) = step_by_sound fuel (lo + step) hi step v (rw (e, f) at h) in (suc n, p, q)
  ]
]

has_split :
    (v : ℕ) (xs ys : List ℕ) → has v (xs ++ ys) ≡ true → (has v xs ≡ true) ⊎ (has v ys ≡ true)
has_split v [] ys h = inr h
has_split v (x ∷ xs) ys h = elim (Bool-cases (x == v)) [
  | inl e ↦ inl (rw e (ground arith))
  | inr e ↦ elim (has_split v xs ys (rw e at h)) [ inl k ↦ inl (rw e k) | inr k ↦ inr k ]
]

-- How the parser reads a part.
record Reading (min max : ℕ) (part : Text) (v : ℕ) : Type 0 where
  pub range : Text
  pub step : ℕ
  pub lo : ℕ
  pub hi : ℕ
  pub n : ℕ
  pub stepped : range_step part ≡ some (range, step)
  pub ended : ends min max (contains (47 ∷ []) part) range ≡ some (lo, hi)
  pub reached : v ≡ value_at lo step n
  pub low : v ≤ hi

range_step_lem : (part range : Text) (step : ℕ) → range_step part ≡ some (range, step) → 1 ≤ step
unfolding range_step
range_step_lem part range step h = elim (Option-cases (split_once 47 part)) [
  | inl e ↦ let same : 1 ≡ step = cc (rw (e, range_step) at h) in omega arith
  | inr ((r, s), e) ↦ elim (Option-cases (step_of (parse_i8 s))) [
    | inl f ↦ cc (rw (e, range_step, f) at h)
    | inr (m, f) ↦
        let same : m ≡ step = cc (rw (e, range_step, f) at h) in
        let up = step_of_lem (parse_i8 s) m f in omega arith
  ]
]
  where
    step_of_lem : (z : Option ℤ) (m : ℕ) → step_of z ≡ some m → 1 ≤ m
    step_of_lem none m h = cc
    step_of_lem (some (negsuc k)) m h = cc
    step_of_lem (some (pos zero)) m h = cc
    step_of_lem (some (pos (suc k))) m h = ground arith

part_values-Reading :
    (min max : ℕ) (part : Text) (vs : List ℕ) (v : ℕ)
    → part_values min max part ≡ some vs
    → (has v vs ≡ true) ↔ Reading min max part v
unfolding part_values
part_values-Reading min max part vs v h = elim (Option-cases (range_step part)) [
  | inl e ↦ cc (rw (e, part_values) at h)
  | inr ((range, step), e) ↦ elim (Option-cases (ends min max (contains (47 ∷ []) part) range)) [
    | inl f ↦ cc (rw (e, part_values, f) at h)
    | inr ((lo, hi), f) ↦ elim (Bool-cases (ltb hi lo)) [
      | inl g ↦ cc (rw (e, part_values, f, g) at h)
      | inr g ↦
          let same : vs ≡ step_by (suc hi - lo) lo hi step = cc (rw (e, part_values, f, g) at h) in
          rw same (
            λ k.
                let (n, p, q) = step_by_sound (suc hi - lo) lo hi step v k in
                record {
                  range = range;
                  step = step;
                  lo = lo;
                  hi = hi;
                  n = n;
                  stepped = e;
                  ended = f;
                  reached = p;
                  low = q;
                },
            λ w.
                let r : w.range ≡ range = cc (w.stepped, e) in
                let s : w.step ≡ step = cc (w.stepped, e) in
                let x : some (w.lo, w.hi) ≡ some (lo, hi) =
                  sym w.ended
                  ∙ subst (λ g. ends min max (contains (47 ∷ []) part) g ≡ some (lo, hi)) (sym r)
                      f in
                let l : w.lo ≡ lo = cc x in
                let u : w.hi ≡ hi = cc x in
                let at : v ≡ value_at lo step w.n = rw (sym l, sym s) w.reached in
                rw at (
                  has-step_by (suc hi - lo) lo hi step w.n (range_step_lem part range step e)
                    (omega arith) (omega (arith, at, w.low))),
          )
    ]
  ]
]

all_parts-Reading :
    (min max : ℕ) (parts : List Text) (vs : List ℕ) (v : ℕ)
    → all_parts min max parts ≡ some vs
    → (has v vs ≡ true) ↔ ((part : Text) × Among part parts × Reading min max part v)
unfolding all_parts
all_parts-Reading min max [] vs v h =
    let e : vs ≡ [] = cc h in (λ k. cc (rw e at k), λ w. absurd w.1)
all_parts-Reading min max (part ∷ parts) vs v h = elim (Option-cases (part_values min max part)) [
  | inl e ↦ cc (rw (e, all_parts) at h)
  | inr (us, e) ↦ elim (Option-cases (all_parts min max parts)) [
    | inl f ↦ cc (rw (e, all_parts, f) at h)
    | inr (ws, f) ↦
        let same : vs ≡ us ++ ws = cc (rw (e, all_parts, f) at h) in
        let head = part_values-Reading min max part us v e in
        let tail = all_parts-Reading min max parts ws v f in
        rw same (
          λ k. elim (has_split v us ws k) [
            | inl a ↦ (part, inl refl, head.0 a)
            | inr b ↦ let (p, m, w) = tail.0 b in (p, inr m, w)
          ],
          λ (p, m, w). elim m [
            | inl q ↦ has-append_left v us ws (head.1 (subst (λ t. Reading min max t v) (sym q) w))
            | inr n ↦ has-append_right v us ws (tail.1 (p, n, w))
          ],
        )
  ]
]

value_at_lem : (lo step n : ℕ) → value_at lo step n ≡ lo + n * step
value_at_lem lo step zero = omega arith
value_at_lem lo step (suc n) = omega (arith, value_at_lem (lo + step) step n)

single_steps : (v lo n : ℕ) → v ≡ lo + n * 1 → lo ≤ v
single_steps v lo n e = omega (arith, e)

step_of_lem : (z : Option ℤ) (m : ℕ) → step_of z ≡ some m → (z ≡ some (pos m)) × (1 ≤ m)
step_of_lem none m h = cc
step_of_lem (some (negsuc k)) m h = cc
step_of_lem (some (pos zero)) m h = cc
step_of_lem (some (pos (suc k))) m h = (cc, ground arith)

step_of_pos : (m : ℕ) → 1 ≤ m → step_of (some (pos m)) ≡ some m
step_of_pos zero h = absurd (omega arith)
step_of_pos (suc m) h = refl

Reading-Written :
    (min max : ℕ) (part : Text) (v : ℕ) → Reading min max part v → Written min max part v
unfolding range_step
Reading-Written min max part v r = elim (split_once_cases 47 part) [
  | inl (none_there, e) ↦
      let same : some (part, 1) ≡ some (r.range, r.step) = rw (e, range_step) at r.stepped in
      let range : r.range ≡ part = cc same in
      let step : r.step ≡ 1 = cc same in
      let ended = rw (contains-Absent 47 part none_there, range) at r.ended in
      let at : v ≡ r.lo + r.n * 1 = rw step at (r.reached ∙ value_at_lem r.lo r.step r.n) in
      plain r.lo r.hi none_there (ends-Span min max false part r.lo r.hi ended)
        (single_steps v r.lo r.n at) r.low
  | inr (a, s, p, n, e) ↦
      let cut : contains (47 ∷ []) part ≡ true = ap (contains (47 ∷ [])) p ∙ contains_cut 47 a s in
      let ended = rw cut at r.ended in
      let span = ends-Span min max true r.range r.lo r.hi ended in
      elim (Option-cases (step_of (parse_i8 s))) [
        | inl f ↦ cc (rw (e, range_step, f) at r.stepped)
        | inr (m, f) ↦
            let same : some (a, m) ≡ some (r.range, r.step) = rw (e, range_step, f) at r.stepped in
            let range : r.range ≡ a = cc same in
            let step : m ≡ r.step = cc same in
            let (number, up) = step_of_lem (parse_i8 s) r.step (f ∙ ap some step) in
            by_steps r.range s r.step r.lo r.hi r.n (p ∙ ap (λ t. t ++ 47 ∷ s) (sym range))
              (subst (Absent 47) (sym range) n) number up span
              (r.reached ∙ value_at_lem r.lo r.step r.n) r.low
      ]
]

Written-Reading :
    (min max : ℕ) (part : Text) (v : ℕ) → Written min max part v → Reading min max part v
unfolding range_step
Written-Reading min max part v (plain lo hi absent span from to) = record {
  range = part;
  step = 1;
  lo = lo;
  hi = hi;
  n = v - lo;
  stepped = rw (split_once-none 47 part absent, range_step) refl;
  ended = rw (contains-Absent 47 part absent) (Span-ends min max false part lo hi span);
  reached = omega (arith, value_at_lem lo 1 (v - lo));
  low = to;
}
Written-Reading min max part v (by_steps range s step lo hi n p absent number up span at to) =
    record {
      range = range;
      step = step;
      lo = lo;
      hi = hi;
      n = n;
      stepped =
          rw (p, range_step, split_once-some 47 range s absent, number, step_of_pos step up) refl;
      ended = rw (p, contains_cut 47 range s) (Span-ends min max true range lo hi span);
      reached = at ∙ sym (value_at_lem lo step n);
      low = to;
    }

-- A field that parses holds exactly the values that it is written with, by the notation: a value is in
-- it if and only if one of the parts between its commas takes the value in. `*` takes in all that the
-- field allows, `a-b` all from a to b, `a` the value a; with `/n` behind it, a range takes in each
-- n-th of these from its low end on, and `a/n` goes on to the highest value that the field allows.
pub parse_field-Written :
    (field : Text) (min max : ℕ) (vs : List ℕ) (v : ℕ)
    → parse_field field min max ≡ some vs
    → (has v vs ≡ true)
      ↔ ((part : Text) × Among part (split (44 ∷ []) field) × Written min max part v)
unfolding parse_field
parse_field-Written field min max vs v h =
    elim (Option-cases (all_parts min max (split (44 ∷ []) field))) [
      | inl e ↦ cc (rw (e, parse_field) at h)
      | inr (us, e) ↦
          let same : vs ≡ dedup (sort_by leb us) = cc (rw (e, parse_field) at h) in
          let all = all_parts-Reading min max (split (44 ∷ []) field) us v e in
          rw (same, has-dedup v (sort_by leb us), has-sort_by v us)
            (
              λ k. let (part, m, w) = all.0 k in (part, m, Reading-Written min max part v w),
              λ (part, m, w). all.1 (part, m, Written-Reading min max part v w),
            )
    ]
