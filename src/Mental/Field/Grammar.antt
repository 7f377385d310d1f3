-- ===== src/Mental/Field/Grammar.antt =====
-- The notation of one cron field, as the comments of crates/memgardend/src/mental/cron.rs give it: `*`,
-- `*/n`, `a`, `a-b`, `a-b/n`. It is written over the text, without the functions of the parser but the
-- reader of a number.
use memgarden.Prelude.{
  ◌⊎◌, ℕ, ◌+◌, ◌*◌, ◌≤◌, Bool, true, false, ◌≡◌, ◌↔◌, refl, Option, none, some, [], ◌∷◌, ◌++◌, inl,
  inr, arith, ◌==◌, Bool-cases, Option-cases, sym, ◌∙◌, ap,
}
use memgarden.Prelude.Int.{pos}
use memgarden.Prelude.Text.{Text, contains, same_text, trim, is_white}
use memgarden.Mental.Field.{split_once, parse_i8, num, pair, ends}

abbrev pub Absent : ℕ → Text → Type 0
Absent c [] = Unit {0}
Absent c (x ∷ s) = ((x == c) ≡ false) × Absent c s

-- The ends of a range: `*`, `a-b`, or a number, which stands for itself or, with a step behind it, for
-- all from it on.
pub data Span (min max : ℕ) (stepped : Bool) (range : Text) (lo hi : ℕ) : Type 0 where
  star : range ≡ 42 ∷ [] → lo ≡ min → hi ≡ max → Span min max stepped range lo hi
  between :
      (a b : Text)
      → range ≡ a ++ 45 ∷ b
      → Absent 45 a
      → num a min max ≡ some lo
      → num b min max ≡ some hi
      → Span min max stepped range lo hi
  single :
      stepped ≡ false
      → Absent 45 range
      → num range min max ≡ some lo
      → hi ≡ lo
      → Span min max stepped range lo hi
  onward :
      stepped ≡ true
      → Absent 45 range
      → num range min max ≡ some lo
      → hi ≡ max
      → Span min max stepped range lo hi

-- The values of a part: all of its range, or each `step`-th from the low end on.
pub data Written (min max : ℕ) (part : Text) (v : ℕ) : Type 0 where
  plain :
      (lo hi : ℕ)
      → Absent 47 part
      → Span min max false part lo hi
      → lo ≤ v
      → v ≤ hi
      → Written min max part v
  by_steps :
      (range s : Text) (step lo hi n : ℕ)
      → part ≡ range ++ 47 ∷ s
      → Absent 47 range
      → parse_i8 s ≡ some (pos step)
      → 1 ≤ step
      → Span min max true range lo hi
      → v ≡ lo + n * step
      → v ≤ hi
      → Written min max part v

pub split_once-none : (c : ℕ) (s : Text) → Absent c s → split_once c s ≡ none
unfolding split_once
split_once-none c [] h = refl
split_once-none c (x ∷ s) h = rw (split_once-none c s h.1, h.0) refl

pub split_once-some : (c : ℕ) (a b : Text) → Absent c a → split_once c (a ++ c ∷ b) ≡ some (a, b)
unfolding split_once
split_once-some c [] b h = ground arith
split_once-some c (x ∷ a) b h = rw (split_once-some c a b h.1, h.0) refl

-- The text without the character, or cut at its first one.
pub split_once_cases :
    (c : ℕ) (s : Text)
    → (Absent c s × (split_once c s ≡ none))
      ⊎ ((a : Text) × (b : Text) × (s ≡ a ++ c ∷ b) × Absent c a × (split_once c s ≡ some (a, b)))
unfolding split_once
split_once_cases c [] = inl (tt, refl)
split_once_cases c (x ∷ s) = elim (Bool-cases (x == c)) [
  | inl e ↦
      let same : x ≡ c = ground arith in
      inr (
        [],
        s,
        ap (λ y. y ∷ s) same,
        tt,
        elim (split_once_cases c s) [
          | inl (n, f) ↦ rw (f, e) refl
          | inr (a, b, p, q, f) ↦ rw (f, e) refl
        ],
      )
  | inr e ↦ elim (split_once_cases c s) [
    | inl (n, f) ↦ inl ((e, n), rw (f, e) refl)
    | inr (a, b, p, q, f) ↦ inr (x ∷ a, b, ap (λ t. x ∷ t) p, (e, q), rw (f, e) refl)
  ]
]

pub contains-Absent : (c : ℕ) (s : Text) → Absent c s → contains (c ∷ []) s ≡ false
unfolding contains
contains-Absent c [] h = refl
contains-Absent c (x ∷ s) h = ground (arith, contains-Absent c s h.1, h.0)

pub contains_cut : (c : ℕ) (a b : Text) → contains (c ∷ []) (a ++ c ∷ b) ≡ true
unfolding contains
contains_cut c [] b = ground arith
contains_cut c (x ∷ a) b = ground (arith, contains_cut c a b)

same_text_iff : (s t : Text) → (same_text s t ≡ true) ↔ (s ≡ t)
same_text_iff [] [] = (λ h. refl, λ h. refl)
same_text_iff [] (d ∷ t) = (λ h. cc, λ h. cc)
same_text_iff (c ∷ s) [] = (λ h. cc, λ h. cc)
same_text_iff (c ∷ s) (d ∷ t) =
    let rest = same_text_iff s t in
    (
      λ h. let head : c ≡ d = ground arith in let tail : s ≡ t = rest.0 (ground arith) in cc,
      λ h.
          let head : c ≡ d = cc h in
          let tail : same_text s t ≡ true = rest.1 (cc h) in ground arith,
    )

-- The star is no number.
starless :
    (range : Text) (min max lo : ℕ)
    → num range min max ≡ some lo
    → same_text range (42 ∷ []) ≡ false
unfolding num trim is_white
starless range min max lo h = elim (Bool-cases (same_text range (42 ∷ []))) [
  | inr e ↦ e
  | inl e ↦
      let star = (same_text_iff range (42 ∷ [])).0 e in
      let no : num (42 ∷ []) min max ≡ none = refl in
      absurd (some_none (sym h ∙ ap (λ r. num r min max) star ∙ no))
]
  where
    some_none : {v : ℕ} → some v ≡ none → ⊥
    some_none e = cc

starless_cut : (a b : Text) (range : Text) → range ≡ a ++ 45 ∷ b → same_text range (42 ∷ []) ≡ false
unfolding contains
starless_cut a b range e = elim (Bool-cases (same_text range (42 ∷ []))) [
  | inr f ↦ f
  | inl f ↦
      let star = (same_text_iff range (42 ∷ [])).0 f in
      let cut : contains (45 ∷ []) (42 ∷ []) ≡ true =
        ap (contains (45 ∷ [])) (sym star ∙ e) ∙ contains_cut 45 a b in
      cc cut
]

pub Span-ends :
    (min max : ℕ) (stepped : Bool) (range : Text) (lo hi : ℕ)
    → Span min max stepped range lo hi
    → ends min max stepped range ≡ some (lo, hi)
unfolding ends
Span-ends min max stepped range lo hi (star e l h) = rw (e, l, h) refl
Span-ends min max stepped range lo hi (between a b e n l h) =
    let cut = ap (split_once 45) e ∙ split_once-some 45 a b n in
    rw (starless_cut a b range e, ends, cut, l, h) refl
Span-ends min max stepped range lo hi (single e n l h) =
    rw (starless range min max lo l, ends, split_once-none 45 range n, l, e, h) refl
Span-ends min max stepped range lo hi (onward e n l h) =
    rw (starless range min max lo l, ends, split_once-none 45 range n, l, e, h) refl

pair_lem : (x y : Option ℕ) (lo hi : ℕ) → pair x y ≡ some (lo, hi) → (x ≡ some lo) × (y ≡ some hi)
pair_lem (some a) (some b) lo hi h = (cc, cc)
pair_lem none y lo hi h = cc
pair_lem (some a) none lo hi h = cc

pub ends-Span :
    (min max : ℕ) (stepped : Bool) (range : Text) (lo hi : ℕ)
    → ends min max stepped range ≡ some (lo, hi)
    → Span min max stepped range lo hi
unfolding ends
ends-Span min max stepped range lo hi h = elim (Bool-cases (same_text range (42 ∷ []))) [
  | inl e ↦
      let same : some (min, max) ≡ some (lo, hi) = rw (e, ends) at h in
      star ((same_text_iff range (42 ∷ [])).0 e) (cc same) (cc same)
  | inr e ↦ elim (split_once_cases 45 range) [
    | inr (a, b, p, n, f) ↦
        let (x, y) = pair_lem (num a min max) (num b min max) lo hi (rw (e, ends, f) at h) in
        between a b p n x y
    | inl (n, f) ↦ elim (Option-cases (num range min max)) [
      | inl g ↦ cc (rw (e, ends, f, g) at h)
      | inr (v, g) ↦ elim (Bool-cases stepped) [
        | inl q ↦
            let same : some (v, max) ≡ some (lo, hi) = rw (e, ends, f, g, q) at h in
            let low : some v ≡ some lo = cc same in
            let high : hi ≡ max = cc same in onward q n (g ∙ low) high
        | inr q ↦
            let same : some (v, v) ≡ some (lo, hi) = rw (e, ends, f, g, q) at h in
            let low : some v ≡ some lo = cc same in
            let high : hi ≡ lo = cc same in single q n (g ∙ low) high
      ]
    ]
  ]
]
