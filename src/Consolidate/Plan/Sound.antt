-- ===== src/Consolidate/Plan/Sound.antt =====
-- `validate` of crates/memgardend/src/consolidate/round.rs: what a plan that is accepted can do.
use memgarden.Prelude.{
  ℕ, suc, ◌<◌, true, false, not, ◌||◌, Option, none, some, List, [], ◌∷◌, ◌≡◌, ◌⊎◌, ◌∙◌, refl, sym,
  ap, subst, inl, inr, arith, Bool-cases, Option-cases, or-false, not-false,
}
use memgarden.Prelude.Lists.{length, All}
use memgarden.Prelude.Text.{Text, same_text, is_blank}
use memgarden.Consolidate.Runs.{FactRow}
use memgarden.Consolidate.Plan.{
  RawCreate, RawUpdate, get_fact, holds_text, has_twice, consed, all_facts, resolve, keep_creates,
  keep_updates, targets,
}

-- The id of a fact of the batch.
abbrev pub Known : List FactRow → ℕ → Type 0
Known [] i = ⊥
Known (f ∷ fs) i = (f.id ≡ i) ⊎ Known fs i

abbrev pub Sourced : List FactRow → List ℕ → Type 0
Sourced facts is = (0 < length is) × All (Known facts) is

get_fact-Known : (u : Text) (fs : List FactRow) (i : ℕ) → get_fact u fs ≡ some i → Known fs i
unfolding get_fact
get_fact-Known u [] i e = cc e
get_fact-Known u (f ∷ fs) i e = elim (Option-cases (get_fact u fs)) [
  | inr (j, h) ↦ let same : some j ≡ some i = rw h at e in inr (get_fact-Known u fs i (h ∙ same))
  | inl h ↦ elim (Bool-cases (same_text f.uuid u)) [
    | inl s ↦ inl (cc (e, h, s))
    | inr s ↦ absurd (cc (e, h, s))
  ]
]

consed-some :
    (o : Option ℕ) (p : Option (List ℕ)) (is : List ℕ)
    → consed o p ≡ some is
    → (i : ℕ) × (js : List ℕ) × (o ≡ some i) × (p ≡ some js) × (is ≡ i ∷ js)
consed-some (some i) (some js) is e = (i, js, refl, refl, cc e)
consed-some (some i) none is e = absurd (cc e)
consed-some none p is e = absurd (cc e)

all_facts-Known :
    (fs : List FactRow) (us : List Text) (is : List ℕ)
    → all_facts fs us ≡ some is
    → (length is ≡ length us) × All (Known fs) is
unfolding all_facts
all_facts-Known fs [] is e =
    let same : [] ≡ is = cc e in subst (λ js. (length js ≡ 0) × All (Known fs) js) same (refl, tt)
all_facts-Known fs (u ∷ us) is e =
    let (i, js, f, g, h) = consed-some (get_fact u fs) (all_facts fs us) is e in
    let (long, known) = all_facts-Known fs us js g in
    rw h (ap suc long, (get_fact-Known u fs i f, known))

resolve-Sourced :
    (fs : List FactRow) (us : List Text) (is : List ℕ) → resolve fs us ≡ some is → Sourced fs is
unfolding resolve
resolve-Sourced fs [] is e = absurd (cc e)
resolve-Sourced fs (u ∷ us) is e =
    let (long, known) = all_facts-Known fs (u ∷ us) is e in (omega (arith, long), known)

pub keep_creates-Sourced :
    (fs : List FactRow) (cs : List RawCreate) → All (λ c. Sourced fs c.1) (keep_creates fs cs)
unfolding keep_creates
keep_creates-Sourced fs [] = tt
keep_creates-Sourced fs (c ∷ cs) = elim (Bool-cases (is_blank c.reason || is_blank c.text)) [
  | inl e ↦ rw e (keep_creates-Sourced fs cs)
  | inr e ↦ elim (Option-cases (resolve fs c.source_fact_ids)) [
    | inl f ↦ rw (e, f) (keep_creates-Sourced fs cs)
    | inr (is, f) ↦
        rw (e, f) (resolve-Sourced fs c.source_fact_ids is f, keep_creates-Sourced fs cs)
  ]
]

abbrev pub Updates : List FactRow → List Text → Text × Text × List ℕ → Type 0
Updates fs pooled (u, t, is) = (holds_text u pooled ≡ true) × Sourced fs is

-- Whatever holds of the raw updates' observations holds of those that are kept.
targets-keep_updates :
    (P : Text → Type 0) (fs : List FactRow) (pooled : List Text) (us : List RawUpdate)
    → All (λ u. P u.observation_id) us
    → All P (targets (keep_updates fs pooled us))
unfolding keep_updates
targets-keep_updates P fs pooled [] h = tt
targets-keep_updates P fs pooled (u ∷ us) h =
    elim (Bool-cases
      ((is_blank u.reason || is_blank u.text) || not (holds_text u.observation_id pooled))) [
        | inl e ↦ rw e (targets-keep_updates P fs pooled us h.1)
        | inr e ↦ elim (Option-cases (resolve fs u.source_fact_ids)) [
          | inl f ↦ rw (e, f) (targets-keep_updates P fs pooled us h.1)
          | inr (is, f) ↦ rw (e, f) (h.0, targets-keep_updates P fs pooled us h.1)
        ]
      ]

pub keep_updates-Updates :
    (fs : List FactRow) (pooled : List Text) (us : List RawUpdate)
    → All (Updates fs pooled) (keep_updates fs pooled us)
unfolding keep_updates
keep_updates-Updates fs pooled [] = tt
keep_updates-Updates fs pooled (u ∷ us) =
    let dull = is_blank u.reason || is_blank u.text in
    let unpooled = not (holds_text u.observation_id pooled) in
    elim (Bool-cases (dull || unpooled)) [
      | inl e ↦ rw e (keep_updates-Updates fs pooled us)
      | inr e ↦ elim (Option-cases (resolve fs u.source_fact_ids)) [
        | inl f ↦ rw (e, f) (keep_updates-Updates fs pooled us)
        | inr (is, f) ↦
            let held =
              not-false (holds_text u.observation_id pooled) (or-false dull unpooled e).1 in
            let sourced = resolve-Sourced fs u.source_fact_ids is f in
            rw (e, f) ((held, sourced), keep_updates-Updates fs pooled us)
      ]
    ]

abbrev pub Different : List Text → Type 0
Different [] = Unit {0}
Different (u ∷ us) = All (λ v. same_text u v ≡ false) us × Different us

abbrev Among : Text → List Text → Type 0
Among u [] = ⊥
Among u (v ∷ vs) = (v ≡ u) ⊎ Among u vs

unlike-Among :
    (u t : Text) (vs : List Text) → Among u vs → holds_text t vs ≡ false → same_text u t ≡ false
unlike-Among u t [] a e = absurd a
unlike-Among u t (v ∷ vs) (inl same) e =
    ap (λ x. same_text x t) (sym same) ∙ (or-false (same_text v t) (holds_text t vs) e).0
unlike-Among u t (v ∷ vs) (inr a) e =
    unlike-Among u t vs a (or-false (same_text v t) (holds_text t vs) e).1

-- No later update has a target that has been seen.
has_twice-unlike :
    (u : Text) (seen : List Text) (us : List RawUpdate)
    → Among u seen
    → has_twice seen us ≡ false
    → All (λ x. same_text u x.observation_id ≡ false) us
unfolding has_twice
has_twice-unlike u seen [] a e = tt
has_twice-unlike u seen (x ∷ xs) a e =
    let parts =
      or-false (holds_text x.observation_id seen) (has_twice (x.observation_id ∷ seen) xs) e in
    (
      unlike-Among u x.observation_id seen a parts.0,
      has_twice-unlike u (x.observation_id ∷ seen) xs (inr a) parts.1,
    )

pub keep_updates-Different :
    (fs : List FactRow) (pooled seen : List Text) (us : List RawUpdate)
    → has_twice seen us ≡ false
    → Different (targets (keep_updates fs pooled us))
unfolding keep_updates has_twice
keep_updates-Different fs pooled seen [] e = tt
keep_updates-Different fs pooled seen (u ∷ us) e =
    let id = u.observation_id in
    let later = (or-false (holds_text id seen) (has_twice (id ∷ seen) us) e).1 in
    let unlike = has_twice-unlike id (id ∷ seen) us (inl refl) later in
    let rest = keep_updates-Different fs pooled (id ∷ seen) us later in
    elim (Bool-cases ((is_blank u.reason || is_blank u.text) || not (holds_text id pooled))) [
      | inl f ↦ rw f rest
      | inr f ↦ elim (Option-cases (resolve fs u.source_fact_ids)) [
        | inl g ↦ rw (f, g) rest
        | inr (is, g) ↦
            let apart = targets-keep_updates (λ v. same_text id v ≡ false) fs pooled us unlike in
            rw (f, g) (apart, rest)
      ]
    ]
