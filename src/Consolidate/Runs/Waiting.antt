-- ===== src/Consolidate/Runs/Waiting.antt =====
-- The queries of crates/memgarden-store/src/consolidate.rs, from one watermark to the next. A table
-- stands in the order of its rowids.
use memgarden.Prelude.{
  ℕ, ◌≤◌, ◌<◌, String, Bool, true, false, List, [], ◌∷◌, ◌++◌, map, ◌≡◌, ◌∙◌, refl, sym, ap, subst,
  inl, inr, arith, ltb, ltb→lt, leb, Bool-cases,
}
use memgarden.Prelude.Lists.{keep_if, All, keep_if-All}
use memgarden.Prelude.Sort.{insert_by, sort_by}
use memgarden.Consolidate.Runs.{FactRow, MemoryNode, can_wait, is_after, by_id, waiting}
use memgarden.Consolidate.Round.Queue.{last_id}

abbrev pub Ascends : List FactRow → Type 0
Ascends [] = Unit {0}
Ascends (f ∷ fs) = All (λ g. f.id < g.id) fs × Ascends fs

abbrev pub facts_of : List MemoryNode → List FactRow
facts_of = map (λ n. n.fact)

keep_if-Ascends : (p : FactRow → Bool) (fs : List FactRow) → Ascends fs → Ascends (keep_if p fs)
keep_if-Ascends p [] h = tt
keep_if-Ascends p (f ∷ fs) h = elim (Bool-cases (p f)) [
  | inl e ↦ rw e (keep_if-All (λ g. f.id < g.id) p fs h.0, keep_if-Ascends p fs h.1)
  | inr e ↦ rw e (keep_if-Ascends p fs h.1)
]

facts_of-keep :
    (p : MemoryNode → Bool) (P : FactRow → Type 0) (ns : List MemoryNode)
    → All P (facts_of ns)
    → All P (facts_of (keep_if p ns))
facts_of-keep p P [] h = tt
facts_of-keep p P (n ∷ ns) h = elim (Bool-cases (p n)) [
  | inl e ↦ rw e (h.0, facts_of-keep p P ns h.1)
  | inr e ↦ rw e (facts_of-keep p P ns h.1)
]

facts_of-Ascends :
    (p : MemoryNode → Bool) (ns : List MemoryNode)
    → Ascends (facts_of ns)
    → Ascends (facts_of (keep_if p ns))
facts_of-Ascends p [] h = tt
facts_of-Ascends p (n ∷ ns) h = elim (Bool-cases (p n)) [
  | inl e ↦ rw e (facts_of-keep p (λ g. n.fact.id < g.id) ns h.0, facts_of-Ascends p ns h.1)
  | inr e ↦ rw e (facts_of-Ascends p ns h.1)
]

insert_by-first :
    (f : FactRow) (fs : List FactRow) → All (λ g. f.id < g.id) fs → insert_by by_id f fs ≡ f ∷ fs
unfolding insert_by
insert_by-first f [] h = refl
insert_by-first f (g ∷ fs) h =
    let first : leb f.id g.id ≡ true = ground (arith, h.0) in rw first refl

sort_by-ascending : (fs : List FactRow) → Ascends fs → sort_by by_id fs ≡ fs
unfolding sort_by
sort_by-ascending [] h = refl
sort_by-ascending (f ∷ fs) h = rw (sort_by-ascending fs h.1) (insert_by-first f fs h.0)

keep_if-all : (m : ℕ) (fs : List FactRow) → All (λ g. m < g.id) fs → keep_if (is_after m) fs ≡ fs
keep_if-all m [] h = refl
keep_if-all m (f ∷ fs) h =
    let kept : ltb m f.id ≡ true = ground (arith, h.0) in
    rw kept (ap (λ r. f ∷ r) (keep_if-all m fs h.1))

-- A later mark keeps of the facts what it keeps of those behind an earlier one.
keep_if-later :
    (m k : ℕ) (fs : List FactRow)
    → m ≤ k
    → keep_if (is_after k) (keep_if (is_after m) fs) ≡ keep_if (is_after k) fs
keep_if-later m k [] le = refl
keep_if-later m k (f ∷ fs) le = ground (arith, le, keep_if-later m k fs le)

last_id-above :
    (m : ℕ) (fs rest : List FactRow)
    → All (λ g. m < g.id) (fs ++ rest)
    → Ascends (fs ++ rest)
    → m ≤ last_id m fs
unfolding last_id
last_id-above m [] rest above h = omega arith
last_id-above m (f ∷ fs) rest above h = omega (arith, above.0, last_id-above f.id fs rest h.0 h.1)

keep_if-rest :
    (m : ℕ) (fs rest : List FactRow)
    → All (λ g. m < g.id) (fs ++ rest)
    → Ascends (fs ++ rest)
    → keep_if (is_after (last_id m fs)) (fs ++ rest) ≡ rest
unfolding last_id
keep_if-rest m [] rest above h = keep_if-all m rest above
keep_if-rest m (f ∷ fs) rest above h =
    let le = last_id-above f.id fs rest h.0 h.1 in
    let gone : ltb (last_id f.id fs) f.id ≡ false = ground (arith, le) in
    rw gone (keep_if-rest f.id fs rest h.0 h.1)

keep_if-after : (m : ℕ) (fs : List FactRow) → All (λ g. m < g.id) (keep_if (is_after m) fs)
keep_if-after m [] = tt
keep_if-after m (f ∷ fs) = elim (Bool-cases (ltb m f.id)) [
  | inl e ↦ rw e (ltb→lt m f.id e, keep_if-after m fs)
  | inr e ↦ rw e (keep_if-after m fs)
]

module _ (now : ℕ) (ns : List MemoryNode) (bank : String) (h : Ascends (facts_of ns)) where
  abbrev open_facts : List FactRow
  open_facts = facts_of (keep_if (can_wait now bank) ns)

  waiting-kept : (m : ℕ) → waiting now ns bank m ≡ keep_if (is_after m) open_facts
  unfolding waiting
  waiting-kept m =
      sort_by-ascending (keep_if (is_after m) open_facts)
        (keep_if-Ascends (is_after m) open_facts (facts_of-Ascends (can_wait now bank) ns h))

  module _ (m : ℕ) (fs rest : List FactRow) (e : waiting now ns bank m ≡ fs ++ rest) where
    cut : keep_if (is_after m) open_facts ≡ fs ++ rest
    cut = sym (waiting-kept m) ∙ e

    above : All (λ g. m < g.id) (fs ++ rest)
    above = subst (All (λ g. m < g.id)) cut (keep_if-after m open_facts)

    ascends : Ascends (fs ++ rest)
    ascends =
        subst Ascends cut
          (keep_if-Ascends (is_after m) open_facts (facts_of-Ascends (can_wait now bank) ns h))

    -- The mark moves forward.
    pub mark-le : m ≤ last_id m fs
    mark-le = last_id-above m fs rest above ascends

    -- Behind the id of the last fact of a first part, there waits the rest.
    pub waiting-rest : waiting now ns bank (last_id m fs) ≡ rest
    waiting-rest =
        waiting-kept (last_id m fs)
        ∙ sym (keep_if-later m (last_id m fs) open_facts mark-le)
        ∙ ap (keep_if (is_after (last_id m fs))) cut
        ∙ keep_if-rest m fs rest above ascends
