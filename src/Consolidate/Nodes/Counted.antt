-- ===== src/Consolidate/Nodes/Counted.antt =====
-- The proof counts of crates/memgarden-store/src/consolidate.rs, over its writes.
use memgarden.Prelude.{
  ℕ, suc, String, Bool, false, not, ◌||◌, List, [], ◌∷◌, ◌++◌, map, ◌≡◌, ◌∙◌, refl, sym, ap, inl,
  inr, arith, ◌==◌, Bool-cases, or-false,
}
use memgarden.Prelude.Lists.{keep_if, All, All-map}
use memgarden.Prelude.Text.{Text, same_text}
use memgarden.Consolidate.Nodes.{
  NodeRow, SourceRow, Tables, count_of, recount_row, recount_proof, has_node, has_source,
  insert_source, insert_sources, link_sources, with_text, update_text, touches, recount_each,
  observations_of,
}

abbrev pub holds : ℕ → List ℕ → Bool
holds n [] = false
holds n (id ∷ ids) = (n == id) || holds n ids

-- The count of the row is right, unless its id is one of `ids`.
abbrev pub Due : List ℕ → List SourceRow → NodeRow → Type 0
Due ids sources n = holds n.id ids ≡ false → n.proof_count ≡ count_of n.id sources

-- Each row counts the sources that the table has for it.
abbrev pub IsCounted : Tables → Type 0
IsCounted t = All (λ n. n.proof_count ≡ count_of n.id t.sources) t.nodes

abbrev pub DueBut : List ℕ → Tables → Type 0
DueBut ids t = All (Due ids t.sources) t.nodes

pub IsCounted-Due : (ids : List ℕ) (t : Tables) → IsCounted t → DueBut ids t
IsCounted-Due ids t = All-map (λ n h k. h) t.nodes

pub Due-IsCounted : (t : Tables) → DueBut [] t → IsCounted t
Due-IsCounted t = All-map (λ n h. h refl) t.nodes

recount_row-Due :
    (id : ℕ) (ids : List ℕ) (sources : List SourceRow) (ns : List NodeRow)
    → All (Due (id ∷ ids) sources) ns
    → All (Due ids sources) (map (recount_row id sources) ns)
recount_row-Due id ids sources [] h = tt
recount_row-Due id ids sources (n ∷ ns) h = elim (Bool-cases (n.id == id)) [
  | inl e ↦
      let same : n.id ≡ id = ground (arith, e) in
      rw e (λ k. ap (λ i. count_of i sources) (sym same), recount_row-Due id ids sources ns h.1)
  | inr e ↦ rw e (λ k. h.0 (rw e k), recount_row-Due id ids sources ns h.1)
]

pub recount_proof-Due :
    (id : ℕ) (ids : List ℕ) (t : Tables) → DueBut (id ∷ ids) t → DueBut ids (recount_proof id t)
unfolding recount_proof
recount_proof-Due id ids t h = recount_row-Due id ids t.sources t.nodes h

pub recount_each-Due :
    (rs ids : List ℕ) (t : Tables) → DueBut (rs ++ ids) t → DueBut ids (recount_each rs t)
unfolding recount_each
recount_each-Due [] ids t h = h
recount_each-Due (id ∷ rs) ids t h =
    recount_each-Due rs ids (recount_proof id t) (recount_proof-Due id (rs ++ ids) t h)

pub holds-append :
    (n : ℕ) (rs ids : List ℕ)
    → holds n (rs ++ ids) ≡ false
    → (holds n rs ≡ false) × (holds n ids ≡ false)
holds-append n [] ids e = (refl, e)
holds-append n (id ∷ rs) ids e =
    let (here, later) = or-false (n == id) (holds n (rs ++ ids)) e in
    let (left, right) = holds-append n rs ids later in (rw here left, right)

-- A source of the observation `o` counts for no other.
count_of-insert_source :
    (n o id : ℕ) (sources : List SourceRow)
    → (n == o) ≡ false
    → count_of n (insert_source o id sources) ≡ count_of n sources
unfolding count_of insert_source
count_of-insert_source n o id sources e = elim (Bool-cases (has_source o id sources)) [
  | inl f ↦ rw f refl
  | inr f ↦ let other : (o == n) ≡ false = ground (arith, e) in rw (f, other) refl
]

count_of-insert_sources :
    (n o : ℕ) (ids : List ℕ) (sources : List SourceRow)
    → (n == o) ≡ false
    → count_of n (insert_sources o ids sources) ≡ count_of n sources
unfolding insert_sources
count_of-insert_sources n o [] sources e = refl
count_of-insert_sources n o (id ∷ ids) sources e =
    count_of-insert_sources n o ids (insert_source o id sources) e
    ∙ count_of-insert_source n o id sources e

pub insert_sources-Due :
    (o : ℕ) (ids : List ℕ) (sources : List SourceRow) (ns : List NodeRow)
    → All (Due (o ∷ []) sources) ns
    → All (Due (o ∷ []) (insert_sources o ids sources)) ns
insert_sources-Due o ids sources ns =
    All-map
      (λ n h k.
        h k ∙ sym (count_of-insert_sources n.id o ids sources (or-false (n.id == o) false k).0))
      ns

link_sources-Due :
    (o : ℕ) (bank : String) (ids : List ℕ) (t : Tables)
    → DueBut (o ∷ []) t
    → DueBut (o ∷ []) (link_sources o bank ids t)
unfolding link_sources
link_sources-Due o bank ids t h =
    insert_sources-Due o (keep_if (λ id. has_node id bank t.nodes) ids) t.sources t.nodes h

-- The sources of one observation, and its count behind them.
pub relink-IsCounted :
    (o : ℕ) (bank : String) (ids : List ℕ) (t : Tables)
    → DueBut (o ∷ []) t
    → IsCounted (recount_proof o (link_sources o bank ids t))
relink-IsCounted o bank ids t h =
    let u = link_sources o bank ids t in
    Due-IsCounted (recount_proof o u) (recount_proof-Due o [] u (link_sources-Due o bank ids t h))

with_text-Due :
    (ids : List ℕ) (sources : List SourceRow) (id : ℕ) (text : Text) (ns : List NodeRow)
    → All (Due ids sources) ns
    → All (Due ids sources) (map (with_text id text) ns)
with_text-Due ids sources id text [] h = tt
with_text-Due ids sources id text (n ∷ ns) h = elim (Bool-cases (n.id == id)) [
  | inl e ↦ rw e (h.0, with_text-Due ids sources id text ns h.1)
  | inr e ↦ rw e (h.0, with_text-Due ids sources id text ns h.1)
]

pub update_text-Due :
    (ids : List ℕ) (n : NodeRow) (text : Text) (t : Tables)
    → DueBut ids t
    → DueBut ids (update_text n text t)
unfolding update_text
update_text-Due ids n text t h = elim (Bool-cases (same_text n.text text)) [
  | inl e ↦ rw e h
  | inr e ↦ rw e (with_text-Due ids t.sources n.id text t.nodes h)
]

-- What a deletion takes from the sources of an observation, the trigger knows of.
pub count_of-untouched :
    (n id : ℕ) (sources : List SourceRow)
    → holds n (observations_of (keep_if (touches id) sources)) ≡ false
    → count_of n sources ≡ count_of n (keep_if (λ s. not (touches id s)) sources)
unfolding count_of
count_of-untouched n id [] e = refl
count_of-untouched n id (s ∷ ss) e = elim (Bool-cases (touches id s)) [
  | inl f ↦
      let here = holds n (observations_of (keep_if (touches id) ss)) in
      let parts = or-false (n == s.observation_id) here (rw f at e) in
      let other : (s.observation_id == n) ≡ false = ground (arith, parts.0) in
      rw (f, other) (count_of-untouched n id ss parts.1)
  | inr f ↦
      let rest = count_of-untouched n id ss (rw f at e) in
      rw f (elim (Bool-cases (s.observation_id == n)) [
        | inl g ↦ rw g (ap (λ k. suc k) rest)
        | inr g ↦ rw g rest
      ])
]
