-- ===== src/Consolidate/Nodes/Writes.antt =====
-- The writes of crates/memgarden-store/src/consolidate.rs, one after the other: each proof count stays
-- the number of the observation's sources.
use memgarden.Prelude.{
  ℕ, String, true, false, not, List, [], ◌∷◌, ◌++◌, ◌≡◌, ◌∙◌, sym, subst, inl, inr, arith, ◌==◌,
  Bool-cases, Option-cases, or-false,
}
use memgarden.Prelude.Lists.{keep_if, All-map, All-append, keep_if-All}
use memgarden.Prelude.Text.{Text}
use memgarden.Consolidate.Nodes.{
  NodeRow, Tables, recount_proof, insert_sources, link_sources, next_node_id, insert_observation,
  find_observation, update_text, touches, observations_of, delete_node, create_all, update_all,
  delete_all, apply_plan, sources_of, has_id, merged, merge_observation,
}
use memgarden.Consolidate.Nodes.Counted.{
  Due, DueBut, IsCounted, IsCounted-Due, Due-IsCounted, recount_proof-Due, recount_each-Due,
  holds-append, insert_sources-Due, relink-IsCounted, update_text-Due, count_of-untouched,
}

-- A new row, whose count is not right yet.
insert_observation-IsCounted :
    (uuid : Text) (bank : String) (text : Text) (ids : List ℕ) (t : Tables)
    → IsCounted t
    → IsCounted (insert_observation uuid bank text ids t).1
unfolding insert_observation
insert_observation-IsCounted uuid bank text ids t h =
    let id = next_node_id t.nodes in
    let row : NodeRow = record {
      id = id;
      uuid = uuid;
      bank_id = bank;
      fact_type = "observation";
      text = text;
      proof_count = 0;
    } in
    let hit : (id == id) ≡ true = ground arith in
    let due : Due (id ∷ []) t.sources row =
      λ k. absurd (cc (hit, (or-false (id == id) false k).0)) in
    relink-IsCounted id bank ids (record t { nodes = t.nodes ++ row ∷ [] })
      (All-append (Due (id ∷ []) t.sources) t.nodes (row ∷ []) (IsCounted-Due (id ∷ []) t h)
        (due, tt))

delete_node-Due :
    (id : ℕ) (ids : List ℕ) (t : Tables) → DueBut ids t → DueBut ids (delete_node id t)
unfolding delete_node
delete_node-Due id ids t h =
    let gone = observations_of (keep_if (touches id) t.sources) in
    let left : Tables = record {
      nodes = keep_if (λ n. not (n.id == id)) t.nodes;
      sources = keep_if (λ s. not (touches id s)) t.sources;
    } in
    recount_each-Due gone ids left (
      keep_if-All (Due (gone ++ ids) left.sources) (λ n. not (n.id == id)) t.nodes
        (All-map
          (λ n e k.
            let (untouched, due) = holds-append n.id gone ids k in
            e due ∙ count_of-untouched n.id id t.sources untouched)
          t.nodes h))

delete_node-IsCounted : (id : ℕ) (t : Tables) → IsCounted t → IsCounted (delete_node id t)
delete_node-IsCounted id t h =
    Due-IsCounted (delete_node id t) (delete_node-Due id [] t (IsCounted-Due [] t h))

create_all-IsCounted :
    (bank : String) (cs : List (Text × Text × List ℕ)) (t : Tables)
    → IsCounted t
    → IsCounted (create_all bank cs t).1
unfolding create_all
create_all-IsCounted bank [] t h = h
create_all-IsCounted bank ((uuid, text, ids) ∷ cs) t h =
    create_all-IsCounted bank cs (insert_observation uuid bank text ids t).1
      (insert_observation-IsCounted uuid bank text ids t h)

update_all-IsCounted :
    (bank : String) (us : List (Text × Text × List ℕ)) (t : Tables)
    → IsCounted t
    → IsCounted (update_all bank us t).1
unfolding update_all
update_all-IsCounted bank [] t h = h
update_all-IsCounted bank ((uuid, text, ids) ∷ us) t h =
    elim (Option-cases (find_observation uuid bank t.nodes)) [
      | inl e ↦ rw (e, update_all) (update_all-IsCounted bank us t h)
      | inr (n, e) ↦
          let u = recount_proof n.id (link_sources n.id bank ids (update_text n text t)) in
          rw (e, update_all)
            (update_all-IsCounted bank us u (
              relink-IsCounted n.id bank ids (update_text n text t)
                (update_text-Due (n.id ∷ []) n text t (IsCounted-Due (n.id ∷ []) t h))))
    ]

delete_all-IsCounted :
    (bank : String) (us : List Text) (t : Tables) → IsCounted t → IsCounted (delete_all bank us t).1
unfolding delete_all
delete_all-IsCounted bank [] t h = h
delete_all-IsCounted bank (uuid ∷ us) t h =
    elim (Option-cases (find_observation uuid bank t.nodes)) [
      | inl e ↦ rw (e, delete_all) (delete_all-IsCounted bank us t h)
      | inr (n, e) ↦
          rw (e, delete_all)
            (delete_all-IsCounted bank us (delete_node n.id t) (delete_node-IsCounted n.id t h))
    ]

apply_plan-IsCounted :
    (bank : String) (cs us : List (Text × Text × List ℕ)) (ds : List Text) (t : Tables)
    → IsCounted t
    → IsCounted (apply_plan bank cs us ds t).1
unfolding apply_plan
apply_plan-IsCounted bank cs us ds t h =
    let t1 = (create_all bank cs t).1 in
    let t2 = (update_all bank us t1).1 in
    delete_all-IsCounted bank ds t2
      (update_all-IsCounted bank us t1 (create_all-IsCounted bank cs t h))

-- The merge, where both observations are there and the survivor stays.
merged-IsCounted :
    (keep dropped : NodeRow) (text : Text) (t : Tables)
    → IsCounted t
    → IsCounted (merged keep dropped text t)
unfolding merged
merged-IsCounted keep dropped text t h =
    let linked : Tables = record t {
      sources = insert_sources keep.id (sources_of dropped.id t.sources) t.sources;
    } in
    let due : DueBut (keep.id ∷ []) linked =
      insert_sources-Due keep.id (sources_of dropped.id t.sources) t.sources t.nodes
        (IsCounted-Due (keep.id ∷ []) t h) in
    let deleted = delete_node dropped.id (update_text keep text linked) in
    Due-IsCounted (recount_proof keep.id deleted) (
      recount_proof-Due keep.id [] deleted (
        delete_node-Due dropped.id (keep.id ∷ []) (update_text keep text linked)
          (update_text-Due (keep.id ∷ []) keep text linked due)))

merge_observation-IsCounted :
    (bank : String) (keep_uuid drop_uuid text : Text) (t : Tables)
    → IsCounted t
    → IsCounted (merge_observation bank keep_uuid drop_uuid text t).1
unfolding merge_observation
merge_observation-IsCounted bank keep_uuid drop_uuid text t h =
    elim (Option-cases (find_observation keep_uuid bank t.nodes)) [
      | inl e ↦ rw (e, merge_observation) h
      | inr (keep, e) ↦ elim (Option-cases (find_observation drop_uuid bank t.nodes)) [
        | inl f ↦ rw (e, merge_observation, f) h
        | inr (dropped, f) ↦
            let u = merged keep dropped text t in
            elim (Bool-cases (has_id keep.id u.nodes)) [
              | inl g ↦ rw (e, merge_observation, f, g) (merged-IsCounted keep dropped text t h)
              | inr g ↦ rw (e, merge_observation, f, g) h
            ]
      ]
    ]

-- What the consolidation writes: plans and merges, in any order and for any banks.
pub data Writes : Tables → Tables → Type 0 where
  unwritten : {t : Tables} → Writes t t
  wrote_plan :
      {t u v : Tables} (bank : String) (cs us : List (Text × Text × List ℕ)) (ds : List Text)
      → Writes t u
      → v ≡ (apply_plan bank cs us ds u).1
      → Writes t v
  merged_two :
      {t u v : Tables} (bank : String) (keep_uuid drop_uuid text : Text)
      → Writes t u
      → v ≡ (merge_observation bank keep_uuid drop_uuid text u).1
      → Writes t v

-- However plans and merges follow one another, whatever they cite twice, miss, or delete: if each
-- row's `proof_count` was the number of its sources, it is so behind them, also where a cascade takes
-- sources of other observations.
pub Writes-IsCounted : {t u : Tables} → IsCounted t → Writes t u → IsCounted u
Writes-IsCounted h unwritten = h
Writes-IsCounted h (wrote_plan {u = u} bank cs us ds before e) =
    subst IsCounted (sym e) (apply_plan-IsCounted bank cs us ds u (Writes-IsCounted h before))
Writes-IsCounted h (merged_two {u = u} bank keep_uuid drop_uuid text before e) =
    subst IsCounted (sym e)
      (merge_observation-IsCounted bank keep_uuid drop_uuid text u (Writes-IsCounted h before))
