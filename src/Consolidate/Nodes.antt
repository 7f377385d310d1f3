-- ===== src/Consolidate/Nodes.antt =====
-- The writes of crates/memgarden-store/src/consolidate.rs to `memory_nodes` and `node_sources`: the
-- plan of a batch, and the merge of two observations. Vectors and times are left out. The schema is
-- migrations/0004_consolidation.sql: the key of a source is the pair, a deleted node takes its
-- sources along, and a trigger counts again for each source that goes.
pub mod Counted
pub mod Writes
use memgarden.Prelude.{
  ℕ, suc, ◌+◌, max, String, Bool, true, false, not, ◌&&◌, ◌||◌, Option, none, some, List, [], ◌∷◌,
  ◌++◌, map, ◌==◌, str_eq, if◌then◌else◌,
}
use memgarden.Prelude.Lists.{length, keep_if}
use memgarden.Prelude.Text.{Text, same_text}
use memgarden.Error.{Result, ok, err, not_found, storage}
use memgarden.Consolidate.Batch.{Applied}

pub record NodeRow : Type 0 where
  pub id : ℕ
  pub uuid : Text
  pub bank_id : String
  pub fact_type : String
  pub text : Text
  pub proof_count : ℕ

pub record SourceRow : Type 0 where
  pub observation_id : ℕ
  pub source_id : ℕ

pub record Tables : Type 0 where
  pub nodes : List NodeRow
  pub sources : List SourceRow

-- `SELECT count(*) FROM node_sources WHERE observation_id = ?1`
unfoldable pub count_of : ℕ → List SourceRow → ℕ
count_of id sources = length (keep_if (λ s. s.observation_id == id) sources)

abbrev pub recount_row : ℕ → List SourceRow → NodeRow → NodeRow
recount_row id sources n = if n.id == id then record n { proof_count = count_of id sources } else n

unfoldable pub recount_proof : ℕ → Tables → Tables
recount_proof id t = record t { nodes = map (recount_row id t.sources) t.nodes }

abbrev pub has_node : ℕ → String → List NodeRow → Bool
has_node id bank [] = false
has_node id bank (n ∷ ns) = ((n.id == id) && str_eq n.bank_id bank) || has_node id bank ns

abbrev pub has_source : ℕ → ℕ → List SourceRow → Bool
has_source o id [] = false
has_source o id (s ∷ ss) = ((s.observation_id == o) && (s.source_id == id)) || has_source o id ss

-- `INSERT OR IGNORE`
unfoldable pub insert_source : ℕ → ℕ → List SourceRow → List SourceRow
insert_source o id sources =
    if has_source o id sources
    then sources
    else record { observation_id = o; source_id = id } ∷ sources

unfoldable pub insert_sources : ℕ → List ℕ → List SourceRow → List SourceRow
unfolding insert_source
insert_sources o [] sources = sources
insert_sources o (id ∷ ids) sources = insert_sources o ids (insert_source o id sources)

-- Only nodes of the bank become sources.
unfoldable pub link_sources : ℕ → String → List ℕ → Tables → Tables
unfolding insert_sources
link_sources o bank ids t = record t {
  sources = insert_sources o (keep_if (λ id. has_node id bank t.nodes) ids) t.sources;
}

unfoldable pub next_node_id : List NodeRow → ℕ
next_node_id [] = 1
next_node_id (n ∷ ns) = max (suc n.id) (next_node_id ns)

-- `uuid` is the new one that the code draws.
unfoldable pub insert_observation : Text → String → Text → List ℕ → Tables → ℕ × Tables
unfolding link_sources recount_proof next_node_id
insert_observation uuid bank text source_ids t =
    let id = next_node_id t.nodes in
    let row : NodeRow = record {
      id = id;
      uuid = uuid;
      bank_id = bank;
      fact_type = "observation";
      text = text;
      proof_count = 0;
    } in
    (
      id,
      recount_proof id (link_sources id bank source_ids (record t { nodes = t.nodes ++ row ∷ [] })),
    )

abbrev pub is_observation : Text → String → NodeRow → Bool
is_observation uuid bank n =
    same_text n.uuid uuid && (str_eq n.bank_id bank && str_eq n.fact_type "observation")

unfoldable pub find_observation : Text → String → List NodeRow → Option NodeRow
find_observation uuid bank [] = none
find_observation uuid bank (n ∷ ns) =
    let later = find_observation uuid bank ns in
    if is_observation uuid bank n then some n else later

abbrev pub with_text : ℕ → Text → NodeRow → NodeRow
with_text id text n = if n.id == id then record n { text = text } else n

-- The text is written only where it differs.
unfoldable pub update_text : NodeRow → Text → Tables → Tables
update_text n text t =
    if same_text n.text text then t else record t { nodes = map (with_text n.id text) t.nodes }

abbrev pub touches : ℕ → SourceRow → Bool
touches id s = (s.observation_id == id) || (s.source_id == id)

unfoldable pub recount_each : List ℕ → Tables → Tables
unfolding recount_proof
recount_each [] t = t
recount_each (id ∷ ids) t = recount_each ids (recount_proof id t)

abbrev pub observations_of : List SourceRow → List ℕ
observations_of = map (λ s. s.observation_id)

-- `DELETE FROM memory_nodes WHERE id = ?1`, with the cascade and the trigger.
unfoldable pub delete_node : ℕ → Tables → Tables
unfolding recount_each
delete_node id t = recount_each (observations_of (keep_if (touches id) t.sources)) (record {
  nodes = keep_if (λ n. not (n.id == id)) t.nodes;
  sources = keep_if (λ s. not (touches id s)) t.sources;
})

unfoldable pub create_all : String → List (Text × Text × List ℕ) → Tables → List ℕ × Tables
unfolding insert_observation
create_all bank [] t = ([], t)
create_all bank ((uuid, text, ids) ∷ cs) t =
    let (id, u) = insert_observation uuid bank text ids t in
    let (created, v) = create_all bank cs u in (id ∷ created, v)

-- An observation that has gone is passed over.
unfoldable pub update_all : String → List (Text × Text × List ℕ) → Tables → List (ℕ × Text) × Tables
unfolding find_observation update_text link_sources recount_proof
update_all bank [] t = ([], t)
update_all bank ((uuid, text, ids) ∷ us) t = elim (find_observation uuid bank t.nodes) [
  | none ↦ update_all bank us t
  | some n ↦
      let (updated, u) =
        update_all bank us
          (recount_proof n.id (link_sources n.id bank ids (update_text n text t))) in
      ((n.id, uuid) ∷ updated, u)
]

-- A uuid is unique, so that a statement deletes one row or none.
unfoldable pub delete_all : String → List Text → Tables → ℕ × Tables
unfolding find_observation delete_node
delete_all bank [] t = (0, t)
delete_all bank (uuid ∷ us) t = elim (find_observation uuid bank t.nodes) [
  | none ↦ delete_all bank us t
  | some n ↦ let (deleted, u) = delete_all bank us (delete_node n.id t) in (suc deleted, u)
]

unfoldable pub apply_plan :
    String
    → List (Text × Text × List ℕ)
    → List (Text × Text × List ℕ)
    → List Text
    → Tables
    → Applied × Tables
unfolding create_all update_all delete_all
apply_plan bank creates updates deletes t =
    let (created, t1) = create_all bank creates t in
    let (updated, t2) = update_all bank updates t1 in
    let (deleted, t3) = delete_all bank deletes t2 in
    (record { created = created; updated = updated; deleted = deleted }, t3)

abbrev pub sources_of : ℕ → List SourceRow → List ℕ
sources_of id sources = map (λ s. s.source_id) (keep_if (λ s. s.observation_id == id) sources)

abbrev pub has_id : ℕ → List NodeRow → Bool
has_id id [] = false
has_id id (n ∷ ns) = (n.id == id) || has_id id ns

-- The sources are moved, the text is written, the other observation goes, and the survivor is counted.
unfoldable pub merged : NodeRow → NodeRow → Text → Tables → Tables
unfolding insert_sources update_text delete_node recount_proof
merged keep dropped text t =
    let linked = record t {
      sources = insert_sources keep.id (sources_of dropped.id t.sources) t.sources;
    } in
    recount_proof keep.id (delete_node dropped.id (update_text keep text linked))

-- The survivor's id and its number of sources, or an error that changes nothing.
unfoldable pub merge_observation : String → Text → Text → Text → Tables → Result (ℕ × ℕ) × Tables
unfolding find_observation merged count_of
merge_observation bank keep_uuid drop_uuid merged_text t =
    elim (find_observation keep_uuid bank t.nodes) [
      | none ↦ (err not_found, t)
      | some keep ↦ elim (find_observation drop_uuid bank t.nodes) [
        | none ↦ (err not_found, t)
        | some dropped ↦
            let u = merged keep dropped merged_text t in
            elim (has_id keep.id u.nodes) [
              | true ↦ (ok (keep.id, count_of keep.id u.sources), u)
              | false ↦ (err storage, t)
            ]
      ]
    ]
