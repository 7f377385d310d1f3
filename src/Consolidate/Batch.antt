-- ===== src/Consolidate/Batch.antt =====
-- `process_batch` of crates/memgardend/src/consolidate/round.rs. What it calls outside of that file
-- is the record `Outside`: the recall of observations, the model, the embedder, the statements of
-- the store, and the deduplication of one observation. `W` is the world that these act on.
pub mod Budget
pub mod Calls
pub mod Shown
use memgarden.Prelude.{
  ℕ, zero, suc, ◌+◌, ◌-◌, max, Bool, true, false, Option, none, some, List, [], ◌∷◌, ◌++◌, map, leb,
  ltb, ◌==◌, if◌then◌else◌, coalesce,
}
use memgarden.Prelude.Lists.{length, take}
use memgarden.Prelude.Text.{Text, same_text}
use memgarden.Error.{Result, ok, err}
use memgarden.Consolidate.Runs.{FactRow}
use memgarden.Consolidate.Plan.{RawPlan, Plan, validate}

abbrev pub consolidation_prompt_max_tokens : ℕ
consolidation_prompt_max_tokens = 6144

-- An observation of the pool: its uuid, and what the prompt shows of it.
pub record PooledObservation : Type 0 where
  pub uuid : Text
  pub entry : Text

-- `created` are the ids, `updated` the ids with the uuids.
pub record Applied : Type 0 where
  pub created : List ℕ
  pub updated : List (ℕ × Text)
  pub deleted : ℕ

-- `Outcome` of consolidate/mod.rs.
pub data Outcome : Type 0 where
  stored : ℕ → Outcome
  folded : ℕ → Outcome

-- A reply of the model: the call fails, the reply is no plan, or it is one.
pub data Reply : Type 0 where
  no_reply unparseable : Reply
  planned : RawPlan → Reply

pub record Outside (W V : Type 0) : Type 0 where
  pub queued_bytes : W → ℕ
  pub token_count : Text → ℕ
  pub system_prompt : Text
  pub user_prompt : List FactRow → List PooledObservation → Text
  pub pool_observations : W → List FactRow → W × Result (List PooledObservation)
  pub chat : W → Text → Text → W × Reply
  pub embed_one : W → Text → W × Result V
  pub apply_plan : W → Plan → List V → W × Result Applied
  pub set_embedding : W → ℕ → V → W × Bool
  pub dedup_created : W → ℕ → Text → V → W × Result (Outcome × Bool)
  pub reembed_merged_twin : W → ℕ → W

pub record Counts : Type 0 where
  pub created : ℕ
  pub updated : ℕ
  pub deleted : ℕ
  pub merged : ℕ
  pub adjudications : ℕ

pub data BatchOutcome : Type 0 where
  applied : Counts → BatchOutcome
  split dropped rejected skipped : BatchOutcome

abbrev pub uuids : List PooledObservation → List Text
uuids [] = []
uuids (o ∷ os) = o.uuid ∷ uuids os

abbrev pub create_texts : List (Text × List ℕ) → List Text
create_texts [] = []
create_texts ((t, sources) ∷ cs) = t ∷ create_texts cs

-- `update_texts.get(uuid)` of the map that is collected: of equal keys the last one counts.
unfoldable pub update_text : Text → List (Text × Text × List ℕ) → Option Text
update_text uuid [] = none
update_text uuid ((u, t, sources) ∷ us) =
    coalesce (update_text uuid us) (if same_text u uuid then some t else none)

-- The two `zip`s: they end with the shortest list.
abbrev pub created_candidates : {V : Type 0} → List ℕ → List Text → List V → List (ℕ × Text × V)
created_candidates [] ts vs = []
created_candidates (i ∷ is) [] vs = []
created_candidates (i ∷ is) (t ∷ ts) [] = []
created_candidates (i ∷ is) (t ∷ ts) (v ∷ vs) = (i, t, v) ∷ created_candidates is ts vs

module _ {W V : Type 0} (out : Outside W V) where
  abbrev pub fits : List FactRow → List PooledObservation → Bool
  fits facts pool =
      leb (out.token_count out.system_prompt + out.token_count (out.user_prompt facts pool))
        consolidation_prompt_max_tokens

  -- The loop of `assemble`, where `n` observations of the pool have not been popped.
  unfoldable pub assemble_from :
      ℕ → List FactRow → List PooledObservation → Option (List PooledObservation)
  assemble_from zero facts pool = if fits facts [] then some [] else none
  assemble_from (suc n) facts pool =
      let shorter = assemble_from n facts pool in
      if fits facts (take (suc n) pool) then some (take (suc n) pool) else shorter

  unfoldable pub assemble : List FactRow → List PooledObservation → Option (List PooledObservation)
  unfolding assemble_from
  assemble facts pool = assemble_from (length pool) facts pool

  -- The loop over the attempts: the plan, and whether a call has failed.
  unfoldable pub attempt_loop :
      ℕ → W → List FactRow → List PooledObservation → Bool → W × Option Plan × Bool
  unfolding validate
  attempt_loop zero w facts pool transport_failed = (w, none, transport_failed)
  attempt_loop (suc n) w facts pool transport_failed =
      let (v, reply) = out.chat w out.system_prompt (out.user_prompt facts pool) in
      elim reply [
        | no_reply ↦ attempt_loop n v facts pool true
        | unparseable ↦ attempt_loop n v facts pool transport_failed
        | planned raw ↦ elim (validate raw facts (uuids pool)) [
          | none ↦ attempt_loop n v facts pool transport_failed
          | some plan ↦ (v, some plan, transport_failed)
        ]
      ]

  unfoldable pub embed_all : W → List Text → W × Result (List V)
  embed_all w [] = (w, ok [])
  embed_all w (t ∷ ts) =
      let (v, r) = out.embed_one w t in
      elim r [
        | err e ↦ (v, err e)
        | ok x ↦
            let (u, rest) = embed_all v ts in
            elim rest [ err e ↦ (u, err e) | ok xs ↦ (u, ok (x ∷ xs)) ]
      ]

  -- The updated observations that are embedded again; one that cannot be is passed over.
  unfoldable pub refresh :
      W → List (Text × Text × List ℕ) → List (ℕ × Text) → W × List (ℕ × Text × V)
  unfolding update_text
  refresh w updates [] = (w, [])
  refresh w updates ((id, uuid) ∷ us) = elim (update_text uuid updates) [
    | none ↦ refresh w updates us
    | some t ↦
        let (w1, r) = out.embed_one w t in
        elim r [
          | err e ↦ refresh w1 updates us
          | ok x ↦
              let (w2, done) = out.set_embedding w1 id x in
              let (w3, rest) = refresh w2 updates us in
              elim done [ true ↦ (w3, (id, t, x) ∷ rest) | false ↦ (w3, rest) ]
        ]
  ]

  abbrev pub settle_twin : W → Outcome → W × ℕ
  settle_twin w (stored id) = (w, 0)
  settle_twin w (folded into) = (out.reembed_merged_twin w into, 1)

  abbrev pub one_if : Bool → ℕ
  one_if true = 1
  one_if false = 0

  -- The loop over the candidates: what is left of the budget, and the numbers of merges and of
  -- adjudications.
  unfoldable pub dedup_loop : W → ℕ → List (ℕ × Text × V) → ℕ → ℕ → W × ℕ × Result (ℕ × ℕ)
  dedup_loop w budget [] merged adjudications = (w, budget, ok (merged, adjudications))
  dedup_loop w zero (c ∷ cs) merged adjudications = (w, zero, ok (merged, adjudications))
  dedup_loop w (suc budget) ((id, text, x) ∷ cs) merged adjudications =
      let (v, r) = out.dedup_created w id text x in
      elim r [
        | err e ↦ (v, suc budget, err e)
        | ok (outcome, adjudicated) ↦
            let (u, more) = settle_twin v outcome in
            dedup_loop u (suc budget - one_if adjudicated) cs (merged + more)
              (adjudications + one_if adjudicated)
      ]

  -- What follows a plan: the writes, and the deduplication of what is written.
  unfoldable pub apply : W → ℕ → Plan → W × ℕ × Result BatchOutcome
  unfolding embed_all refresh dedup_loop
  apply w budget plan =
      let (w1, r) = embed_all w (create_texts plan.creates) in
      elim r [
        | err e ↦ (w1, budget, err e)
        | ok vectors ↦
            let (w2, written) = out.apply_plan w1 plan vectors in
            elim written [
              | err e ↦ (w2, budget, err e)
              | ok a ↦
                  let (w3, updated) = refresh w2 plan.updates a.updated in
                  let candidates =
                    created_candidates a.created (create_texts plan.creates) vectors ++ updated in
                  let (w4, left, deduped) = dedup_loop w3 budget candidates 0 0 in
                  elim deduped [
                    | err e ↦ (w4, left, err e)
                    | ok (merged, adjudications) ↦ (
                      w4,
                      left,
                      ok (
                          applied (record {
                            created = length a.created;
                            updated = length a.updated;
                            deleted = a.deleted;
                            merged = merged;
                            adjudications = adjudications;
                          })),
                    )
                  ]
            ]
      ]

  -- The batch with the pool that is left of it: the world, the budget of adjudications, the outcome.
  unfoldable pub with_pool :
      ℕ → W → List FactRow → ℕ → List PooledObservation → W × ℕ × Result BatchOutcome
  unfolding attempt_loop apply
  with_pool max_attempts w facts budget pool =
      let (v, plan, transport_failed) = attempt_loop (max max_attempts 1) w facts pool false in
      elim plan [
        | none ↦ (v, budget, ok (if transport_failed then skipped else rejected))
        | some p ↦ apply v budget p
      ]

  unfoldable pub process_batch : ℕ → W → List FactRow → ℕ → W × ℕ × Result BatchOutcome
  unfolding assemble with_pool
  process_batch max_attempts w facts budget =
      let (v, r) = out.pool_observations w facts in
      elim r [
        | err e ↦ (v, budget, err e)
        | ok pool ↦ elim (assemble facts pool) [
          | none ↦ (v, budget, ok (if ltb 1 (length facts) then split else dropped))
          | some shown ↦ with_pool max_attempts v facts budget shown
        ]
      ]
