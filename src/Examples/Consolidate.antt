-- ===== src/Examples/Consolidate.antt =====
-- Consolidation, crates/memgardend/src/consolidate/round.rs, on three facts.
use memgarden.Prelude.{
  map, ℕ, suc, ◌+◌, ◌*◌, ◌≤◌, String, true, Option, none, some, List, [], ◌∷◌, ◌≡◌, refl, arith,
  ◌==◌, if◌then◌else◌,
}
use memgarden.Prelude.Lists.{length, All}
use memgarden.Prelude.Text.{codes, trim, is_white}
use memgarden.Error.{Result, ok}
use memgarden.Consolidate.Runs.{FactRow, MemoryNode, waiting, watermark}
use memgarden.Consolidate.Runs.Waiting.{Ascends, facts_of}
use memgarden.Consolidate.Plan.{RawPlan, Plan, validate}
use memgarden.Consolidate.Plan.Accepted.{IsSound, validate-IsSound}
use memgarden.Consolidate.Batch.{
  Outside, PooledObservation, unparseable, planned, stored, assemble, process_batch,
}
use memgarden.Consolidate.Batch.Calls.{Meter}
use memgarden.Consolidate.Batch.Shown.{Fitted, assemble-Fitted}
use memgarden.Consolidate.Round.{
  Config, State, RoundSummary, Ended, new_summary, run_batches, run_round, claim, retain_waits,
  max_adjudications_per_round,
}
use memgarden.Consolidate.Round.Whole.{Accounted, NoSplit, run_batches-bounded}
use memgarden.Consolidate.Round.Next.{Advances, run_round-Advances}
use memgarden.Consolidate.Nodes.{NodeRow, Tables, count_of, apply_plan, merge_observation}
use memgarden.Consolidate.Nodes.Counted.{IsCounted}
use memgarden.Consolidate.Nodes.Writes.{unwritten, wrote_plan, merged_two, Writes-IsCounted}

abbrev fact : ℕ → String → FactRow
fact id uuid = record {
  id = id;
  uuid = codes uuid;
  text = codes "a fact";
  occurred_start = none;
  occurred_end = none;
  mentioned_at = none;
}

abbrev facts : List FactRow
facts = fact 5 "a" ∷ fact 7 "b" ∷ []

abbrev node : FactRow → MemoryNode
node f = record {
  fact = f;
  bank_id = "bank";
  fact_type = "world";
  superseded_by = none;
  expires_at = none;
}

abbrev table : List MemoryNode
table = node (fact 5 "a") ∷ node (fact 7 "b") ∷ node (fact 9 "c") ∷ []

abbrev observation : PooledObservation
observation = record { uuid = codes "o"; entry = codes "an observation" }

-- One create that cites the first fact, and a delete without a reason.
abbrev raw : RawPlan
raw = record {
  creates =
      record { text = codes " new "; source_fact_ids = codes "a" ∷ []; reason = codes "said twice" }
      ∷ [];
  updates = [];
  deletes = record { observation_id = codes "o"; reason = [] } ∷ [];
}

abbrev plan : Plan
plan = record { creates = (codes "new", 5 ∷ []) ∷ []; updates = []; deletes = [] }

-- The world is the number of calls of the model; the first reply is no plan.
abbrev out : Outside ℕ ℕ
out = record {
  queued_bytes = λ w. 0;
  token_count = λ t. 1000 * length t;
  system_prompt = codes "sys";
  user_prompt = λ fs os. codes "ab";
  pool_observations = λ w fs. (w, ok (observation ∷ []));
  chat = λ w s u. (suc w, if w == 0 then unparseable else planned raw);
  embed_one = λ w t. (w, ok 1);
  apply_plan = λ w p vs. (w, ok (record { created = 20 ∷ []; updated = []; deleted = 0 }));
  set_embedding = λ w id x. (w, true);
  dedup_created = λ w id t x. (w, ok (stored id, true));
  reembed_merged_twin = λ w id. w;
}

abbrev cfg : Config
cfg = record { batch_size = 2; llm_batch_size = 2; max_attempts = 1 }

abbrev state : State ℕ
state = record { consolidating = []; runs = []; world = 0 }

abbrev nodes : ℕ → List MemoryNode
nodes w = table

table-Ascends : Ascends (facts_of table)
table-Ascends = ((omega arith, (omega arith, tt)), ((omega arith, tt), (tt, tt)))

free_run : claim "bank" [] ≡ some ("bank" ∷ [])
unfolding claim
free_run = refl

run_round-Advances_example :
    (st' : State ℕ) × (r : Result RoundSummary) × (run_round out nodes cfg 100 200 "bank" state
      ≡ some (st', r))
    × Advances
        (retain_waits out nodes cfg)
        (process_batch out 1)
        2
        (waiting 100 table "bank")
        (watermark [] "bank")
        (watermark st'.runs "bank")
        0
        r
run_round-Advances_example =
    run_round-Advances out nodes cfg 100 200 "bank" state ("bank" ∷ []) table-Ascends free_run

abbrev created_and_mark : Option (Ended ℕ) → Option (ℕ × ℕ × ℕ)
created_and_mark none = none
created_and_mark (some e) = some (e.summary.batches, e.summary.created, e.summary.watermark)

-- The first reply is no plan, so that the batch is cut in two.
halves_run :
    created_and_mark (run_batches out nodes cfg 0 facts (new_summary none 2 0)) ≡ some (2, 2, 7)
unfolding run_batches trim is_white
halves_run = refl

-- The world counts the calls about merges: each deduplication makes one.
abbrev metered : Outside ℕ ℕ
metered = record out {
  chat = λ w s u. (w, planned raw);
  dedup_created = λ w id t x. (suc w, ok (stored id, true));
}

abbrev meter : Meter metered
meter = record {
  calls = λ w. w;
  pooled = λ w fs. omega arith;
  chatted = λ w s u. omega arith;
  embedded = λ w t. omega arith;
  wrote = λ w p vs. omega arith;
  set = λ w id x. omega arith;
  deduped = λ w id t x. omega arith;
  reembedded = λ w id. omega arith;
}

run_batches-bounded_example :
    (e : Ended ℕ) × (run_batches metered nodes cfg 0 facts (new_summary none 2 0) ≡ some e)
    × (a : Accounted metered nodes cfg 0 facts (new_summary none 2 0) e) × (e.world
        ≤ 0 + max_adjudications_per_round)
    × (e.summary.adjudications ≤ max_adjudications_per_round)
    × All NoSplit a.log
run_batches-bounded_example = run_batches-bounded metered nodes cfg meter 0 facts none 0

accepted_run : validate raw facts (codes "o" ∷ []) ≡ some plan
unfolding validate trim is_white
accepted_run = refl

validate-IsSound_example : IsSound facts (codes "o" ∷ []) plan
validate-IsSound_example = validate-IsSound raw facts (codes "o" ∷ []) plan accepted_run

assemble-Fitted_example :
    Fitted out facts (observation ∷ []) 1 (assemble out facts (observation ∷ []))
assemble-Fitted_example = assemble-Fitted out facts (observation ∷ [])

abbrev row : ℕ → String → String → ℕ → NodeRow
row id uuid fact_type proofs = record {
  id = id;
  uuid = codes uuid;
  bank_id = "bank";
  fact_type = fact_type;
  text = codes uuid;
  proof_count = proofs;
}

abbrev tables : Tables
tables = record {
  nodes = row 5 "a" "world" 0 ∷ row 7 "b" "world" 0 ∷ row 8 "o" "observation" 1 ∷ [];
  sources = record { observation_id = 8; source_id = 5 } ∷ [];
}

-- A new observation that cites one fact twice, and one more fact for the old one.
abbrev written : Tables
written =
    (apply_plan "bank" ((codes "n", codes "new", 5 ∷ 5 ∷ []) ∷ [])
      ((codes "o", codes "old", 7 ∷ []) ∷ []) [] tables).1

abbrev both : Tables
both = (merge_observation "bank" (codes "o") (codes "n") (codes "both") written).1

both_run : map {B = ℕ × ℕ} (λ n. (n.id, n.proof_count)) both.nodes ≡ (5, 0) ∷ (7, 0) ∷ (8, 2) ∷ []
unfolding apply_plan merge_observation
both_run = refl

tables-IsCounted : IsCounted tables
unfolding count_of
tables-IsCounted = (refl, (refl, (refl, tt)))

Writes-IsCounted_example : IsCounted both
Writes-IsCounted_example = Writes-IsCounted tables-IsCounted (
    merged_two "bank" (codes "o") (codes "n") (codes "both")
      (wrote_plan "bank" ((codes "n", codes "new", 5 ∷ 5 ∷ []) ∷ [])
        ((codes "o", codes "old", 7 ∷ []) ∷ []) [] unwritten refl)
      refl)
