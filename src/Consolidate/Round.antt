-- ===== src/Consolidate/Round.antt =====
-- `run_round` of crates/memgardend/src/consolidate/round.rs.
pub mod Queue
pub mod Settled
pub mod Whole
pub mod Next
use memgarden.Prelude.{
  ℕ, zero, suc, ◌+◌, ◌-◌, ◌*◌, ◌/◌, min, max, String, Bool, true, false, not, ◌&&◌, ◌||◌, Option,
  none, some, List, [], ◌∷◌, ◌++◌, leb, ltb, ◌==◌, str_eq, if◌then◌else◌,
}
use memgarden.Prelude.Lists.{length, take, drop, keep_if}
use memgarden.Error.{Error, Result, ok, err, conflict}
use memgarden.Consolidate.Runs.{
  FactRow, MemoryNode, RunCounts, RunRow, unconsolidated, start_run, finish_run, watermark,
}
use memgarden.Consolidate.Batch.{
  Outside, Counts, BatchOutcome, applied, split, dropped, rejected, skipped, process_batch,
}

abbrev pub max_adjudications_per_round : ℕ
max_adjudications_per_round = 8

pub record RoundSummary : Type 0 where
  pub run_id : Option ℕ
  pub facts_seen : ℕ
  pub created : ℕ
  pub updated : ℕ
  pub deleted : ℕ
  pub merged : ℕ
  pub batches : ℕ
  pub skipped_batches : ℕ
  pub dropped_facts : ℕ
  pub adjudications : ℕ
  pub deferred : Bool
  pub watermark : ℕ

-- `RoundSummary::default()`, but for the first two fields and the last.
abbrev pub new_summary : Option ℕ → ℕ → ℕ → RoundSummary
new_summary run_id facts_seen watermark = record {
  run_id = run_id;
  facts_seen = facts_seen;
  created = 0;
  updated = 0;
  deleted = 0;
  merged = 0;
  batches = 0;
  skipped_batches = 0;
  dropped_facts = 0;
  adjudications = 0;
  deferred = false;
  watermark = watermark;
}

abbrev pub counts : RoundSummary → RunCounts
counts s = record {
  facts_seen = s.facts_seen;
  created_n = s.created;
  updated_n = s.updated;
  deleted_n = s.deleted;
  merged_n = s.merged;
}

-- `facts[start..end]`
abbrev pub slice : List FactRow → ℕ → ℕ → List FactRow
slice facts start end = take (end - start) (drop start facts)

-- `facts[i].id`; the indices of the loop are in range.
unfoldable pub id_at : List FactRow → ℕ → ℕ
id_at [] i = 0
id_at (f ∷ fs) zero = f.id
id_at (f ∷ fs) (suc i) = id_at fs i

-- The batches from `start` on, with one unit of fuel for each fact: `(start..len).step_by(size)`.
unfoldable pub batches_from : ℕ → ℕ → ℕ → ℕ → List (ℕ × ℕ)
batches_from zero size start len = []
batches_from (suc n) size start len =
    let rest = batches_from n size (start + size) len in
    if ltb start len then (start, min (start + size) len) ∷ rest else []

-- A batch of several facts that is split or rejected.
abbrev pub is_retried : BatchOutcome → ℕ → Bool
is_retried split size = ltb 1 size
is_retried rejected size = ltb 1 size
is_retried (applied c) size = false
is_retried dropped size = false
is_retried skipped size = false

-- What the summary takes from a batch of `size` facts. (The code holds a split of one fact for
-- impossible, and panics there.)
unfoldable pub counted : BatchOutcome → ℕ → RoundSummary → RoundSummary
counted (applied c) size s = record s {
  batches = s.batches + 1;
  created = s.created + c.created;
  updated = s.updated + c.updated;
  deleted = s.deleted + c.deleted;
  merged = s.merged + c.merged;
  adjudications = s.adjudications + c.adjudications;
}
counted rejected size s = record s { skipped_batches = s.skipped_batches + 1 }
counted skipped size s = record s { skipped_batches = s.skipped_batches + 1 }
counted dropped size s = record s { dropped_facts = s.dropped_facts + size }
counted split size s = s

-- How the loop ends: with the world, the summary, and the error if a batch has failed.
pub record Ended (W : Type 0) : Type 0 where
  pub world : W
  pub summary : RoundSummary
  pub error : Option Error

module _ {W : Type 0} (is_queued : W → Bool)
    (batch : W → List FactRow → ℕ → W × ℕ × Result BatchOutcome) where
  -- The loop over the queue, on fuel, with none where it runs out.
  unfoldable pub round_loop :
      ℕ → List FactRow → W → ℕ → RoundSummary → List (ℕ × ℕ) → Option (Ended W)
  unfolding counted id_at
  round_loop zero facts w budget s q = none
  round_loop (suc n) facts w budget s [] = some (record { world = w; summary = s; error = none })
  round_loop (suc n) facts w budget s ((start, end) ∷ q) = elim (is_queued w) [
    | true ↦ some (record { world = w; summary = record s { deferred = true }; error = none })
    | false ↦
        let (v, left, r) = batch w (slice facts start end) budget in
        elim r [
          | err e ↦ some (record { world = v; summary = s; error = some e })
          | ok outcome ↦ elim (is_retried outcome (end - start)) [
            | true ↦
                let mid = start + (end - start) / 2 in
                round_loop n facts v left s ((start, mid) ∷ (mid, end) ∷ q)
            | false ↦
                round_loop n facts v left
                  (record (counted outcome (end - start) s) { watermark = id_at facts (end - 1) }) q
          ]
        ]
  ]

-- More rounds of the loop than there are.
abbrev pub enough_rounds : List FactRow → ℕ
enough_rounds facts = suc (2 * length facts)

-- The note of the row, without its words.
abbrev pub note_of : RoundSummary → Option String
note_of s =
    if (ltb 0 s.skipped_batches || ltb 0 s.dropped_facts) || s.deferred
    then some "abandoned, dropped or deferred"
    else none

-- What `run_round` reads of the configuration.
pub record Config : Type 0 where
  pub batch_size : ℕ
  pub llm_batch_size : ℕ
  pub max_attempts : ℕ

-- The banks with a round, the runs, and the world.
pub record State (W : Type 0) : Type 0 where
  pub consolidating : List String
  pub runs : List RunRow
  pub world : W

abbrev pub holds_bank : String → List String → Bool
holds_bank bank [] = false
holds_bank bank (b ∷ bs) = str_eq b bank || holds_bank bank bs

-- The set with the bank, or none where a round of the bank is running.
unfoldable pub claim : String → List String → Option (List String)
claim bank set = if holds_bank bank set then none else some (bank ∷ set)

-- The drop of the guard.
unfoldable pub release : String → List String → List String
release bank set = keep_if (λ b. not (str_eq b bank)) set

-- The row that ends the round, and its result. (A failure of the row's own statements is not
-- modelled.)
unfoldable pub close_run : {W : Type 0} → ℕ → ℕ → State W → Ended W → State W × Result RoundSummary
unfolding finish_run
close_run later run_id st e =
    let close : String → Option String → List RunRow = λ status error.
      finish_run later run_id status (counts e.summary) (some e.summary.watermark) error st.runs in
    elim e.error [
      | some x ↦ (record st { world = e.world; runs = close "failed" (some "failed") }, err x)
      | none ↦
          (record st { world = e.world; runs = close "done" (note_of e.summary) }, ok e.summary)
    ]

module _ {W V : Type 0} (out : Outside W V) (nodes : W → List MemoryNode) (cfg : Config) where
  abbrev pub retain_waits : W → Bool
  retain_waits w = ltb 0 (out.queued_bytes w)

  -- The queue at the start of a round.
  abbrev pub first_queue : List FactRow → List (ℕ × ℕ)
  first_queue facts = batches_from (length facts) (max cfg.llm_batch_size 1) 0 (length facts)

  unfoldable pub run_batches : W → List FactRow → RoundSummary → Option (Ended W)
  unfolding round_loop process_batch batches_from
  run_batches w facts s =
      round_loop retain_waits (process_batch out cfg.max_attempts) (enough_rounds facts) facts w
        max_adjudications_per_round s (first_queue facts)

  -- The round of a bank that has been claimed.
  unfoldable pub claimed_round : ℕ → ℕ → String → State W → Option (State W × Result RoundSummary)
  unfolding unconsolidated watermark start_run run_batches close_run
  claimed_round now later bank st =
      let start = watermark st.runs bank in
      let facts = unconsolidated now (nodes st.world) bank start cfg.batch_size in
      if length facts == 0
      then some (st, ok (new_summary none 0 start))
      else let (run_id, rows) = start_run now bank st.runs in
        elim (run_batches st.world facts (new_summary (some run_id) (length facts) start)) [
          | none ↦ none
          | some e ↦ some (close_run later run_id (record st { runs = rows }) e)
        ]

  abbrev pub released : String → State W × Result RoundSummary → State W × Result RoundSummary
  released bank (st, r) = (record st { consolidating = release bank st.consolidating }, r)

  -- A round, or none where the fuel of its loop runs out.
  unfoldable pub run_round : ℕ → ℕ → String → State W → Option (State W × Result RoundSummary)
  unfolding claim claimed_round
  run_round now later bank st = elim (claim bank st.consolidating) [
    | none ↦ some (st, err conflict)
    | some set ↦ elim (claimed_round now later bank (record st { consolidating = set })) [
      | none ↦ none
      | some r ↦ some (released bank r)
    ]
  ]
