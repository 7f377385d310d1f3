-- ===== src/Worker/Run.antt =====
-- crates/memgardend/src/retain/mod.rs: `run_job_inner` and `extract_chunk`.
-- What the job meets from outside (the clock, the shutdown signal, the model's replies, the store)
-- comes with each chunk. The messages of errors are shortened.
use memgarden.Prelude.{
  ℕ, suc, ◌+◌, String, Bool, true, false, not, ◌&&◌, Option, none, some, List, [], ◌∷◌, ◌++◌, ltb,
  ◌==◌, if◌then◌else◌, coalesce,
}
use memgarden.Prelude.Lists.{length, drop}
use memgarden.Jobs.Status.{JobStatus, pending, running, done, partial, failed}
use memgarden.Jobs.Row.{RetainJob, JobProgress, no_progress}

-- `CHUNKER_VERSION` of retain/chunk.rs.
abbrev pub chunker_version : ℕ
chunker_version = 1

-- One call of the extractor: facts, a slot error (`Busy` or `Deadline`), or another error.
pub data Attempt : Type 0 where
  facts : ℕ → Attempt
  slot_error other_error : String → Attempt

-- A slot error is worth one more attempt.
unfoldable pub extract_chunk : Attempt → Attempt → Attempt
extract_chunk (slot_error e) second = second
extract_chunk first second = first

-- What one round of the loop meets.
pub record Meets : Type 0 where
  pub elapsed : ℕ
  pub stop_before : Bool
  pub stop_during : Bool
  pub first : Attempt
  pub second : Attempt
  -- the error of `write_facts`
  pub write_error : Option String

-- The variables of the loop. `writes` is the chunk and the first fact index of each `write_facts`
-- that succeeded; `flushes` are the progress records written to the job's row.
pub record State : Type 0 where
  pub progress : JobProgress
  pub abs_fact_index : ℕ
  pub last_error : Option String
  pub aborted : Option String
  pub interrupted : Bool
  pub writes : List (ℕ × ℕ)
  pub flushes : List JobProgress

unfoldable pub flush : State → State
flush s = record s { flushes = s.flushes ++ s.progress ∷ [] }

-- `break`, or the next round.
pub data Verdict : Type 0 where
  stop go : State → Verdict

unfoldable pub fail_chunk : String → State → State
fail_chunk e s = record s {
  progress = record s.progress { chunks_failed = s.progress.chunks_failed + 1 };
  last_error = some e;
}

-- `write_facts` inserts one node for each fact, or none.
unfoldable pub store_facts : ℕ → ℕ → Option String → State → State
unfolding fail_chunk
store_facts i n (some e) s = fail_chunk e s
store_facts i n none s = record s {
  abs_fact_index = s.abs_fact_index + n;
  progress = record s.progress {
    facts_written = s.progress.facts_written + n;
    chunks_done = s.progress.chunks_done + 1;
  };
  writes = s.writes ++ (i, s.abs_fact_index) ∷ [];
}

unfoldable pub settle_chunk : ℕ → Attempt → Option String → State → State
unfolding store_facts fail_chunk
settle_chunk i (facts n) w s = store_facts i n w s
settle_chunk i (slot_error e) w s = fail_chunk e s
settle_chunk i (other_error e) w s = fail_chunk e s

unfoldable pub skip_chunk : State → State
skip_chunk s = record s {
  progress = record s.progress { chunks_skipped = s.progress.chunks_skipped + 1 };
}

-- `is_blank` is `chunk.trim().is_empty() || is_degenerate_text(chunk)`.
module _ {Chunk : Type 0} (is_blank : Chunk → Bool) (wall_timeout : ℕ) where
  unfoldable pub step : ℕ → Chunk → Meets → State → Verdict
  unfolding flush skip_chunk settle_chunk extract_chunk
  step i chunk m s =
      if ltb wall_timeout m.elapsed
      then stop (record s { aborted = some "retain wall timeout" })
      else if m.stop_before
      then stop (record s { interrupted = true })
      else if is_blank chunk
      then go (flush (skip_chunk s))
      else if m.stop_during
      then stop (record s { interrupted = true })
      else go (flush (settle_chunk i (extract_chunk m.first m.second) m.write_error s))

  unfoldable pub run : ℕ → List (Chunk × Meets) → State → State
  run i [] s = s
  run i ((chunk, m) ∷ rest) s = elim (step i chunk m s) [ stop t ↦ t | go t ↦ run (suc i) rest t ]

unfoldable pub all_failed : JobProgress → Bool
all_failed p = (p.chunks_done == 0) && ltb 0 p.chunks_failed

unfoldable pub is_clean : Option String → JobProgress → Bool
unfolding all_failed
is_clean (some e) p = false
is_clean none p = not (all_failed p) && (p.chunks_failed == 0)

unfoldable pub final_status : Option String → JobProgress → JobStatus
unfolding all_failed
final_status (some e) p = failed
final_status none p =
    if all_failed p then failed else if ltb 0 p.chunks_failed then partial else done

-- The state after the job, and whether the clean-run block was entered.
unfoldable pub finish : State → State × Bool
unfolding flush is_clean final_status
finish s =
    if s.interrupted
    then (
      flush (record s { progress = record s.progress { status = pending; error = s.last_error } }),
      false,
    )
    else (
      flush (record s {
        progress = record s.progress {
          status = final_status s.aborted s.progress;
          error = coalesce s.aborted s.last_error;
        };
      }),
      is_clean s.aborted s.progress,
    )

unfoldable pub already : JobProgress → ℕ
already p = p.chunks_done + p.chunks_failed + p.chunks_skipped

-- The loop's variables at its start.
unfoldable pub begin : JobProgress → ℕ → State
begin resumed total = record {
  progress = record no_progress {
    status = running;
    chunks_total = total;
    chunks_done = resumed.chunks_done;
    chunks_failed = resumed.chunks_failed;
    chunks_skipped = resumed.chunks_skipped;
    facts_written = resumed.facts_written;
  };
  abs_fact_index = resumed.facts_written;
  last_error = resumed.error;
  aborted = none;
  interrupted = false;
  writes = [];
  flushes = [];
}

-- `task.resume.clone().unwrap_or_default()`
abbrev pub resumed : Option JobProgress → JobProgress
resumed none = no_progress
resumed (some p) = p

-- The chunks already done were cut by another chunker.
unfoldable pub refuse : JobProgress → State → State × Bool
refuse p b = (
  flush (record b {
    progress = record p { status = failed; error = some "cannot resume after a restart" };
  }),
  false,
)

-- Where the job starts, and from which chunk.
unfoldable pub starts : JobProgress → ℕ → State
starts p total = flush (begin p total)

module _ {Chunk : Type 0} (is_blank : Chunk → Bool) (wall_timeout : ℕ) where
  -- `rounds` are the chunks, each with what its round meets; those already done are skipped.
  unfoldable pub run_job : ℕ → Option JobProgress → List (Chunk × Meets) → State × Bool
  run_job chunker resume rounds =
      let p = resumed resume in
      let total = length rounds in
      if ltb 0 (already p) && not (chunker == chunker_version)
      then refuse p (begin p total)
      else finish (run is_blank wall_timeout (already p) (drop (already p) rounds) (starts p total))

-- `resumable_tasks`: what a restart hands back to the worker from the job's row.
unfoldable pub resume_of : RetainJob → JobProgress
resume_of j = record {
  status = pending;
  chunks_total = j.chunks_total;
  chunks_done = j.chunks_done;
  chunks_skipped = j.chunks_skipped;
  chunks_failed = j.chunks_failed;
  facts_written = j.facts_written;
  error = j.error;
  detail = none;
}
