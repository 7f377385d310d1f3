-- ===== src/Jobs/Row.antt =====
-- crates/memgarden-store/src/retain_jobs.rs: the row, the progress that a flush writes, and the
-- `SET` of the update. A counter that only grows from 0 is a native number.
use memgarden.Prelude.{ℕ, String, Option, none, some, coalesce, if◌then◌else◌}
use memgarden.Prelude.Int.{ℤ, pos_part}
use memgarden.Jobs.Status.{JobStatus, pending, as_str, is_settled}

-- `RetainJob`, with the column `task` of migration 0014.
pub record RetainJob : Type 0 where
  pub job_id : String
  pub bank_id : String
  pub document_id : Option ℕ
  pub session_id : Option String
  pub status : String
  pub chunks_total : ℕ
  pub chunks_done : ℕ
  pub chunks_skipped : ℕ
  pub chunks_failed : ℕ
  pub facts_written : ℕ
  pub error : Option String
  pub detail : Option String
  pub created_at : ℕ
  pub updated_at : ℕ
  pub offset_from : ℕ
  pub offset_to : ℕ
  pub task : Option String

pub record JobProgress : Type 0 where
  pub status : JobStatus
  pub chunks_total : ℕ
  pub chunks_done : ℕ
  pub chunks_skipped : ℕ
  pub chunks_failed : ℕ
  pub facts_written : ℕ
  pub error : Option String
  pub detail : Option String

-- `JobProgress::default()`
abbrev pub no_progress : JobProgress
no_progress = record {
  status = pending;
  chunks_total = 0;
  chunks_done = 0;
  chunks_skipped = 0;
  chunks_failed = 0;
  facts_written = 0;
  error = none;
  detail = none;
}

abbrev pub range_from : Option (ℤ × ℤ) → ℕ
range_from none = 0
range_from (some (from, to)) = pos_part from

abbrev pub range_to : Option (ℤ × ℤ) → ℕ
range_to none = 0
range_to (some (from, to)) = pos_part to

-- The `VALUES` of `insert`.
unfoldable pub new_job :
    ℕ → String → String → Option ℕ → Option String → Option String → Option (ℤ × ℤ) → RetainJob
new_job now id bank document session detail range = record {
  job_id = id;
  bank_id = bank;
  document_id = document;
  session_id = session;
  status = as_str pending;
  chunks_total = 0;
  chunks_done = 0;
  chunks_skipped = 0;
  chunks_failed = 0;
  facts_written = 0;
  error = none;
  detail = detail;
  created_at = now;
  updated_at = now;
  offset_from = range_from range;
  offset_to = range_to range;
  task = none;
}

-- `CASE WHEN ?1 IN (…) THEN NULL ELSE task END`
unfoldable pub kept_task : String → Option String → Option String
kept_task status task = if is_settled status then none else task

-- The `SET` of `update`.
unfoldable pub set_progress : ℕ → JobProgress → RetainJob → RetainJob
unfolding kept_task
set_progress now p j = record j {
  status = as_str p.status;
  chunks_total = p.chunks_total;
  chunks_done = p.chunks_done;
  chunks_skipped = p.chunks_skipped;
  chunks_failed = p.chunks_failed;
  facts_written = p.facts_written;
  error = p.error;
  detail = coalesce p.detail j.detail;
  updated_at = now;
  task = kept_task (as_str p.status) j.task;
}
