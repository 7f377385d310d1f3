-- ===== src/Worker/Rows.antt =====
-- The last row of a job, as crates/memgarden-store/src/retain_jobs.rs stores what the worker of
-- crates/memgardend/src/retain/mod.rs flushes at the end.
use memgarden.Prelude.{ℕ, String, false, none, some, ◌≡◌, arith}
use memgarden.Jobs.Status.{is_settled-as_str}
use memgarden.Jobs.Row.{RetainJob, set_progress}
use memgarden.Jobs.Table.{is_resumable}
use memgarden.Worker.Run.{State, finish}
use memgarden.Worker.Outcome.{finish_outcome}

-- A job's row, with its input stored: after the last flush it is one that a restart resumes exactly
-- when a shutdown interrupted the job; otherwise its input is gone.
pub finish_row :
    (s : State) (now : ℕ) (job : RetainJob) (task : String)
    → job.task ≡ some task
    → (is_resumable (set_progress now (finish s).0.progress job) ≡ s.interrupted)
      × (s.interrupted ≡ false → (set_progress now (finish s).0.progress job).task ≡ none)
unfolding set_progress is_resumable
finish_row s now job task h =
    let j = (finish s).0.progress.status in
    ground (arith, (is_settled-as_str j).0, (is_settled-as_str j).1, (finish_outcome s).0)
