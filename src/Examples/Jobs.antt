-- ===== src/Examples/Jobs.antt =====
-- crates/memgarden-store/src/retain_jobs.rs.
use memgarden.Prelude.{true, none, some, List, [], ◌∷◌, ◌≡◌, refl}
use memgarden.Prelude.Int.{pos}
use memgarden.Prelude.Lists.{All}
use memgarden.Jobs.Status.{done, is_settled, as_str, is_unfinished}
use memgarden.Jobs.Row.{RetainJob, JobProgress, no_progress, kept_task, set_progress, new_job}
use memgarden.Jobs.Table.{
  get, update, set_task, set_where, insert, fits_check, is_resumable, by_age, resumable, fetch_all,
  fail_stale, is_stale, close,
}
use memgarden.Jobs.Restart.{Distinct, fail_stale-resumable}
use memgarden.Jobs.Life.{Write, inserted, flushed, tasked, empty, write, IsKept, History-IsKept}

-- Two jobs that a restart finds: one waits with its input, one runs and has none.
abbrev waiting : RetainJob
waiting = record (new_job 5 "a" "bank" none none none none) { task = some "input" }

abbrev orphan : RetainJob
orphan = record (new_job 3 "b" "bank" none none none (some (pos 0, pos 9))) { status = "running" }

abbrev table : List RetainJob
table = orphan ∷ waiting ∷ []

table-Distinct : Distinct table
unfolding new_job
table-Distinct = ((refl, tt), (tt, tt))

-- The run: the waiting job is handed back.
resumable_run : resumable table ≡ (waiting, "input") ∷ []
unfolding resumable by_age fetch_all get is_resumable is_unfinished new_job as_str
resumable_run = refl

fail_stale-resumable_example :
    (resumable (fail_stale 9 "restart" table).1 ≡ resumable table)
    × All
        (λ j. is_unfinished j.status ≡ true → is_resumable j ≡ true)
        (fail_stale 9 "restart" table).1
fail_stale-resumable_example = fail_stale-resumable 9 "restart" table table-Distinct

-- The run: the orphan is closed out, and counted.
fail_stale_run : fail_stale 9 "restart" table ≡ (1, close 9 "restart" orphan ∷ waiting ∷ [])
unfolding fail_stale is_stale is_unfinished new_job as_str
fail_stale_run = refl

abbrev inserted_table : List RetainJob
inserted_table = new_job 5 "a" "bank" none none none none ∷ []

first-Write : Write (λ s. true) (λ d k v. d) [] inserted_table
unfolding insert get fits_check
first-Write = inserted 5 (λ b. true) (λ d. true) "a" "bank" none none none none refl

-- The input is stored, and the job comes to its end.
abbrev queued_table : List RetainJob
queued_table = record (new_job 5 "a" "bank" none none none none) { task = some "input" } ∷ []

second-Write : Write (λ s. true) (λ d k v. d) inserted_table queued_table
unfolding is_unfinished new_job as_str set_task set_where
second-Write = tasked "a" "input" ((λ e. refl), tt) refl

abbrev ended : JobProgress
ended = record no_progress { status = done }

abbrev ended_table : List RetainJob
ended_table =
    record (new_job 5 "a" "bank" none none none none) { status = as_str done; updated_at = 9 } ∷ []

third-Write : Write (λ s. true) (λ d k v. d) queued_table ended_table
unfolding update get fits_check set_where set_progress new_job as_str kept_task is_settled
third-Write = flushed 9 "a" ended refl

History-IsKept_example : IsKept ended_table
History-IsKept_example =
    History-IsKept {json_valid = λ s. true} {json_set = λ d k v. d}
      (write (write (write (empty refl) first-Write) second-Write) third-Write)
