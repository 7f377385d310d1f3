-- ===== src/Lib.antt =====
-- MemGarden: a memory daemon for coding agents. A hook posts pieces of a session's transcript to
-- the daemon, which queues them as retain jobs; a worker cuts each job's transcript into chunks, has
-- a model extract facts from each, and stores them in SQLite; recall fuses the rankings of several
-- searches into one list.
--
-- Files, and the code that they model:
-- Error: crates/memgarden-core/src/error.rs.
-- Sessions: crates/memgarden-store/src/sessions.rs. Sessions.Row is the row (`Session`), one
--   upsert's worth of change (`SessionUpdate`) and what the statement `INSERT ... ON CONFLICT DO
--   UPDATE` makes of them; Sessions.Table is the table with `upsert`, `get` and `gc`.
--   Sessions.Writers are the callers: `mirror_session` of crates/memgardend/src/routes/retain.rs,
--   `upsert_session` of crates/memgardend/src/routes/sessions.rs and the clean-run block of
--   crates/memgardend/src/retain/mod.rs. Sessions.Cursors is the life of one row under all of
--   them, as a step relation. The row keeps an optimistic cursor, `byte_offset`, and a durable one,
--   `confirmed_offset`.
-- Jobs: crates/memgarden-store/src/retain_jobs.rs, the table of retain jobs. Jobs.Restart and
--   Jobs.Life read it over a restart and over any history of writes.
-- Worker: crates/memgardend/src/retain/mod.rs. Worker.Run is `run_job_inner` with its loop, its
--   exits and its resume, Worker.Admission the byte budget of the queue under any interleaving.
-- Chunk: crates/memgardend/src/retain/chunk.rs, the chunker. Chunk.Split is the split of plain
--   text, Chunk.Whole `chunk_text` with its conversation and JSON-lines forms, Chunk.Json what they
--   use of serde_json. A text is the list of its code points (Prelude.Text; in Settings, of its bytes).
-- Hook: the hook's side, crates/memgarden-cli/src/state.rs (Hook.State), transcript.rs (Hook.Reader)
--   and cmd/retain.rs (Hook.Replies, Hook.Retain): the local state with its own cursor and the one job
--   that it waits for, the reader of the transcript, and `advance`, which reconciles, reads and posts.
-- Settings: crates/memgarden-cli/src/settings.rs, the editor of the settings file that the tools share.
--   Settings.Scan is its scanner over bytes, Settings.Tree a grammar of JSON texts to measure it
--   against, Settings.View what `wired_events` reads of a document, Settings.Install and
--   Settings.Uninstall the two edits, Settings.Cycle one behind the other.
-- Consolidate: crates/memgardend/src/consolidate/round.rs and crates/memgarden-store/src/consolidate.rs.
--   A round takes the facts behind a bank's watermark to the model, batch by batch, and moves the
--   watermark. Consolidate.Runs is the table of runs and the query of the facts that wait,
--   Consolidate.Plan what is left of a reply (`validate`), Consolidate.Batch `process_batch`,
--   Consolidate.Round `run_round`, Consolidate.Nodes the writes of a plan and of a merge; the other
--   files of each hold its proofs. What a batch calls outside is the record `Outside` over a world of
--   any type.
-- Recall: crates/memgardend/src/recall/fusion.rs and budget.rs. The operations on f64 and
--   their laws are the record of Recall.Float (for the histogram, of Metrics.Histogram).
-- Mental: crates/memgardend/src/mental/cron.rs, when a mental model is due: Mental.Field parses one
--   field of a cron expression, Mental.Cron the expression, and walks back to its last fire time.
-- Metrics: crates/memgarden-core/src/metrics.rs, the latency histogram: `record_us` as the atomic
--   operations that threads interleave, and `snapshot`.
-- Prelude: shared helpers. Examples: a witness of each result, and runs.
--
-- How the code is read:
--   An `i64` that the code clamps at 0 is a native number; one that it reads unclamped is the ℤ of
--   Prelude.Int. Counters of a row are not bounded; the byte counter of the queue and
--   the counters of a histogram wrap at 64 bits.
--   A table is a list of rows; a statement is a function on it, and `ORDER BY` a stable sort.
--   `f64`, the tokenizer, SQLite's JSON functions, serde_json, jiff's calendar, the clock, the replies of
--   the model and of HTTP, and the shutdown signal are parameters, or come with the input.
--   Loops run on lists. `chunks` (Prelude.Text), `read_loop` (Hook.Reader) and `step_by` (Mental.Field)
--   run on fuel, one unit for each character or number, which is enough; so do `container_loop` and
--   `member_loop` (Settings.Scan). `uninstall_loop` has more rounds than the square of the length, and
--   Settings.Uninstall.Ends shows that they are enough. `round_loop` (Consolidate.Round) has more
--   rounds than twice the number of facts, which Consolidate.Round.Whole shows to be enough. `walk`
--   (Mental.Cron) has the source's own bound of 1464 days.
--
-- Not modelled: the HTTP layer, the plain counters of the metrics, the SQL of nodes, search and
-- graph, embeddings, the prompts, the choice of a twin for an observation, the migration from the
-- older program, the web interface and the CLI's glue.
pub mod Prelude
pub mod Error
pub mod Sessions
pub mod Settings
pub mod Jobs
pub mod Worker
pub mod Chunk
pub mod Consolidate
pub mod Hook
pub mod Mental
pub mod Metrics
pub mod Recall
pub mod Examples
