-- ===== src/Jobs/Table.antt =====
-- crates/memgarden-store/src/retain_jobs.rs: the statements over the table, a list of rows.
-- SQLite's `json_valid` and `json_set` are parameters; so are the ids that the foreign keys name.
use memgarden.Prelude.{
  ℕ, String, Bool, true, false, ◌&&◌, Option, none, some, List, [], ◌∷◌, ◌++◌, map, str_eq, leb,
  if◌then◌else◌, coalesce,
}
use memgarden.Prelude.Int.{ℤ}
use memgarden.Prelude.Lists.{length, keep_if}
use memgarden.Prelude.Sort.{sort_by}
use memgarden.Error.{Result, ok, err, storage}
use memgarden.Jobs.Status.{as_str, failed, is_unfinished}
use memgarden.Jobs.Row.{RetainJob, JobProgress, new_job, set_progress}

unfoldable pub get : String → List RetainJob → Option RetainJob
get id [] = none
get id (j ∷ rows) = if str_eq j.job_id id then some j else get id rows

-- `UPDATE … WHERE job_id = ?`
unfoldable pub set_where : String → (RetainJob → RetainJob) → List RetainJob → List RetainJob
set_where id f [] = []
set_where id f (j ∷ rows) = (if str_eq j.job_id id then f j else j) ∷ set_where id f rows

-- `UPDATE … SET task = ?2 WHERE job_id = ?1`
unfoldable pub set_task : String → String → List RetainJob → List RetainJob
set_task id task = set_where id (λ j. record j { task = some task })

-- `CHECK (detail IS NULL OR json_valid(detail))`
unfoldable pub fits_check : (String → Bool) → Option String → Bool
fits_check json_valid none = true
fits_check json_valid (some d) = json_valid d

module _ (json_valid : String → Bool) where
  -- A job id that is taken, a parent that is missing and a detail that is no JSON are refused.
  unfoldable pub insert :
      ℕ
      → (String → Bool)
      → (ℕ → Bool)
      → String
      → String
      → Option ℕ
      → Option String
      → Option String
      → Option (ℤ × ℤ)
      → List RetainJob
      → Result (List RetainJob)
  insert now has_bank has_document id bank document session detail range rows = elim (get id rows) [
    | some j ↦ err storage
    | none ↦
        if has_bank bank
          && (fits_check json_valid detail
              && elim document [ none ↦ true | some d ↦ has_document d ])
        then ok (rows ++ new_job now id bank document session detail range ∷ [])
        else err storage
  ]

  unfoldable pub update : ℕ → String → JobProgress → List RetainJob → Result (List RetainJob)
  update now id p rows = elim (get id rows) [
    | none ↦ ok rows
    | some j ↦
        if fits_check json_valid (coalesce p.detail j.detail)
        then ok (set_where id (set_progress now p) rows)
        else err storage
  ]

-- `SET detail = json_set(coalesce(detail, '{}'), '$.' || ?2, ?3)`
unfoldable pub set_detail_field :
    (String → String → String → String) → String → String → String → List RetainJob → List RetainJob
set_detail_field json_set id key value = set_where id (λ j. record j {
  detail = some (json_set (elim j.detail [ none ↦ "{}" | some d ↦ d ]) key value);
})

-- `status IN ('pending','running') AND task IS NOT NULL`
unfoldable pub is_resumable : RetainJob → Bool
is_resumable j = is_unfinished j.status && elim j.task [ none ↦ false | some t ↦ true ]

unfoldable pub is_older : RetainJob → RetainJob → Bool
is_older j k = leb j.created_at k.created_at

-- `ORDER BY created_at`: rows of one instant stay in the table's order.
unfoldable pub by_age : List RetainJob → List RetainJob
unfolding is_older sort_by
by_age = sort_by is_older

-- `get` of each row that the query found, with its task.
unfoldable pub fetch_all : List RetainJob → List RetainJob → List (RetainJob × String)
fetch_all rows [] = []
fetch_all rows (j ∷ js) = elim (get j.job_id rows) [
  | none ↦ fetch_all rows js
  | some k ↦ elim j.task [ none ↦ fetch_all rows js | some t ↦ (k, t) ∷ fetch_all rows js ]
]

unfoldable pub resumable : List RetainJob → List (RetainJob × String)
unfolding by_age
resumable rows = fetch_all rows (by_age (keep_if is_resumable rows))

-- `status IN ('pending','running') AND task IS NULL`
unfoldable pub is_stale : RetainJob → Bool
is_stale j = is_unfinished j.status && elim j.task [ none ↦ true | some t ↦ false ]

unfoldable pub close : ℕ → String → RetainJob → RetainJob
close now reason j = record j { status = as_str failed; error = some reason; updated_at = now }

-- The number of rows that the statement changed, and the table after it.
unfoldable pub fail_stale : ℕ → String → List RetainJob → ℕ × List RetainJob
fail_stale now reason rows =
    (length (keep_if is_stale rows), map (λ j. if is_stale j then close now reason j else j) rows)

unfoldable pub fail_unfinished : ℕ → String → List RetainJob → ℕ × List RetainJob
fail_unfinished now reason rows = (
  length (keep_if (λ j. is_unfinished j.status) rows),
  map (λ j. if is_unfinished j.status then record (close now reason j) { task = none } else j) rows,
)
