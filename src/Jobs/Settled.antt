-- ===== src/Jobs/Settled.antt =====
-- A job that has come to an end keeps no input: crates/memgarden-store/src/retain_jobs.rs.
use memgarden.Prelude.{
  ℕ, String, Bool, true, Option, none, List, [], ◌∷◌, ◌++◌, map, ◌≡◌, refl, arith, str_eq,
  if◌then◌else◌, ◌⊎◌, inl, inr, Bool-cases,
}
use memgarden.Prelude.Int.{ℤ}
use memgarden.Prelude.Lists.{All, All-append}
use memgarden.Error.{ok}
use memgarden.Jobs.Status.{is_unfinished, is_settled}
use memgarden.Jobs.Row.{RetainJob, JobProgress, new_job, set_progress}
use memgarden.Jobs.Table.{
  get, set_where, insert, update, is_stale, close, fail_stale, fail_unfinished,
}

-- The stored task is gone from a row whose status is final.
abbrev pub IsReleased : RetainJob → Type 0
IsReleased j = is_settled j.status ≡ true → j.task ≡ none

abbrev pub AllReleased : List RetainJob → Type 0
AllReleased = All IsReleased

set_progress-IsReleased :
    (now : ℕ) (p : JobProgress) (j : RetainJob) → IsReleased (set_progress now p j)
unfolding set_progress
set_progress-IsReleased now p j h = ground arith

pub set_where-Released :
    (id : String) (f : RetainJob → RetainJob)
    → ((j : RetainJob) → IsReleased j → IsReleased (f j))
    → (rows : List RetainJob) → AllReleased rows
    → AllReleased (set_where id f rows)
unfolding set_where
set_where-Released id f k [] h = tt
set_where-Released id f k (j ∷ rows) h = elim (Bool-cases (str_eq j.job_id id)) [
  | inl e ↦ rw e (k j h.0, set_where-Released id f k rows h.1)
  | inr e ↦ rw e (h.0, set_where-Released id f k rows h.1)
]

new_job-IsReleased :
    (now : ℕ) (id bank : String) (document : Option ℕ) (session detail : Option String)
    (range : Option (ℤ × ℤ))
    → IsReleased (new_job now id bank document session detail range)
unfolding new_job
new_job-IsReleased now id bank document session detail range h = refl

closed-IsReleased :
    (now : ℕ) (reason : String) (j : RetainJob)
    → IsReleased j
    → IsReleased (if is_stale j then close now reason j else j)
unfolding is_stale close
closed-IsReleased now reason j h k = ground arith

ended-IsReleased :
    (now : ℕ) (reason : String) (j : RetainJob)
    → IsReleased j
    → IsReleased (if is_unfinished j.status then record (close now reason j) { task = none } else j)
unfolding close
ended-IsReleased now reason j h k = ground arith

All-map_lem :
    (f : RetainJob → RetainJob)
    → ((j : RetainJob) → IsReleased j → IsReleased (f j))
    → (rows : List RetainJob) → AllReleased rows
    → AllReleased (map f rows)
All-map_lem f k [] h = tt
All-map_lem f k (j ∷ rows) h = (k j h.0, All-map_lem f k rows h.1)

module _ (json_valid : String → Bool) where
  pub insert_new :
      (now : ℕ) (has_bank : String → Bool) (has_document : ℕ → Bool) (id bank : String)
      (document : Option ℕ) (session detail : Option String) (range : Option (ℤ × ℤ))
      (rows : List RetainJob) {after : List RetainJob}
      → insert json_valid now has_bank has_document id bank document session detail range rows
        ≡ ok after
      → (get id rows ≡ none)
        × (after ≡ rows ++ new_job now id bank document session detail range ∷ [])
  unfolding insert
  insert_new now has_bank has_document id bank document session detail range rows h = ground arith

  pub update_set :
      (now : ℕ) (id : String) (p : JobProgress) (rows : List RetainJob) {after : List RetainJob}
      → update json_valid now id p rows ≡ ok after
      → (after ≡ rows) ⊎ (after ≡ set_where id (set_progress now p) rows)
  unfolding update
  update_set now id p rows h = ground arith

  pub insert-Released :
      (now : ℕ) (has_bank : String → Bool) (has_document : ℕ → Bool) (id bank : String)
      (document : Option ℕ) (session detail : Option String) (range : Option (ℤ × ℤ))
      (rows : List RetainJob) {after : List RetainJob}
      → insert json_valid now has_bank has_document id bank document session detail range rows
        ≡ ok after
      → AllReleased rows
      → AllReleased after
  insert-Released now has_bank has_document id bank document session detail range rows h r =
      let (_, e) =
        insert_new now has_bank has_document id bank document session detail range rows h in
      rw e (
        All-append IsReleased rows _ r
          (new_job-IsReleased now id bank document session detail range, tt))

  pub update-Released :
      (now : ℕ) (id : String) (p : JobProgress) (rows : List RetainJob) {after : List RetainJob}
      → update json_valid now id p rows ≡ ok after
      → AllReleased rows
      → AllReleased after
  update-Released now id p rows h r = elim (update_set now id p rows h) [
    | inl e ↦ rw e r
    | inr e ↦
        rw e (
          set_where-Released id (set_progress now p) (λ j _. set_progress-IsReleased now p j) rows
            r)
  ]

pub close_out-Released :
    (now : ℕ) (reason : String) (rows : List RetainJob)
    → AllReleased rows
    → AllReleased (fail_stale now reason rows).1 × AllReleased (fail_unfinished now reason rows).1
unfolding fail_stale fail_unfinished
close_out-Released now reason rows r = (
  All-map_lem (λ j. if is_stale j then close now reason j else j) (closed-IsReleased now reason)
      rows r,
  All-map_lem
      (λ j. if is_unfinished j.status then record (close now reason j) { task = none } else j)
      (ended-IsReleased now reason) rows r,
)
