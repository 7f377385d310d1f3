-- ===== src/Jobs/Life.antt =====
-- Every write that the daemon makes to the table of crates/memgarden-store/src/retain_jobs.rs.
use memgarden.Prelude.{
  ℕ, String, Bool, true, false, Option, none, some, List, [], ◌∷◌, ◌++◌, map, ◌≡◌, refl, arith,
  str_eq, if◌then◌else◌, Bool-cases, inl, inr,
}
use memgarden.Prelude.Int.{ℤ}
use memgarden.Prelude.Lists.{All, All-append}
use memgarden.Error.{ok}
use memgarden.Jobs.Status.{is_unfinished, not_unfinished_settled}
use memgarden.Jobs.Row.{RetainJob, JobProgress, new_job, set_progress}
use memgarden.Jobs.Table.{
  get, set_where, set_task, set_detail_field, insert, update, close, fail_stale, fail_unfinished,
}
use memgarden.Jobs.Restart.{Distinct}
use memgarden.Jobs.Settled.{
  AllReleased, set_where-Released, insert_new, update_set, insert-Released, update-Released,
  close_out-Released,
}

module _ (json_valid : String → Bool) (json_set : String → String → String → String) where
  -- `task` is written to a row whose job has not ended: the request has just inserted it, and its
  -- job is queued behind this write. The statement itself does not look at the status.
  pub data Write : List RetainJob → List RetainJob → Type 0 where
    inserted :
        {rows after : List RetainJob} (now : ℕ) (has_bank : String → Bool) (has_document : ℕ → Bool)
        (id bank : String) (document : Option ℕ) (session detail : Option String)
        (range : Option (ℤ × ℤ))
        → insert json_valid now has_bank has_document id bank document session detail range rows
          ≡ ok after
        → Write rows after
    flushed :
        {rows after : List RetainJob} (now : ℕ) (id : String) (p : JobProgress)
        → update json_valid now id p rows ≡ ok after
        → Write rows after
    tasked :
        {rows after : List RetainJob} (id task : String)
        → All (λ j. str_eq j.job_id id ≡ true → is_unfinished j.status ≡ true) rows
        → after ≡ set_task id task rows
        → Write rows after
    detailed :
        {rows after : List RetainJob} (id key value : String)
        → after ≡ set_detail_field json_set id key value rows
        → Write rows after
    stale_closed :
        {rows after : List RetainJob} (now : ℕ) (reason : String)
        → after ≡ (fail_stale now reason rows).1
        → Write rows after
    all_closed :
        {rows after : List RetainJob} (now : ℕ) (reason : String)
        → after ≡ (fail_unfinished now reason rows).1
        → Write rows after

  pub data History : List RetainJob → Type 0 where
    empty : {rows : List RetainJob} → rows ≡ [] → History rows
    write : {rows after : List RetainJob} → History rows → Write rows after → History after

pub record IsKept (rows : List RetainJob) : Type 0 where
  pub distinct : Distinct rows
  pub released : AllReleased rows

abbrev Others : String → List RetainJob → Type 0
Others id = All (λ k. str_eq id k.job_id ≡ false)

-- A change of rows in place that leaves their ids alone.
module _ (f : RetainJob → RetainJob) (same : (j : RetainJob) → (f j).job_id ≡ j.job_id) where
  Others-map : (id : String) (rows : List RetainJob) → Others id rows → Others id (map f rows)
  Others-map id [] h = tt
  Others-map id (j ∷ rows) h = (rw (same j) h.0, Others-map id rows h.1)

  Distinct-map : (rows : List RetainJob) → Distinct rows → Distinct (map f rows)
  Distinct-map [] d = tt
  Distinct-map (j ∷ rows) d = (rw (same j) (Others-map j.job_id rows d.0), Distinct-map rows d.1)

set_where-map :
    (id : String) (f : RetainJob → RetainJob) (rows : List RetainJob)
    → set_where id f rows ≡ map (λ j. if str_eq j.job_id id then f j else j) rows
unfolding set_where
set_where-map id f [] = refl
set_where-map id f (j ∷ rows) = rw (set_where-map id f rows)

set_where-Distinct :
    (id : String) (f : RetainJob → RetainJob)
    → ((j : RetainJob) → (f j).job_id ≡ j.job_id)
    → (rows : List RetainJob) → Distinct rows
    → Distinct (set_where id f rows)
set_where-Distinct id f same rows d =
    rw (set_where-map id f rows) (
      Distinct-map (λ j. if str_eq j.job_id id then f j else j) (λ j. ground (arith, same j)) rows
        d)

Others-missing :
    (j : RetainJob) (id : String) (rows : List RetainJob)
    → get id (j ∷ rows) ≡ none
    → (str_eq j.job_id id ≡ false) × (get id rows ≡ none)
unfolding get
Others-missing j id rows h = ground arith

Distinct-insert :
    (rows : List RetainJob) (k : RetainJob)
    → get k.job_id rows ≡ none
    → Distinct rows
    → Distinct (rows ++ k ∷ [])
Distinct-insert [] k h d = (tt, tt)
Distinct-insert (j ∷ rows) k h d =
    let (n, r) = Others-missing j k.job_id rows h in
    (
      All-append (λ i. str_eq j.job_id i.job_id ≡ false) rows (k ∷ []) d.0 (n, tt),
      Distinct-insert rows k r d.1,
    )

set_task-Released :
    (id task : String) (rows : List RetainJob)
    → All (λ j. str_eq j.job_id id ≡ true → is_unfinished j.status ≡ true) rows
    → AllReleased rows
    → AllReleased (set_task id task rows)
unfolding set_task set_where
set_task-Released id task [] h r = tt
set_task-Released id task (j ∷ rows) h r = elim (Bool-cases (str_eq j.job_id id)) [
  | inl e ↦
      rw e
        (λ s. cc (h.0 e, not_unfinished_settled j.status s), set_task-Released id task rows h.1 r.1)
  | inr e ↦ rw e (r.0, set_task-Released id task rows h.1 r.1)
]

module _ {json_valid : String → Bool} {json_set : String → String → String → String} where
  Write-Distinct :
      {rows after : List RetainJob}
      → Write json_valid json_set rows after
      → Distinct rows
      → Distinct after
  unfolding new_job set_progress close
  Write-Distinct {rows} (inserted now hb hd id bank doc session detail range h) d =
      let (fresh, e) = insert_new json_valid now hb hd id bank doc session detail range rows h in
      rw e (Distinct-insert rows (new_job now id bank doc session detail range) fresh d)
  Write-Distinct {rows} (flushed now id p h) d = elim (update_set json_valid now id p rows h) [
    | inl e ↦ rw e d
    | inr e ↦ rw e (set_where-Distinct id (set_progress now p) (λ j. refl) rows d)
  ]
  Write-Distinct {rows} (tasked id task h e) d = rw e (
      unfold set_task in
      set_where-Distinct id (λ j. record j { task = some task }) (λ j. refl) rows d)
  Write-Distinct {rows} (detailed id key value e) d =
      rw e (unfold set_detail_field in set_where-Distinct id _ (λ j. refl) rows d)
  Write-Distinct {rows} (stale_closed now reason e) d =
      rw e (unfold fail_stale in Distinct-map _ (λ j. ground arith) rows d)
  Write-Distinct {rows} (all_closed now reason e) d =
      rw e (unfold fail_unfinished in Distinct-map _ (λ j. ground arith) rows d)

  Write-Released :
      {rows after : List RetainJob}
      → Write json_valid json_set rows after
      → AllReleased rows
      → AllReleased after
  Write-Released {rows} (inserted now hb hd id bank doc session detail range h) r =
      insert-Released json_valid now hb hd id bank doc session detail range rows h r
  Write-Released {rows} (flushed now id p h) r = update-Released json_valid now id p rows h r
  Write-Released {rows} (tasked id task h e) r = rw e (set_task-Released id task rows h r)
  Write-Released {rows} (detailed id key value e) r =
      rw e (unfold set_detail_field in set_where-Released id _ (λ j k. k) rows r)
  Write-Released {rows} (stale_closed now reason e) r =
      rw e (close_out-Released now reason rows r).0
  Write-Released {rows} (all_closed now reason e) r = rw e (close_out-Released now reason rows r).1

  -- Whatever writes led to the table, from an empty one on, as long as `set_task` is called only for rows
  -- whose status is not final (its one caller has just inserted the row, and queues the job behind it;
  -- the statement has no such guard): no two rows bear one job id, and a row whose status is final
  -- keeps no stored input, so no restart runs it again.
  pub History-IsKept : {rows : List RetainJob} → History json_valid json_set rows → IsKept rows
  History-IsKept (empty e) = rw e (record { distinct = tt; released = tt })
  History-IsKept (write h w) =
      let k = History-IsKept h in
      record { distinct = Write-Distinct w k.distinct; released = Write-Released w k.released }
