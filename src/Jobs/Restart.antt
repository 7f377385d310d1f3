-- ===== src/Jobs/Restart.antt =====
-- What a restart does to the jobs that a daemon left behind: crates/memgarden-store/src/retain_jobs.rs.
use memgarden.Prelude.{
  ℕ, String, true, false, none, some, List, [], ◌∷◌, map, ◌≡◌, refl, sym, arith, str_eq, eq_refl,
  if◌then◌else◌, ap, ◌∙◌,
}
use memgarden.Prelude.Lists.{keep_if, All, All-zip, keep_if-All}
use memgarden.Prelude.Sort.{sort_by-All}
use memgarden.Jobs.Status.{is_unfinished, not_unfinished-failed}
use memgarden.Jobs.Row.{RetainJob}
use memgarden.Jobs.Table.{
  get, is_resumable, is_older, by_age, fetch_all, resumable, is_stale, close, fail_stale,
}

-- The primary key: no two rows bear one id.
abbrev pub Distinct : List RetainJob → Type 0
Distinct [] = Unit {0}
Distinct (j ∷ rows) = All (λ k. str_eq j.job_id k.job_id ≡ false) rows × Distinct rows

-- The rows that the query found, each with its task.
abbrev pub with_tasks : List RetainJob → List (RetainJob × String)
with_tasks [] = []
with_tasks (j ∷ js) = elim j.task [ none ↦ with_tasks js | some t ↦ (j, t) ∷ with_tasks js ]

-- `j` is what its id finds.
abbrev Found : List RetainJob → RetainJob → Type 0
Found rows j = get j.job_id rows ≡ some j

fetch_all-Found :
    (rows js : List RetainJob) → All (Found rows) js → fetch_all rows js ≡ with_tasks js
unfolding fetch_all
fetch_all-Found rows [] h = refl
fetch_all-Found rows (j ∷ js) h = ground (arith, fetch_all-Found rows js h.1, h.0)

get-cons_ne :
    (j k : RetainJob) (rows : List RetainJob)
    → str_eq j.job_id k.job_id ≡ false
    → Found rows k
    → Found (j ∷ rows) k
unfolding get
get-cons_ne j k rows n h = ground arith

Found-self : (rows : List RetainJob) → Distinct rows → All (Found rows) rows
Found-self [] d = tt
Found-self (j ∷ rows) d = (
  unfold get in rw (eq_refl j.job_id),
  All-zip (λ k n h. get-cons_ne j k rows n h) rows d.0 (Found-self rows d.1),
)

-- Reading each row anew neither loses nor changes one: the answer is the unfinished rows that have a
-- task, oldest first.
pub resumable_lem :
    (rows : List RetainJob)
    → Distinct rows
    → resumable rows ≡ with_tasks (by_age (keep_if is_resumable rows))
unfolding resumable
resumable_lem rows d = fetch_all-Found rows (by_age (keep_if is_resumable rows)) (
    unfold by_age in
    sort_by-All is_older (Found rows) (keep_if is_resumable rows)
      (keep_if-All (Found rows) is_resumable rows (Found-self rows d)))

-- What `fail_stale` makes of one row.
abbrev closed : ℕ → String → RetainJob → RetainJob
closed now reason j = if is_stale j then close now reason j else j

module _ (now : ℕ) (reason : String) where
  is_resumable-closed : (j : RetainJob) → is_resumable (closed now reason j) ≡ is_resumable j
  unfolding is_resumable is_stale close
  is_resumable-closed j = ground (arith, not_unfinished-failed)

  closed_resumable : (j : RetainJob) → is_resumable j ≡ true → closed now reason j ≡ j
  unfolding is_resumable is_stale close
  closed_resumable j h = ground arith

  closed_not_stuck :
      (j : RetainJob)
      → is_unfinished (closed now reason j).status ≡ true
      → is_resumable (closed now reason j) ≡ true
  unfolding is_resumable is_stale close
  closed_not_stuck j h = ground (arith, not_unfinished-failed)

  job_id-closed : (j : RetainJob) → (closed now reason j).job_id ≡ j.job_id
  unfolding is_stale close
  job_id-closed j = ground arith

  keep_if-closed :
      (rows : List RetainJob)
      → keep_if is_resumable (map (closed now reason) rows) ≡ keep_if is_resumable rows
  keep_if-closed [] = refl
  keep_if-closed (j ∷ rows) =
      ground (arith, keep_if-closed rows, is_resumable-closed j, closed_resumable j)

  All-closed :
      (id : String) (rows : List RetainJob)
      → All (λ k. str_eq id k.job_id ≡ false) rows
      → All (λ k. str_eq id k.job_id ≡ false) (map (closed now reason) rows)
  All-closed id [] h = tt
  All-closed id (j ∷ rows) h = (rw (job_id-closed j) h.0, All-closed id rows h.1)

  Distinct-closed :
      (rows : List RetainJob) → Distinct rows → Distinct (map (closed now reason) rows)
  Distinct-closed [] d = tt
  Distinct-closed (j ∷ rows) d =
      (rw (job_id-closed j) (All-closed j.job_id rows d.0), Distinct-closed rows d.1)

  All-not_stuck :
      (rows : List RetainJob)
      → All
          (λ j. is_unfinished j.status ≡ true → is_resumable j ≡ true)
          (map (closed now reason) rows)
  All-not_stuck [] = tt
  All-not_stuck (j ∷ rows) = (closed_not_stuck j, All-not_stuck rows)

  -- After the close-out no job is stuck: each row that is still unfinished is one to resume. And the
  -- close-out takes no job from those: what is there to resume is, in content and order, what there
  -- was before it.
  pub fail_stale-resumable :
      (rows : List RetainJob)
      → Distinct rows
      → (resumable (fail_stale now reason rows).1 ≡ resumable rows)
        × All
            (λ j. is_unfinished j.status ≡ true → is_resumable j ≡ true)
            (fail_stale now reason rows).1
  unfolding fail_stale
  fail_stale-resumable rows d = (
    resumable_lem (map (closed now reason) rows) (Distinct-closed rows d)
        ∙ ap (λ js. with_tasks (by_age js)) (keep_if-closed rows)
        ∙ sym (resumable_lem rows d),
    All-not_stuck rows,
  )
