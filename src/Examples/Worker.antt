-- ===== src/Examples/Worker.antt =====
-- The retain worker of crates/memgardend/src/retain/mod.rs.
use memgarden.Prelude.{
  ℕ, ◌≤◌, Bool, true, false, none, some, [], ◌∷◌, ◌++◌, ◌≡◌, inr, refl, arith, ◌==◌,
}
use memgarden.Jobs.Status.{pending, partial}
use memgarden.Jobs.Row.{RetainJob, no_progress, new_job, set_progress}
use memgarden.Worker.Run.{
  Meets, facts, slot_error, other_error, State, run, run_job, step, starts, begin, flush, finish,
  already, resume_of, chunker_version,
}
use memgarden.Worker.Loop.{Live}
use memgarden.Worker.Outcome.{run_job_accounts}
use memgarden.Worker.Resume.{resume_continues}
use memgarden.Worker.Admission.{
  Budget, Step, admit, here, next, IsExact, Reach-IsExact, over_budget, fetch_add,
}

-- Chunks are numbers here, and 0 is blank.
abbrev blank : ℕ → Bool
blank n = n == 0

abbrev quiet : Meets
quiet = record {
  elapsed = 1;
  stop_before = false;
  stop_during = false;
  first = facts 3;
  second = facts 0;
  write_error = none;
}

abbrev stopping : Meets
stopping = record quiet { stop_during = true }

abbrev failing : Meets
failing = record quiet { first = slot_error "busy"; second = other_error "down" }

abbrev job : RetainJob
job = record (new_job 5 "a" "bank" none none none none) { task = some "input" }

abbrev ended : State
ended = run blank 100 0 ((7, quiet) ∷ (0, quiet) ∷ (8, failing) ∷ []) (starts no_progress 3)

-- The run: one chunk stored, one blank, one lost; the job is partial.
ended_run :
    ((finish ended).0.progress.status ≡ partial)
    × (ended.writes ≡ (0, 0) ∷ [])
    × ((finish ended).1 ≡ false)
unfolding run step starts begin finish flush
ended_run = (refl, refl, refl)

live : Live (run blank 100 0 ((7, quiet) ∷ []) (starts no_progress 3))
unfolding run step starts begin flush
live = (refl, refl)

resume_continues_example :
    let first =
      run_job blank 100 chunker_version none
        (((7, quiet) ∷ []) ++ (8, stopping) ∷ (0, quiet) ∷ []) in
    let p = resume_of (set_progress 9 first.0.progress job) in
    let second =
      run_job blank 100 chunker_version
        (some p)
        (((7, failing) ∷ []) ++ (8, quiet) ∷ (0, quiet) ∷ []) in
    let whole =
      run_job blank 100 chunker_version none (((7, quiet) ∷ []) ++ (8, quiet) ∷ (0, quiet) ∷ []) in
    (first.0.progress.status ≡ pending)
    × (second.0.progress ≡ whole.0.progress)
    × (second.1 ≡ whole.1)
    × (whole.0.writes ≡ first.0.writes ++ second.0.writes)
resume_continues_example =
    resume_continues blank 100 ((7, quiet) ∷ []) ((7, failing) ∷ []) ((8, quiet) ∷ (0, quiet) ∷ [])
      ((0, quiet) ∷ []) 8 stopping 9 job refl refl live (omega arith, inr (refl, refl))

run_job_accounts_example :
    let (t, clean) = run_job blank 100 1 none ((7, quiet) ∷ (0, quiet) ∷ []) in
    (already t.progress ≤ 2)
    × (clean ≡ true
        → (t.progress.chunks_failed ≡ 0) × (t.progress.chunks_total ≡ 2) × (already t.progress ≡ 2))
unfolding already
run_job_accounts_example =
    run_job_accounts blank 100 1 none ((7, quiet) ∷ (0, quiet) ∷ []) (omega arith)

abbrev empty_budget : Budget
empty_budget = record { queued = 0; admitted = []; refused = [] }

abbrev one_budget : Budget
one_budget = record { queued = fetch_add 0 1000; admitted = 1000 ∷ []; refused = [] }

admitted_one : Step empty_budget one_budget
unfolding over_budget
admitted_one = admit 1000 (omega arith) refl refl

Reach-IsExact_example : IsExact one_budget
Reach-IsExact_example = Reach-IsExact (next (here refl) admitted_one)
