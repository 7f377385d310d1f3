-- ===== src/Worker/Resume.antt =====
-- A job that a shutdown interrupts and the next start resumes ends as if it had never been
-- interrupted: crates/memgardend/src/retain/mod.rs.
use memgarden.Prelude.{
  ℕ, suc, ◌≤◌, Bool, true, false, none, some, List, ◌∷◌, ◌++◌, ◌≡◌, ◌⊎◌, refl, sym, subst, ◌∙◌, ap,
  arith,
}
use mathlib.Core.List.{append-nil}
use mathlib.Core.Path.{ap₂}
use memgarden.Prelude.Lists.{length, drop-append, length-append}
use memgarden.Jobs.Status.{pending}
use memgarden.Jobs.Row.{RetainJob, JobProgress, no_progress, set_progress}
use memgarden.Worker.Run.{
  Meets, State, stop, step, run, run_job, begin, starts, finish, flush, already, resume_of,
  chunker_version,
}
use memgarden.Worker.Loop.{InRun, Live, run_counts}
use memgarden.Worker.Outcome.{InRun-starts}
use memgarden.Worker.Ahead.{Ahead, run-Ahead, finish-Ahead, run-append}

module _ {Chunk : Type 0} (is_blank : Chunk → Bool) (wall_timeout : ℕ) where
  -- The shutdown reaches the round before its chunk, or while the extractor is at it.
  abbrev pub Interrupts : Chunk → Meets → Type 0
  Interrupts c m =
      (m.elapsed ≤ wall_timeout)
      × ((m.stop_before ≡ true) ⊎ ((is_blank c ≡ false) × (m.stop_during ≡ true)))

  step-Interrupts :
      (i : ℕ) (c : Chunk) (m : Meets) (s : State)
      → Interrupts c m
      → step is_blank wall_timeout i c m s ≡ stop (record s { interrupted = true })
  unfolding step
  step-Interrupts i c m s h = ground arith

  -- An interrupted round leaves the loop where it stands.
  run-Interrupts :
      (i : ℕ) (c : Chunk) (m : Meets) (r : List (Chunk × Meets)) (s : State)
      → Interrupts c m
      → run is_blank wall_timeout i ((c, m) ∷ r) s ≡ record s { interrupted = true }
  unfolding run
  run-Interrupts i c m r s h = rw (step-Interrupts i c m s h, run)

  resume_after : (s : State) (now : ℕ) (job : RetainJob) → JobProgress
  resume_after s now job =
      resume_of (set_progress now (finish (record s { interrupted = true })).0.progress job)

  already-resume_after :
      (s : State) (now : ℕ) (job : RetainJob)
      → already (resume_after s now job) ≡ already s.progress
  unfolding resume_after resume_of set_progress finish already
  already-resume_after s now job = refl

  -- The loop's variables at the start of the second run are those that the first one left.
  Ahead-starts :
      (total : ℕ) (s : State) (now : ℕ) (job : RetainJob)
      → InRun total s
      → Live s
      → Ahead s.writes s (starts (resume_after s now job) total)
  unfolding resume_after resume_of set_progress finish starts begin flush
  Ahead-starts total s now job h l = record {
    progress = ground arith;
    index = h.index;
    last_error = refl;
    aborted = l.1;
    interrupted = l.0;
    writes = sym (append-nil s.writes);
  }

  run_job_resumed :
      (p : JobProgress) (ys zs : List (Chunk × Meets))
      → already p ≡ length ys
      → run_job is_blank wall_timeout chunker_version (some p) (ys ++ zs)
        ≡ finish (run is_blank wall_timeout (length ys) zs (starts p (length (ys ++ zs))))
  unfolding run_job
  run_job_resumed p ys zs e = rw (e, drop-append ys zs) (ground arith)

  run_job_fresh :
      (xs : List (Chunk × Meets))
      → run_job is_blank wall_timeout chunker_version none xs
        ≡ finish (run is_blank wall_timeout 0 xs (starts no_progress (length xs)))
  unfolding run_job already
  run_job_fresh xs = ground arith

  abbrev halfway : List (Chunk × Meets) → List (Chunk × Meets) → State
  halfway ys zs = run is_blank wall_timeout 0 ys (starts no_progress (length (ys ++ zs)))

  run_job_whole :
      (ys zs : List (Chunk × Meets))
      → Live (halfway ys zs)
      → run_job is_blank wall_timeout chunker_version none (ys ++ zs)
        ≡ finish (run is_blank wall_timeout (length ys) zs (halfway ys zs))
  run_job_whole ys zs l =
      run_job_fresh (ys ++ zs)
      ∙ ap finish (
          run-append is_blank wall_timeout (length (ys ++ zs)) 0 (length ys) ys zs _ (omega arith)
            (InRun-starts _ _) l)

  run_job_interrupted :
      (ys zs r : List (Chunk × Meets)) (c : Chunk) (m : Meets)
      → length zs ≡ suc (length r)
      → Live (halfway ys zs)
      → Interrupts c m
      → run_job is_blank wall_timeout chunker_version none (ys ++ (c, m) ∷ r)
        ≡ finish (record (halfway ys zs) { interrupted = true })
  run_job_interrupted ys zs r c m f l stops =
      let same : length (ys ++ zs) ≡ length (ys ++ (c, m) ∷ r) =
        omega (arith, length-append ys zs, length-append ys ((c, m) ∷ r)) in
      let live = subst (λ n. Live (run is_blank wall_timeout 0 ys (starts no_progress n))) same l in
      run_job_whole ys ((c, m) ∷ r) live
      ∙ ap finish (run-Interrupts (length ys) c m r (halfway ys ((c, m) ∷ r)) stops)
      ∙ ap
          (λ n.
            finish (record (run is_blank wall_timeout 0 ys (starts no_progress n)) {
              interrupted = true;
            }))
          (sym same)

  already-halfway :
      (ys zs : List (Chunk × Meets))
      → Live (halfway ys zs)
      → (InRun (length (ys ++ zs)) (halfway ys zs)) × (already (halfway ys zs).progress ≡ length ys)
  already-halfway ys zs l =
      let t =
        run_counts is_blank wall_timeout (length (ys ++ zs)) 0 ys
          (starts no_progress (length (ys ++ zs))) (InRun-starts _ _) in
      (t.0, (t.2 l).1 ∙ unfold starts begin flush already in omega arith)

  run_job_second :
      (ys ys' zs : List (Chunk × Meets)) (now : ℕ) (job : RetainJob)
      → length ys' ≡ length ys
      → Live (halfway ys zs)
      → run_job is_blank wall_timeout chunker_version
          (some (resume_after (halfway ys zs) now job))
          (ys' ++ zs)
        ≡ finish (
            run is_blank wall_timeout
              (length ys)
              zs
              (starts (resume_after (halfway ys zs) now job) (length (ys ++ zs))))
  run_job_second ys ys' zs now job e l =
      let p = resume_after (halfway ys zs) now job in
      let same : length (ys' ++ zs) ≡ length (ys ++ zs) =
        omega (arith, length-append ys zs, length-append ys' zs) in
      run_job_resumed p ys' zs
        (already-resume_after (halfway ys zs) now job ∙ (already-halfway ys zs l).1 ∙ sym e)
      ∙ ap₂ (λ n k. finish (run is_blank wall_timeout n zs (starts p k))) e same

  -- A shutdown stops a job at the chunk after `ys`; its row is pending, and the next start hands the
  -- row's counters back. The second run, over the same chunks and under the same chunker, then ends
  -- with the progress and the verdict of a run that nothing interrupted; and the facts that the two
  -- runs store, chunk by chunk and index by index, are those of the one run: each chunk is stored
  -- exactly once.
  pub resume_continues :
      (ys ys' zs r : List (Chunk × Meets)) (c : Chunk) (m : Meets) (now : ℕ) (job : RetainJob)
      → length ys' ≡ length ys
      → length zs ≡ suc (length r)
      → Live (run is_blank wall_timeout 0 ys (starts no_progress (length (ys ++ zs))))
      → Interrupts c m
      → let first = run_job is_blank wall_timeout chunker_version none (ys ++ (c, m) ∷ r) in
        let p = resume_of (set_progress now first.0.progress job) in
        let second = run_job is_blank wall_timeout chunker_version (some p) (ys' ++ zs) in
        let whole = run_job is_blank wall_timeout chunker_version none (ys ++ zs) in
        (first.0.progress.status ≡ pending)
        × (second.0.progress ≡ whole.0.progress)
        × (second.1 ≡ whole.1)
        × (whole.0.writes ≡ first.0.writes ++ second.0.writes)
  unfolding resume_after
  resume_continues ys ys' zs r c m now job e f l stops =
      let s = halfway ys zs in
      let inv = (already-halfway ys zs l).0 in
      let (p, v, w) =
        finish-Ahead s.writes (run is_blank wall_timeout (length ys) zs s)
          (run is_blank wall_timeout (length ys) zs
            (starts (resume_after s now job) (length (ys ++ zs))))
          (run-Ahead is_blank wall_timeout (length ys) zs s.writes s
            (starts (resume_after s now job) (length (ys ++ zs)))
            (Ahead-starts (length (ys ++ zs)) s now job inv l)) in
      rw
        (
          run_job_interrupted ys zs r c m f l stops,
          run_job_whole ys zs l,
          run_job_second ys ys' zs now job e l,
        )
        (unfold finish flush in refl, sym p, sym v, unfold finish flush in w)
