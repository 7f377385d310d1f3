-- ===== src/Worker/Outcome.antt =====
-- What a job's last row says of its chunks: crates/memgardend/src/retain/mod.rs.
use memgarden.Prelude.{
  ℕ, ◌≤◌, ◌<◌, Bool, true, false, not, ltb, ◌==◌, Option, none, List, [], ◌∷◌, ◌++◌, ◌≡◌, ◌↔◌, ◌&&◌,
  ◌∙◌, Bool-cases, inl, inr, refl, arith,
}
use memgarden.Jobs.Status.{pending, done, partial, is_terminal}
use memgarden.Jobs.Row.{JobProgress}
use memgarden.Prelude.Lists.{length, drop, length-drop}
use memgarden.Worker.Loop.{InRun, Live, run_counts}
use memgarden.Worker.Run.{
  Meets, begin, starts, refuse, run, run_job, resumed, chunker_version, State, finish, flush,
  already,
}

pub finish_outcome :
    (s : State)
    → let (t, clean) = finish s in
      (is_terminal t.progress.status ≡ not s.interrupted)
      × ((t.progress.status ≡ pending) ↔ (s.interrupted ≡ true))
      × ((clean ≡ true) ↔ (t.progress.status ≡ done))
      × ((t.progress.status ≡ done)
          ↔ ((s.interrupted ≡ false) × (s.aborted ≡ none) × (s.progress.chunks_failed ≡ 0)))
      × ((t.progress.status ≡ partial) ↔ (
          (s.interrupted ≡ false)
          × (s.aborted ≡ none)
          × (0 < s.progress.chunks_failed)
          × (0 < s.progress.chunks_done)))
      × (t.flushes ≡ s.flushes ++ t.progress ∷ [])
unfolding finish is_terminal
finish_outcome s = ground arith

pub InRun-starts : (p : JobProgress) (total : ℕ) → InRun total (starts p total)
unfolding starts begin flush
InRun-starts p total = record {
  status = refl;
  total_kept = refl;
  no_error = refl;
  no_detail = refl;
  index = refl;
}

already-starts : (p : JobProgress) (total : ℕ) → already (starts p total).progress ≡ already p
unfolding starts begin flush already
already-starts p total = refl

already-refuse :
    (p : JobProgress) (s : State)
    → (already (refuse p s).0.progress ≡ already p) × ((refuse p s).1 ≡ false)
unfolding refuse flush already
already-refuse p s = (refl, refl)

already-finish :
    (s : State)
    → (already (finish s).0.progress ≡ already s.progress)
      × ((finish s).0.progress.chunks_total ≡ s.progress.chunks_total)
      × ((finish s).1 ≡ true → Live s × (s.progress.chunks_failed ≡ 0))
      × ((finish s).0.progress.chunks_failed ≡ s.progress.chunks_failed)
unfolding finish already
already-finish s = ground arith

module _ {Chunk : Type 0} (is_blank : Chunk → Bool) (wall_timeout chunker : ℕ) where
  finish_accounts :
      (p : JobProgress) (rounds : List (Chunk × Meets))
      → already p ≤ length rounds
      → let (t, clean) = finish (
          run is_blank wall_timeout
            (already p)
            (drop (already p) rounds)
            (starts p (length rounds))) in
        (already t.progress ≤ length rounds)
        × (clean ≡ true
            → (t.progress.chunks_failed ≡ 0)
              × (t.progress.chunks_total ≡ length rounds)
              × (already t.progress ≡ length rounds))
  finish_accounts p rounds h =
      let s = starts p (length rounds) in
      let rest = drop (already p) rounds in
      let t = run is_blank wall_timeout (already p) rest s in
      let (inv, most, all) =
        run_counts is_blank wall_timeout (length rounds) (already p) rest s
          (InRun-starts p (length rounds)) in
      let (same, total, clean, none_failed) = already-finish t in
      let n = length-drop (already p) rounds in
      let a = already-starts p (length rounds) in
      (
        omega arith,
        λ c.
            let (live, zero_failed) = clean c in
            (none_failed ∙ zero_failed, total ∙ inv.total_kept, omega (arith, (all live).1)),
      )

  -- A job ends with every chunk counted at most once. Where the clean-run block is entered, so that
  -- the content hash is stored and the durable cursor confirmed, no chunk failed and each of them
  -- was either stored or had nothing to extract: none was lost, in this run or in those that it
  -- resumes. (The row that is resumed counts no more chunks than there are.)
  pub run_job_accounts :
      (resume : Option JobProgress) (rounds : List (Chunk × Meets))
      → already (resumed resume) ≤ length rounds
      → let (t, clean) = run_job is_blank wall_timeout chunker resume rounds in
        (already t.progress ≤ length rounds)
        × (clean ≡ true
            → (t.progress.chunks_failed ≡ 0)
              × (t.progress.chunks_total ≡ length rounds)
              × (already t.progress ≡ length rounds))
  unfolding run_job
  run_job_accounts resume rounds h =
      elim (Bool-cases (ltb 0 (already (resumed resume)) && not (chunker == chunker_version))) [
        | inl e ↦
            let (same, no_clean) =
              already-refuse (resumed resume) (begin (resumed resume) (length rounds)) in
            rw e (omega arith, λ c. cc)
        | inr e ↦ rw e (finish_accounts (resumed resume) rounds h)
      ]
