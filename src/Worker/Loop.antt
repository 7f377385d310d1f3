-- ===== src/Worker/Loop.antt =====
-- The chunk loop of crates/memgardend/src/retain/mod.rs: what each round counts.
use memgarden.Prelude.{
  ℕ, suc, ◌+◌, ◌≤◌, String, Bool, true, false, none, some, List, [], ◌∷◌, ◌≡◌, ◌⊎◌, inl, inr, sym,
  ◌∙◌, arith,
}
use memgarden.Prelude.Lists.{length}
use memgarden.Jobs.Status.{running}
use memgarden.Worker.Run.{Meets, State, Verdict, stop, go, step, run, already}

abbrev pub Live : State → Type 0
Live s = (s.interrupted ≡ false) × (s.aborted ≡ none)

abbrev pub Halted : State → Type 0
Halted s = (s.interrupted ≡ true) ⊎ ((e : String) × (s.aborted ≡ some e))

pub Live-not_Halted : (s : State) → Live s → Halted s → ⊥
Live-not_Halted s (a, b) (inl e) = cc
Live-not_Halted s (a, b) (inr (m, e)) = cc

-- What stays as it is while the loop runs.
pub record InRun (total : ℕ) (s : State) : Type 0 where
  pub status : s.progress.status ≡ running
  pub total_kept : s.progress.chunks_total ≡ total
  pub no_error : s.progress.error ≡ none
  pub no_detail : s.progress.detail ≡ none
  pub index : s.abs_fact_index ≡ s.progress.facts_written

-- One round: it stops and counts nothing, or counts its chunk once.
abbrev pub Counts : ℕ → State → Verdict → Type 0
Counts total s (stop t) = Halted t × (already t.progress ≡ already s.progress) × InRun total t
Counts total s (go t) =
    (t.interrupted ≡ s.interrupted)
    × (t.aborted ≡ s.aborted)
    × (already t.progress ≡ already s.progress + 1)
    × InRun total t

module _ {Chunk : Type 0} (is_blank : Chunk → Bool) (wall_timeout : ℕ) (total : ℕ) where
  pub step-Counts :
      (i : ℕ) (c : Chunk) (m : Meets) (s : State)
      → InRun total s
      → Counts total s (step is_blank wall_timeout i c m s)
  unfolding step already
  step-Counts i c m s h = ground arith

  -- What the loop owes when it leaves `s` for `t` with `n` chunks in hand.
  abbrev pub Tally : ℕ → State → State → Type 0
  Tally n s t =
      InRun total t
      × (already t.progress ≤ already s.progress + n)
      × (Live t → (Live s) × (already t.progress ≡ already s.progress + n))

  Tally-stop : (n : ℕ) (s t : State) → Counts total s (stop t) → Tally n s t
  Tally-stop n s t k = (k.2, omega arith, λ l. absurd (Live-not_Halted t l k.0))

  Tally-go : (n : ℕ) (s t u : State) → Counts total s (go t) → Tally n t u → Tally (suc n) s u
  Tally-go n s t u k h =
      (h.0, omega arith, λ l. let (p, e) = h.2 l in ((sym k.0 ∙ p.0, sym k.1 ∙ p.1), omega arith))

  -- The loop counts each chunk that it is given at most once, and every one of them if it comes to
  -- its end.
  pub run_counts :
      (i : ℕ) (xs : List (Chunk × Meets)) (s : State)
      → InRun total s
      → Tally (length xs) s (run is_blank wall_timeout i xs s)
  unfolding run
  run_counts i [] s h = (h, omega arith, λ l. (l, omega arith))
  run_counts i ((c, m) ∷ xs) s h =
      after (step is_blank wall_timeout i c m s) (step-Counts i c m s h) (run_counts (suc i) xs)
    where
      after :
          (v : Verdict)
          → Counts total s v
          → ((t : State)
              → InRun total t
              → Tally (length xs) t (run is_blank wall_timeout (suc i) xs t))
          → Tally (suc (length xs)) s (elim v as (λ _. State) [
            | stop t ↦ t
            | go t ↦ run is_blank wall_timeout (suc i) xs t
          ])
      after (stop t) k ih = Tally-stop (suc (length xs)) s t k
      after (go t) k ih =
          Tally-go (length xs) s t (run is_blank wall_timeout (suc i) xs t) k (ih t k.3)
