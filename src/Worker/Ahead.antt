-- ===== src/Worker/Ahead.antt =====
-- Two runs of a job's loop side by side, and one run cut in two: what the resume of
-- crates/memgardend/src/retain/mod.rs rests on.
use memgarden.Prelude.{ℕ, suc, ◌+◌, Bool, List, [], ◌∷◌, ◌++◌, ◌≡◌, ap, arith}
use mathlib.Core.List.{append_assoc}
use memgarden.Prelude.Lists.{length}
use memgarden.Worker.Run.{Meets, State, Verdict, stop, go, step, run, finish}
use memgarden.Worker.Loop.{InRun, Live, Live-not_Halted, Counts, step-Counts}

-- `s` stands where `t` does, and has stored `w` before it.
pub record Ahead (w : List (ℕ × ℕ)) (s t : State) : Type 0 where
  pub progress : s.progress ≡ t.progress
  pub index : s.abs_fact_index ≡ t.abs_fact_index
  pub last_error : s.last_error ≡ t.last_error
  pub aborted : s.aborted ≡ t.aborted
  pub interrupted : s.interrupted ≡ t.interrupted
  pub writes : s.writes ≡ w ++ t.writes

abbrev AheadV : List (ℕ × ℕ) → Verdict → Verdict → Type 0
AheadV w (stop s) (stop t) = Ahead w s t
AheadV w (go s) (go t) = Ahead w s t
AheadV w _ _ = ⊥

pub finish-Ahead :
    (w : List (ℕ × ℕ)) (s t : State)
    → Ahead w s t
    → ((finish s).0.progress ≡ (finish t).0.progress)
      × ((finish s).1 ≡ (finish t).1)
      × ((finish s).0.writes ≡ w ++ (finish t).0.writes)
unfolding finish
finish-Ahead w s t h = ground arith

module _ {Chunk : Type 0} (is_blank : Chunk → Bool) (wall_timeout : ℕ) where
  step-Ahead :
      (i : ℕ) (c : Chunk) (m : Meets) (w : List (ℕ × ℕ)) (s t : State)
      → Ahead w s t
      → AheadV w (step is_blank wall_timeout i c m s) (step is_blank wall_timeout i c m t)
  unfolding step
  step-Ahead i c m w s t h = ground (arith, append_assoc w t.writes ((i, t.abs_fact_index) ∷ []))

  pub run-Ahead :
      (i : ℕ) (xs : List (Chunk × Meets)) (w : List (ℕ × ℕ)) (s t : State)
      → Ahead w s t
      → Ahead w (run is_blank wall_timeout i xs s) (run is_blank wall_timeout i xs t)
  unfolding run
  run-Ahead i [] w s t h = h
  run-Ahead i ((c, m) ∷ xs) w s t h =
      after (step is_blank wall_timeout i c m s) (step is_blank wall_timeout i c m t)
        (step-Ahead i c m w s t h) (run-Ahead (suc i) xs w)
    where
      after :
          (u v : Verdict)
          → AheadV w u v
          → ((s t : State)
              → Ahead w s t
              → Ahead w
                  (run is_blank wall_timeout (suc i) xs s)
                  (run is_blank wall_timeout (suc i) xs t))
          → Ahead w
              (elim u as (λ _. State) [
                | stop t ↦ t
                | go t ↦ run is_blank wall_timeout (suc i) xs t
              ])
              (elim v as (λ _. State) [
                | stop t ↦ t
                | go t ↦ run is_blank wall_timeout (suc i) xs t
              ])
      after (stop s) (stop t) h ih = h
      after (stop s) (go t) h ih = absurd h
      after (go s) (stop t) h ih = absurd h
      after (go s) (go t) h ih = ih s t h

  -- The loop over a list that is cut in two, if it gets past the first part.
  pub run-append :
      (total i k : ℕ) (ys zs : List (Chunk × Meets)) (s : State)
      → i + length ys ≡ k
      → InRun total s
      → Live (run is_blank wall_timeout i ys s)
      → run is_blank wall_timeout i (ys ++ zs) s
        ≡ run is_blank wall_timeout k zs (run is_blank wall_timeout i ys s)
  unfolding run
  run-append total i k [] zs s e h l =
      let f : i ≡ k = omega arith in ap (λ n. run is_blank wall_timeout n zs s) f
  run-append total i k ((c, m) ∷ ys) zs s e h l =
      after (step is_blank wall_timeout i c m s) (step-Counts is_blank wall_timeout total i c m s h)
        (run-append total (suc i) k ys zs) l
    where
      after :
          (v : Verdict)
          → Counts total s v
          → ((t : State)
              → suc i + length ys ≡ k
              → InRun total t
              → Live (run is_blank wall_timeout (suc i) ys t)
              → run is_blank wall_timeout (suc i) (ys ++ zs) t
                ≡ run is_blank wall_timeout k zs (run is_blank wall_timeout (suc i) ys t))
          → Live (elim v as (λ _. State) [
            | stop t ↦ t
            | go t ↦ run is_blank wall_timeout (suc i) ys t
          ])
          → ◌≡◌ {A = State}
              (elim v as (λ _. State) [
                | stop t ↦ t
                | go t ↦ run is_blank wall_timeout (suc i) (ys ++ zs) t
              ])
              (run is_blank wall_timeout k zs (elim v as (λ _. State) [
                | stop t ↦ t
                | go t ↦ run is_blank wall_timeout (suc i) ys t
              ]))
      after (stop t) n ih l = absurd (Live-not_Halted t l n.0)
      after (go t) n ih l = ih t (omega arith) n.3 l
