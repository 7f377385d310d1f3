-- ===== src/Consolidate/Round/Whole.antt =====
-- `run_round` of crates/memgardend/src/consolidate/round.rs: one round as a whole, and the next one.
use memgarden.Prelude.{
  ℕ, ◌+◌, ◌≤◌, ◌<◌, max, true, false, Option, some, List, ◌≡◌, ◌≢◌, ◌∙◌, refl, sym, ap, subst,
  arith, ltb,
}
use memgarden.Prelude.Lists.{length, All}
use memgarden.Error.{Result, ok}
use memgarden.Consolidate.Runs.{FactRow, MemoryNode}
use memgarden.Consolidate.Batch.{
  Outside, BatchOutcome, applied, split, dropped, rejected, skipped, process_batch,
}
use memgarden.Consolidate.Batch.Budget.{adjudicated, Pays, process_batch-Pays}
use memgarden.Consolidate.Batch.Calls.{Meter, Within, process_batch-calls}
use memgarden.Consolidate.Round.{
  RoundSummary, Ended, Config, new_summary, counted, is_retried, max_adjudications_per_round,
  enough_rounds, run_batches, retain_waits, first_queue,
}
use memgarden.Consolidate.Round.Queue.{Tiles-batches_from, weight-Tiles, last_id}
use memgarden.Consolidate.Round.Settled.{
  Batch, Log, Settles, nothing, settled, retried, tally, Ends, all_done, put_off, broken, Accounts,
  round_loop_lem,
}

-- A batch that is not retried is no split.
abbrev pub NoSplit : List FactRow × BatchOutcome → Type 0
NoSplit (xs, o) = o ≢ split

module _ {W V : Type 0} (out : Outside W V) (nodes : W → List MemoryNode) (cfg : Config) where
  abbrev batch : Batch W
  batch = process_batch out cfg.max_attempts

  abbrev pub Accounted : W → List FactRow → RoundSummary → Ended W → Type 0
  Accounted w facts s e =
      Accounts (retain_waits out nodes cfg) batch w max_adjudications_per_round facts s e

  -- The loop of a round ends, on every input.
  pub run_batches_lem :
      (w : W) (facts : List FactRow) (s : RoundSummary)
      → (e : Ended W) × (run_batches out nodes cfg w facts s ≡ some e) × Accounted w facts s e
  unfolding run_batches
  run_batches_lem w facts s =
      let t =
        Tiles-batches_from (length facts) (max cfg.llm_batch_size 1) 0 (length facts) (omega arith)
          (omega arith) (omega arith) in
      round_loop_lem (retain_waits out nodes cfg) batch facts (enough_rounds facts) w
        max_adjudications_per_round s (first_queue out nodes cfg facts) 0 t
        (omega (arith, weight-Tiles 0 (first_queue out nodes cfg facts) (length facts) t))

  pays :
      (w : W) (b : ℕ) (xs : List FactRow) {v : W} {c : ℕ} {o : BatchOutcome}
      → batch w xs b ≡ (v, c, ok o)
      → (adjudicated o + c ≡ b) × (o ≡ split → 1 < length xs)
  pays w b xs {v} {c} {o} ran =
      subst (λ r. Pays xs b r.1 r.2) ran (process_batch-Pays out cfg.max_attempts w xs b)

  adjudications-counted :
      (o : BatchOutcome) (n : ℕ) (s : RoundSummary)
      → (counted o n s).adjudications ≡ s.adjudications + adjudicated o
  unfolding counted
  adjudications-counted (applied c) n s = refl
  adjudications-counted split n s = omega arith
  adjudications-counted dropped n s = omega arith
  adjudications-counted rejected n s = omega arith
  adjudications-counted skipped n s = omega arith

  final-NoSplit :
      (o : BatchOutcome) (n : ℕ) → (o ≡ split → 1 < n) → is_retried o n ≡ false → o ≢ split
  final-NoSplit o n several final e =
      let less = several e in
      let kept : ltb 1 n ≡ false = sym (ap (λ p. is_retried p n) e) ∙ final in
      ground (arith, less, kept)

  free_adjudicated : (o : BatchOutcome) (n : ℕ) → is_retried o n ≡ true → adjudicated o ≡ 0
  free_adjudicated split n e = refl
  free_adjudicated rejected n e = refl
  free_adjudicated (applied c) n e = cc e
  free_adjudicated dropped n e = refl
  free_adjudicated skipped n e = refl

  -- What was paid, and that the code meets no split of one fact.
  Settles-Pays :
      {w v : W} {b c : ℕ} {zs : List FactRow} {log : Log} (s : RoundSummary)
      → Settles (retain_waits out nodes cfg) batch w b zs v c log
      → ((tally log s).adjudications + c ≡ s.adjudications + b) × All NoSplit log
  unfolding tally
  Settles-Pays s nothing = (refl, tt)
  Settles-Pays {w} {v} {b} s (settled xs ys o free some_fact ran final cut rest) =
      let (paid, several) = pays w b xs ran in
      let next : RoundSummary = record (counted o (length xs) s) {
        watermark = last_id s.watermark xs;
      } in
      let (total, others) = Settles-Pays next rest in
      (
        omega (arith, total, paid, adjudications-counted o (length xs) s),
        (final-NoSplit o (length xs) several final, others),
      )
  Settles-Pays {w} {v} {b} s (retried xs o free ran again rest) =
      let (paid, several) = pays w b xs ran in
      let (total, others) = Settles-Pays s rest in
      (omega (arith, total, paid, free_adjudicated o (length xs) again), others)

  ends_adjudications :
      {rest : List FactRow} {v : W} {c : ℕ} (s : RoundSummary) (e : Ended W)
      → Ends (retain_waits out nodes cfg) batch rest v c s e
      → e.summary.adjudications ≡ s.adjudications
  ends_adjudications s e (all_done none_left f) = ap (λ x. x.summary.adjudications) f
  ends_adjudications s e (put_off some_left busy f) = ap (λ x. x.summary.adjudications) f
  ends_adjudications s e (broken xs ys v c x cut some_fact free ran f) =
      ap (λ x. x.summary.adjudications) f

  module _ (m : Meter out) where
    spent :
        (w : W) (b : ℕ) (xs : List FactRow) {v : W} {c : ℕ} {r : Result BatchOutcome}
        → batch w xs b ≡ (v, c, r)
        → Within (m.calls w) b (m.calls v) c r
    spent w b xs ran =
        subst (λ t. Within (m.calls w) b (m.calls t.0) t.1 t.2) ran
          (process_batch-calls out m cfg.max_attempts w xs b)

    Settles-calls :
        {w v : W} {b c : ℕ} {zs : List FactRow} {log : Log}
        → Settles (retain_waits out nodes cfg) batch w b zs v c log
        → m.calls v + c ≤ m.calls w + b
    Settles-calls nothing = omega arith
    Settles-calls {w} {v} {b} (settled xs ys o free some_fact ran final cut rest) =
        omega (arith, spent w b xs ran, Settles-calls rest)
    Settles-calls {w} {v} {b} (retried xs o free ran again rest) =
        omega (arith, spent w b xs ran, Settles-calls rest)

    ends-calls :
        {rest : List FactRow} {v : W} {c : ℕ} {s : RoundSummary} {e : Ended W}
        → Ends (retain_waits out nodes cfg) batch rest v c s e
        → m.calls e.world ≤ m.calls v + c
    ends-calls (all_done none_left f) = rw f (omega arith)
    ends-calls (put_off some_left busy f) = rw f (omega arith)
    ends-calls {v = v} {c = c} (broken xs ys u d x cut some_fact free ran f) =
        rw f (spent v c xs ran)

  -- The loop of a round comes to an end, and accounts for every fact: those in front are settled in
  -- order, each in one batch (one of several facts that is rejected or too large settles nothing, and
  -- is tried again in halves), and the summary is theirs. The others are not settled: a retain job
  -- waits, so that no batch of them is begun, or the batch in front of them was run and failed, and
  -- may have written. However many batches there are, the round makes at most 8 calls of the model about
  -- merges, counted by any meter of the world that `dedup_created` raises by one at most, and not
  -- where it answers that it made none; its summary counts at most 8 too. And it meets no split of
  -- one fact, where the code would panic.
  pub run_batches-bounded :
      (m : Meter out) (w : W) (facts : List FactRow) (run_id : Option ℕ) (start : ℕ)
      → (e : Ended W) × (run_batches out nodes cfg w facts (new_summary run_id (length facts) start)
          ≡ some e)
        × (a : Accounted w facts (new_summary run_id (length facts) start) e) × (m.calls e.world
            ≤ m.calls w + max_adjudications_per_round)
        × (e.summary.adjudications ≤ max_adjudications_per_round)
        × All NoSplit a.log
  run_batches-bounded m w facts run_id start =
      let s = new_summary run_id (length facts) start in
      let (e, ran, a) = run_batches_lem w facts s in
      let (total, others) = Settles-Pays s a.settles in
      (
        e,
        ran,
        a,
        omega (arith, Settles-calls m a.settles, ends-calls m a.ends),
        omega (arith, total, ends_adjudications (tally a.log s) e a.ends),
        others,
      )
