-- ===== src/Consolidate/Round/Next.antt =====
-- `run_round` of crates/memgardend/src/consolidate/round.rs, and where the next round begins.
use memgarden.Prelude.{
  ℕ, ◌≤◌, max, min, String, Bool, true, false, none, some, List, [], ◌∷◌, ◌++◌, ◌≡◌, ◌∙◌, refl, sym,
  ap, inl, inr, arith, ◌==◌, Bool-cases, Option-cases,
}
use mathlib.Core.List.{append_assoc}
use memgarden.Prelude.Lists.{length, drop, length-append, length-take, take-append-drop}
use memgarden.Error.{Result, ok, err}
use memgarden.Consolidate.Runs.{FactRow, MemoryNode, waiting, unconsolidated, start_run, watermark}
use memgarden.Consolidate.Runs.Waiting.{Ascends, facts_of, mark-le, waiting-rest}
use memgarden.Consolidate.Runs.Marks.{watermark-finish_run}
use memgarden.Consolidate.Batch.{Outside, process_batch}
use memgarden.Consolidate.Round.{
  RoundSummary, Ended, Config, State, new_summary, max_adjudications_per_round, retain_waits,
  close_run, claimed_round, claim, released, run_round, counted,
}
use memgarden.Consolidate.Round.Queue.{last_id}
use memgarden.Consolidate.Round.Settled.{
  Batch, Log, Settles, nothing, settled, retried, tally, Ends, all_done, put_off, broken,
}
use memgarden.Consolidate.Round.Whole.{run_batches_lem}

last_id-append : (m : ℕ) (xs ys : List FactRow) → last_id m (xs ++ ys) ≡ last_id (last_id m xs) ys
unfolding last_id
last_id-append m [] ys = refl
last_id-append m (x ∷ xs) ys = last_id-append x.id xs ys

watermark-tally :
    {W : Type 0} {q : W → Bool} {batch : Batch W} {w v : W} {b c : ℕ} {zs : List FactRow}
    {log : Log} (s : RoundSummary)
    → Settles q batch w b zs v c log
    → (tally log s).watermark ≡ last_id s.watermark zs
unfolding tally last_id
watermark-tally s nothing = refl
watermark-tally s (settled xs ys o free some_fact ran final cut rest) =
    let next : RoundSummary = record (counted o (length xs) s) {
      watermark = last_id s.watermark xs;
    } in
    watermark-tally next rest
    ∙ sym (last_id-append s.watermark xs ys)
    ∙ ap (last_id s.watermark) (sym cut)
watermark-tally s (retried xs o free ran again rest) = watermark-tally s rest

watermark-Ends :
    {W : Type 0} {q : W → Bool} {batch : Batch W} {rest : List FactRow} {v : W} {c : ℕ}
    (s : RoundSummary) (e : Ended W)
    → Ends q batch rest v c s e
    → e.summary.watermark ≡ s.watermark
watermark-Ends s e (all_done none_left f) = ap (λ x. x.summary.watermark) f
watermark-Ends s e (put_off some_left busy f) = ap (λ x. x.summary.watermark) f
watermark-Ends s e (broken xs ys v c x cut some_fact free ran f) = ap (λ x. x.summary.watermark) f

-- A round of the facts that wait behind the mark `start`, which ends with the mark `end`: those in
-- front are settled, in order, and the others wait behind the new mark. They are all of the batch
-- unless the round is put off or fails.
pub record Advances {W : Type 0} (q : W → Bool) (batch : Batch W) (size : ℕ)
    (open_at : ℕ → List FactRow) (start end : ℕ) (w : W) (r : Result RoundSummary) : Type 0 where
  pub done : List FactRow
  pub rest : List FactRow
  pub after : W
  pub left : ℕ
  pub log : Log
  pub cut : open_at start ≡ done ++ rest
  pub next : open_at end ≡ rest
  pub bounded : length done ≤ size
  pub settles : Settles q batch w max_adjudications_per_round done after left log
  pub complete :
      (s : RoundSummary)
      → r ≡ ok s
      → s.deferred ≡ false
      → length done ≡ min size (length (open_at start))

module _ {W V : Type 0} (out : Outside W V) (nodes : W → List MemoryNode) (cfg : Config)
    (now later : ℕ) (bank : String) (st : State W) (h : Ascends (facts_of (nodes st.world))) where
  abbrev open_at : ℕ → List FactRow
  open_at = waiting now (nodes st.world) bank

  abbrev start : ℕ
  start = watermark st.runs bank

  abbrev facts : List FactRow
  facts = unconsolidated now (nodes st.world) bank start cfg.batch_size

  abbrev Next : ℕ → Result RoundSummary → Type 0
  Next end r =
      Advances (retain_waits out nodes cfg) (process_batch out cfg.max_attempts) cfg.batch_size
        open_at start end st.world r

  abbrev Answer : Type 0
  Answer =
      (st' : State W) × (r : Result RoundSummary) × (claimed_round out nodes cfg now later bank st
        ≡ some (st', r))
      × Next (watermark st'.runs bank) r

  abbrev ended : Ended W → Result RoundSummary
  ended e = elim e.error [ none ↦ ok e.summary | some x ↦ err x ]

  abbrev opened : State W
  opened = record st { runs = (start_run now bank st.runs).1 }

  abbrev closed : Ended W → State W × Result RoundSummary
  closed e = close_run later (start_run now bank st.runs).0 opened e

  watermark-closed :
      (e : Ended W) → watermark (closed e).0.runs bank ≡ max start e.summary.watermark
  unfolding close_run
  watermark-closed e = elim (Option-cases e.error) [
    | inl f ↦ rw (close_run, f) (watermark-finish_run now later "done" bank _ _ _ st.runs)
    | inr (x, f) ↦ rw (close_run, f) (watermark-finish_run now later "failed" bank _ _ _ st.runs)
  ]

  closed-ended : (e : Ended W) → (closed e).1 ≡ ended e
  unfolding close_run
  closed-ended e = elim (Option-cases e.error) [
    | inl f ↦ rw (close_run, f) refl
    | inr (x, f) ↦ rw (close_run, f) refl
  ]

  length-facts : length facts ≡ min cfg.batch_size (length (open_at start))
  unfolding unconsolidated
  length-facts = length-take cfg.batch_size (open_at start)

  open-facts : open_at start ≡ facts ++ drop cfg.batch_size (open_at start)
  unfolding unconsolidated
  open-facts = sym (take-append-drop cfg.batch_size (open_at start))

  -- Only a round that is put off or fails leaves facts of its batch.
  complete_lem :
      (done rest : List FactRow) (v : W) (c : ℕ) (s : RoundSummary) (e : Ended W)
      → facts ≡ done ++ rest
      → Ends (retain_waits out nodes cfg) (process_batch out cfg.max_attempts) rest v c s e
      → (t : RoundSummary) → ended e ≡ ok t
      → t.deferred ≡ false
      → length done ≡ length facts
  complete_lem done rest v c s e cut (all_done none_left f) t good free =
      omega (arith, ap length cut, length-append done rest, ap length none_left)
  complete_lem done rest v c s e cut (put_off some_left busy f) t good free =
      let yes = sym (ap ended f) ∙ good in cc (yes, free)
  complete_lem done rest v c s e cut (broken xs ys u d x cut' some_fact idle ran f) t good free =
      let no = sym (ap ended f) ∙ good in cc no

  with_facts : (length facts == 0) ≡ false → Answer
  unfolding claimed_round
  with_facts some_facts =
      let s = new_summary (some (start_run now bank st.runs).0) (length facts) start in
      let (e, ran, a) = run_batches_lem out nodes cfg st.world facts s in
      let mark : e.summary.watermark ≡ last_id start a.done =
        watermark-Ends (tally a.log s) e a.ends ∙ watermark-tally s a.settles in
      let more = drop cfg.batch_size (open_at start) in
      let cut : open_at start ≡ a.done ++ (a.rest ++ more) =
        open-facts ∙ ap (λ t. t ++ more) a.cut ∙ append_assoc a.done a.rest more in
      let le = mark-le now (nodes st.world) bank h start a.done (a.rest ++ more) cut in
      let end : watermark (closed e).0.runs bank ≡ last_id start a.done =
        watermark-closed e ∙ omega (arith, mark, le) in
      (
        (closed e).0,
        (closed e).1,
        rw (some_facts, claimed_round, ran) refl,
        record {
          done = a.done;
          rest = a.rest ++ more;
          after = a.after;
          left = a.left;
          log = a.log;
          cut = cut;
          next =
              ap open_at end
              ∙ waiting-rest now (nodes st.world) bank h start a.done (a.rest ++ more) cut;
          bounded = omega (arith, length-facts, ap length a.cut, length-append a.done a.rest);
          settles = a.settles;
          complete = λ t good free.
              complete_lem a.done a.rest a.after a.left (tally a.log s) e a.cut a.ends t
                (sym (closed-ended e) ∙ good) free
              ∙ length-facts;
        },
      )

  without_facts : (length facts == 0) ≡ true → Answer
  unfolding claimed_round
  without_facts no_facts =
      let none_left : length facts ≡ 0 = ground (arith, no_facts) in
      (
        st,
        ok (new_summary none 0 start),
        rw (no_facts, claimed_round) refl,
        record {
          done = [];
          rest = open_at start;
          after = st.world;
          left = max_adjudications_per_round;
          log = [];
          cut = refl;
          next = refl;
          bounded = omega arith;
          settles = nothing;
          complete = λ t good free. omega (arith, none_left, length-facts);
        },
      )

  claimed_round-Advances : Answer
  claimed_round-Advances = elim (Bool-cases (length facts == 0)) [
    | inl e ↦ without_facts e
    | inr e ↦ with_facts e
  ]

-- A round of a bank that has none running comes to an end and answers, on every input. It settles a
-- first part of the facts that wait, in order, each in one batch and none while a retain job waits,
-- and the next round begins exactly with the first fact behind them, also where the round fails
-- half-way: no fact is passed over, and none that is settled waits again. The batch that fails is not
-- among the settled: its facts are the first that the next round takes, whatever it may have written
-- before it failed. A round that neither fails nor is put off settles its
-- whole batch, so that `batch_size` facts fewer wait. (The nodes stand in the order of their ids,
-- and both rounds see the same ones.)
pub run_round-Advances :
    {W V : Type 0} (out : Outside W V) (nodes : W → List MemoryNode) (cfg : Config) (now later : ℕ)
    (bank : String) (st : State W) (set : List String)
    → Ascends (facts_of (nodes st.world))
    → claim bank st.consolidating ≡ some set
    → (st' : State W) × (r : Result RoundSummary) × (run_round out nodes cfg now later bank st
        ≡ some (st', r))
      × Advances
          (retain_waits out nodes cfg)
          (process_batch out cfg.max_attempts)
          cfg.batch_size
          (waiting now (nodes st.world) bank)
          (watermark st.runs bank)
          (watermark st'.runs bank)
          st.world
          r
unfolding run_round
run_round-Advances out nodes cfg now later bank st set h free =
    let mine = record st { consolidating = set } in
    let (st', r, ran, advances) = claimed_round-Advances out nodes cfg now later bank mine h in
    ((released out nodes cfg bank (st', r)).0, r, rw (free, run_round, ran) refl, advances)
