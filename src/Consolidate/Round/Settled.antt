-- ===== src/Consolidate/Round/Settled.antt =====
-- What the loop of `run_round` in crates/memgardend/src/consolidate/round.rs does to the facts,
-- whatever its batches answer and whenever a retain job comes in between.
use memgarden.Prelude.{
  ℕ, zero, suc, ◌+◌, ◌-◌, ◌/◌, ◌≤◌, ◌<◌, Bool, true, false, none, some, List, [], ◌∷◌, ◌++◌, ◌≡◌,
  ◌∙◌, refl, sym, ap, subst, inl, inr, arith, ltb→lt, Bool-cases, ◌⊎◌,
}
use mathlib.Core.List.{append_assoc}
use memgarden.Prelude.Lists.{length, drop, length-drop}
use memgarden.Error.{Error, Result, ok, err}
use memgarden.Consolidate.Runs.{FactRow}
use memgarden.Consolidate.Batch.{BatchOutcome, applied, split, dropped, rejected, skipped}
use memgarden.Consolidate.Round.{RoundSummary, Ended, slice, id_at, is_retried, counted, round_loop}
use memgarden.Consolidate.Round.Queue.{
  Tiles, Tiles-halves, weight, last_id, slice-drop, length-slice, last_id-slice,
}

abbrev pub Batch : Type 0 → Type 0
Batch W = W → List FactRow → ℕ → W × ℕ × Result BatchOutcome

-- The batches with their outcomes.
abbrev pub Log : Type 0
Log = List (List FactRow × BatchOutcome)

-- The facts are settled in order, each in one batch, while no retain job waits. A batch that is
-- rejected or too large settles nothing if it has several facts.
pub data Settles {W : Type 0} (q : W → Bool) (batch : Batch W)
    : W → ℕ → List FactRow → W → ℕ → Log → Type 0 where
  nothing : {w : W} {b : ℕ} → Settles q batch w b [] w b []
  settled :
      {w v u : W} {b c d : ℕ} {zs : List FactRow} {log : Log} (xs ys : List FactRow)
      (o : BatchOutcome)
      → q w ≡ false
      → 0 < length xs
      → batch w xs b ≡ (v, c, ok o)
      → is_retried o (length xs) ≡ false
      → zs ≡ xs ++ ys
      → Settles q batch v c ys u d log
      → Settles q batch w b zs u d ((xs, o) ∷ log)
  retried :
      {w v u : W} {b c d : ℕ} {zs : List FactRow} {log : Log} (xs : List FactRow) (o : BatchOutcome)
      → q w ≡ false
      → batch w xs b ≡ (v, c, ok o)
      → is_retried o (length xs) ≡ true
      → Settles q batch v c zs u d log
      → Settles q batch w b zs u d log

-- The summary of the batches: the watermark is the id of the last fact that is settled.
unfoldable pub tally : Log → RoundSummary → RoundSummary
unfolding counted last_id
tally [] s = s
tally ((xs, o) ∷ log) s =
    tally log (record (counted o (length xs) s) { watermark = last_id s.watermark xs })

-- The three ends of the loop: nothing is left, a retain job waits, or a batch fails.
pub data Ends {W : Type 0} (q : W → Bool) (batch : Batch W) (rest : List FactRow) (w : W) (b : ℕ)
    (s : RoundSummary) (e : Ended W) : Type 0 where
  all_done :
      rest ≡ [] → e ≡ record { world = w; summary = s; error = none } → Ends q batch rest w b s e
  put_off :
      0 < length rest
      → q w ≡ true
      → e ≡ record { world = w; summary = record s { deferred = true }; error = none }
      → Ends q batch rest w b s e
  broken :
      (xs ys : List FactRow) (v : W) (c : ℕ) (x : Error)
      → rest ≡ xs ++ ys
      → 0 < length xs
      → q w ≡ false
      → batch w xs b ≡ (v, c, err x)
      → e ≡ record { world = v; summary = s; error = some x }
      → Ends q batch rest w b s e

-- The facts `todo` from the world `w` on, with the budget `b` and the summary `s`: those in front
-- are settled, the rest is not touched.
pub record Accounts {W : Type 0} (q : W → Bool) (batch : Batch W) (w : W) (b : ℕ)
    (todo : List FactRow) (s : RoundSummary) (e : Ended W) : Type 0 where
  pub done : List FactRow
  pub rest : List FactRow
  pub after : W
  pub left : ℕ
  pub log : Log
  pub cut : todo ≡ done ++ rest
  pub settles : Settles q batch w b done after left log
  pub ends : Ends q batch rest after left (tally log s) e

is_retried-several : (o : BatchOutcome) (n : ℕ) → is_retried o n ≡ true → 1 < n
is_retried-several split n e = ltb→lt 1 n e
is_retried-several rejected n e = ltb→lt 1 n e
is_retried-several (applied c) n e = cc e
is_retried-several dropped n e = cc e
is_retried-several skipped n e = cc e

Ran-cases :
    {W : Type 0} (p : W × ℕ × Result BatchOutcome)
    → ((v : W) × (c : ℕ) × (x : Error) × (p ≡ (v, c, err x)))
      ⊎ ((v : W) × (c : ℕ) × (o : BatchOutcome) × (p ≡ (v, c, ok o)))
Ran-cases (v, c, err x) = inl (v, c, x, refl)
Ran-cases (v, c, ok o) = inr (v, c, o, refl)

module _ {W : Type 0} (q : W → Bool) (batch : Batch W) (facts : List FactRow) where
  abbrev At : W → ℕ → ℕ → RoundSummary → Ended W → Type 0
  At w b start s e = Accounts q batch w b (drop start facts) s e

  drop-nil : (start : ℕ) → start ≡ length facts → drop start facts ≡ []
  drop-nil start e = elim (list-cases (drop start facts)) [
    | inl f ↦ f
    | inr (x, xs, f) ↦ absurd (omega (arith, length-drop start facts, ap length f))
  ]
    where
      list-cases :
          (xs : List FactRow) → (xs ≡ []) ⊎ ((y : FactRow) × (ys : List FactRow) × (xs ≡ y ∷ ys))
      list-cases [] = inl refl
      list-cases (y ∷ ys) = inr (y, ys, refl)

  -- One batch and what follows it.
  after_batch :
      (w v : W) (b c start end : ℕ) (s : RoundSummary) (o : BatchOutcome) (e : Ended W)
      → q w ≡ false
      → start < end
      → end ≤ length facts
      → batch w (slice facts start end) b ≡ (v, c, ok o)
      → is_retried o (end - start) ≡ false
      → At v c end (record (counted o (end - start) s) { watermark = id_at facts (end - 1) }) e
      → At w b start s e
  unfolding tally counted
  after_batch w v b c start end s o e free less high ran final a =
      let xs = slice facts start end in
      let long : length xs ≡ end - start = length-slice facts start end (omega arith) high in
      let one_back : end ≡ suc (end - 1) = omega arith in
      let last : id_at facts (end - 1) ≡ last_id s.watermark xs =
        last_id-slice facts s.watermark start (end - 1) (omega arith) (omega arith)
        ∙ ap (λ k. last_id s.watermark (slice facts start k)) (sym one_back) in
      let same =
        ap (λ k. record (counted o k s) { watermark = id_at facts (end - 1) }) (sym long)
        ∙ ap (λ m. record (counted o (length xs) s) { watermark = m }) last in
      record {
        done = xs ++ a.done;
        rest = a.rest;
        after = a.after;
        left = a.left;
        log = (xs, o) ∷ a.log;
        cut =
            sym (slice-drop facts start end (omega arith))
            ∙ ap (λ t. xs ++ t) a.cut
            ∙ sym (append_assoc xs a.done a.rest);
        settles =
            settled xs a.done o free (omega (arith, long)) ran (ap (is_retried o) long ∙ final) refl
              a.settles;
        ends = subst (λ t. Ends q batch a.rest a.after a.left (tally a.log t) e) same a.ends;
      }

  -- Nothing more is settled.
  stopped :
      (w : W) (b start : ℕ) (s : RoundSummary) (e : Ended W)
      → Ends q batch (drop start facts) w b s e
      → At w b start s e
  unfolding tally
  stopped w b start s e ends = record {
    done = [];
    rest = drop start facts;
    after = w;
    left = b;
    log = [];
    cut = refl;
    settles = nothing;
    ends = ends;
  }

  -- A batch that is to be tried again in halves.
  after_retry :
      (w v : W) (b c start end : ℕ) (s : RoundSummary) (o : BatchOutcome) (e : Ended W)
      → q w ≡ false
      → start < end
      → end ≤ length facts
      → batch w (slice facts start end) b ≡ (v, c, ok o)
      → is_retried o (end - start) ≡ true
      → At v c start s e
      → At w b start s e
  after_retry w v b c start end s o e free less high ran again a =
      let long = length-slice facts start end (omega arith) high in
      record {
        done = a.done;
        rest = a.rest;
        after = a.after;
        left = a.left;
        log = a.log;
        cut = a.cut;
        ends = a.ends;
        settles =
            retried (slice facts start end) o free ran (ap (is_retried o) long ∙ again) a.settles;
      }

  pub round_loop_lem :
      (n : ℕ) (w : W) (b : ℕ) (s : RoundSummary) (queue : List (ℕ × ℕ)) (start : ℕ)
      → Tiles start queue (length facts)
      → weight queue < n
      → (e : Ended W) × (round_loop q batch n facts w b s queue ≡ some e) × At w b start s e
  unfolding round_loop
  round_loop_lem zero w b s queue start t enough = absurd (omega arith)
  round_loop_lem (suc n) w b s [] start t enough =
      let e : Ended W = record { world = w; summary = s; error = none } in
      (e, refl, stopped w b start s e (all_done (drop-nil start t) refl))
  round_loop_lem (suc n) w b s ((at, end) ∷ queue) start (same, at_less, high, t) enough =
      let less : start < end = omega (arith, same, at_less) in
      rw same (elim (Bool-cases (q w)) [
        | inl busy ↦
            let e : Ended W = record {
              world = w;
              summary = record s { deferred = true };
              error = none;
            } in
            let some_left : 0 < length (drop start facts) =
              omega (arith, less, high, length-drop start facts) in
            (e, rw (busy, round_loop) refl, stopped w b start s e (put_off some_left busy refl))
        | inr free ↦ elim (Ran-cases (batch w (slice facts start end) b)) [
          | inl (v, c, x, ran) ↦
              let e : Ended W = record { world = v; summary = s; error = some x } in
              let cut = sym (slice-drop facts start end (omega (arith, less))) in
              let long = length-slice facts start end (omega (arith, less)) high in
              (
                e,
                rw (free, round_loop, ap (λ p. p.2) ran)
                    (ap (λ p. some (record { world = p.0; summary = s; error = some x })) ran),
                stopped w b start s e (
                    broken (slice facts start end) (drop end facts) v c x cut
                      (omega (arith, less, long)) free ran refl),
              )
          | inr (v, c, o, ran) ↦ elim (Bool-cases (is_retried o (end - start))) [
            | inl again ↦
                let several = is_retried-several o (end - start) again in
                let mid = start + (end - start) / 2 in
                let (e, f, a) =
                  round_loop_lem n v c s ((start, mid) ∷ (mid, end) ∷ queue) start
                    (Tiles-halves start end (length facts) queue several high t)
                    (omega (arith, several, enough, same)) in
                (
                  e,
                  rw
                      (
                        free,
                        round_loop,
                        ap (λ p. p.2) ran,
                        again,
                        ap (λ p. p.0) ran,
                        ap (λ p. p.1) ran,
                      )
                      f,
                  after_retry w v b c start end s o e free less high ran again a,
                )
            | inr final ↦
                let next : RoundSummary = record (counted o (end - start) s) {
                  watermark = id_at facts (end - 1);
                } in
                let (e, f, a) =
                  round_loop_lem n v c next queue end t (omega (arith, less, same, enough)) in
                (
                  e,
                  rw
                      (
                        free,
                        round_loop,
                        ap (λ p. p.2) ran,
                        final,
                        ap (λ p. p.0) ran,
                        ap (λ p. p.1) ran,
                      )
                      f,
                  after_batch w v b c start end s o e free less high ran final a,
                )
          ]
        ]
      ])
