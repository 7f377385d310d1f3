-- ===== src/Consolidate/Batch/Calls.antt =====
-- The calls of the model for merges that one batch of crates/memgardend/src/consolidate/round.rs really
-- makes: they are counted in the world, not by the budget.
use memgarden.Prelude.{
  ℕ, zero, suc, ◌+◌, ◌-◌, ◌≤◌, max, Bool, true, false, List, [], ◌∷◌, ◌++◌, subst, inl, inr, arith,
  Bool-cases, Option-cases,
}
use memgarden.Prelude.Text.{Text}
use memgarden.Error.{Result, ok, err}
use memgarden.Consolidate.Runs.{FactRow}
use memgarden.Consolidate.Plan.{Plan}
use memgarden.Consolidate.Batch.{
  Outside, PooledObservation, Outcome, stored, folded, embed_all, refresh, dedup_loop, update_text,
  create_texts, created_candidates, attempt_loop, settle_twin, one_if, apply, with_pool, assemble,
  process_batch,
}
use memgarden.Consolidate.Batch.Budget.{Result-cases}

-- A count of calls after a deduplication: an answer says whether it made one, and one that fails
-- may have made one.
abbrev pub Called : ℕ → ℕ → Result (Outcome × Bool) → Type 0
Called before after (err x) = after ≤ before + 1
Called before after (ok (o, true)) = after ≤ before + 1
Called before after (ok (o, false)) = after ≤ before

-- A meter of the calls: only `dedup_created` makes them.
pub record Meter {W V : Type 0} (out : Outside W V) : Type 0 where
  pub calls : W → ℕ
  pub pooled : (w : W) (facts : List FactRow) → calls (out.pool_observations w facts).0 ≤ calls w
  pub chatted : (w : W) (s u : Text) → calls (out.chat w s u).0 ≤ calls w
  pub embedded : (w : W) (t : Text) → calls (out.embed_one w t).0 ≤ calls w
  pub wrote : (w : W) (p : Plan) (vs : List V) → calls (out.apply_plan w p vs).0 ≤ calls w
  pub set : (w : W) (id : ℕ) (x : V) → calls (out.set_embedding w id x).0 ≤ calls w
  pub deduped :
      (w : W) (id : ℕ) (t : Text) (x : V)
      → Called (calls w) (calls (out.dedup_created w id t x).0) (out.dedup_created w id t x).1
  pub reembedded : (w : W) (id : ℕ) → calls (out.reembed_merged_twin w id) ≤ calls w

-- The calls made, and the budget that is left of `budget`; an error leaves none to use.
abbrev pub Within : {A : Type 0} → ℕ → ℕ → ℕ → ℕ → Result A → Type 0
Within before budget after left (err x) = after ≤ before + budget
Within before budget after left (ok a) = after + left ≤ before + budget

Within-wider :
    {A : Type 0} (before budget more wide after left : ℕ) (r : Result A)
    → before + budget ≤ more + wide
    → Within before budget after left r
    → Within more wide after left r
Within-wider before budget more wide after left (err x) l h = omega (arith, l, h)
Within-wider before budget more wide after left (ok a) l h = omega (arith, l, h)

module _ {W V : Type 0} (out : Outside W V) (m : Meter out) where
  charged :
      (budget before after : ℕ) (o : Outcome) (b : Bool)
      → Called before after (ok (o, b))
      → after + (suc budget - one_if out b) ≤ before + suc budget
  charged budget before after o true h = omega (arith, h)
  charged budget before after o false h = omega (arith, h)

  embed_all-calls : (w : W) (ts : List Text) → m.calls (embed_all out w ts).0 ≤ m.calls w
  unfolding embed_all
  embed_all-calls w [] = omega arith
  embed_all-calls w (t ∷ ts) =
      ground (arith, m.embedded w t, embed_all-calls (out.embed_one w t).0 ts)

  refresh-calls :
      (w : W) (updates : List (Text × Text × List ℕ)) (us : List (ℕ × Text))
      → m.calls (refresh out w updates us).0 ≤ m.calls w
  unfolding refresh
  refresh-calls w updates [] = omega arith
  refresh-calls w updates ((id, uuid) ∷ us) = elim (Option-cases (update_text uuid updates)) [
    | inl e ↦ rw (e, refresh) (refresh-calls w updates us)
    | inr (t, e) ↦
        let v = (out.embed_one w t).0 in
        let spent = m.embedded w t in
        elim (Result-cases (out.embed_one w t).1) [
          | inl (x, f) ↦ rw (e, refresh, f) (omega (arith, spent, refresh-calls v updates us))
          | inr (x, f) ↦
              let u = (out.set_embedding v id x).0 in
              let rest = refresh-calls u updates us in
              let written = m.set v id x in
              elim (Bool-cases (out.set_embedding v id x).1) [
                | inl g ↦ rw (e, refresh, f, g) (omega (arith, spent, written, rest))
                | inr g ↦ rw (e, refresh, f, g) (omega (arith, spent, written, rest))
              ]
        ]
  ]

  settle_twin-calls : (w : W) (o : Outcome) → m.calls (settle_twin out w o).0 ≤ m.calls w
  settle_twin-calls w (stored id) = omega arith
  settle_twin-calls w (folded into) = m.reembedded w into

  attempt_loop-calls :
      (n : ℕ) (w : W) (facts : List FactRow) (pool : List PooledObservation) (failed : Bool)
      → m.calls (attempt_loop out n w facts pool failed).0 ≤ m.calls w
  unfolding attempt_loop
  attempt_loop-calls zero w facts pool failed = omega arith
  attempt_loop-calls (suc n) w facts pool failed =
      let v = (out.chat w out.system_prompt (out.user_prompt facts pool)).0 in
      ground (
        arith,
        m.chatted w out.system_prompt (out.user_prompt facts pool),
        attempt_loop-calls n v facts pool true,
        attempt_loop-calls n v facts pool failed,
      )

  dedup_loop-calls :
      (w : W) (budget : ℕ) (cs : List (ℕ × Text × V)) (merged adjudications : ℕ)
      → let r = dedup_loop out w budget cs merged adjudications in
        Within (m.calls w) budget (m.calls r.0) r.1 r.2
  unfolding dedup_loop
  dedup_loop-calls w budget [] merged adjudications = omega arith
  dedup_loop-calls w zero (c ∷ cs) merged adjudications = omega arith
  dedup_loop-calls w (suc budget) ((id, text, x) ∷ cs) merged adjudications =
      let v = (out.dedup_created w id text x).0 in
      elim (Result-cases (out.dedup_created w id text x).1) [
        | inl (y, e) ↦
            let failed = subst (Called (m.calls w) (m.calls v)) e (m.deduped w id text x) in
            rw (e, dedup_loop) (omega (arith, failed))
        | inr (answer, e) ↦
            let made = subst (Called (m.calls w) (m.calls v)) e (m.deduped w id text x) in
            let u = settle_twin out v answer.0 in
            let settled = settle_twin-calls v answer.0 in
            let called = one_if out answer.1 in
            let rest =
              dedup_loop-calls u.0 (suc budget - called) cs (merged + u.1)
                (adjudications + called) in
            let spent = charged budget (m.calls w) (m.calls v) answer.0 answer.1 made in
            rw (e, dedup_loop) (Within-wider _ _ _ _ _ _ _ (omega (arith, spent, settled)) rest)
      ]

  apply-calls :
      (w : W) (budget : ℕ) (plan : Plan)
      → let r = apply out w budget plan in Within (m.calls w) budget (m.calls r.0) r.1 r.2
  unfolding apply
  apply-calls w budget plan =
      let w1 = (embed_all out w (create_texts plan.creates)).0 in
      let embedded = embed_all-calls w (create_texts plan.creates) in
      elim (Result-cases (embed_all out w (create_texts plan.creates)).1) [
        | inl (x, e) ↦ rw (e, apply) (omega arith)
        | inr (vectors, e) ↦
            let w2 = (out.apply_plan w1 plan vectors).0 in
            let written = m.wrote w1 plan vectors in
            elim (Result-cases (out.apply_plan w1 plan vectors).1) [
              | inl (x, f) ↦ rw (e, apply, f) (omega arith)
              | inr (a, f) ↦
                  let again = refresh out w2 plan.updates a.updated in
                  let refreshed = refresh-calls w2 plan.updates a.updated in
                  let candidates =
                    created_candidates a.created (create_texts plan.creates) vectors ++ again.1 in
                  let ran = dedup_loop out again.0 budget candidates 0 0 in
                  let made = dedup_loop-calls again.0 budget candidates 0 0 in
                  elim (Result-cases ran.2) [
                    | inl (x, g) ↦
                        rw (e, apply, f, g)
                          (omega (
                            arith,
                            embedded,
                            written,
                            refreshed,
                            subst (Within (m.calls again.0) budget (m.calls ran.0) ran.1) g made,
                          ))
                    | inr (ms, g) ↦
                        rw (e, apply, f, g)
                          (omega (
                            arith,
                            embedded,
                            written,
                            refreshed,
                            subst (Within (m.calls again.0) budget (m.calls ran.0) ran.1) g made,
                          ))
                  ]
            ]
      ]

  with_pool-calls :
      (max_attempts : ℕ) (w : W) (facts : List FactRow) (budget : ℕ) (pool : List PooledObservation)
      → let r = with_pool out max_attempts w facts budget pool in
        Within (m.calls w) budget (m.calls r.0) r.1 r.2
  unfolding with_pool
  with_pool-calls max_attempts w facts budget pool =
      let tried = attempt_loop out (max max_attempts 1) w facts pool false in
      let asked = attempt_loop-calls (max max_attempts 1) w facts pool false in
      elim (Option-cases tried.1) [
        | inr (plan, e) ↦
            rw (e, with_pool)
              (Within-wider _ _ _ _ _ _ _ (omega (arith, asked)) (apply-calls tried.0 budget plan))
        | inl e ↦ rw (e, with_pool) (omega arith)
      ]

  pub process_batch-calls :
      (max_attempts : ℕ) (w : W) (facts : List FactRow) (budget : ℕ)
      → let r = process_batch out max_attempts w facts budget in
        Within (m.calls w) budget (m.calls r.0) r.1 r.2
  unfolding process_batch
  process_batch-calls max_attempts w facts budget =
      let v = (out.pool_observations w facts).0 in
      let pooled = m.pooled w facts in
      elim (Result-cases (out.pool_observations w facts).1) [
        | inl (x, e) ↦ rw (e, process_batch) (omega arith)
        | inr (pool, e) ↦ elim (Option-cases (assemble out facts pool)) [
          | inr (shown, f) ↦
              rw (e, process_batch, f)
                (Within-wider _ _ _ _ _ _ _ (omega (arith, pooled))
                  (with_pool-calls max_attempts v facts budget shown))
          | inl f ↦ rw (e, process_batch, f) (omega arith)
        ]
      ]
