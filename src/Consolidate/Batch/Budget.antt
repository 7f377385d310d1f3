-- ===== src/Consolidate/Batch/Budget.antt =====
-- The budget of adjudications over one batch of crates/memgardend/src/consolidate/round.rs, and the
-- outcomes that a batch can have.
use memgarden.Prelude.{
  ℕ, zero, suc, ◌+◌, ◌-◌, ◌<◌, max, Bool, true, false, List, [], ◌∷◌, ◌++◌, ◌≡◌, ◌⊎◌, refl, subst,
  inl, inr, arith, ltb, ltb→lt, Bool-cases, Option-cases,
}
use memgarden.Prelude.Lists.{length}
use memgarden.Prelude.Text.{Text}
use memgarden.Error.{Error, Result, ok, err}
use memgarden.Consolidate.Runs.{FactRow}
use memgarden.Consolidate.Plan.{Plan}
use memgarden.Consolidate.Batch.{
  Outside, PooledObservation, BatchOutcome, applied, split, dropped, rejected, skipped, embed_all,
  refresh, dedup_loop, create_texts, created_candidates, attempt_loop, settle_twin, one_if, apply,
  with_pool, assemble, process_batch,
}

-- The calls of the model for merges that a batch has made.
abbrev pub adjudicated : BatchOutcome → ℕ
adjudicated (applied c) = c.adjudications
adjudicated split = 0
adjudicated dropped = 0
adjudicated rejected = 0
adjudicated skipped = 0

-- What one batch answers: it pays for each call of the model, and splits only several facts.
abbrev pub Pays : List FactRow → ℕ → ℕ → Result BatchOutcome → Type 0
Pays facts budget left (err x) = Unit {0}
Pays facts budget left (ok o) = (adjudicated o + left ≡ budget) × (o ≡ split → 1 < length facts)

abbrev PaysLoop : ℕ → ℕ → Result (ℕ × ℕ) → Type 0
PaysLoop total left (err x) = Unit {0}
PaysLoop total left (ok (merged, adjudications)) = adjudications + left ≡ total

pub Result-cases :
    {A : Type 0} (r : Result A) → ((x : Error) × (r ≡ err x)) ⊎ ((a : A) × (r ≡ ok a))
Result-cases (err x) = inl (x, refl)
Result-cases (ok a) = inr (a, refl)

module _ {W V : Type 0} (out : Outside W V) where
  paid :
      (budget adjudications : ℕ) (b : Bool)
      → (adjudications + one_if out b) + (suc budget - one_if out b) ≡ adjudications + suc budget
  paid budget adjudications true = omega arith
  paid budget adjudications false = omega arith

  dedup_loop-Pays :
      (w : W) (budget : ℕ) (cs : List (ℕ × Text × V)) (merged adjudications : ℕ)
      → PaysLoop
          (adjudications + budget)
          (dedup_loop out w budget cs merged adjudications).1
          (dedup_loop out w budget cs merged adjudications).2
  unfolding dedup_loop
  dedup_loop-Pays w budget [] merged adjudications = refl
  dedup_loop-Pays w zero (c ∷ cs) merged adjudications = refl
  dedup_loop-Pays w (suc budget) ((id, text, x) ∷ cs) merged adjudications =
      elim (Result-cases (out.dedup_created w id text x).1) [
        | inl (y, e) ↦ rw (e, dedup_loop) tt
        | inr (answer, e) ↦
            let u = settle_twin out (out.dedup_created w id text x).0 answer.0 in
            let called = one_if out answer.1 in
            let rest =
              dedup_loop-Pays u.0 (suc budget - called) cs (merged + u.1)
                (adjudications + called) in
            let same = paid budget adjudications answer.1 in
            let ran =
              dedup_loop out u.0 (suc budget - called) cs (merged + u.1) (adjudications + called) in
            rw (e, dedup_loop) (subst (λ t. PaysLoop t ran.1 ran.2) same rest)
      ]

  apply-Pays :
      (facts : List FactRow) (w : W) (budget : ℕ) (plan : Plan)
      → Pays facts budget (apply out w budget plan).1 (apply out w budget plan).2
  unfolding apply
  apply-Pays facts w budget plan =
      let w1 = (embed_all out w (create_texts plan.creates)).0 in
      elim (Result-cases (embed_all out w (create_texts plan.creates)).1) [
        | inl (x, e) ↦ rw (e, apply) tt
        | inr (vectors, e) ↦
            let w2 = (out.apply_plan w1 plan vectors).0 in
            elim (Result-cases (out.apply_plan w1 plan vectors).1) [
              | inl (x, f) ↦ rw (e, apply, f) tt
              | inr (a, f) ↦
                  let again = refresh out w2 plan.updates a.updated in
                  let candidates =
                    created_candidates a.created (create_texts plan.creates) vectors ++ again.1 in
                  let paid_for = dedup_loop-Pays again.0 budget candidates 0 0 in
                  let ran = dedup_loop out again.0 budget candidates 0 0 in
                  elim (Result-cases ran.2) [
                    | inl (x, g) ↦ rw (e, apply, f, g) tt
                    | inr (ms, g) ↦
                        let total : ms.1 + ran.1 ≡ 0 + budget =
                          subst (PaysLoop (0 + budget) ran.1) g paid_for in
                        rw (e, apply, f, g) (omega (arith, total), cc)
                  ]
            ]
      ]

  with_pool-Pays :
      (max_attempts : ℕ) (w : W) (facts : List FactRow) (budget : ℕ) (pool : List PooledObservation)
      → Pays facts budget
          (with_pool out max_attempts w facts budget pool).1
          (with_pool out max_attempts w facts budget pool).2
  unfolding with_pool
  with_pool-Pays max_attempts w facts budget pool =
      let tried = attempt_loop out (max max_attempts 1) w facts pool false in
      elim (Option-cases tried.1) [
        | inr (plan, e) ↦ rw (e, with_pool) (apply-Pays facts tried.0 budget plan)
        | inl e ↦ elim (Bool-cases tried.2) [
          | inl f ↦ rw (e, with_pool, f) (omega arith, cc)
          | inr f ↦ rw (e, with_pool, f) (omega arith, cc)
        ]
      ]

  pub process_batch-Pays :
      (max_attempts : ℕ) (w : W) (facts : List FactRow) (budget : ℕ)
      → Pays facts budget
          (process_batch out max_attempts w facts budget).1
          (process_batch out max_attempts w facts budget).2
  unfolding process_batch
  process_batch-Pays max_attempts w facts budget =
      let v = (out.pool_observations w facts).0 in
      elim (Result-cases (out.pool_observations w facts).1) [
        | inl (x, e) ↦ rw (e, process_batch) tt
        | inr (pool, e) ↦ elim (Option-cases (assemble out facts pool)) [
          | inr (shown, f) ↦
              rw (e, process_batch, f) (with_pool-Pays max_attempts v facts budget shown)
          | inl f ↦ elim (Bool-cases (ltb 1 (length facts))) [
            | inl g ↦ rw (e, process_batch, f, g) (omega arith, λ s. ltb→lt 1 (length facts) g)
            | inr g ↦ rw (e, process_batch, f, g) (omega arith, cc)
          ]
        ]
      ]
