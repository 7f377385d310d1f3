-- ===== src/Consolidate/Batch/Shown.antt =====
-- `assemble` of crates/memgardend/src/consolidate/round.rs: what the prompt shows.
use memgarden.Prelude.{
  ℕ, zero, suc, ◌+◌, ◌≤◌, ◌<◌, false, Option, none, some, List, [], ◌≡◌, refl, inl, inr, arith, leb,
  leb→le, Bool-cases,
}
use memgarden.Prelude.Lists.{length, take}
use memgarden.Consolidate.Runs.{FactRow}
use memgarden.Consolidate.Batch.{
  Outside, PooledObservation, consolidation_prompt_max_tokens, fits, assemble_from, assemble,
}

module _ {W V : Type 0} (out : Outside W V) (facts : List FactRow)
    (pool : List PooledObservation) where
  abbrev pub tokens : List PooledObservation → ℕ
  tokens shown = out.token_count out.system_prompt + out.token_count (out.user_prompt facts shown)

  -- The first observations of the pool, as many as fit, where `n` of them are looked at.
  abbrev pub Fitted : ℕ → Option (List PooledObservation) → Type 0
  Fitted n none = (k : ℕ) → k ≤ n → fits out facts (take k pool) ≡ false
  Fitted n (some shown) =
      (k : ℕ) × (k ≤ n)
      × (shown ≡ take k pool)
      × (tokens shown ≤ consolidation_prompt_max_tokens)
      × ((m : ℕ) → k < m → m ≤ n → fits out facts (take m pool) ≡ false)

  widen :
      (n : ℕ) (o : Option (List PooledObservation))
      → fits out facts (take (suc n) pool) ≡ false
      → Fitted n o
      → Fitted (suc n) o
  widen n none e h = λ k le. elim (Bool-cases (leb k n)) [
    | inl s ↦ h k (leb→le k n s)
    | inr s ↦ let same : k ≡ suc n = ground (arith, s, le) in rw same e
  ]
  widen n (some shown) e (k, le, f, fit, larger) = (
    k,
    omega (arith, le),
    f,
    fit,
    λ m less high. elim (Bool-cases (leb m n)) [
      | inl s ↦ larger m less (leb→le m n s)
      | inr s ↦ let same : m ≡ suc n = ground (arith, s, high) in rw same e
    ],
  )

  assemble_from-Fitted : (n : ℕ) → Fitted n (assemble_from out n facts pool)
  unfolding assemble_from
  assemble_from-Fitted zero = elim (Bool-cases (fits out facts [])) [
    | inl e ↦ rw e (
      0,
      omega arith,
      refl,
      leb→le (tokens []) consolidation_prompt_max_tokens e,
      λ m less high. absurd (omega (arith, less, high)),
    )
    | inr e ↦ rw e (λ k le. let same : k ≡ 0 = omega (arith, le) in rw same e)
  ]
  assemble_from-Fitted (suc n) = elim (Bool-cases (fits out facts (take (suc n) pool))) [
    | inl e ↦ rw e (
      suc n,
      omega arith,
      refl,
      leb→le (tokens (take (suc n) pool)) consolidation_prompt_max_tokens e,
      λ m less high. absurd (omega (arith, less, high)),
    )
    | inr e ↦ rw e (widen n (assemble_from out n facts pool) e (assemble_from-Fitted n))
  ]

  -- The prompt never exceeds 6144 tokens, whatever the tokenizer and the texts: what it shows is a
  -- first part of the pool, the longest that fits. Nothing is sent only where the facts do not fit
  -- even without an observation.
  pub assemble-Fitted : Fitted (length pool) (assemble out facts pool)
  unfolding assemble
  assemble-Fitted = assemble_from-Fitted (length pool)
