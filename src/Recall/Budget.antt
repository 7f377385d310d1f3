-- ===== src/Recall/Budget.antt =====
-- crates/memgardend/src/recall/budget.rs: the greedy fit into a token budget. The tokenizer is a
-- parameter.
use memgarden.Prelude.{
  ℕ, suc, ◌+◌, ◌*◌, ◌≤◌, ◌<◌, String, some, List, [], ◌∷◌, ◌≡◌, arith, Bool-cases, inl, inr, ltb,
  str_eq, if◌then◌else◌,
}
use memgarden.Prelude.Lists.{length, take, get_elem?}

unfoldable pub budget_tokens : String → ℕ
budget_tokens level = if str_eq level "low" then 100 else if str_eq level "high" then 1000 else 300

unfoldable pub rerank_limit : ℕ → ℕ
rerank_limit thinking_budget = thinking_budget * 2

module _ {Text : Type 0} (count : Text → ℕ) where
  -- The loop from index `i`, with the total so far.
  unfoldable pub fit_from : List Text → ℕ → ℕ → ℕ → ℕ × ℕ
  fit_from [] max_tokens i total = (i, total)
  fit_from (text ∷ texts) max_tokens i total =
      let rest = fit_from texts max_tokens (i + 1) (total + count text) in
      if ltb max_tokens (total + count text) then (i, total) else rest

  unfoldable pub fit_to_budget : List Text → ℕ → ℕ × ℕ
  unfolding fit_from
  fit_to_budget texts max_tokens = fit_from texts max_tokens 0 0

  abbrev pub tokens : List Text → ℕ
  tokens [] = 0
  tokens (text ∷ texts) = count text + tokens texts

  -- The tokens of the first `n` texts are within the budget and come to `t`, and the text after them,
  -- if there is one, would pass it.
  abbrev pub Fits : List Text → ℕ → ℕ → ℕ → Type 0
  Fits texts budget n t =
      (n ≤ length texts)
      × (t ≡ tokens (take n texts))
      × (t ≤ budget)
      × ((text : Text) → get_elem? texts n ≡ some text → budget < t + count text)

  fit_from_lem :
      (texts : List Text) (budget i total : ℕ)
      → total ≤ budget
      → (n : ℕ) × ((fit_from texts budget i total).0 ≡ i + n)
        × (n ≤ length texts)
        × ((fit_from texts budget i total).1 ≡ total + tokens (take n texts))
        × ((fit_from texts budget i total).1 ≤ budget)
        × ((text : Text)
            → get_elem? texts n ≡ some text
            → budget < (fit_from texts budget i total).1 + count text)
  unfolding fit_from
  fit_from_lem [] budget i total h = (0, omega arith, omega arith, omega arith, h, λ text e. cc)
  fit_from_lem (text ∷ texts) budget i total h =
      elim (Bool-cases (ltb budget (total + count text))) [
        | inl e ↦ rw e (0, omega arith, omega arith, omega arith, h, λ t q. ground arith)
        | inr e ↦
            let fits : total + count text ≤ budget = ground arith in
            let (n, p, q, r, u, v) = fit_from_lem texts budget (i + 1) (total + count text) fits in
            rw e (suc n, omega arith, omega arith, omega arith, u, v)
      ]

  -- The fit keeps a prefix: its tokens are exactly the ones reported and within the budget, and it is
  -- the whole list or the next text alone would pass the budget. So no longer prefix fits.
  pub fit_to_budget_lem :
      (texts : List Text) (budget : ℕ)
      → Fits texts budget (fit_to_budget texts budget).0 (fit_to_budget texts budget).1
  unfolding fit_to_budget
  fit_to_budget_lem texts budget =
      let (n, p, q, r, u, v) = fit_from_lem texts budget 0 0 (omega arith) in
      let same : (fit_from texts budget 0 0).0 ≡ n = omega arith in rw same (q, omega arith, u, v)
