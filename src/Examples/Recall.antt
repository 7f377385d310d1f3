-- ===== src/Examples/Recall.antt =====
-- The ranking of crates/memgardend/src/recall.
use memgarden.Prelude.{ℕ, ◌+◌, ◌/◌, Bool, true, false, List, [], ◌∷◌, ◌≡◌, refl, arith, ltb, map}
use memgarden.Prelude.Lists.{length, keep_if}
use memgarden.Prelude.Sort.{IsSorted}
use memgarden.Recall.Float.{Float}
use memgarden.Recall.Fusion.{ArmHit, no_worse, reciprocal_rank_fusion}
use memgarden.Recall.Fusion.Each.{find, score_of}
use memgarden.Recall.Fusion.Spec.{unranked, expected}
use memgarden.Recall.Fusion.Seen.{first_seen, ids_where}
use memgarden.Recall.Fusion.Order.{
  find-reciprocal_rank_fusion, count_up, reciprocal_rank_fusion-IsSorted,
}
use memgarden.Recall.Budget.{fit_to_budget, fit_to_budget_lem, Fits}

gt_asym_ℕ : (a b : ℕ) → ltb b a ≡ true → ltb a b ≡ false
gt_asym_ℕ a b h = ground arith

gt_trans_ℕ : (a b c : ℕ) → ltb a b ≡ false → ltb b c ≡ false → ltb a c ≡ false
gt_trans_ℕ a b c h k = ground arith

-- Scores in millionths; ranks and the constant in ones.
abbrev millionths : Float
millionths = record {
  F = ℕ;
  zero_f = 0;
  add = λ a b. a + b;
  one = 1_000_000;
  div = λ a b. a / b;
  of_nat = λ n. n;
  gt = λ a b. ltb b a;
  gt_asym = gt_asym_ℕ;
  gt_trans = gt_trans_ℕ;
}

abbrev hit : ℕ → ArmHit millionths
hit id = record { id = id; score = id }

-- semantic: 1, 2; bm25: 2, 3
abbrev arms : List (List (ArmHit millionths))
arms = (hit 1 ∷ hit 2 ∷ []) ∷ (hit 2 ∷ hit 3 ∷ []) ∷ []

-- The run of the first test of fusion.rs.
fused_ids : map (λ m. m.id) (reciprocal_rank_fusion millionths 60 arms) ≡ 2 ∷ 1 ∷ 3 ∷ []
unfolding reciprocal_rank_fusion
fused_ids = refl

find-reciprocal_rank_fusion_example :
    unranked millionths 60 (find millionths 60 2 (reciprocal_rank_fusion millionths 60 arms))
    ≡ expected millionths 60 2 arms
find-reciprocal_rank_fusion_example = find-reciprocal_rank_fusion millionths 60 arms 2

reciprocal_rank_fusion-IsSorted_example :
    IsSorted (no_worse millionths) (reciprocal_rank_fusion millionths 60 arms)
    × ((p : ℕ → Bool)
        → ((x y : ℕ) → p x ≡ true → p y ≡ true → ltb x y ≡ false)
        → ids_where millionths 60 p (reciprocal_rank_fusion millionths 60 arms)
          ≡ keep_if (λ id. p (score_of millionths 60 id arms 0)) (first_seen millionths 60 [] arms))
    × (map (λ m. m.rrf_rank) (reciprocal_rank_fusion millionths 60 arms)
        ≡ count_up millionths 60 0 (length (reciprocal_rank_fusion millionths 60 arms)))
reciprocal_rank_fusion-IsSorted_example = reciprocal_rank_fusion-IsSorted millionths 60 arms

fit_to_budget_lem_example :
    Fits
      (λ n. n)
      (6 ∷ 5 ∷ [])
      10
      (fit_to_budget (λ n. n) (6 ∷ 5 ∷ []) 10).0
      (fit_to_budget (λ n. n) (6 ∷ 5 ∷ []) 10).1
fit_to_budget_lem_example = fit_to_budget_lem (λ n. n) (6 ∷ 5 ∷ []) 10

-- It breaks on the first text that does not fit, and does not look for a smaller one.
fit_breaks : fit_to_budget (λ n. n) (5 ∷ 100 ∷ 1 ∷ []) 10 ≡ (1, 5)
unfolding fit_to_budget
fit_breaks = refl
