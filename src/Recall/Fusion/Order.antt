-- ===== src/Recall/Fusion/Order.antt =====
-- The order of the fused list, and what it says of each document:
-- crates/memgardend/src/recall/fusion.rs.
use memgarden.Prelude.{
  ℕ, zero, suc, ◌+◌, Bool, true, false, none, some, List, [], ◌∷◌, ◌≡◌, refl, arith, ◌==◌,
  if◌then◌else◌, ◌∙◌, ap, map,
}
use memgarden.Prelude.Lists.{All, length, keep_if}
use memgarden.Prelude.Sort.{
  insert_by, sort_by, sort_by-All, sort_by-IsSorted, sort_by-stable, IsSorted,
}
use memgarden.Recall.Float.{Float}
use memgarden.Recall.Fusion.{ArmHit, Merged, add_arms, no_worse, number, reciprocal_rank_fusion}
use memgarden.Recall.Fusion.Each.{
  find, Distinct, alone_arms, score_of, find-add_arms, Distinct-add_arms,
}
use memgarden.Recall.Fusion.Spec.{unranked, expected, alone_arms-expected}
use memgarden.Recall.Fusion.Seen.{first_seen, ids_where, ids_where-add_arms}

module _ (f : Float) (k : f.F) where
  open f use {F, zero_f, gt}

  abbrev Others : ℕ → List (Merged f) → Type 0
  Others id = All (λ m. (m.id == id) ≡ false)

  find-insert_by :
      (le : Merged f → Merged f → Bool) (id : ℕ) (x : Merged f) (ys : List (Merged f))
      → Others x.id ys
      → find f k id (insert_by le x ys) ≡ find f k id (x ∷ ys)
  unfolding find insert_by
  find-insert_by le id x [] h = refl
  find-insert_by le id x (y ∷ ys) h = ground (arith, find-insert_by le id x ys h.1, h.0)

  find-sort_by :
      (le : Merged f → Merged f → Bool) (id : ℕ) (xs : List (Merged f))
      → Distinct f k xs
      → find f k id (sort_by le xs) ≡ find f k id xs
  unfolding find sort_by
  find-sort_by le id [] d = refl
  find-sort_by le id (x ∷ xs) d =
      find-insert_by le id x (sort_by le xs) (sort_by-All le _ xs d.0)
      ∙ ap (λ o. if x.id == id then some x else o) (find-sort_by le id xs d.1)

  find-number :
      (id i : ℕ) (ms : List (Merged f))
      → unranked f k (find f k id (number f i ms)) ≡ unranked f k (find f k id ms)
  unfolding find number
  find-number id i [] = refl
  find-number id i (m ∷ ms) = ground (arith, find-number id (suc i) ms)

  -- The fused list, searched for an id, gives nothing if no arm has it. Otherwise it gives one entry
  -- with, but for its rank: as its score the sum of 1 / (k + rank) over the id's hits, with ranks from 1,
  -- in the order of the arms; as its semantic score what the first arm gives the id, and as its keyword
  -- score what the second arm gives it, or nothing if that arm has no hit of it. The hits of other
  -- documents do not enter.
  pub find-reciprocal_rank_fusion :
      (arms : List (List (ArmHit f))) (id : ℕ)
      → unranked f k (find f k id (reciprocal_rank_fusion f k arms)) ≡ expected f k id arms
  unfolding reciprocal_rank_fusion
  find-reciprocal_rank_fusion arms id =
      let ms = add_arms f k 0 arms [] in
      let none_yet : find f k id [] ≡ none = unfold find in refl in
      find-number id 0 (sort_by (no_worse f) ms)
      ∙ ap (unranked f k) (
          find-sort_by (no_worse f) id ms (Distinct-add_arms f k 0 arms [] tt)
          ∙ find-add_arms f k id 0 arms []
          ∙ ap (alone_arms f k id 0 arms) none_yet)
      ∙ alone_arms-expected f k id arms

  no_worse_total : (x y : Merged f) → no_worse f x y ≡ false → no_worse f y x ≡ true
  unfolding no_worse
  no_worse_total x y h = ground (arith, f.gt_asym y.rrf_score x.rrf_score)

  no_worse_trans :
      (x y z : Merged f) → no_worse f x y ≡ true → no_worse f y z ≡ true → no_worse f x z ≡ true
  unfolding no_worse
  no_worse_trans x y z h k = ground (arith, f.gt_trans x.rrf_score y.rrf_score z.rrf_score)

  number-All :
      (x : Merged f) (i j : ℕ) (ms : List (Merged f))
      → All (λ y. no_worse f x y ≡ true) ms
      → All (λ y. no_worse f (record x { rrf_rank = j }) y ≡ true) (number f i ms)
  unfolding number no_worse
  number-All x i j [] h = tt
  number-All x i j (m ∷ ms) h = (h.0, number-All x (suc i) j ms h.1)

  number-IsSorted :
      (i : ℕ) (ms : List (Merged f))
      → IsSorted (no_worse f) ms
      → IsSorted (no_worse f) (number f i ms)
  unfolding number
  number-IsSorted i [] s = tt
  number-IsSorted i (m ∷ ms) s =
      (number-All m (suc i) (i + 1) ms s.0, number-IsSorted (suc i) ms s.1)

  number-ids_where :
      (p : F → Bool) (i : ℕ) (ms : List (Merged f))
      → ids_where f k p (number f i ms) ≡ ids_where f k p ms
  unfolding number
  number-ids_where p i [] = refl
  number-ids_where p i (m ∷ ms) = ground (arith, number-ids_where p (suc i) ms)

  abbrev pub count_up : ℕ → ℕ → List ℕ
  count_up i zero = []
  count_up i (suc n) = (i + 1) ∷ count_up (suc i) n

  number-ranks :
      (i : ℕ) (ms : List (Merged f))
      → map (λ m. m.rrf_rank) (number f i ms) ≡ count_up i (length (number f i ms))
  unfolding number
  number-ranks i [] = refl
  number-ranks i (m ∷ ms) = ap (λ r. (i + 1) ∷ r) (number-ranks (suc i) ms)

  -- The list is sorted, the better score first; documents whose scores tie stand in the order in which
  -- they are first seen when the arms are read one behind the other; and the ranks count up from 1.
  pub reciprocal_rank_fusion-IsSorted :
      (arms : List (List (ArmHit f)))
      → IsSorted (no_worse f) (reciprocal_rank_fusion f k arms)
        × ((p : F → Bool)
            → ((x y : F) → p x ≡ true → p y ≡ true → gt y x ≡ false)
            → ids_where f k p (reciprocal_rank_fusion f k arms)
              ≡ keep_if (λ id. p (score_of f k id arms zero_f)) (first_seen f k [] arms))
        × (map (λ m. m.rrf_rank) (reciprocal_rank_fusion f k arms)
            ≡ count_up 0 (length (reciprocal_rank_fusion f k arms)))
  unfolding reciprocal_rank_fusion
  reciprocal_rank_fusion-IsSorted arms =
      let ms = add_arms f k 0 arms [] in
      (
        number-IsSorted 0 (sort_by (no_worse f) ms)
            (sort_by-IsSorted (no_worse f) no_worse_total no_worse_trans ms),
        λ p tie.
            number-ids_where p 0 (sort_by (no_worse f) ms)
            ∙ ap (map (λ m. m.id)) (
                sort_by-stable (no_worse f) (λ m. p m.rrf_score)
                  (λ x y hx hy. unfold no_worse in ground (arith, tie x.rrf_score y.rrf_score)) ms)
            ∙ ids_where-add_arms f k p arms,
        number-ranks 0 (sort_by (no_worse f) ms),
      )
