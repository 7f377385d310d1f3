-- ===== src/Recall/Fusion/Spec.antt =====
-- What crates/memgardend/src/recall/fusion.rs should say of one document, read off the arms: without
-- the merged list and its slots.
use memgarden.Prelude.{
  ℕ, zero, suc, ◌+◌, ◌<◌, Bool, true, false, ◌||◌, Option, none, some, List, [], ◌∷◌, ◌≡◌, refl,
  arith, ◌==◌, if◌then◌else◌, ◌∙◌, ap,
}
use memgarden.Recall.Float.{Float}
use memgarden.Recall.Fusion.{ArmHit, Merged, bump}
use memgarden.Recall.Fusion.Each.{
  entry, alone_hit, alone_arm, alone_arms, score_of, score-alone_arms,
}

module _ (f : Float) (k : f.F) where
  open f use {F, zero_f}

  -- Some arm has the id.
  abbrev in_arm : ℕ → List (ArmHit f) → Bool
  in_arm id [] = false
  in_arm id (hit ∷ hits) = (hit.id == id) || in_arm id hits

  abbrev pub is_hit : ℕ → List (List (ArmHit f)) → Bool
  is_hit id [] = false
  is_hit id (hits ∷ arms) = in_arm id hits || is_hit id arms

  -- The raw score that one arm gives the id, and `o` if it has none.
  abbrev raw_in : ℕ → List (ArmHit f) → Option F → Option F
  raw_in id [] o = o
  raw_in id (hit ∷ hits) o = raw_in id hits (if hit.id == id then some hit.score else o)

  -- The arm of a number.
  abbrev nth_arm : ℕ → List (List (ArmHit f)) → List (ArmHit f)
  nth_arm n [] = []
  nth_arm zero (hits ∷ arms) = hits
  nth_arm (suc n) (hits ∷ arms) = nth_arm n arms

  -- An entry without its rank.
  abbrev pub unranked : Option (Merged f) → Option (Merged f)
  unranked none = none
  unranked (some m) = some (record m { rrf_rank = 0 })

  -- The document's entry, but for its rank: the semantic score is the first arm's, the keyword score
  -- the second arm's.
  abbrev pub expected : ℕ → List (List (ArmHit f)) → Option (Merged f)
  expected id arms =
      if is_hit id arms
      then some (record {
        id = id;
        rrf_score = score_of f k id arms zero_f;
        rrf_rank = 0;
        semantic = raw_in id (nth_arm 0 arms) none;
        keyword = raw_in id (nth_arm 1 arms) none;
      })
      else none

  abbrev is_some : Option (Merged f) → Bool
  is_some none = false
  is_some (some m) = true

  found-alone_arm :
      (id arm rank0 : ℕ) (hits : List (ArmHit f)) (o : Option (Merged f))
      → is_some (alone_arm f k id arm rank0 hits o) ≡ is_some o || in_arm id hits
  found-alone_arm id arm rank0 [] o = ground arith
  found-alone_arm id arm rank0 (hit ∷ hits) o =
      ground
        (arith, found-alone_arm id arm (suc rank0) hits (alone_hit f k id arm (rank0 + 1) hit o))

  found-alone_arms :
      (id arm : ℕ) (arms : List (List (ArmHit f))) (o : Option (Merged f))
      → is_some (alone_arms f k id arm arms o) ≡ is_some o || is_hit id arms
  found-alone_arms id arm [] o = ground arith
  found-alone_arms id arm (hits ∷ arms) o = ground (
    arith,
    found-alone_arms id (suc arm) arms (alone_arm f k id arm 0 hits o),
    found-alone_arm id arm 0 hits o,
  )

  id-alone_arm :
      (id arm rank0 : ℕ) (hits : List (ArmHit f)) (o : Option (Merged f))
      → (entry f k id o).id ≡ id
      → (entry f k id (alone_arm f k id arm rank0 hits o)).id ≡ id
  id-alone_arm id arm rank0 [] o e = e
  id-alone_arm id arm rank0 (hit ∷ hits) o e =
      id-alone_arm id arm (suc rank0) hits (alone_hit f k id arm (rank0 + 1) hit o)
        (unfold bump in ground (arith, e))

  id-alone_arms :
      (id arm : ℕ) (arms : List (List (ArmHit f))) (o : Option (Merged f))
      → (entry f k id o).id ≡ id
      → (entry f k id (alone_arms f k id arm arms o)).id ≡ id
  id-alone_arms id arm [] o e = e
  id-alone_arms id arm (hits ∷ arms) o e =
      id-alone_arms id (suc arm) arms (alone_arm f k id arm 0 hits o)
        (id-alone_arm id arm 0 hits o e)

  -- The raw score of the arm `which`, where the first of `arms` has the number `arm`.
  abbrev raw_from : ℕ → ℕ → ℕ → List (List (ArmHit f)) → Option F → Option F
  raw_from which id arm [] x = x
  raw_from which id arm (hits ∷ arms) x =
      raw_from which id (suc arm) arms (if arm == which then raw_in id hits x else x)

  raw-alone_arm :
      (id arm rank0 : ℕ) (hits : List (ArmHit f)) (o : Option (Merged f))
      → let m = entry f k id o in
        let n = entry f k id (alone_arm f k id arm rank0 hits o) in
        (n.semantic ≡ (if arm == 0 then raw_in id hits m.semantic else m.semantic))
        × (n.keyword ≡ (if arm == 1 then raw_in id hits m.keyword else m.keyword))
  unfolding bump
  raw-alone_arm id arm rank0 [] o = (ground arith, ground arith)
  raw-alone_arm id arm rank0 (hit ∷ hits) o =
      let (s, t) = raw-alone_arm id arm (suc rank0) hits (alone_hit f k id arm (rank0 + 1) hit o) in
      (ground (arith, s), ground (arith, t))

  raw-alone_arms :
      (id arm : ℕ) (arms : List (List (ArmHit f))) (o : Option (Merged f))
      → let m = entry f k id o in
        let n = entry f k id (alone_arms f k id arm arms o) in
        (n.semantic ≡ raw_from 0 id arm arms m.semantic)
        × (n.keyword ≡ raw_from 1 id arm arms m.keyword)
  raw-alone_arms id arm [] o = (refl, refl)
  raw-alone_arms id arm (hits ∷ arms) o =
      let (s, t) = raw-alone_arms id (suc arm) arms (alone_arm f k id arm 0 hits o) in
      let (a, b) = raw-alone_arm id arm 0 hits o in
      (s ∙ ap (raw_from 0 id (suc arm) arms) a, t ∙ ap (raw_from 1 id (suc arm) arms) b)

  raw_from-behind :
      (which id arm : ℕ) (arms : List (List (ArmHit f))) (x : Option F)
      → which < arm
      → raw_from which id arm arms x ≡ x
  raw_from-behind which id arm [] x l = refl
  raw_from-behind which id arm (hits ∷ arms) x l =
      ground (arith, raw_from-behind which id (suc arm) arms x (omega arith))

  raw_from-nth_arm :
      (id : ℕ) (arms : List (List (ArmHit f)))
      → (raw_from 0 id 0 arms none ≡ raw_in id (nth_arm 0 arms) none)
        × (raw_from 1 id 0 arms none ≡ raw_in id (nth_arm 1 arms) none)
  raw_from-nth_arm id [] = (refl, refl)
  raw_from-nth_arm id (a ∷ []) = (refl, refl)
  raw_from-nth_arm id (a ∷ b ∷ arms) = (
    raw_from-behind 0 id 2 arms (raw_in id a none) (omega arith),
    raw_from-behind 1 id 2 arms (raw_in id b none) (omega arith),
  )

  -- The parts of an entry make the entry.
  entry_made :
      (o : Option (Merged f)) (b : Bool) (id : ℕ) (x : F) (s t : Option F)
      → is_some o ≡ b
      → (entry f k id o).id ≡ id
      → (entry f k id o).rrf_score ≡ x
      → (entry f k id o).semantic ≡ s
      → (entry f k id o).keyword ≡ t
      → unranked o ≡ (
          if b
          then some (record { id = id; rrf_score = x; rrf_rank = 0; semantic = s; keyword = t })
          else none)
  entry_made none false id x s t found same score semantic keyword = refl
  entry_made none true id x s t found same score semantic keyword = cc
  entry_made (some m) false id x s t found same score semantic keyword = cc
  entry_made (some m) true id x s t found same score semantic keyword =
      rw (same, score, semantic, keyword) refl

  -- An id's own hits give what is expected of it.
  pub alone_arms-expected :
      (id : ℕ) (arms : List (List (ArmHit f)))
      → unranked (alone_arms f k id 0 arms none) ≡ expected id arms
  alone_arms-expected id arms =
      let (semantic, keyword) = raw-alone_arms id 0 arms none in
      let (first, second) = raw_from-nth_arm id arms in
      entry_made (alone_arms f k id 0 arms none) (is_hit id arms) id (score_of f k id arms zero_f)
        (raw_in id (nth_arm 0 arms) none) (raw_in id (nth_arm 1 arms) none)
        (found-alone_arms id 0 arms none) (id-alone_arms id 0 arms none refl)
        (score-alone_arms f k id 0 arms none) (semantic ∙ first) (keyword ∙ second)
