-- ===== src/Recall/Fusion/Each.antt =====
-- Fusing all documents at once is fusing each of them alone: what
-- crates/memgardend/src/recall/fusion.rs merges for one id depends on that id's hits only.
use memgarden.Prelude.{
  ℕ, suc, ◌+◌, false, Option, none, some, List, [], ◌∷◌, ◌≡◌, refl, arith, ◌==◌, if◌then◌else◌, ◌∙◌,
  ap, Bool-cases, inl, inr,
}
use memgarden.Prelude.Lists.{All}
use memgarden.Recall.Float.{Float}
use memgarden.Recall.Fusion.{ArmHit, Merged, fresh, bump, add_hit, add_arm, add_arms}

module _ (f : Float) (k : f.F) where
  open f use {F, zero_f, add, one, div, of_nat}

  unfoldable pub find : ℕ → List (Merged f) → Option (Merged f)
  find id [] = none
  find id (m ∷ ms) = if m.id == id then some m else find id ms

  -- One document: its entry before, and after one hit of its own.
  abbrev pub entry : ℕ → Option (Merged f) → Merged f
  entry id none = fresh f id
  entry id (some m) = m

  abbrev pub alone_hit : ℕ → ℕ → ℕ → ArmHit f → Option (Merged f) → Option (Merged f)
  alone_hit id arm rank hit o =
      if hit.id == id then some (bump f k arm rank hit (entry id o)) else o

  abbrev pub alone_arm : ℕ → ℕ → ℕ → List (ArmHit f) → Option (Merged f) → Option (Merged f)
  alone_arm id arm rank0 [] o = o
  alone_arm id arm rank0 (hit ∷ hits) o =
      alone_arm id arm (suc rank0) hits (alone_hit id arm (rank0 + 1) hit o)

  abbrev pub alone_arms : ℕ → ℕ → List (List (ArmHit f)) → Option (Merged f) → Option (Merged f)
  alone_arms id arm [] o = o
  alone_arms id arm (hits ∷ arms) o = alone_arms id (suc arm) arms (alone_arm id arm 0 hits o)

  find-add_hit :
      (id arm rank : ℕ) (hit : ArmHit f) (ms : List (Merged f))
      → find id (add_hit f k arm rank hit ms) ≡ alone_hit id arm rank hit (find id ms)
  unfolding find add_hit bump
  find-add_hit id arm rank hit [] = ground arith
  find-add_hit id arm rank hit (m ∷ ms) = ground (arith, find-add_hit id arm rank hit ms)

  find-add_arm :
      (id arm rank0 : ℕ) (hits : List (ArmHit f)) (ms : List (Merged f))
      → find id (add_arm f k arm rank0 hits ms) ≡ alone_arm id arm rank0 hits (find id ms)
  unfolding add_arm
  find-add_arm id arm rank0 [] ms = refl
  find-add_arm id arm rank0 (hit ∷ hits) ms =
      find-add_arm id arm (suc rank0) hits (add_hit f k arm (rank0 + 1) hit ms)
      ∙ ap (alone_arm id arm (suc rank0) hits) (find-add_hit id arm (rank0 + 1) hit ms)

  pub find-add_arms :
      (id arm : ℕ) (arms : List (List (ArmHit f))) (ms : List (Merged f))
      → find id (add_arms f k arm arms ms) ≡ alone_arms id arm arms (find id ms)
  unfolding add_arms
  find-add_arms id arm [] ms = refl
  find-add_arms id arm (hits ∷ arms) ms =
      find-add_arms id (suc arm) arms (add_arm f k arm 0 hits ms)
      ∙ ap (alone_arms id (suc arm) arms) (find-add_arm id arm 0 hits ms)

  -- No two entries bear one id.
  abbrev Others : ℕ → List (Merged f) → Type 0
  Others id = All (λ m. (m.id == id) ≡ false)

  abbrev pub Distinct : List (Merged f) → Type 0
  Distinct [] = Unit {0}
  Distinct (m ∷ ms) = Others m.id ms × Distinct ms

  Others-add_hit :
      (id arm rank : ℕ) (hit : ArmHit f) (ms : List (Merged f))
      → (hit.id == id) ≡ false
      → Others id ms
      → Others id (add_hit f k arm rank hit ms)
  unfolding add_hit bump
  Others-add_hit id arm rank hit [] n h = (n, tt)
  Others-add_hit id arm rank hit (m ∷ ms) n h = elim (Bool-cases (m.id == hit.id)) [
    | inl e ↦ rw e (h.0, h.1)
    | inr e ↦ rw e (h.0, Others-add_hit id arm rank hit ms n h.1)
  ]

  Distinct-add_hit :
      (arm rank : ℕ) (hit : ArmHit f) (ms : List (Merged f))
      → Distinct ms
      → Distinct (add_hit f k arm rank hit ms)
  unfolding add_hit bump
  Distinct-add_hit arm rank hit [] d = (tt, tt)
  Distinct-add_hit arm rank hit (m ∷ ms) d = elim (Bool-cases (m.id == hit.id)) [
    | inl e ↦ rw e (d.0, d.1)
    | inr e ↦ rw e (
      Others-add_hit m.id arm rank hit ms (ground arith) d.0,
      Distinct-add_hit arm rank hit ms d.1,
    )
  ]

  Distinct-add_arm :
      (arm rank0 : ℕ) (hits : List (ArmHit f)) (ms : List (Merged f))
      → Distinct ms
      → Distinct (add_arm f k arm rank0 hits ms)
  unfolding add_arm
  Distinct-add_arm arm rank0 [] ms d = d
  Distinct-add_arm arm rank0 (hit ∷ hits) ms d =
      Distinct-add_arm arm (suc rank0) hits (add_hit f k arm (rank0 + 1) hit ms)
        (Distinct-add_hit arm (rank0 + 1) hit ms d)

  pub Distinct-add_arms :
      (arm : ℕ) (arms : List (List (ArmHit f))) (ms : List (Merged f))
      → Distinct ms
      → Distinct (add_arms f k arm arms ms)
  unfolding add_arms
  Distinct-add_arms arm [] ms d = d
  Distinct-add_arms arm (hits ∷ arms) ms d =
      Distinct-add_arms (suc arm) arms (add_arm f k arm 0 hits ms)
        (Distinct-add_arm arm 0 hits ms d)

  -- The score alone: the shares of the id's ranks, added in the order of the arms.
  abbrev arm_score : ℕ → ℕ → List (ArmHit f) → F → F
  arm_score id rank0 [] x = x
  arm_score id rank0 (hit ∷ hits) x =
      arm_score id (suc rank0) hits
        (if hit.id == id then add x (div one (add k (of_nat (rank0 + 1)))) else x)

  abbrev pub score_of : ℕ → List (List (ArmHit f)) → F → F
  score_of id [] x = x
  score_of id (hits ∷ arms) x = score_of id arms (arm_score id 0 hits x)

  abbrev pub score_at : ℕ → Option (Merged f) → F
  score_at id o = (entry id o).rrf_score

  score-alone_arm :
      (id arm rank0 : ℕ) (hits : List (ArmHit f)) (o : Option (Merged f))
      → score_at id (alone_arm id arm rank0 hits o) ≡ arm_score id rank0 hits (score_at id o)
  score-alone_arm id arm rank0 [] o = refl
  score-alone_arm id arm rank0 (hit ∷ hits) o =
      score-alone_arm id arm (suc rank0) hits (alone_hit id arm (rank0 + 1) hit o)
      ∙ ap (arm_score id (suc rank0) hits) (unfold bump in ground arith)

  pub score-alone_arms :
      (id arm : ℕ) (arms : List (List (ArmHit f))) (o : Option (Merged f))
      → score_at id (alone_arms id arm arms o) ≡ score_of id arms (score_at id o)
  score-alone_arms id arm [] o = refl
  score-alone_arms id arm (hits ∷ arms) o =
      score-alone_arms id (suc arm) arms (alone_arm id arm 0 hits o)
      ∙ ap (score_of id arms) (score-alone_arm id arm 0 hits o)
