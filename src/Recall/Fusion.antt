-- ===== src/Recall/Fusion.antt =====
-- crates/memgardend/src/recall/fusion.rs: reciprocal rank fusion. An id is a row id, which is
-- positive. The hash map from ids to slots is a search of the merged list by id.
pub mod Each
pub mod Spec
pub mod Seen
pub mod Order
use memgarden.Prelude.{
  ℕ, zero, suc, ◌+◌, Bool, true, false, not, Option, none, some, List, [], ◌∷◌, ◌++◌, ◌==◌, leb,
  ◌||◌, if◌then◌else◌,
}
use memgarden.Prelude.Lists.{length, take}
use memgarden.Prelude.Sort.{sort_by}
use memgarden.Recall.Float.{Float}

module _ (f : Float) where
  open f use {F, zero_f, gt}

  pub record ArmHit : Type 0 where
    pub id : ℕ
    pub score : F

  pub record Merged : Type 0 where
    pub id : ℕ
    pub rrf_score : F
    pub rrf_rank : ℕ
    pub semantic : Option F
    pub keyword : Option F

  unfoldable pub cap_per_source : List ArmHit → ℕ → List ArmHit
  cap_per_source results cap =
      if (cap == 0) || leb (length results) cap then results else take cap results

  abbrev pub fresh : ℕ → Merged
  fresh id = record { id = id; rrf_score = zero_f; rrf_rank = 0; semantic = none; keyword = none }

  -- `x` may stay before `y`: its score is not the lower one.
  unfoldable pub no_worse : Merged → Merged → Bool
  no_worse x y = not (gt y.rrf_score x.rrf_score)

  unfoldable pub number : ℕ → List Merged → List Merged
  number i [] = []
  number i (m ∷ ms) = record m { rrf_rank = i + 1 } ∷ number (suc i) ms

-- `k` is the constant of the fusion, 60.0 at its caller.
module _ (f : Float) (k : f.F) where
  open f use {add, one, div, of_nat}

  -- One hit's share, and its raw score if the arm is a named one: 0 is semantic, 1 is bm25.
  unfoldable pub bump : ℕ → ℕ → ArmHit f → Merged f → Merged f
  bump arm rank hit m = record m {
    rrf_score = add m.rrf_score (div one (add k (of_nat rank)));
    semantic = if arm == 0 then some hit.score else m.semantic;
    keyword = if arm == 1 then some hit.score else m.keyword;
  }

  unfoldable pub add_hit : ℕ → ℕ → ArmHit f → List (Merged f) → List (Merged f)
  unfolding bump
  add_hit arm rank hit [] = bump arm rank hit (fresh f hit.id) ∷ []
  add_hit arm rank hit (m ∷ ms) =
      if m.id == hit.id then bump arm rank hit m ∷ ms else m ∷ add_hit arm rank hit ms

  -- `for (rank0, hit) in results.iter().enumerate()`
  unfoldable pub add_arm : ℕ → ℕ → List (ArmHit f) → List (Merged f) → List (Merged f)
  unfolding add_hit
  add_arm arm rank0 [] ms = ms
  add_arm arm rank0 (hit ∷ hits) ms = add_arm arm (suc rank0) hits (add_hit arm (rank0 + 1) hit ms)

  -- `for (arm_idx, results) in arms.iter().enumerate()`
  unfoldable pub add_arms : ℕ → List (List (ArmHit f)) → List (Merged f) → List (Merged f)
  unfolding add_arm
  add_arms arm [] ms = ms
  add_arms arm (hits ∷ arms) ms = add_arms (suc arm) arms (add_arm arm 0 hits ms)

  unfoldable pub reciprocal_rank_fusion : List (List (ArmHit f)) → List (Merged f)
  unfolding add_arms number no_worse sort_by
  reciprocal_rank_fusion arms = number f 0 (sort_by (no_worse f) (add_arms 0 arms []))
