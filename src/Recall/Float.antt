-- ===== src/Recall/Float.antt =====
-- What ranking needs of `f64`: the operations of `1.0 / (k + rank as f64)`, and the test
-- that `partial_cmp` makes. The laws hold of floats that are not NaN.
use memgarden.Prelude.{ℕ, Bool, true, false, ◌≡◌}

pub record Float : Type 1 where
  pub F : Type 0
  pub zero_f : F
  pub add : F → F → F
  pub one : F
  pub div : F → F → F
  -- `rank as f64`
  pub of_nat : ℕ → F
  -- `a > b`
  pub gt : F → F → Bool
  pub gt_asym : (a b : F) → gt a b ≡ true → gt b a ≡ false
  pub gt_trans : (a b c : F) → gt b a ≡ false → gt c b ≡ false → gt c a ≡ false
