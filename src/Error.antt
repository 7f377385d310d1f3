-- ===== src/Error.antt =====
-- crates/memgarden-core/src/error.rs: the errors of the core, without their messages.
pub data Error : Type 0 where
  config io storage not_found invalid conflict : Error

pub data Result {ℓ} (A : Type ℓ) : Type ℓ where
  ok : A → Result A
  err : Error → Result A
