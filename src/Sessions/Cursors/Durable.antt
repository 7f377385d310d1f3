-- ===== src/Sessions/Cursors/Durable.antt =====
-- No byte that is not settled lies before the durable cursor.
use memgarden.Prelude.{◌⊎◌, ℕ, ◌<◌}
use memgarden.Sessions.Cursors.{World, durable, Covered}

-- Every byte before the durable cursor is settled or jumped over.
pub record IsSound (w : World) : Type 0 where
  pub covered : (x : ℕ) → x < durable w.row → Covered w.settled x ⊎ Covered w.jumped x
