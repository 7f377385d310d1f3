-- ===== src/Mental/Cron/Walk.antt =====
-- Which day `prev_fire` of crates/memgardend/src/mental/cron.rs stops at.
use memgarden.Prelude.{ℕ, zero, suc, ◌+◌, ◌*◌, ◌<◌, ◌≡◌, Option, none, some}
use memgarden.Prelude.Int.{ℤ}
use memgarden.Mental.Cron.{Cron, Calendar, fires_on}

module _ (k : Calendar) where
  open k use {Date, civil, yesterday, instant}

  -- The date `n` days before, and the cutoff that holds on it.
  abbrev pub back : ℕ → Date → Option Date
  back zero date = some date
  back (suc n) date = elim (yesterday date) [ none ↦ none | some y ↦ back n y ]

  abbrev pub cutoff_on : ℕ → ℕ → ℕ
  cutoff_on zero cutoff = cutoff
  cutoff_on (suc n) cutoff = 23 * 60 + 59

  -- `t` is a fire time of the schedule, and no later day, up to the one that the walk begins on, has
  -- one that is not after its cutoff.
  pub record Fired (c : Cron) (left : ℕ) (date : Date) (cutoff : ℕ) (t : ℤ) : Type 0 where
    pub days : ℕ
    pub day : Date
    pub mins : ℕ
    pub near : days < left
    pub reached : back days date ≡ some day
    pub fires : fires_on k c day (cutoff_on days cutoff) ≡ some mins
    pub at : instant day mins ≡ some t
    pub none_later :
        (n : ℕ) (later : Date)
        → n < days
        → back n date ≡ some later
        → fires_on k c later (cutoff_on n cutoff) ≡ none
