-- ===== src/Consolidate/Runs/Marks.antt =====
-- The watermark of crates/memgarden-store/src/consolidate.rs over the life of a run.
use memgarden.Prelude.{
  ℕ, ◌<◌, max, String, true, false, Option, none, some, List, [], ◌∷◌, ◌++◌, ◌≡◌, ◌∙◌, refl, ap,
  arith, ◌==◌, str_eq, eq_refl,
}
use memgarden.Prelude.Lists.{All, All-map}
use memgarden.Consolidate.Runs.{
  RunCounts, RunRow, no_counts, next_id, start_run, finish_run, finished_row, mark_of, watermark,
}

-- The id of a new row is above those of the table.
next_id-above : (rs : List RunRow) → All (λ r. r.id < next_id rs) rs
unfolding next_id
next_id-above [] = tt
next_id-above (r ∷ rs) = (omega arith, All-map (λ x h. omega (arith, h)) rs (next_id-above rs))

watermark-append :
    (rs : List RunRow) (r : RunRow) (bank : String)
    → str_eq r.bank_id bank ≡ true
    → watermark (rs ++ r ∷ []) bank ≡ max (watermark rs bank) (mark_of r)
unfolding watermark
watermark-append [] r bank e = rw e (omega arith)
watermark-append (x ∷ rs) r bank e = ground (arith, watermark-append rs r bank e)

-- Rows with other ids keep their watermarks.
finish_run-others :
    (now id : ℕ) (status : String) (c : RunCounts) (m : Option ℕ) (error : Option String)
    (rs : List RunRow) (r : RunRow)
    → All (λ x. x.id < id) rs
    → r.id ≡ id
    → finish_run now id status c m error (rs ++ r ∷ [])
      ≡ rs ++ finished_row now status c m error r ∷ []
unfolding finish_run
finish_run-others now id status c m error [] r h e =
    let same : (r.id == id) ≡ true = ground (arith, e) in rw same refl
finish_run-others now id status c m error (x ∷ rs) r h e =
    let other : (x.id == id) ≡ false = ground (arith, h.0) in
    rw other (ap (λ t. x ∷ t) (finish_run-others now id status c m error rs r h.1 e))

-- A run that starts and ends with a watermark leaves the bank with the larger of it and the old one.
pub watermark-finish_run :
    (now later : ℕ) (status bank : String) (c : RunCounts) (m : ℕ) (error : Option String)
    (rs : List RunRow)
    → watermark
        (finish_run later
          (start_run now bank rs).0
          status
          c
          (some m)
          error
          (start_run now bank rs).1)
        bank
      ≡ max (watermark rs bank) m
unfolding start_run
watermark-finish_run now later status bank c m error rs =
    let r : RunRow = record {
      id = next_id rs;
      bank_id = bank;
      status = "running";
      counts = no_counts;
      watermark = none;
      error = none;
      started_at = now;
      finished_at = none;
    } in
    ap (λ t. watermark t bank)
      (finish_run-others later (next_id rs) status c (some m) error rs r (next_id-above rs) refl)
    ∙ watermark-append rs (finished_row later status c (some m) error r) bank (eq_refl bank)
