-- ===== src/Consolidate/Runs.antt =====
-- crates/memgarden-store/src/consolidate.rs: the facts that wait for a round, and the table of runs.
-- Of a node, the columns that the query reads.
pub mod Waiting
pub mod Marks
use memgarden.Prelude.{
  ℕ, suc, ◌+◌, max, String, Bool, true, false, not, ◌&&◌, ◌||◌, Option, none, some, List, [], ◌∷◌,
  ◌++◌, map, leb, ltb, ◌==◌, str_eq, if◌then◌else◌,
}
use memgarden.Prelude.Int.{ℤ}
use memgarden.Prelude.Lists.{length, take, keep_if}
use memgarden.Prelude.Sort.{sort_by}
use memgarden.Prelude.Text.{Text}

pub record FactRow : Type 0 where
  pub id : ℕ
  pub uuid : Text
  pub text : Text
  pub occurred_start : Option ℤ
  pub occurred_end : Option ℤ
  pub mentioned_at : Option ℤ

pub record MemoryNode : Type 0 where
  pub fact : FactRow
  pub bank_id : String
  pub fact_type : String
  pub superseded_by : Option ℕ
  pub expires_at : Option ℕ

abbrev pub is_null : Option ℕ → Bool
is_null none = true
is_null (some n) = false

-- `expires_at IS NULL OR expires_at > ...`
abbrev pub is_unexpired : ℕ → Option ℕ → Bool
is_unexpired now none = true
is_unexpired now (some t) = ltb now t

-- The conditions of the query, but for `id > ?2`.
unfoldable pub can_wait : ℕ → String → MemoryNode → Bool
can_wait now bank n =
    str_eq n.bank_id bank
    && (not (str_eq n.fact_type "observation")
        && (is_null n.superseded_by && is_unexpired now n.expires_at))

abbrev pub is_after : ℕ → FactRow → Bool
is_after after f = ltb after f.id

abbrev pub by_id : FactRow → FactRow → Bool
by_id f g = leb f.id g.id

-- The query without its limit.
unfoldable pub waiting : ℕ → List MemoryNode → String → ℕ → List FactRow
unfolding can_wait sort_by
waiting now nodes bank after =
    sort_by by_id (keep_if (is_after after) (map (λ n. n.fact) (keep_if (can_wait now bank) nodes)))

unfoldable pub unconsolidated : ℕ → List MemoryNode → String → ℕ → ℕ → List FactRow
unfolding waiting
unconsolidated now nodes bank after limit = take limit (waiting now nodes bank after)

unfoldable pub count_unconsolidated : ℕ → List MemoryNode → String → ℕ → ℕ
unfolding can_wait
count_unconsolidated now nodes bank after =
    length (keep_if (is_after after) (map (λ n. n.fact) (keep_if (can_wait now bank) nodes)))

pub record RunCounts : Type 0 where
  pub facts_seen : ℕ
  pub created_n : ℕ
  pub updated_n : ℕ
  pub deleted_n : ℕ
  pub merged_n : ℕ

pub record RunRow : Type 0 where
  pub id : ℕ
  pub bank_id : String
  pub status : String
  pub counts : RunCounts
  pub watermark : Option ℕ
  pub error : Option String
  pub started_at : ℕ
  pub finished_at : Option ℕ

abbrev pub no_counts : RunCounts
no_counts = record { facts_seen = 0; created_n = 0; updated_n = 0; deleted_n = 0; merged_n = 0 }

-- The rowid that SQLite gives a new row: one above the largest.
unfoldable pub next_id : List RunRow → ℕ
next_id [] = 1
next_id (r ∷ rs) = max (suc r.id) (next_id rs)

unfoldable pub start_run : ℕ → String → List RunRow → ℕ × List RunRow
unfolding next_id
start_run now bank rows = (
  next_id rows,
  rows
      ++ record {
        id = next_id rows;
        bank_id = bank;
        status = "running";
        counts = no_counts;
        watermark = none;
        error = none;
        started_at = now;
        finished_at = none;
      }
        ∷ [],
)

abbrev pub finished_row : ℕ → String → RunCounts → Option ℕ → Option String → RunRow → RunRow
finished_row now status counts watermark error r = record r {
  status = status;
  counts = counts;
  watermark = watermark;
  error = error;
  finished_at = some now;
}

unfoldable pub finish_run :
    ℕ → ℕ → String → RunCounts → Option ℕ → Option String → List RunRow → List RunRow
finish_run now run_id status counts watermark error =
    map (λ r. if r.id == run_id then finished_row now status counts watermark error r else r)

abbrev pub is_running : RunRow → Bool
is_running r = str_eq r.status "running"

unfoldable pub fail_stale_runs : ℕ → String → List RunRow → ℕ × List RunRow
fail_stale_runs now reason rows = (
  length (keep_if is_running rows),
  map
      (λ r.
        if is_running r
        then record r { status = "failed"; error = some reason; finished_at = some now }
        else r)
      rows,
)

abbrev pub mark_of : RunRow → ℕ
mark_of r = elim r.watermark [ none ↦ 0 | some m ↦ m ]

-- `COALESCE(MAX(watermark), 0)` over the bank's runs; no watermark is below 0.
unfoldable pub watermark : List RunRow → String → ℕ
watermark [] bank = 0
watermark (r ∷ rs) bank =
    let rest = watermark rs bank in if str_eq r.bank_id bank then max (mark_of r) rest else rest
