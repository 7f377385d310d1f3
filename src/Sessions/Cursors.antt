-- ===== src/Sessions/Cursors.antt =====
-- The life of one session's row, as steps: reports of the hook, retain requests, jobs that come out
-- clean or are lost in any order, and what can go wrong between them.
-- Two ghosts: `settled` are the byte ranges whose ingestion has come out clean, or that a request
-- named which needed no job; `jumped` are those that such a request carries the durable cursor over
-- although it does not name them.
pub mod Durable
pub mod Order
use memgarden.Prelude.{
  ℕ, ◌≤◌, ◌<◌, String, Option, none, some, List, [], ◌∷◌, ◌++◌, ◌≡◌, ◌⊎◌, leb, if◌then◌else◌,
}
use memgarden.Prelude.Int.{ℤ, pos_part}
use memgarden.Sessions.Row.{Session, clamp, upsert_row}
use memgarden.Sessions.Writers.{
  RetainRequest, if_settled, no_confirm, mirror_update, Task, task_of, task_range, clean_update,
  UpsertSessionRequest, report_update,
}

pub record World : Type 0 where
  pub row : Option Session
  pub queue : List Task
  pub settled : List (ℕ × ℕ)
  pub jumped : List (ℕ × ℕ)

abbrev pub start : World
start = record { row = none; queue = []; settled = []; jumped = [] }

abbrev pub durable : Option Session → ℕ
durable none = 0
durable (some s) = s.confirmed_offset

abbrev pub posted : Option Session → ℕ
posted none = 0
posted (some s) = s.byte_offset

-- The byte `x` lies in one of the ranges.
abbrev pub Covered : List (ℕ × ℕ) → ℕ → Type 0
Covered [] x = ⊥
Covered ((from, to) ∷ ranges) x = ((from ≤ x) × (x < to)) ⊎ Covered ranges x

-- The range that a request names, if it names where it begins.
abbrev pub named : RetainRequest → List (ℕ × ℕ)
named body = elim body.offset_from [
  | none ↦ []
  | some z ↦ (pos_part z, clamp body.byte_offset) ∷ []
]

-- Where the bytes begin that a request names; one that names none begins behind all of its bytes.
abbrev pub named_from : RetainRequest → ℕ
named_from body = elim body.offset_from [ none ↦ clamp body.byte_offset | some z ↦ pos_part z ]

-- What lies between the bytes that were posted before and those that the request names, where the
-- row has no open gap, so that the request may move the durable cursor. Nothing was posted before to
-- a row that is missing.
abbrev pub jump : RetainRequest → Option Session → List (ℕ × ℕ)
jump body row = if leb (posted row) (durable row) then (posted row, named_from body) ∷ [] else []

-- Steps of the daemon. `now`, the bank and the ids are free.
pub data Step : World → World → Type 0 where
  report :
      {w v : World} (now : ℕ) (bank : String) (body : UpsertSessionRequest)
      → v ≡ record w { row = some (upsert_row now bank (report_update body) w.row) }
      → Step w v
  -- `202`: the job is queued, and the optimistic cursor moves.
  queue :
      {w v : World} (now : ℕ) (bank id : String) (body : RetainRequest) (messages : ℕ)
      → v ≡ record w {
        row = some (upsert_row now bank (mirror_update body messages no_confirm id) w.row);
        queue = task_of body ∷ w.queue;
      }
      → Step w v
  -- `skipped` or `duplicate`: the request's bytes need no job.
  settle :
      {w v : World} (now : ℕ) (bank id : String) (body : RetainRequest) (messages : ℕ)
      → v ≡ record w {
        row = some (upsert_row now bank (mirror_update body messages if_settled id) w.row);
        settled = named body ++ w.settled;
        jumped = jump body w.row ++ w.jumped;
      }
      → Step w v
  -- A job of the queue comes out clean, and can name its range.
  clean :
      {w v : World} (now : ℕ) (bank id : String) (before after : List Task) (t : Task) (from to : ℤ)
      → w.queue ≡ before ++ t ∷ after
      → task_range t ≡ some (from, to)
      → v ≡ record w {
        row = some (upsert_row now bank (clean_update id (from, to)) w.row);
        queue = before ++ after;
        settled = (pos_part from, pos_part to) ∷ w.settled;
      }
      → Step w v
  -- A job fails, or ends clean without a range to its name.
  lose :
      {w v : World} (before after : List Task) (t : Task)
      → w.queue ≡ before ++ t ∷ after
      → v ≡ record w { queue = before ++ after }
      → Step w v

-- What the daemon tolerates: the mirror of a queued request is not written (the failure is logged
-- and swallowed), and `gc` drops the row.
pub data Mishap : World → World → Type 0 where
  unmirrored :
      {w v : World} (body : RetainRequest)
      → v ≡ record w { queue = task_of body ∷ w.queue }
      → Mishap w v
  collected : {w v : World} → v ≡ record w { row = none } → Mishap w v

-- The worlds that steps of `R` lead to from the start.
pub data Reach (R : World → World → Type 0) : World → Type 0 where
  here : {w : World} → w ≡ start → Reach R w
  next : {w v : World} → Reach R w → R w v → Reach R v

abbrev pub Any : World → World → Type 0
Any w v = Step w v ⊎ Mishap w v
