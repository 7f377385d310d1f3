-- ===== src/Sessions/Cursors/Order.antt =====
-- The durable cursor does not pass the optimistic one, as long as no mirror is missing and no row is
-- dropped; where one is, it can.
use memgarden.Prelude.{
  ℕ, ◌<◌, ◌≤◌, List, ◌∷◌, ◌++◌, ◌≡◌, arith, Option, none, some, subst, sym, String,
}
use memgarden.Prelude.Int.{ℤ, pos_part}
use memgarden.Prelude.Lists.{All, All-append, All-left, All-right, All-map}
use memgarden.Sessions.Row.{Session, upsert_row, clamp, inflight_bytes}
use memgarden.Sessions.Writers.{
  Task, task_range, RetainRequest, Confirm, if_settled, no_confirm, mirror_update, clean_update,
  UpsertSessionRequest, report_update,
}
use memgarden.Sessions.Cursors.{
  World, durable, posted, Step, report, queue, settle, clean, lose, Reach, here, next,
}

-- A queued job ends where the row's optimistic cursor has been.
abbrev pub Posted : ℕ → Task → Type 0
Posted n t = clamp t.byte_offset ≤ n

pub record IsOrdered (w : World) : Type 0 where
  pub cursors : durable w.row ≤ posted w.row
  pub jobs : All (Posted (posted w.row)) w.queue

posted-mirror :
    (now : ℕ) (bank id : String) (body : RetainRequest) (n : ℕ) (c : Confirm) (row : Option Session)
    → (posted row ≤ posted (some (upsert_row now bank (mirror_update body n c id) row)))
      × (clamp body.byte_offset
          ≤ posted (some (upsert_row now bank (mirror_update body n c id) row)))
      × (durable row ≤ posted row
          → durable (some (upsert_row now bank (mirror_update body n c id) row))
            ≤ posted (some (upsert_row now bank (mirror_update body n c id) row)))
unfolding upsert_row mirror_update
posted-mirror now bank id body n if_settled none = ground arith
posted-mirror now bank id body n no_confirm none = ground arith
posted-mirror now bank id body n if_settled (some s) = ground arith
posted-mirror now bank id body n no_confirm (some s) = ground arith

posted-report :
    (now : ℕ) (bank : String) (body : UpsertSessionRequest) (row : Option Session)
    → (posted row ≤ posted (some (upsert_row now bank (report_update body) row)))
      × (durable row ≤ posted row
          → durable (some (upsert_row now bank (report_update body) row))
            ≤ posted (some (upsert_row now bank (report_update body) row)))
unfolding upsert_row report_update
posted-report now bank body none = ground arith
posted-report now bank body (some s) = ground arith

range_end :
    (t : Task) (from to : ℤ) → task_range t ≡ some (from, to) → pos_part to ≡ clamp t.byte_offset
unfolding task_range
range_end t from to h = ground arith

-- A job that is behind the optimistic cursor cannot carry the durable one past it.
posted-clean :
    (now : ℕ) (bank id : String) (from to : ℤ) (row : Option Session)
    → (posted (some (upsert_row now bank (clean_update id (from, to)) row)) ≡ posted row)
      × (durable row ≤ posted row
          → pos_part to ≤ posted row
          → durable (some (upsert_row now bank (clean_update id (from, to)) row)) ≤ posted row)
unfolding upsert_row clean_update
posted-clean now bank id from to none = ground arith
posted-clean now bank id from to (some s) = ground arith

Posted-mono : {m n : ℕ} → m ≤ n → (ts : List Task) → All (Posted m) ts → All (Posted n) ts
Posted-mono h = All-map (λ t p. omega arith)

-- What stays of a queue when one job leaves it.
without :
    {n : ℕ} (before after : List Task) (t : Task) {q : List Task}
    → q ≡ before ++ t ∷ after
    → All (Posted n) q
    → All (Posted n) (before ++ after) × Posted n t
without {n} before after t e h =
    let split = subst (All (Posted n)) e h in
    let rest = All-right (Posted n) before (t ∷ after) split in
    (
      All-append (Posted n) before after (All-left (Posted n) before (t ∷ after) split) rest.1,
      rest.0,
    )

Step-IsOrdered : {w v : World} → Step w v → IsOrdered w → IsOrdered v
Step-IsOrdered {w} (report now bank body e) h =
    let p = posted-report now bank body w.row in
    subst IsOrdered (sym e)
      (record { cursors = p.1 h.cursors; jobs = Posted-mono p.0 w.queue h.jobs })
Step-IsOrdered {w} (queue now bank id body n e) h =
    let p = posted-mirror now bank id body n no_confirm w.row in
    subst IsOrdered (sym e)
      (record { cursors = p.2 h.cursors; jobs = (p.1, Posted-mono p.0 w.queue h.jobs) })
Step-IsOrdered {w} (settle now bank id body n e) h =
    let p = posted-mirror now bank id body n if_settled w.row in
    subst IsOrdered (sym e)
      (record { cursors = p.2 h.cursors; jobs = Posted-mono p.0 w.queue h.jobs })
Step-IsOrdered {w} (clean now bank id before after t from to q r e) h =
    let p = posted-clean now bank id from to w.row in
    let (left, mine) = without before after t q h.jobs in
    let within : pos_part to ≤ posted w.row = rw (range_end t from to r) mine in
    subst IsOrdered (sym e) (record { cursors = rw p.0 (p.1 h.cursors within); jobs = rw p.0 left })
Step-IsOrdered (lose before after t q e) h =
    subst IsOrdered (sym e)
      (record { cursors = h.cursors; jobs = (without before after t q h.jobs).0 })

-- While every mirror is written and no row is dropped, the durable cursor never passes the
-- optimistic one, in whatever order the jobs come out.
pub Reach-IsOrdered : {w : World} → Reach Step w → IsOrdered w
Reach-IsOrdered (here e) = subst IsOrdered (sym e) (record { cursors = omega arith; jobs = tt })
Reach-IsOrdered (next r s) = Step-IsOrdered s (Reach-IsOrdered r)

-- Where the row is missing when a job that starts at 0 comes out clean, the new row's durable cursor
-- stands at the job's end and its optimistic one at 0: the cursors are inverted, and the bytes in
-- flight read as none.
pub clean_inverts :
    (now : ℕ) (bank id : String) (to : ℤ)
    → 0 < pos_part to
    → (posted (some (upsert_row now bank (clean_update id (ℤ.pos 0, to)) none)) ≡ 0)
      × (durable (some (upsert_row now bank (clean_update id (ℤ.pos 0, to)) none)) ≡ pos_part to)
      × (inflight_bytes (upsert_row now bank (clean_update id (ℤ.pos 0, to)) none) ≡ 0)
unfolding upsert_row clean_update inflight_bytes
clean_inverts now bank id to h = ground arith
