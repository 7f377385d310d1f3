-- ===== src/Sessions/Writers.antt =====
-- Who moves the two cursors: crates/memgardend/src/routes/retain.rs (`mirror_session`),
-- crates/memgardend/src/routes/sessions.rs (`upsert_session`) and the clean-run block of
-- crates/memgardend/src/retain/mod.rs.
use memgarden.Prelude.{ℕ, String, len, Option, none, some, zip, ◌==◌, if◌then◌else◌}
use memgarden.Prelude.Int.{ℤ, pos}
use memgarden.Sessions.Row.{SessionUpdate, no_change}

-- The session half of `RetainRequest`.
pub record RetainRequest : Type 0 where
  pub session_id : Option String
  pub cwd : Option String
  pub byte_offset : Option ℤ
  pub offset_from : Option ℤ
  pub turn : Option ℤ
  pub chunk : Option ℤ
  pub compactions : Option ℤ

pub data Confirm : Type 0 where
  if_settled no_confirm : Confirm

-- `.filter(|s| !s.is_empty())`
unfoldable pub non_empty : Option String → Option String
non_empty none = none
non_empty (some s) = if len s == 0 then none else some s

unfoldable pub settle_at : Confirm → Option ℤ → Option ℤ
settle_at if_settled o = o
settle_at no_confirm o = none

-- The update that `mirror_session` passes on for a request with a session id.
unfoldable pub mirror_update : RetainRequest → ℕ → Confirm → String → SessionUpdate
unfolding non_empty settle_at
mirror_update body messages_sent confirm id = record (no_change id) {
  cwd = non_empty body.cwd;
  turns = body.turn;
  chunk_index = body.chunk;
  byte_offset = body.byte_offset;
  confirm_if_settled = settle_at confirm body.byte_offset;
  compactions = body.compactions;
  retains_delta = pos 1;
  messages_sent_delta = pos messages_sent;
}

-- The part of a `RetainTask` that names its bytes.
pub record Task : Type 0 where
  pub byte_offset : Option ℤ
  pub offset_from : Option ℤ

abbrev pub task_of : RetainRequest → Task
task_of body = record { byte_offset = body.byte_offset; offset_from = body.offset_from }

-- `task.offset_from.zip(task.byte_offset)`: a job that cannot name its start does not confirm.
unfoldable pub task_range : Task → Option (ℤ × ℤ)
task_range t = zip t.offset_from t.byte_offset

-- What the worker writes after a clean run.
unfoldable pub clean_update : String → (ℤ × ℤ) → SessionUpdate
clean_update id range = record (no_change id) { confirm_range = some range }

-- `UpsertSessionRequest`, what the hook may report. It has no durable cursor.
pub record UpsertSessionRequest : Type 0 where
  pub session_id : String
  pub cwd : Option String
  pub transcript_path : Option String
  pub source : Option String
  pub end_reason : Option String
  pub ended_at : Option ℤ
  pub turns : Option ℤ
  pub chunk_index : Option ℤ
  pub byte_offset : Option ℤ

unfoldable pub report_update : UpsertSessionRequest → SessionUpdate
report_update body = record (no_change body.session_id) {
  cwd = body.cwd;
  transcript_path = body.transcript_path;
  source = body.source;
  end_reason = body.end_reason;
  ended_at = body.ended_at;
  turns = body.turns;
  chunk_index = body.chunk_index;
  byte_offset = body.byte_offset;
}
