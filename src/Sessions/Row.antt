-- ===== src/Sessions/Row.antt =====
-- crates/memgarden-store/src/sessions.rs: the row, one upsert's worth of change, and the merge that
-- the `INSERT … ON CONFLICT DO UPDATE` statement makes.
-- An `i64` that is clamped at 0 is a native number. The sums `retains + excluded.retains` and
-- `messages_sent + excluded.messages_sent` are not bounded here.
pub mod Merge
use memgarden.Prelude.{ℕ, ◌+◌, ◌-◌, max, String, Option, none, some, leb, ◌==◌, coalesce}
use memgarden.Prelude.{if◌then◌else◌}
use memgarden.Prelude.Int.{ℤ, pos_part}

pub record Session : Type 0 where
  pub bank_id : String
  pub session_id : String
  pub cwd : Option String
  pub transcript_path : Option String
  pub source : Option String
  pub end_reason : Option String
  pub turns : ℕ
  pub retains : ℕ
  pub chunk_index : ℕ
  pub byte_offset : ℕ
  pub confirmed_offset : ℕ
  pub messages_sent : ℕ
  pub compactions : ℕ
  pub started_at : ℕ
  pub last_seen_at : ℕ
  pub ended_at : Option ℤ

-- `(byte_offset - confirmed_offset).max(0)`: the subtraction of ℕ stops at 0.
unfoldable pub inflight_bytes : Session → ℕ
inflight_bytes s = s.byte_offset - s.confirmed_offset

pub record SessionUpdate : Type 0 where
  pub session_id : String
  pub cwd : Option String
  pub transcript_path : Option String
  pub source : Option String
  pub end_reason : Option String
  pub ended_at : Option ℤ
  pub turns : Option ℤ
  pub chunk_index : Option ℤ
  pub byte_offset : Option ℤ
  pub confirm_range : Option (ℤ × ℤ)
  pub confirm_if_settled : Option ℤ
  pub compactions : Option ℤ
  pub retains_delta : ℤ
  pub messages_sent_delta : ℤ

-- `..Default::default()`
abbrev pub no_change : String → SessionUpdate
no_change id = record {
  session_id = id;
  cwd = none;
  transcript_path = none;
  source = none;
  end_reason = none;
  ended_at = none;
  turns = none;
  chunk_index = none;
  byte_offset = none;
  confirm_range = none;
  confirm_if_settled = none;
  compactions = none;
  retains_delta = ℤ.pos 0;
  messages_sent_delta = ℤ.pos 0;
}

-- `v.unwrap_or(0).max(0)`
abbrev pub clamp : Option ℤ → ℕ
clamp none = 0
clamp (some z) = pos_part z

abbrev pub confirm_from : Option (ℤ × ℤ) → ℕ
confirm_from none = 0
confirm_from (some (from, to)) = pos_part from

abbrev pub confirm_to : Option (ℤ × ℤ) → ℕ
confirm_to none = 0
confirm_to (some (from, to)) = pos_part to

-- The `VALUES` of the insert.
unfoldable pub fresh_row : ℕ → String → SessionUpdate → Session
fresh_row now bank u = record {
  bank_id = bank;
  session_id = u.session_id;
  cwd = u.cwd;
  transcript_path = u.transcript_path;
  source = u.source;
  end_reason = u.end_reason;
  turns = clamp u.turns;
  retains = pos_part u.retains_delta;
  chunk_index = clamp u.chunk_index;
  byte_offset = clamp u.byte_offset;
  confirmed_offset =
      max (clamp u.confirm_if_settled)
        (if confirm_from u.confirm_range == 0 then confirm_to u.confirm_range else 0);
  messages_sent = pos_part u.messages_sent_delta;
  compactions = clamp u.compactions;
  started_at = now;
  last_seen_at = now;
  ended_at = u.ended_at;
}

-- The durable cursor after the `DO UPDATE`: the guards read the cursors `confirmed` and `bytes` as
-- they stand before the write.
unfoldable pub advance : ℕ → ℕ → ℕ → ℕ → ℕ → ℕ
advance confirmed bytes from to settled =
    max confirmed
      (max (if leb from confirmed then to else 0) (if leb bytes confirmed then settled else 0))

unfoldable pub next_confirmed : Session → SessionUpdate → ℕ
unfolding advance
next_confirmed s u =
    advance s.confirmed_offset s.byte_offset (confirm_from u.confirm_range)
      (confirm_to u.confirm_range) (clamp u.confirm_if_settled)

-- The `DO UPDATE SET`.
unfoldable pub merge_row : ℕ → SessionUpdate → Session → Session
unfolding next_confirmed
merge_row now u s = record s {
  cwd = coalesce u.cwd s.cwd;
  transcript_path = coalesce u.transcript_path s.transcript_path;
  source = coalesce s.source u.source;
  end_reason = coalesce u.end_reason s.end_reason;
  ended_at = coalesce u.ended_at s.ended_at;
  turns = max s.turns (clamp u.turns);
  chunk_index = max s.chunk_index (clamp u.chunk_index);
  byte_offset = max s.byte_offset (clamp u.byte_offset);
  confirmed_offset = next_confirmed s u;
  compactions = max s.compactions (clamp u.compactions);
  retains = s.retains + pos_part u.retains_delta;
  messages_sent = s.messages_sent + pos_part u.messages_sent_delta;
  last_seen_at = now;
}

-- What the statement makes of the row that it finds, or of none.
unfoldable pub upsert_row : ℕ → String → SessionUpdate → Option Session → Session
unfolding fresh_row merge_row
upsert_row now bank u none = fresh_row now bank u
upsert_row now bank u (some s) = merge_row now u s
