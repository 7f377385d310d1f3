-- ===== src/Hook/Retain/Body.antt =====
-- The post of crates/memgarden-cli/src/cmd/retain.rs, as the daemon's `RetainRequest`, and what becomes
-- of it there: both sides of the two cursors. (A `u64` of the body fits the daemon's `i64`.)
use memgarden.Prelude.{
  ℕ, ◌≤◌, ◌≡◌, String, len, Option, none, some, refl, arith, ◌==◌, if◌then◌else◌,
}
use memgarden.Prelude.Int.{pos}
use memgarden.Hook.State.{sat_add, SessionState, HooksConfig, recovered}
use memgarden.Hook.Reader.{Delta}
use memgarden.Hook.Replies.{accepted}
use memgarden.Hook.Retain.{accept, apply}
use memgarden.Sessions.Row.{Session, upsert_row}
use memgarden.Sessions.Writers.{
  RetainRequest, no_confirm, mirror_update, task_of, task_range, clean_update,
}
use memgarden.Sessions.Cursors.{durable, posted}

unfoldable none_if_empty : String → Option String
none_if_empty s = if len s == 0 then none else some s

module _ {V : Type 0} where
  unfoldable pub post_body : SessionState → Delta V → ℕ → RetainRequest
  unfolding none_if_empty
  post_body st delta from = record {
    session_id = some st.session_id;
    cwd = none_if_empty st.cwd;
    byte_offset = some (pos delta.consumed_to);
    offset_from = some (pos from);
    turn = some (pos st.turns);
    chunk = some (pos st.chunk);
    compactions = some (pos (sat_add 64 st.compactions delta.compactions));
  }

  -- A post is accepted, its mirror is written, and its job comes out clean, from a row whose durable
  -- cursor stood at the hook's. Then the hook waits for this job, with the range from its old cursor to
  -- its new one, and that is the range of the job's task; both cursors of the row stand at the hook's
  -- new cursor, and a hook that loses its file recovers exactly that cursor from the row. (Neither
  -- the row's optimistic cursor nor the hook's own is past the end of what the hook has read.)
  pub post_body-recovered :
      (cfg : HooksConfig) (now later : ℕ) (id bank : String) (messages : ℕ) (d : Delta V)
      (st : SessionState) (row : Option Session)
      → durable row ≡ st.offset
      → posted row ≤ d.consumed_to
      → st.offset ≤ d.consumed_to
      → let after = apply cfg now (accepted id) d st.offset st in
        let body = post_body st d st.offset in
        let mirrored =
          upsert_row now bank (mirror_update body messages no_confirm st.session_id) row in
        let clean =
          upsert_row later bank
            (clean_update st.session_id (pos st.offset, pos d.consumed_to))
            (some mirrored) in
        (after.pending
          ≡ some (record {
            job_id = id;
            offset_from = st.offset;
            offset_to = d.consumed_to;
            chunk_before = st.chunk;
            compactions_before = st.compactions;
          }))
        × (after.offset ≡ d.consumed_to)
        × (task_range (task_of body) ≡ some (pos st.offset, pos d.consumed_to))
        × (durable (some clean) ≡ after.offset)
        × (posted (some clean) ≡ after.offset)
        × ((recovered st.session_id bank (durable (some clean)) after.chunk).offset ≡ after.offset)
  unfolding upsert_row clean_update mirror_update task_range post_body apply accept recovered
  post_body-recovered cfg now later id bank messages d st none e p q =
      (refl, refl, refl, ground arith, ground arith, ground arith)
  post_body-recovered cfg now later id bank messages d st (some r) e p q =
      (refl, refl, refl, ground arith, ground arith, ground arith)
