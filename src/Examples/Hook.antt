-- ===== src/Examples/Hook.antt =====
-- The hook of crates/memgarden-cli over small transcripts. A line is an entry of the type `user`, and
-- each message counts ten bytes.
use memgarden.Prelude.{ℕ, ◌≡◌, inr, arith, true, false, Option, none, some, [], ◌∷◌, refl}
use memgarden.Prelude.Text.{Text, codes, is_nil}
use memgarden.Hook.State.{
  SessionState, HooksConfig, new_state, note_injected, breaker_open, poisoned_within_throttle,
}
use memgarden.Hook.Reader.{Delta, Entry, read_delta}
use memgarden.Hook.Reader.Whole.{Covers, read_delta-Covers}
use memgarden.Hook.Replies.{Env, response, other_error, target, accepted, job_status, post_delta}
use memgarden.Hook.Retain.{apply, advance, rewound, reconcile}
use memgarden.Hook.Retain.Safe.{IsSafe}
use memgarden.Hook.Retain.Calls.{Honest, fresh, called, Calls-IsSafe}
use memgarden.Prelude.Int.{pos}
use memgarden.Hook.State.{recovered}
use memgarden.Sessions.Row.{upsert_row}
use memgarden.Sessions.Writers.{no_confirm, mirror_update, task_of, task_range, clean_update}
use memgarden.Sessions.Cursors.{durable, posted}
use memgarden.Hook.Retain.Body.{post_body, post_body-recovered}
use memgarden.Hook.Retain.Pace.{SameCursor, advance-Waits}

abbrev line_entry : Text → Option (Entry Text)
line_entry line = some (record {
  entry_type = some "user";
  subtype = none;
  role = some "user";
  has_role = false;
  has_content = false;
  message = line;
  entry = line;
})

abbrev ten : Text → ℕ
ten v = 10

abbrev hooks : HooksConfig
hooks = record {
  retain_every_n_turns = 2;
  max_post_bytes = 25;
  breaker_failures = 3;
  breaker_cooldown_secs = 60;
  max_reject_failures = 10;
  poison_retry_secs = 3600;
}

-- Three lines and a torn one: the first message is dropped, and the torn line waits.
read_run : read_delta line_entry ten 25 (some (codes "a\nb\nc\nd")) 0 ≡ record {
  messages = codes "b\n" ∷ codes "c\n" ∷ [];
  consumed_to = 6;
  compactions = 0;
  truncated = true;
}
unfolding read_delta
read_run = refl

read_delta-Covers_example :
    Covers line_entry ten 25
      (codes "a\nb\nc\nd")
      2
      (read_delta line_entry ten 25 (some (codes "a\nb\nc\nd")) 2)
read_delta-Covers_example = read_delta-Covers line_entry ten 25 (codes "a\nb\nc\nd") 2

abbrev queueing : Env
queueing = record {
  target_of = target;
  job = response 200 (some (record { status = some "running"; chunks_failed = 0 }));
  first = response 202 (some (record { status = some "accepted"; job_id = some "j1" }));
  second = other_error;
  size = some 7;
  content = some (codes "a\nb\nc\nd");
}

abbrev waiting : SessionState
waiting = advance line_entry ten hooks queueing true 5 (new_state "s" "b")

-- The cursor moves to the last whole line, and the state waits for the job.
waiting_run : (waiting.offset ≡ 6) × (waiting.chunk ≡ 1)
unfolding advance breaker_open poisoned_within_throttle read_delta
waiting_run = (refl, refl)

start_offset : (bytes : ℕ) → (rewound line_entry ten bytes (new_state "s" "b")).offset ≡ 0
start_offset bytes = ground arith

reads_messages :
    is_nil (read_delta line_entry ten 25 (some (codes "a\nb\nc\nd")) 0).messages ≡ false
unfolding read_delta
reads_messages = refl

not_settled : post_delta queueing ≡ accepted "j1"
unfolding post_delta
not_settled = refl

honest : Honest (λ x. ⊥) line_entry ten hooks queueing 5 (new_state "s" "b")
unfolding reconcile
honest = record {
  job = λ p n e d x a b. cc;
  post = λ bytes z s x a b. cc (s, not_settled);
  nothing = λ bytes z s x a b. cc (rw (start_offset bytes) at s, reads_messages);
}

Calls-IsSafe_example : IsSafe (λ x. ⊥) waiting
Calls-IsSafe_example =
    Calls-IsSafe (λ x. ⊥) line_entry ten
      (called hooks queueing true 5 (fresh "s" "b" refl) honest refl)

abbrev one_job : SessionState
one_job = record (new_state "s" "b") {
  offset = 9;
  chunk = 1;
  pending = some (record {
    job_id = "j1";
    offset_from = 4;
    offset_to = 9;
    chunk_before = 0;
    compactions_before = 0;
  });
}

advance-Waits_example :
    SameCursor one_job
      (advance line_entry ten hooks (record queueing { job = other_error }) true 5 one_job)
advance-Waits_example =
    advance-Waits line_entry ten hooks (record queueing { job = other_error }) true 5 one_job _ refl
      (inr (unfold job_status in refl))

note_injected_run :
    (note_injected ("u" ∷ "v" ∷ "u" ∷ []) (new_state "s" "b")).injected_uuids ≡ "u" ∷ "v" ∷ []
unfolding note_injected
note_injected_run = refl

abbrev six : Delta Text
six = record { messages = codes "m" ∷ []; consumed_to = 6; compactions = 0; truncated = false }

post_body-recovered_example :
    let st = new_state "s" "b" in
    let after = apply hooks 5 (accepted "j1") six 0 st in
    let mirrored = upsert_row 5 "b" (mirror_update (post_body st six 0) 1 no_confirm "s") none in
    let clean = upsert_row 9 "b" (clean_update "s" (pos 0, pos 6)) (some mirrored) in
    (after.pending
      ≡ some (record {
        job_id = "j1";
        offset_from = 0;
        offset_to = 6;
        chunk_before = 0;
        compactions_before = 0;
      }))
    × (after.offset ≡ 6)
    × (task_range (task_of (post_body st six 0)) ≡ some (pos 0, pos 6))
    × (durable (some clean) ≡ after.offset)
    × (posted (some clean) ≡ after.offset)
    × ((recovered "s" "b" (durable (some clean)) after.chunk).offset ≡ after.offset)
post_body-recovered_example =
    post_body-recovered hooks 5 9 "j1" "b" 1 six (new_state "s" "b") none refl (omega arith)
      (omega arith)
