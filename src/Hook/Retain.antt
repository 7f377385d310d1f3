-- ===== src/Hook/Retain.antt =====
-- crates/memgarden-cli/src/cmd/retain.rs: the cursor state machine of the `Stop` hook.
pub mod Cases
pub mod Safe
pub mod Calls
pub mod Pace
pub mod Body
use memgarden.Hook.Replies.{
  Env, HttpResult, JobOutcome, JobReply, Outcome, RetainReply, Target, accepted, bad_url, classify,
  classify_response, config_fault, is_rejected_404, is_status, job_done, job_failed, job_id_of,
  job_response, job_status, no_token, not_ready, other_error, post_delta, rejected,
  reply_or_default, response, settled, status_of, status_outcome, target, transport, unreachable,
  unreconcilable, unsettled, url_error,
}
use memgarden.Prelude.{
  ℕ, ◌+◌, ◌-◌, String, len, Bool, true, false, not, ◌&&◌, ◌||◌, Option, none, some, List, [], ◌∷◌,
  ◌==◌, ltb, leb, str_eq, if◌then◌else◌,
}
use memgarden.Prelude.Text.{Text, is_nil}
use memgarden.Hook.State.{
  sat_add, Pending, SessionState, HooksConfig, breaker_open, poisoned_within_throttle,
  breaker_cooldown_ms,
}
use memgarden.Hook.Reader.{Entry, Delta, read_delta}

unfoldable pub count_transport_failure : HooksConfig → ℕ → SessionState → SessionState
count_transport_failure cfg now st =
    let n = sat_add 32 st.transport_failures 1 in
    record st {
      transport_failures = n;
      breaker_open_until_ms =
          if leb cfg.breaker_failures n
          then sat_add 63 now (breaker_cooldown_ms cfg)
          else st.breaker_open_until_ms;
    }

-- A job that lost chunks: its bytes are counted.
unfoldable pub settle_pending : ℕ → Pending → SessionState → SessionState
settle_pending chunks_failed p st = record st {
  unconfirmed_bytes =
      if ltb 0 chunks_failed
      then sat_add 64 st.unconfirmed_bytes (p.offset_to - p.offset_from)
      else st.unconfirmed_bytes;
  pending = none;
}

unfoldable pub roll_back : Pending → SessionState → SessionState
roll_back p st = record st {
  offset = p.offset_from;
  chunk = p.chunk_before;
  compactions = p.compactions_before;
  pending = none;
}

unfoldable pub settle_job :
    HooksConfig → ℕ → JobOutcome → Pending → SessionState → SessionState × Bool
unfolding settle_pending roll_back count_transport_failure
settle_job cfg now (job_done n) p st = (settle_pending n p st, true)
settle_job cfg now job_failed p st = (roll_back p st, true)
settle_job cfg now unsettled p st = (st, false)
settle_job cfg now unreachable p st = (count_transport_failure cfg now st, false)

-- The state after, and whether a new post may follow.
unfoldable pub reconcile : HooksConfig → Env → ℕ → SessionState → SessionState × Bool
unfolding settle_job job_status
reconcile cfg env now st = elim st.pending [
  | none ↦ (st, true)
  | some p ↦ settle_job cfg now (job_status env) p st
]

module _ {V : Type 0} where
  unfoldable pub accept : Delta V → SessionState → SessionState
  accept delta st = record st {
    offset = delta.consumed_to;
    compactions = sat_add 64 st.compactions delta.compactions;
    chunk = sat_add 64 st.chunk 1;
    turns_since_retain = 0;
    transport_failures = 0;
    reject_failures = 0;
    breaker_open_until_ms = 0;
    poisoned_at = none;
  }

  unfoldable pub apply : HooksConfig → ℕ → Outcome → Delta V → ℕ → SessionState → SessionState
  unfolding accept count_transport_failure
  apply cfg now (accepted id) delta from st = accept delta (record st {
    pending = some (record {
      job_id = id;
      offset_from = from;
      offset_to = delta.consumed_to;
      chunk_before = st.chunk;
      compactions_before = st.compactions;
    });
  })
  apply cfg now settled delta from st = accept delta (record st { pending = none })
  apply cfg now unreconcilable delta from st = st
  apply cfg now transport delta from st = count_transport_failure cfg now st
  apply cfg now (rejected status) delta from st =
      let n = sat_add 32 st.reject_failures 1 in
      record st {
        reject_failures = n;
        poisoned_at = if leb cfg.max_reject_failures n then some now else st.poisoned_at;
      }
  apply cfg now not_ready delta from st = st
  apply cfg now config_fault delta from st = st

module _ {V : Type 0} (parse : Text → Option (Entry V)) (size : V → ℕ) where
  -- The delta is read; without a message in it the cursor moves alone.
  unfoldable pub send : HooksConfig → Env → ℕ → SessionState → SessionState
  unfolding apply post_delta
  send cfg env now st =
      let delta = read_delta parse size cfg.max_post_bytes env.content st.offset in
      if is_nil delta.messages
      then record st {
        offset = delta.consumed_to;
        compactions = sat_add 64 st.compactions delta.compactions;
        turns_since_retain = 0;
      }
      else apply cfg now (post_delta env) delta st.offset st

  -- A file that shrank is read from its start.
  abbrev pub rewound : ℕ → SessionState → SessionState
  rewound bytes st = if ltb bytes st.offset then record st { offset = 0 } else st

  unfoldable pub look : HooksConfig → Env → ℕ → SessionState → SessionState
  unfolding send
  look cfg env now st = elim env.size [
    | none ↦ st
    | some bytes ↦
        let s = rewound bytes st in
        if leb bytes s.offset then record s { turns_since_retain = 0 } else send cfg env now s
  ]

  unfoldable pub advance : HooksConfig → Env → Bool → ℕ → SessionState → SessionState
  unfolding look reconcile
  advance cfg env force now st =
      if breaker_open st cfg now
      then st
      else if poisoned_within_throttle st cfg.poison_retry_secs now
      then st
      else let (s, go_on) = reconcile cfg env now st in
        if not go_on
        then s
        else if not force && ltb s.turns_since_retain cfg.retain_every_n_turns
        then s
        else look cfg env now s
