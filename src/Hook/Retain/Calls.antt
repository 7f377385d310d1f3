-- ===== src/Hook/Retain/Calls.antt =====
-- Any sequence of calls of the hook of crates/memgarden-cli/src/cmd/retain.rs.
use memgarden.Prelude.{
  ℕ, String, ◌≤◌, ◌<◌, ◌≡◌, inl, inr, arith, Bool, true, Option, none, some, List, subst, sym, refl,
  Bool-cases, Option-cases, ltb, leb,
}
use memgarden.Prelude.Text.{Text, is_nil}
use memgarden.Hook.State.{Pending, SessionState, HooksConfig, new_state, recovered}
use memgarden.Hook.Reader.{Entry, read_delta}
use memgarden.Hook.Replies.{Env, job_done, settled, job_status, post_delta}
use memgarden.Hook.Retain.{reconcile, send, rewound, look, advance}
use memgarden.Hook.Retain.Cases.{advance_cases}
use memgarden.Hook.Retain.Safe.{IsSafe, SafeAt-all, all_settled, reconcile-IsSafe, apply-IsSafe}

module _ (Answered : ℕ → Type 0) where
  module _ {V : Type 0} (parse : Text → Option (Entry V)) (size : V → ℕ) where
    -- The bytes that one call answers for, and that the hook does not send again: the range of a job
    -- that is done, also one that lost some of its chunks; what the daemon declares settled; and what
    -- a read goes over without a message to send, lines dropped for their size included.
    pub record Honest (cfg : HooksConfig) (env : Env) (now : ℕ) (st : SessionState) : Type 0 where
      pub job :
          (p : Pending) (n : ℕ)
          → st.pending ≡ some p
          → job_status env ≡ job_done n
          → (x : ℕ) → p.offset_from ≤ x
          → x < p.offset_to
          → Answered x
      pub post :
          (bytes : ℕ)
          → env.size ≡ some bytes
          → post_delta env ≡ settled
          → (x : ℕ) → (rewound parse size bytes (reconcile cfg env now st).0).offset ≤ x
          → x
            < (read_delta parse size cfg.max_post_bytes env.content
                (rewound parse size bytes (reconcile cfg env now st).0).offset).consumed_to
          → Answered x
      pub nothing :
          (bytes : ℕ)
          → env.size ≡ some bytes
          → is_nil
              (read_delta parse size cfg.max_post_bytes env.content
                (rewound parse size bytes (reconcile cfg env now st).0).offset).messages
            ≡ true
          → (x : ℕ) → (rewound parse size bytes (reconcile cfg env now st).0).offset ≤ x
          → x
            < (read_delta parse size cfg.max_post_bytes env.content
                (rewound parse size bytes (reconcile cfg env now st).0).offset).consumed_to
          → Answered x

    send-IsSafe :
        (cfg : HooksConfig) (env : Env) (now : ℕ) (st : SessionState)
        → st.pending ≡ none
        → IsSafe Answered st
        → let d = read_delta parse size cfg.max_post_bytes env.content st.offset in
          (post_delta env ≡ settled → (x : ℕ) → st.offset ≤ x → x < d.consumed_to → Answered x)
          → (is_nil d.messages ≡ true → (x : ℕ) → st.offset ≤ x → x < d.consumed_to → Answered x)
          → IsSafe Answered (send parse size cfg env now st)
    unfolding send
    send-IsSafe cfg env now st e h post nothing =
        let d = read_delta parse size cfg.max_post_bytes env.content st.offset in
        let all = all_settled Answered st.offset (rw e at h) in
        elim (Bool-cases (is_nil d.messages)) [
          | inl b ↦
              rw (b, e)
                (SafeAt-all Answered d.consumed_to (λ x l. elim (Bool-cases (ltb x st.offset)) [
                  | inl c ↦ all x (ground arith)
                  | inr c ↦ nothing b x (ground arith) l
                ]))
          | inr b ↦ rw b (apply-IsSafe Answered cfg now (post_delta env) d st e h post)
        ]

    rewound-IsSafe :
        (bytes : ℕ) (st : SessionState)
        → st.pending ≡ none
        → IsSafe Answered st
        → IsSafe Answered (rewound parse size bytes st)
          × ((rewound parse size bytes st).pending ≡ none)
    rewound-IsSafe bytes st e h = elim (Bool-cases (ltb bytes st.offset)) [
      | inl b ↦ rw (b, e) (SafeAt-all Answered 0 (λ x l. absurd (omega arith)), refl)
      | inr b ↦ rw b (h, e)
    ]

    look-IsSafe :
        (cfg : HooksConfig) (env : Env) (now : ℕ) (st : SessionState)
        → Honest cfg env now st
        → let s = (reconcile cfg env now st).0 in
          s.pending ≡ none → IsSafe Answered s → IsSafe Answered (look parse size cfg env now s)
    unfolding look
    look-IsSafe cfg env now st a e h =
        let s = (reconcile cfg env now st).0 in
        elim (Option-cases env.size) [
          | inl z ↦ rw (z, look) h
          | inr (bytes, z) ↦
              let (r, n) = rewound-IsSafe bytes s e h in
              elim (Bool-cases (leb bytes (rewound parse size bytes s).offset)) [
                | inl b ↦ rw (z, look, b) r
                | inr b ↦
                    rw (z, look, b)
                      (send-IsSafe cfg env now (rewound parse size bytes s) n r (a.post bytes z)
                        (a.nothing bytes z))
              ]
        ]

    advance-IsSafe :
        (cfg : HooksConfig) (env : Env) (force : Bool) (now : ℕ) (st : SessionState)
        → Honest cfg env now st
        → IsSafe Answered st
        → IsSafe Answered (advance parse size cfg env force now st)
    advance-IsSafe cfg env force now st a h =
        let (r, n) = reconcile-IsSafe Answered cfg env now st h a.job in
        advance_cases parse size (IsSafe Answered) cfg env force now st h r
          (λ g. look-IsSafe cfg env now st a (n g) r)

    -- The life of a session's state: new, or recovered from the daemon's durable cursor; then calls
    -- whose answers are honest, and changes of what no cursor rests on. The transcript only grows.
    pub data Calls : SessionState → Type 0 where
      fresh : {st : SessionState} (session bank : String) → st ≡ new_state session bank → Calls st
      restored :
          {st : SessionState} (session bank : String) (confirmed chunk : ℕ)
          → ((x : ℕ) → x < confirmed → Answered x)
          → st ≡ recovered session bank confirmed chunk
          → Calls st
      noted :
          {st after : SessionState} (turns since : ℕ) (cwd : String) (uuids : List String)
          → Calls st
          → after ≡ record st {
            turns = turns;
            turns_since_retain = since;
            cwd = cwd;
            injected_uuids = uuids;
          }
          → Calls after
      called :
          {st after : SessionState} (cfg : HooksConfig) (env : Env) (force : Bool) (now : ℕ)
          → Calls st
          → Honest cfg env now st
          → after ≡ advance parse size cfg env force now st
          → Calls after

    -- No byte is passed over by a failed job, an outage or a rejection. Let `Answered` hold of these bytes:
    -- those of a job that was reported done, even with lost chunks (a permanent gap, which the hook
    -- counts in unconfirmed_bytes); those that a post was answered `skipped` or `duplicate` for; those
    -- that a read went over without a message to send, which takes in lines dropped for their size; and
    -- those before a durable cursor that a new state is recovered from. Then, whatever the sequence of
    -- calls, each byte before the hook's cursor is answered, or belongs to the one job that the state
    -- waits for, and all bytes before that job's range are answered, so that its failure rolls the
    -- cursor back over every byte that is not. (It is assumed that the transcript only grows, and
    -- nothing is said of what the daemon stored for a byte that is answered.)
    pub Calls-IsSafe : {st : SessionState} → Calls st → IsSafe Answered st
    unfolding recovered
    Calls-IsSafe (fresh session bank e) =
        subst (IsSafe Answered) (sym e) (SafeAt-all Answered 0 (λ x l. absurd (omega arith)))
    Calls-IsSafe (restored session bank confirmed chunk k e) =
        subst (IsSafe Answered) (sym e) (SafeAt-all Answered confirmed k)
    Calls-IsSafe (noted turns since cwd uuids c e) =
        subst (IsSafe Answered) (sym e) (Calls-IsSafe c)
    Calls-IsSafe (called {st} cfg env force now c a e) =
        subst (IsSafe Answered) (sym e) (advance-IsSafe cfg env force now st a (Calls-IsSafe c))
