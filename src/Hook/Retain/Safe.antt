-- ===== src/Hook/Retain/Safe.antt =====
-- Each byte before the cursor of the hook of crates/memgarden-cli/src/cmd/retain.rs is answered for, or is
-- of the job that it waits for.
use memgarden.Prelude.{
  ◌⊎◌, ℕ, ◌≤◌, ◌<◌, ◌≡◌, inl, inr, arith, true, Option, none, some, refl, Bool-cases, Option-cases,
  ltb,
}
use memgarden.Hook.State.{Pending, SessionState, HooksConfig}
use memgarden.Hook.Reader.{Delta}
use memgarden.Hook.Replies.{
  Env, JobOutcome, job_done, job_failed, unsettled, unreachable, Outcome, accepted, settled,
  unreconcilable, transport, not_ready, config_fault, rejected, job_status,
}
use memgarden.Hook.Retain.{
  settle_job, reconcile, accept, apply, count_transport_failure, settle_pending, roll_back,
}

-- The byte lies in the range of the job that the state waits for.
abbrev pub Claimed : Option Pending → ℕ → Type 0
Claimed none x = ⊥
Claimed (some p) x = (p.offset_from ≤ x) × (x < p.offset_to)

module _ (Answered : ℕ → Type 0) where
  -- What a failed job rolls back to has only answered bytes before it.
  abbrev pub Before : Option Pending → Type 0
  Before none = Unit {0}
  Before (some p) = (x : ℕ) → x < p.offset_from → Answered x

  -- Each byte before the cursor is answered, or is of the job that is waited for.
  abbrev pub SafeAt : ℕ → Option Pending → Type 0
  SafeAt offset pending = ((x : ℕ) → x < offset → Answered x ⊎ Claimed pending x) × Before pending

  abbrev pub IsSafe : SessionState → Type 0
  IsSafe st = SafeAt st.offset st.pending

  pub SafeAt-all : (offset : ℕ) → ((x : ℕ) → x < offset → Answered x) → SafeAt offset none
  SafeAt-all offset h = (λ x l. inl (h x l), tt)

  pub all_settled : (offset : ℕ) → SafeAt offset none → (x : ℕ) → x < offset → Answered x
  all_settled offset h x l = elim (h.0 x l) [ inl s ↦ s | inr c ↦ absurd c ]

  settle_job-SafeAt :
      (cfg : HooksConfig) (now : ℕ) (o : JobOutcome) (p : Pending) (st : SessionState)
      → SafeAt st.offset (some p)
      → st.pending ≡ some p
      → ((n : ℕ) → o ≡ job_done n → (x : ℕ) → p.offset_from ≤ x → x < p.offset_to → Answered x)
      → IsSafe (settle_job cfg now o p st).0
        × ((settle_job cfg now o p st).1 ≡ true → (settle_job cfg now o p st).0.pending ≡ none)
  unfolding settle_job settle_pending roll_back count_transport_failure
  settle_job-SafeAt cfg now (job_done n) p st h e done = (
    SafeAt-all st.offset (λ x l. elim (h.0 x l) [ inl s ↦ s | inr c ↦ done n refl x c.0 c.1 ]),
    λ _. refl,
  )
  settle_job-SafeAt cfg now job_failed p st h e done = (SafeAt-all p.offset_from h.1, λ _. refl)
  settle_job-SafeAt cfg now unsettled p st h e done = (rw e h, λ f. cc)
  settle_job-SafeAt cfg now unreachable p st h e done = (rw e h, λ f. cc)

  pub reconcile-IsSafe :
      (cfg : HooksConfig) (env : Env) (now : ℕ) (st : SessionState)
      → IsSafe st
      → ((p : Pending) (n : ℕ)
          → st.pending ≡ some p
          → job_status env ≡ job_done n
          → (x : ℕ) → p.offset_from ≤ x
          → x < p.offset_to
          → Answered x)
      → IsSafe (reconcile cfg env now st).0
        × ((reconcile cfg env now st).1 ≡ true → (reconcile cfg env now st).0.pending ≡ none)
  unfolding reconcile
  reconcile-IsSafe cfg env now st h job = elim (Option-cases st.pending) [
    | inl e ↦ rw (e, reconcile) (h, λ _. e)
    | inr (p, e) ↦
        rw (e, reconcile)
          (settle_job-SafeAt cfg now (job_status env) p st (rw e at h) e
            (λ n d x a b. job p n e d x a b))
  ]

  module _ {V : Type 0} where
    -- One outcome of the post, from a state that waits for no job.
    pub apply-IsSafe :
        (cfg : HooksConfig) (now : ℕ) (o : Outcome) (d : Delta V) (st : SessionState)
        → st.pending ≡ none
        → IsSafe st
        → (o ≡ settled → (x : ℕ) → st.offset ≤ x → x < d.consumed_to → Answered x)
        → IsSafe (apply cfg now o d st.offset st)
    unfolding apply accept count_transport_failure
    apply-IsSafe cfg now (accepted id) d st e h k =
        let all = all_settled st.offset (rw e at h) in
        (
          λ x l. elim (Bool-cases (ltb x st.offset)) [
            | inl b ↦ inl (all x (ground arith))
            | inr b ↦ inr (ground arith, l)
          ],
          all,
        )
    apply-IsSafe cfg now settled d st e h k =
        let all = all_settled st.offset (rw e at h) in
        SafeAt-all d.consumed_to (λ x l. elim (Bool-cases (ltb x st.offset)) [
          | inl b ↦ all x (ground arith)
          | inr b ↦ k refl x (ground arith) l
        ])
    apply-IsSafe cfg now unreconcilable d st e h k = h
    apply-IsSafe cfg now transport d st e h k = h
    apply-IsSafe cfg now (rejected n) d st e h k = h
    apply-IsSafe cfg now not_ready d st e h k = h
    apply-IsSafe cfg now config_fault d st e h k = h
