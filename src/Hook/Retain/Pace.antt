-- ===== src/Hook/Retain/Pace.antt =====
-- When the hook of crates/memgarden-cli/src/cmd/retain.rs waits, and what a retry sends.
use memgarden.Prelude.{◌⊎◌, ℕ, ◌≡◌, inl, inr, Bool, false, Option, some, refl, ◌∙◌}
use memgarden.Prelude.Text.{Text}
use memgarden.Hook.State.{Pending, SessionState, HooksConfig}
use memgarden.Hook.Reader.{Entry}
use memgarden.Hook.Replies.{
  Env, JobOutcome, job_done, job_failed, unsettled, unreachable, job_status,
}
use memgarden.Hook.Retain.{settle_job, reconcile, advance, count_transport_failure}
use memgarden.Hook.Retain.Cases.{advance_cases}

-- The cursor, the chunk, the compactions and the job that is waited for are those of `st`.
abbrev pub SameCursor : SessionState → SessionState → Type 0
SameCursor st s =
    (s.offset ≡ st.offset)
    × (s.chunk ≡ st.chunk)
    × (s.compactions ≡ st.compactions)
    × (s.pending ≡ st.pending)

abbrev pub Waits : JobOutcome → Type 0
Waits o = (o ≡ unsettled) ⊎ (o ≡ unreachable)

settle_job-Waits :
    (cfg : HooksConfig) (now : ℕ) (o : JobOutcome) (p : Pending) (st : SessionState)
    → Waits o
    → SameCursor st (settle_job cfg now o p st).0 × ((settle_job cfg now o p st).1 ≡ false)
unfolding settle_job count_transport_failure
settle_job-Waits cfg now (job_done n) p st (inl e) = cc
settle_job-Waits cfg now (job_done n) p st (inr e) = cc
settle_job-Waits cfg now job_failed p st (inl e) = cc
settle_job-Waits cfg now job_failed p st (inr e) = cc
settle_job-Waits cfg now unsettled p st w = ((refl, refl, refl, refl), refl)
settle_job-Waits cfg now unreachable p st w = ((refl, refl, refl, refl), refl)

reconcile-Waits :
    (cfg : HooksConfig) (env : Env) (now : ℕ) (st : SessionState) (p : Pending)
    → st.pending ≡ some p
    → Waits (job_status env)
    → SameCursor st (reconcile cfg env now st).0 × ((reconcile cfg env now st).1 ≡ false)
unfolding reconcile
reconcile-Waits cfg env now st p e w =
    let (same, stop) = settle_job-Waits cfg now (job_status env) p st w in
    rw (e, reconcile) ((same.0, same.1, same.2, same.3 ∙ e), stop)

module _ {V : Type 0} (parse : Text → Option (Entry V)) (size : V → ℕ) where
  -- One job at a time: as long as the daemon has not settled the job that is waited for, or cannot be
  -- reached, a call moves neither the cursor nor the chunk and posts nothing new, forced or not.
  pub advance-Waits :
      (cfg : HooksConfig) (env : Env) (force : Bool) (now : ℕ) (st : SessionState) (p : Pending)
      → st.pending ≡ some p
      → Waits (job_status env)
      → SameCursor st (advance parse size cfg env force now st)
  advance-Waits cfg env force now st p e w =
      let (same, stop) = reconcile-Waits cfg env now st p e w in
      advance_cases parse size (SameCursor st) cfg env force now st (refl, refl, refl, refl) same
        (λ g. cc (g, stop))
