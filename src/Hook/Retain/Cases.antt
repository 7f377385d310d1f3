-- ===== src/Hook/Retain/Cases.antt =====
-- The ways through `advance` of crates/memgarden-cli/src/cmd/retain.rs.
use memgarden.Prelude.{ℕ, ◌≡◌, inl, inr, Bool, true, not, ◌&&◌, Option, Bool-cases, ltb}
use memgarden.Prelude.Text.{Text}
use memgarden.Hook.State.{SessionState, HooksConfig, breaker_open, poisoned_within_throttle}
use memgarden.Hook.Reader.{Entry}
use memgarden.Hook.Replies.{Env}
use memgarden.Hook.Retain.{reconcile, look, advance}

module _ {V : Type 0} (parse : Text → Option (Entry V)) (size : V → ℕ) (P : SessionState → Type 0)
    (cfg : HooksConfig) (env : Env) (force : Bool) (now : ℕ) (st : SessionState) where
  -- A call ends where it began, after the reconcile, or after a look at the transcript.
  pub advance_cases :
      P st
      → P (reconcile cfg env now st).0
      → ((reconcile cfg env now st).1 ≡ true
          → P (look parse size cfg env now (reconcile cfg env now st).0))
      → P (advance parse size cfg env force now st)
  unfolding advance
  advance_cases a r l = elim (Bool-cases (breaker_open st cfg now)) [
    | inl b ↦ rw b a
    | inr b ↦ elim (Bool-cases (poisoned_within_throttle st cfg.poison_retry_secs now)) [
      | inl c ↦ rw (b, c) a
      | inr c ↦ elim (Bool-cases (reconcile cfg env now st).1) [
        | inr g ↦ rw (b, c, g) r
        | inl g ↦
            elim (Bool-cases (
              not force
              && ltb (reconcile cfg env now st).0.turns_since_retain cfg.retain_every_n_turns)) [
                | inl t ↦ rw (b, c, g, t) r
                | inr t ↦ rw (b, c, g, t) (l g)
              ]
      ]
    ]
  ]
