-- ===== src/Hook/State.antt =====
-- crates/memgarden-cli/src/state.rs: a session's local state; crates/memgarden-cli/src/cmd/mod.rs: the
-- two throttles. A `u64` and a `u32` saturate at their largest value; an `i64` of the clock is not
-- negative here. The texts that no operation reads are left out.
pub mod Injected
use memgarden.Prelude.{
  ℕ, ◌+◌, ◌-◌, ◌*◌, ◌^◌, min, String, Bool, true, false, ◌&&◌, ◌||◌, Option, none, some, List, [],
  ◌∷◌, ◌++◌, ltb, leb, str_eq, if◌then◌else◌,
}
use memgarden.Prelude.Lists.{length, drop}

-- `a.saturating_add(b)` at `w` bits.
abbrev pub sat_add : ℕ → ℕ → ℕ → ℕ
sat_add w a b = min (a + b) (2 ^ w - 1)

abbrev pub sat_mul : ℕ → ℕ → ℕ → ℕ
sat_mul w a b = min (a * b) (2 ^ w - 1)

pub record Pending : Type 0 where
  pub job_id : String
  pub offset_from : ℕ
  pub offset_to : ℕ
  pub chunk_before : ℕ
  pub compactions_before : ℕ

pub record SessionState : Type 0 where
  pub session_id : String
  pub bank_id : String
  pub cwd : String
  pub offset : ℕ
  pub chunk : ℕ
  pub turns : ℕ
  pub turns_since_retain : ℕ
  pub compactions : ℕ
  pub pending : Option Pending
  pub unconfirmed_bytes : ℕ
  pub transport_failures : ℕ
  pub reject_failures : ℕ
  pub breaker_open_until_ms : ℕ
  pub poisoned_at : Option ℕ
  pub injected_uuids : List String

-- `SessionState::new`
abbrev pub new_state : String → String → SessionState
new_state session bank = record {
  session_id = session;
  bank_id = bank;
  cwd = "";
  offset = 0;
  chunk = 0;
  turns = 0;
  turns_since_retain = 0;
  compactions = 0;
  pending = none;
  unconfirmed_bytes = 0;
  transport_failures = 0;
  reject_failures = 0;
  breaker_open_until_ms = 0;
  poisoned_at = none;
  injected_uuids = [];
}

-- `SessionState::recovered`
unfoldable pub recovered : String → String → ℕ → ℕ → SessionState
recovered session bank confirmed_offset chunk = record (new_state session bank) {
  offset = confirmed_offset;
  chunk = chunk;
}

abbrev pub injected_cap : ℕ
injected_cap = 1000

abbrev pub has_text : String → List String → Bool
has_text u [] = false
has_text u (v ∷ vs) = str_eq v u || has_text u vs

-- The loop of `note_injected` over the new ids.
unfoldable pub push_new : List String → List String → List String
push_new held [] = held
push_new held (u ∷ us) = push_new (if has_text u held then held else held ++ u ∷ []) us

unfoldable pub keep_newest : ℕ → List String → List String
keep_newest cap held = if ltb cap (length held) then drop (length held - cap) held else held

unfoldable pub note_injected : List String → SessionState → SessionState
unfolding push_new keep_newest
note_injected us st = record st {
  injected_uuids = keep_newest injected_cap (push_new st.injected_uuids us);
}

-- The fields of `HooksConfig` that the hook reads.
pub record HooksConfig : Type 0 where
  pub retain_every_n_turns : ℕ
  pub max_post_bytes : ℕ
  pub breaker_failures : ℕ
  pub breaker_cooldown_secs : ℕ
  pub max_reject_failures : ℕ
  pub poison_retry_secs : ℕ

-- Seconds as milliseconds in an `i64`.
unfoldable pub window_ms : ℕ → ℕ
window_ms secs = min (sat_mul 64 secs 1000) (2 ^ 63 - 1)

unfoldable pub breaker_cooldown_ms : HooksConfig → ℕ
unfolding window_ms
breaker_cooldown_ms cfg = window_ms cfg.breaker_cooldown_secs

unfoldable pub breaker_open : SessionState → HooksConfig → ℕ → Bool
unfolding breaker_cooldown_ms
breaker_open st cfg now =
    ltb now st.breaker_open_until_ms
    && leb st.breaker_open_until_ms (sat_add 63 now (breaker_cooldown_ms cfg))

unfoldable pub poisoned_within_throttle : SessionState → ℕ → ℕ → Bool
unfolding window_ms
poisoned_within_throttle st retry_secs now = elim st.poisoned_at [
  | none ↦ false
  | some at ↦ leb at now && ltb now (sat_add 63 at (window_ms retry_secs))
]
