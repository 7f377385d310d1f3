-- ===== src/Sessions/Row/Merge.antt =====
-- What one merge promises about the row of crates/memgarden-store/src/sessions.rs.
use memgarden.Prelude.{
  ℕ, ◌+◌, ◌≤◌, String, Option, none, some, ◌≡◌, ◌⊎◌, inl, inr, arith, max, coalesce,
}
use memgarden.Prelude.Int.{ℤ, pos, pos_part}
use memgarden.Sessions.Row.{
  Session, SessionUpdate, merge_row, advance, next_confirmed, clamp, confirm_from, confirm_to,
}

-- The columns that an upsert may only move forward.
pub record Advances (s t : Session) : Type 0 where
  pub turns : s.turns ≤ t.turns
  pub retains : s.retains ≤ t.retains
  pub chunk_index : s.chunk_index ≤ t.chunk_index
  pub byte_offset : s.byte_offset ≤ t.byte_offset
  pub confirmed_offset : s.confirmed_offset ≤ t.confirmed_offset
  pub messages_sent : s.messages_sent ≤ t.messages_sent
  pub compactions : s.compactions ≤ t.compactions

-- Whatever the update, a merge rewinds no counter and neither cursor, and keeps the row's key, its
-- start and a source that is set.
pub merge_row-Advances :
    (now : ℕ) (u : SessionUpdate) (s : Session)
    → Advances s (merge_row now u s)
      × ((merge_row now u s).bank_id ≡ s.bank_id)
      × ((merge_row now u s).session_id ≡ s.session_id)
      × ((merge_row now u s).started_at ≡ s.started_at)
      × ((x : String) → s.source ≡ some x → (merge_row now u s).source ≡ some x)
unfolding merge_row
merge_row-Advances now u s = (
  record {
    turns = omega arith;
    retains = omega arith;
    chunk_index = omega arith;
    byte_offset = omega arith;
    confirmed_offset = omega arith;
    messages_sent = omega arith;
    compactions = omega arith;
  },
  ground arith,
  ground arith,
  ground arith,
  λ x h. ground arith,
)

-- At most one of the two channels of the durable cursor is used, as every caller does.
abbrev pub OneChannel : SessionUpdate → Type 0
OneChannel u = (u.confirm_range ≡ none) ⊎ (u.confirm_if_settled ≡ none)

coalesce_twice {ℓ} : {A : Type ℓ} (o p : Option A) → coalesce o (coalesce o p) ≡ coalesce o p
coalesce_twice none p = ground arith
coalesce_twice (some a) p = ground arith

coalesce_keep {ℓ} : {A : Type ℓ} (o p : Option A) → coalesce (coalesce p o) o ≡ coalesce p o
coalesce_keep none none = ground arith
coalesce_keep (some a) none = ground arith
coalesce_keep none (some a) = ground arith
coalesce_keep (some b) (some a) = ground arith

max_twice : (a b : ℕ) → max (max a b) b ≡ max a b
max_twice a b = omega arith

-- The sum of a column that gets no increment, twice and once.
add_nothing : (a : ℕ) {d : ℤ} → d ≡ pos 0 → a + pos_part d + pos_part d ≡ a + pos_part d
add_nothing a e = rw e (omega arith)

advance_range_twice :
    (c b v f t : ℕ) → advance (advance c b f t 0) (max b v) f t 0 ≡ advance c b f t 0
unfolding advance
advance_range_twice c b v f t = ground arith

advance_settled_twice :
    (c b v q : ℕ) → advance (advance c b 0 0 q) (max b v) 0 0 q ≡ advance c b 0 0 q
unfolding advance
advance_settled_twice c b v q = ground arith

next_confirmed_twice :
    (now : ℕ) (u : SessionUpdate) (s : Session)
    → OneChannel u
    → next_confirmed (merge_row now u s) u ≡ next_confirmed s u
unfolding merge_row
next_confirmed_twice now u s (inl e) = rw e (
    advance_settled_twice s.confirmed_offset s.byte_offset (clamp u.byte_offset)
      (clamp u.confirm_if_settled))
next_confirmed_twice now u s (inr e) = rw e (
    advance_range_twice s.confirmed_offset s.byte_offset (clamp u.byte_offset)
      (confirm_from u.confirm_range) (confirm_to u.confirm_range))

-- A retried POST: an update that uses one channel at most and carries no increments may be merged
-- twice, and the row is the one that a single merge leaves.
pub merge_row-merge_row :
    (now : ℕ) (u : SessionUpdate) (s : Session)
    → OneChannel u
    → u.retains_delta ≡ pos 0
    → u.messages_sent_delta ≡ pos 0
    → merge_row now u (merge_row now u s) ≡ merge_row now u s
unfolding merge_row
merge_row-merge_row now u s one r m = λ i. record s {
  cwd = coalesce_twice u.cwd s.cwd i;
  transcript_path = coalesce_twice u.transcript_path s.transcript_path i;
  source = coalesce_keep u.source s.source i;
  end_reason = coalesce_twice u.end_reason s.end_reason i;
  ended_at = coalesce_twice u.ended_at s.ended_at i;
  turns = max_twice s.turns (clamp u.turns) i;
  chunk_index = max_twice s.chunk_index (clamp u.chunk_index) i;
  byte_offset = max_twice s.byte_offset (clamp u.byte_offset) i;
  confirmed_offset = next_confirmed_twice now u s one i;
  compactions = max_twice s.compactions (clamp u.compactions) i;
  retains = add_nothing s.retains r i;
  messages_sent = add_nothing s.messages_sent m i;
  last_seen_at = now;
}
