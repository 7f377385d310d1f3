-- ===== src/Hook/Reader.antt =====
-- crates/memgarden-cli/src/transcript.rs: the reader of a transcript from a byte offset on. What
-- serde_json makes of a line, and how long a message is when it is written, are parameters; a read
-- error in the middle of the file is a file that ends there.
pub mod Took
pub mod Whole
use memgarden.Prelude.{
  ℕ, zero, suc, ◌+◌, ◌-◌, ◌*◌, String, Bool, true, false, not, ◌&&◌, ◌||◌, len, Option, none, some,
  List, [], ◌∷◌, ◌++◌, map, ◌==◌, ltb, str_eq, if◌then◌else◌,
}
use memgarden.Prelude.Lists.{length, drop}
use memgarden.Prelude.Text.{Text}

abbrev pub max_line_bytes : ℕ
max_line_bytes = 32 * 1024 * 1024

-- `take(limit).read_until(b'\n')`: the line, its line feed included, and what follows it.
unfoldable pub next_line : ℕ → Text → Text × Text
next_line zero s = ([], s)
next_line (suc n) [] = ([], [])
next_line (suc n) (c ∷ s) =
    let rest = next_line n s in if c == 10 then (c ∷ [], s) else (c ∷ rest.0, rest.1)

abbrev pub ends_line : Text → Bool
ends_line [] = false
ends_line (c ∷ []) = c == 10
ends_line (c ∷ d ∷ s) = ends_line (d ∷ s)

-- What `classify` reads of a line that is a JSON object. A field that is missing or no string is
-- none; `message` is the field of that name, and `entry` the whole object.
pub record Entry (V : Type 0) : Type 0 where
  pub entry_type : Option String
  pub subtype : Option String
  pub role : Option String
  pub has_role : Bool
  pub has_content : Bool
  pub message : V
  pub entry : V

abbrev pub given : Option String → Bool
given none = false
given (some s) = not (len s == 0)

abbrev pub is_text : String → Option String → Bool
is_text t none = false
is_text t (some s) = str_eq s t

module _ {V : Type 0} where
  -- The message of an entry, if it has one.
  unfoldable pub classify_entry : Entry V → Option V
  classify_entry e = elim e.entry_type [
    | none ↦ if e.has_role && e.has_content then some e.entry else none
    | some t ↦
        if (str_eq t "user" || str_eq t "assistant") && given e.role then some e.message else none
  ]

  -- Whether an entry counts as a compaction.
  unfoldable pub is_boundary : Entry V → Bool
  is_boundary e = is_text "system" e.entry_type && is_text "compact_boundary" e.subtype

pub record Delta (V : Type 0) : Type 0 where
  pub messages : List V
  pub consumed_to : ℕ
  pub compactions : ℕ
  pub truncated : Bool

-- The variables of the loop. The window holds each message with its size and a comma.
pub record Reading (V : Type 0) : Type 0 where
  pub consumed_to : ℕ
  pub compactions : ℕ
  pub truncated : Bool
  pub window : List (ℕ × V)
  pub total : ℕ

module _ {V : Type 0} where
  -- `Delta::empty_at`
  abbrev pub empty_at : ℕ → Delta V
  empty_at from = record { messages = []; consumed_to = from; compactions = 0; truncated = false }

  abbrev pub reading_at : ℕ → Reading V
  reading_at from = record {
    consumed_to = from;
    compactions = 0;
    truncated = false;
    window = [];
    total = 0;
  }

  abbrev pub deliver : Reading V → Delta V
  deliver r = record {
    messages = map (λ (n, v). v) r.window;
    consumed_to = r.consumed_to;
    compactions = r.compactions;
    truncated = r.truncated;
  }

module _ {V : Type 0} (parse : Text → Option (Entry V)) where
  -- `classify`: the message, and the boundaries that the line counts.
  unfoldable pub classify : Text → Option V × ℕ
  unfolding classify_entry is_boundary
  classify line = elim (parse line) [
    | none ↦ (none, 0)
    | some e ↦ (classify_entry e, if is_boundary e then 1 else 0)
  ]

module _ {V : Type 0} (size : V → ℕ) (max_post_bytes : ℕ) where
  -- The `while` that drops leading messages.
  unfoldable pub shrink : List (ℕ × V) → ℕ → Bool → List (ℕ × V) × ℕ × Bool
  shrink [] total truncated = ([], total, truncated)
  shrink ((n, v) ∷ window) total truncated =
      let rest = shrink window (total - n) true in
      if ltb max_post_bytes (total + 1) then rest else ((n, v) ∷ window, total, truncated)

  unfoldable pub push_message : V → Reading V → Reading V
  unfolding shrink
  push_message v r =
      let (window, total, truncated) =
        shrink (r.window ++ (size v + 1, v) ∷ []) (r.total + (size v + 1)) r.truncated in
      record r { window = window; total = total; truncated = truncated }

module _ {V : Type 0} (parse : Text → Option (Entry V)) (size : V → ℕ) (max_post_bytes : ℕ) where
  unfoldable pub take_line : Text → Reading V → Reading V
  unfolding classify push_message
  take_line line r =
      let (message, boundaries) = classify parse line in
      let s = record r {
        consumed_to = r.consumed_to + length line;
        compactions = r.compactions + boundaries;
      } in
      elim message [ none ↦ s | some v ↦ push_message size max_post_bytes v s ]

  -- On fuel: one for each byte left is enough, since each round but the last takes a line.
  unfoldable pub read_loop : ℕ → Text → Reading V → Reading V
  unfolding take_line next_line
  read_loop zero s r = r
  read_loop (suc fuel) s r =
      let (line, rest) = next_line max_line_bytes s in
      let more = read_loop fuel rest (take_line line r) in if ends_line line then more else r

  unfoldable pub read_delta : Option Text → ℕ → Delta V
  unfolding read_loop
  read_delta none from = empty_at from
  read_delta (some bytes) from =
      deliver (read_loop (length bytes) (drop from bytes) (reading_at from))
