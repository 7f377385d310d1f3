-- ===== src/Settings/Uninstall.antt =====
-- `uninstall` of crates/memgarden-cli/src/settings.rs.
pub mod Ends
pub mod Body
pub mod Restores
pub mod Chunks
use memgarden.Prelude.{
  ℕ, zero, suc, ◌+◌, ◌-◌, ◌*◌, min, Bool, true, false, ◌&&◌, ◌||◌, Option, none, some, List, [],
  ◌∷◌, ◌++◌, leb, ltb, ◌==◌, if◌then◌else◌,
}
use memgarden.Prelude.Lists.{length, take, drop}
use memgarden.Prelude.Text.{Text, codes, same_text, starts_with}
use memgarden.Settings.Scan.{
  is_at, get_range, key_is, skip_ws, skip_ws_inline, skip_string, skip_value,
}
use memgarden.Settings.Entry.{Entry, entries, parse, would_corrupt, residual, Result, ok, err}
use memgarden.Settings.View.{Serde, wired_events}
use memgarden.Settings.Tree.{Value}

abbrev pub marker_key : Text
marker_key = codes "\"statusMessage\""

abbrev pub value_prefix : Text
value_prefix = codes "\"memgarden: "

-- The key at `i` has a value of ours, whatever white space is around the colon.
unfoldable pub is_marker : Text → ℕ → Bool
unfolding skip_ws get_range
is_marker s i =
    let colon = skip_ws s (i + length marker_key) in
    let value = skip_ws s (colon + 1) in
    is_at 58 (drop colon s) && key_is (get_range s value (value + length value_prefix)) value_prefix

unfoldable pub marker_loop : Text → ℕ → Text → Option ℕ
unfolding is_marker
marker_loop s i [] = none
marker_loop s i (c ∷ r) =
    let later = marker_loop s (suc i) r in
    if starts_with marker_key (c ∷ r) && is_marker s i then some i else later

unfoldable pub find_marker : Text → ℕ → Option ℕ
unfolding marker_loop
find_marker s start = let from = min start (length s) in marker_loop s from (drop from s)

-- `rposition(|&b| b == b'\n')`
unfoldable pub feed_loop : Option ℕ → ℕ → Text → Option ℕ
feed_loop best i [] = best
feed_loop best i (c ∷ r) = feed_loop (if c == 10 then some i else best) (suc i) r

abbrev pub take_comma : Text → ℕ → ℕ
take_comma s e = if is_at 44 (drop e s) then e + 1 else e

-- The value of the chunk, and one comma.
abbrev pub end_of : Text → Option ℕ → Option ℕ
end_of s none = none
end_of s (some e) = some (take_comma s e)

-- Where the value of the chunk starts.
unfoldable pub chunk_value : Text → ℕ → Option ℕ
unfolding skip_string skip_ws
chunk_value s start =
    if is_at 34 (drop start s)
    then elim (skip_string s start) [
      | none ↦ none
      | some i ↦
          let colon = skip_ws s i in
          if is_at 58 (drop colon s) then some (skip_ws s (colon + 1)) else none
    ]
    else some start

unfoldable pub chunk_end : Text → ℕ → Option ℕ
unfolding chunk_value skip_value
chunk_end s start = elim (chunk_value s start) [ none ↦ none | some i ↦ end_of s (skip_value s i) ]

abbrev pub command_key : Text
command_key = codes "\"command\":"

-- The windows that hold a key `command`.
unfoldable pub commands : Text → ℕ
commands [] = 0
commands (c ∷ r) = (if starts_with command_key (c ∷ r) then 1 else 0) + commands r

abbrev pub is_event : Text → List Entry → Bool
is_event key [] = false
is_event key (e ∷ es) = same_text e.event key || is_event key es

abbrev pub is_our_key : Option Text → Bool
is_our_key none = false
is_our_key (some key) = same_text key (codes "hooks") || is_event key entries

abbrev pub wrapper_key : Text → ℕ → Option ℕ → Option Text
wrapper_key s i none = none
wrapper_key s i (some key_end) = get_range s (i + 1) (key_end - 1)

-- What the line starts with: a group, or a wrapper with a key that could be ours.
unfoldable pub may_start : Text → ℕ → Bool
unfolding skip_string get_range
may_start s i =
    is_at 123 (drop i s) || (is_at 34 (drop i s) && is_our_key (wrapper_key s i (skip_string s i)))

abbrev pub one_command : Option Text → Bool
one_command none = false
one_command (some t) = commands t == 1

unfoldable pub span_end : Text → ℕ → ℕ → ℕ → Option (ℕ × ℕ)
unfolding chunk_end get_range commands
span_end s marker start line_start = elim (chunk_end s line_start) [
  | none ↦ none
  | some e ↦
      if (leb line_start marker && ltb marker e) && one_command (get_range s line_start e)
      then some (start, e)
      else none
]

-- The line feed, with the carriage return before it.
abbrev pub with_return : Text → ℕ → ℕ
with_return s newline =
    if leb 1 newline && is_at 13 (drop (newline - 1) s) then newline - 1 else newline

unfoldable pub chunk_span : Text → ℕ → Option (ℕ × ℕ)
unfolding feed_loop skip_ws_inline may_start span_end
chunk_span s marker = elim (feed_loop none 0 (take marker s)) [
  | none ↦ none
  | some newline ↦
      let line_start = skip_ws_inline s (newline + 1) in
      if may_start s line_start then span_end s marker (with_return s newline) line_start else none
]

-- `text.replace_range(start..end, "")`
abbrev pub remove : Text → ℕ × ℕ → Text
remove s (a, b) = take a s ++ drop b s

-- The loop of `uninstall`, on fuel, with none where it runs out: the text, and whether it has changed.
unfoldable pub uninstall_loop : ℕ → Text → ℕ → Bool → Option (Text × Bool)
unfolding find_marker chunk_span
uninstall_loop zero s from changed = none
uninstall_loop (suc n) s from changed = elim (find_marker s from) [
  | none ↦ some (s, changed)
  | some m ↦ elim (chunk_span s m) [
    | none ↦ uninstall_loop n s (m + 1) changed
    | some span ↦ uninstall_loop n (remove s span) 0 true
  ]
]

-- More rounds than there are: each removes something, or passes a marker.
abbrev pub enough_rounds : Text → ℕ
enough_rounds s = suc (length s * suc (length s) + length s)

abbrev pub left_over : Serde → Option Value → ℕ
left_over serde none = 0
left_over serde (some doc) = length (wired_events serde doc)

-- What is said of the text that the loop leaves.
unfoldable pub finished : Serde → Text → Text × Bool → Result Text
unfolding wired_events
finished serde src (s, changed) =
    let n = left_over serde (serde.from_str s) in
    if ltb 0 n
    then err (residual n)
    else if changed
    then elim (serde.from_str s) as (λ _. Result Text) [ none ↦ err would_corrupt | some d ↦ ok s ]
    else ok src

unfoldable pub uninstall : Serde → Text → Option (Result Text)
unfolding uninstall_loop finished
uninstall serde src = elim (serde.from_str src) [
  | none ↦ some (err parse)
  | some doc ↦ elim (uninstall_loop (enough_rounds src) src 0 false) [
    | none ↦ none
    | some r ↦ some (finished serde src r)
  ]
]
