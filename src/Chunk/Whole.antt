-- ===== src/Chunk/Whole.antt =====
-- crates/memgardend/src/retain/chunk.rs: `chunk_text` with its two structured forms. The vectors that
-- the loops push to are what they return.
pub mod Idempotent
pub mod Sizes
pub mod Unstructured
pub mod Content
use memgarden.Prelude.{
  ℕ, ◌+◌, max, min, Bool, true, false, not, ◌&&◌, Option, none, some, List, [], ◌∷◌, ◌++◌, leb, ltb,
  if◌then◌else◌,
}
use memgarden.Prelude.Lists.{length}
use memgarden.Prelude.Text.{Text, is_nil, lines, join}
use memgarden.Chunk.Json.{Json, Shape, array, object, other}
use memgarden.Chunk.Split.{solid_only, split_oversized_unit}

-- `if !current.is_empty() { chunks.push(current.join("\n")) }`
unfoldable pub push_lines : List Text → List Text
push_lines current = if is_nil current then [] else join (10 ∷ []) current ∷ []

abbrev pub lines_size_after : List Text → ℕ → ℕ
lines_size_after current size = if is_nil current then size else 0

module _ (j : Json) where
  open j use {Value, from_str, view, to_string, of_array}

  -- `flush`: the chunk that it pushes, if any, and the size after it.
  unfoldable pub flush : List Value → List Text
  flush current = if is_nil current then [] else to_string (of_array current) ∷ []

  abbrev pub size_after : List Value → ℕ → ℕ
  size_after current size = if is_nil current then size else 2

  module _ (max_chars structured_limit : ℕ) where
    unfoldable pub conversation_loop : List Value → List Value → ℕ → List Text
    unfolding flush
    conversation_loop [] current size = flush current
    conversation_loop (turn ∷ turns) current size =
        if ltb structured_limit (length (to_string turn) + 2)
        then flush current
          ++ split_oversized_unit (min structured_limit max_chars) (to_string turn)
          ++ conversation_loop turns [] (size_after current size)
        else if ltb max_chars (size + (length (to_string turn) + 1)) && not (is_nil current)
        then flush current
          ++ conversation_loop turns (turn ∷ [])
              (size_after current size + (length (to_string turn) + 1))
        else conversation_loop turns (current ++ turn ∷ []) (size + (length (to_string turn) + 1))

    unfoldable pub chunk_conversation : List Value → List Text
    unfolding conversation_loop
    chunk_conversation turns =
        let chunks = conversation_loop turns [] 2 in
        if is_nil chunks then to_string (of_array turns) ∷ [] else chunks

    unfoldable pub jsonl_loop : List Text → List Text → ℕ → List Text
    unfolding push_lines
    jsonl_loop [] current size = push_lines current
    jsonl_loop (line ∷ rest) current size =
        if ltb structured_limit (length line)
        then push_lines current
          ++ split_oversized_unit (min structured_limit max_chars) line
          ++ jsonl_loop rest [] (lines_size_after current size)
        else if ltb max_chars (size + (length line + 1)) && not (is_nil current)
        then push_lines current
          ++ jsonl_loop rest (line ∷ []) (lines_size_after current size + (length line + 1))
        else jsonl_loop rest (current ++ line ∷ []) (size + (length line + 1))

    abbrev pub is_object : Option Value → Bool
    is_object none = false
    is_object (some v) = elim (view v) [ object ↦ true | array vs ↦ false | other ↦ false ]

    unfoldable pub all_objects : List Text → Bool
    all_objects [] = true
    all_objects (line ∷ rest) = is_object (from_str line) && all_objects rest

    unfoldable pub chunk_jsonl : Text → Option (List Text)
    unfolding jsonl_loop all_objects lines
    chunk_jsonl text =
        let ls = solid_only (lines text) in
        if ltb (length ls) 2
        then none
        else if all_objects ls
        then some (jsonl_loop ls [] 0)
        else none

  unfoldable pub all_turns : List Value → Bool
  all_turns [] = true
  all_turns (v ∷ vs) =
      elim (view v) [ object ↦ true | array us ↦ false | other ↦ false ] && all_turns vs

  -- Text that is no structured unit: JSON lines, or plain.
  unfoldable pub chunk_plain : ℕ → Text → List Text
  unfolding chunk_jsonl split_oversized_unit
  chunk_plain limit text = elim (chunk_jsonl limit limit text) [
    | some chunks ↦ chunks
    | none ↦ split_oversized_unit limit text
  ]

  unfoldable pub chunk_shape : ℕ → Text → Shape Value → List Text
  unfolding chunk_plain chunk_conversation all_turns
  chunk_shape limit text (array turns) =
      if all_turns turns then chunk_conversation limit limit turns else chunk_plain limit text
  chunk_shape limit text object = split_oversized_unit limit text
  chunk_shape limit text other = chunk_plain limit text

  unfoldable pub chunk_text : Text → ℕ → List Text
  unfolding chunk_shape
  chunk_text text max_chars =
      let limit = max max_chars 1 in
      if leb (length text) limit then text ∷ [] else elim (from_str text) [
        | none ↦ chunk_plain limit text
        | some v ↦ chunk_shape limit text (view v)
      ]
