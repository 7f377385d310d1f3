-- ===== src/Chunk/Whole/Idempotent.antt =====
-- What `chunk_text` of crates/memgardend/src/retain/chunk.rs promises as a whole.
use memgarden.Prelude.{
  ℕ, ◌≤◌, max, false, ◌≡◌, some, List, [], ◌∷◌, arith, leb, Bool-cases, Option-cases, inl, inr,
  leb→le,
}
use memgarden.Prelude.Lists.{length, All, All-map}
use memgarden.Prelude.Text.{Text, is_blank, lines}
use memgarden.Chunk.Json.{Json, Shape, array, object, other}
use memgarden.Chunk.Split.{solid_only}
use memgarden.Chunk.Split.Fits.{Fit, split_oversized_unit-Fit}
use memgarden.Chunk.Whole.{chunk_jsonl, jsonl_loop, chunk_plain, chunk_shape, all_turns, chunk_text}
use memgarden.Chunk.Whole.Unstructured.{chunk_text_blank}
use memgarden.Chunk.Whole.Sizes.{jsonl_loop-Fit, Held-nil, chunk_conversation-Fit}

solid_only-All : (ps : List Text) → All (λ l. is_blank l ≡ false) (solid_only ps)
solid_only-All [] = tt
solid_only-All (p ∷ ps) = elim (Bool-cases (is_blank p)) [
  | inl e ↦ rw e (solid_only-All ps)
  | inr e ↦ rw e (e, solid_only-All ps)
]

module _ (j : Json) where
  open j use {Value, from_str, view}

  module _ (limit : ℕ) where
    chunk_jsonl-Fit :
        (text : Text) (chunks : List Text)
        → 1 ≤ limit
        → chunk_jsonl j limit limit text ≡ some chunks
        → Fit limit chunks
    unfolding chunk_jsonl
    chunk_jsonl-Fit text chunks p h =
        let ls = solid_only (lines text) in
        let same : chunks ≡ jsonl_loop j limit limit ls [] 0 = ground arith in
        rw same (jsonl_loop-Fit limit j ls [] 0 p (solid_only-All (lines text)) (Held-nil limit))

    chunk_plain-Fit :
        (text : Text) → 1 ≤ limit → is_blank text ≡ false → Fit limit (chunk_plain j limit text)
    unfolding chunk_plain
    chunk_plain-Fit text p b = elim (Option-cases (chunk_jsonl j limit limit text)) [
      | inl e ↦ rw (e, chunk_plain) (split_oversized_unit-Fit limit text p b)
      | inr (chunks, e) ↦ rw (e, chunk_plain) (chunk_jsonl-Fit text chunks p e)
    ]

    chunk_shape-Fit :
        (text : Text) (s : Shape Value)
        → 2 ≤ limit
        → is_blank text ≡ false
        → Fit limit (chunk_shape j limit text s)
    unfolding chunk_shape
    chunk_shape-Fit text (array turns) p b = elim (Bool-cases (all_turns j turns)) [
      | inl e ↦ rw e (chunk_conversation-Fit limit j turns p)
      | inr e ↦ rw e (chunk_plain-Fit text (omega arith) b)
    ]
    chunk_shape-Fit text object p b = split_oversized_unit-Fit limit text (omega arith) b
    chunk_shape-Fit text other p b = chunk_plain-Fit text (omega arith) b

  -- No chunk is longer than `max_chars` characters: of a text that is not blank, in each of its forms,
  -- where the budget holds the two brackets of an empty array.
  pub chunk_text-Fit :
      (text : Text) (max_chars : ℕ)
      → 2 ≤ max_chars
      → is_blank text ≡ false
      → Fit max_chars (chunk_text j text max_chars)
  unfolding chunk_text
  chunk_text-Fit text max_chars p b =
      let m : max max_chars 1 ≡ max_chars = omega arith in
      rw m (elim (Bool-cases (leb (length text) max_chars)) [
        | inl e ↦ rw e (leb→le (length text) max_chars e, tt)
        | inr e ↦ elim (Option-cases (from_str text)) [
          | inl f ↦ rw (e, f, m) (chunk_plain-Fit max_chars text (omega arith) b)
          | inr (v, f) ↦ rw (e, f, m) (chunk_shape-Fit max_chars text (view v) p b)
        ]
      ])

  -- A text that fits is its own only chunk.
  chunk_text-short :
      (text : Text) (max_chars : ℕ)
      → length text ≤ max_chars
      → chunk_text j text max_chars ≡ text ∷ []
  unfolding chunk_text
  chunk_text-short text max_chars h = ground arith

  -- Chunking is idempotent: each chunk of a text, chunked again with the same budget, is itself, so
  -- that a second pass splits nothing. The text may be of any form, and the budget holds at least the
  -- two brackets of an empty array.
  pub chunk_text-chunk_text :
      (text : Text) (max_chars : ℕ)
      → 2 ≤ max_chars
      → All (λ c. chunk_text j c max_chars ≡ c ∷ []) (chunk_text j text max_chars)
  chunk_text-chunk_text text max_chars p = elim (Bool-cases (is_blank text)) [
    | inl b ↦ let whole = chunk_text_blank j text max_chars b in rw whole (whole, tt)
    | inr b ↦
        All-map (λ c. chunk_text-short c max_chars) (chunk_text j text max_chars)
          (chunk_text-Fit text max_chars p b)
  ]
