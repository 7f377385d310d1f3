-- ===== src/Chunk/Whole/Unstructured.antt =====
-- `chunk_text` of crates/memgardend/src/retain/chunk.rs on text that serde_json does not read, plain
-- text and JSON lines among it.
use memgarden.Prelude.{
  ℕ, ◌≤◌, max, true, ◌≡◌, none, List, [], ◌∷◌, ◌++◌, refl, sym, ◌∙◌, arith, leb, Bool-cases, inl,
  inr,
}
use memgarden.Prelude.Lists.{length}
use memgarden.Prelude.Text.{Text, is_blank, solid, lines}
use memgarden.Prelude.Text.Trim.{is_blank_iff}
use memgarden.Chunk.Json.{Json}
use memgarden.Chunk.Split.{solid_only, split_oversized_unit, split_recursive, separators}
use memgarden.Chunk.Split.Content.{solids, solids-cons, solids-split_pieces}
use memgarden.Chunk.Whole.{chunk_jsonl, chunk_plain, chunk_text}
use memgarden.Chunk.Whole.Content.{solids-chunk_plain, solids-one, solids-lines}

append_left-nil : (s t : Text) → s ++ t ≡ [] → s ≡ []
append_left-nil [] t h = refl
append_left-nil (c ∷ s) t h = cc

solid_only-nil : (ps : List Text) → solids ps ≡ [] → solid_only ps ≡ []
solid_only-nil [] h = refl
solid_only-nil (p ∷ ps) h =
    let both : solid p ++ solids ps ≡ [] = sym (solids-cons p ps) ∙ h in
    let first = append_left-nil (solid p) (solids ps) both in
    let rest : solids ps ≡ [] = rw first at both in
    let blank = (is_blank_iff p).1 first in rw blank (solid_only-nil ps rest)

module _ (j : Json) where
  open j use {from_str, blank_text}

  -- A text that serde_json does not read, plain or of JSON lines, keeps its characters: its chunks,
  -- one after the other, hold exactly those of the text that are not white, in their order.
  pub solids-chunk_text :
      (text : Text) (max_chars : ℕ)
      → from_str text ≡ none
      → solids (chunk_text j text max_chars) ≡ solid text
  unfolding chunk_text
  solids-chunk_text text max_chars f = elim (Bool-cases (leb (length text) (max max_chars 1))) [
    | inl e ↦ rw e (solids-one text)
    | inr e ↦ rw (e, f) (solids-chunk_plain j (max max_chars 1) text (omega arith))
  ]

  -- The pieces of the pieces, where the first pass has left solid ones only.
  twice : (ps : List Text) → solid_only (solid_only ps) ≡ solid_only ps
  twice [] = refl
  twice (p ∷ ps) = ground (arith, twice ps)

  blank_unit :
      (text : Text) (limit : ℕ)
      → 1 ≤ limit
      → is_blank text ≡ true
      → split_oversized_unit limit text ≡ text ∷ []
  unfolding split_oversized_unit
  blank_unit text limit p b =
      let out = solid_only (split_recursive limit separators text) in
      let empty : solids out ≡ [] = solids-split_pieces limit text p ∙ (is_blank_iff text).0 b in
      let no_piece : out ≡ [] =
        sym (twice (split_recursive limit separators text)) ∙ solid_only-nil out empty in
      rw no_piece refl

  blank_lines :
      (text : Text) (limit : ℕ) → is_blank text ≡ true → chunk_jsonl j limit limit text ≡ none
  unfolding chunk_jsonl
  blank_lines text limit b =
      let no_line : solid_only (lines text) ≡ [] =
        solid_only-nil (lines text) (solids-lines text ∙ (is_blank_iff text).0 b) in
      rw no_line refl

  -- A blank text comes back whole, however long it is: it is its own only chunk, over the budget or
  -- not.
  pub chunk_text_blank :
      (text : Text) (max_chars : ℕ) → is_blank text ≡ true → chunk_text j text max_chars ≡ text ∷ []
  unfolding chunk_text chunk_plain
  chunk_text_blank text max_chars b =
      let f = blank_text text b in
      let n = blank_lines text (max max_chars 1) b in
      let u = blank_unit text (max max_chars 1) (omega arith) b in
      elim (Bool-cases (leb (length text) (max max_chars 1))) [
        | inl e ↦ rw e refl
        | inr e ↦ rw (e, f, chunk_plain, n) u
      ]
