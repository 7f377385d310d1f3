-- ===== src/Chunk/Split.antt =====
-- crates/memgardend/src/retain/chunk.rs: the sentence-aware split of plain text.
pub mod Content
pub mod Fits
use memgarden.Prelude.{
  ℕ, ◌+◌, Bool, true, false, not, List, [], ◌∷◌, ◌++◌, leb, ltb, ◌&&◌, if◌then◌else◌,
}
use memgarden.Prelude.Lists.{length, keep_if}
use memgarden.Prelude.Text.{Text, codes, is_nil, is_blank, trim, contains, split, attach, chunks}

-- `SEPARATORS`, the preferred one first.
abbrev pub separators : List Text
separators =
    codes "\n\n"
    ∷ codes "\n"
    ∷ codes ". "
    ∷ codes "! "
    ∷ codes "? "
    ∷ codes "; "
    ∷ codes ", "
    ∷ codes " "
    ∷ []
    ∷ []

abbrev pub solid_only : List Text → List Text
solid_only = keep_if (λ c. not (is_blank c))

-- `if !buf.trim().is_empty() { out.push(buf.trim().to_string()) }`
unfoldable pub push_trim : Text → List Text
push_trim buf = if is_blank buf then [] else trim buf ∷ []

module _ (max_chars : ℕ) where
  unfoldable pub hard_split : Text → List Text
  unfolding chunks
  hard_split text = solid_only (chunks (length text) max_chars text)

  -- The short circuit of `split_recursive`, before `f` cuts what does not fit.
  unfoldable pub fits_or : (Text → List Text) → Text → List Text
  unfolding push_trim
  fits_or f text = if leb (length text) max_chars then push_trim text else f text

  -- The loop over the pieces, with what the buffer holds; `f` splits a piece that is too long.
  unfoldable pub pack : (Text → List Text) → List Text → Text → List Text
  unfolding push_trim
  pack f [] buf = push_trim buf
  pack f (piece ∷ pieces) buf =
      if ltb max_chars (length piece)
      then push_trim buf ++ f piece ++ pack f pieces []
      else if ltb max_chars (length buf + length piece) && not (is_nil buf)
      then push_trim buf ++ pack f pieces piece
      else pack f pieces (buf ++ piece)

  -- What follows the short circuit: the first separator that occurs cuts the text, and the ones
  -- behind it the pieces that are too long.
  unfoldable pub cut_at : List Text → Text → List Text
  unfolding hard_split fits_or pack attach split contains
  cut_at [] text = hard_split text
  cut_at (sep ∷ rest) text = elim (is_nil sep) [
    | true ↦ hard_split text
    | false ↦ elim (contains sep text) [
      | true ↦ pack (fits_or (cut_at rest)) (attach sep (split sep text)) []
      | false ↦ cut_at rest text
    ]
  ]

  unfoldable pub split_recursive : List Text → Text → List Text
  unfolding fits_or cut_at
  split_recursive seps text = fits_or (cut_at seps) text

  unfoldable pub split_oversized_unit : Text → List Text
  unfolding split_recursive
  split_oversized_unit text =
      let out = solid_only (split_recursive separators text) in
      if is_nil out then text ∷ [] else out
