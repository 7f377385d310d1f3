-- ===== src/Chunk/Split/Fits.antt =====
-- How long the pieces of crates/memgardend/src/retain/chunk.rs are.
use memgarden.Prelude.{
  ℕ, ◌+◌, ◌≤◌, true, false, not, ◌≡◌, List, [], ◌∷◌, ◌++◌, sym, arith, leb, ltb, ◌&&◌, Bool-cases,
  inl, inr, leb→le,
}
use memgarden.Prelude.Lists.{length, length-append, keep_if-All, All, All-append}
use memgarden.Prelude.Text.{Text, is_nil, is_blank, flat, solid, attach, split, contains, chunks}
use memgarden.Prelude.Text.Trim.{length-trim, is_blank_iff}
use memgarden.Prelude.Text.Cut.{length-chunks}
use memgarden.Chunk.Split.{
  separators, solid_only, push_trim, hard_split, fits_or, pack, cut_at, split_recursive,
  split_oversized_unit,
}
use memgarden.Chunk.Split.Content.{solids, solids-split_pieces}

module _ (max_chars : ℕ) where
  abbrev pub Fit : List Text → Type 0
  Fit = All (λ c. length c ≤ max_chars)

  push_trim-Fit : (buf : Text) → length buf ≤ max_chars → Fit (push_trim buf)
  unfolding push_trim
  push_trim-Fit buf h = elim (Bool-cases (is_blank buf)) [
    | inl e ↦ rw e tt
    | inr e ↦ rw e (omega (arith, length-trim buf), tt)
  ]

  fits_or-Fit :
      (f : Text → List Text) → ((t : Text) → Fit (f t)) → (t : Text) → Fit (fits_or max_chars f t)
  unfolding fits_or
  fits_or-Fit f k t = elim (Bool-cases (leb (length t) max_chars)) [
    | inl e ↦ rw e (push_trim-Fit t (leb→le (length t) max_chars e))
    | inr e ↦ rw e (k t)
  ]

  length-joined :
      (buf p : Text)
      → ltb max_chars (length p) ≡ false
      → (ltb max_chars (length buf + length p) && not (is_nil buf)) ≡ false
      → length (buf ++ p) ≤ max_chars
  length-joined [] p e o = ground arith
  length-joined (c ∷ s) p e o = let n = length-append (c ∷ s) p in ground arith

  pack-Fit :
      (f : Text → List Text)
      → ((t : Text) → Fit (f t))
      → (ps : List Text) (buf : Text) → length buf ≤ max_chars
      → Fit (pack max_chars f ps buf)
  unfolding pack
  pack-Fit f k [] buf h = push_trim-Fit buf h
  pack-Fit f k (p ∷ ps) buf h = elim (Bool-cases (ltb max_chars (length p))) [
    | inl e ↦ rw e (
        All-append _ (push_trim buf ++ f p) (pack max_chars f ps [])
          (All-append _ (push_trim buf) (f p) (push_trim-Fit buf h) (k p))
          (pack-Fit f k ps [] (omega arith)))
    | inr e ↦ elim (Bool-cases (ltb max_chars (length buf + length p) && not (is_nil buf))) [
      | inl o ↦
          rw (e, o)
            (All-append _ (push_trim buf) (pack max_chars f ps p) (push_trim-Fit buf h)
              (pack-Fit f k ps p (ground arith)))
      | inr o ↦ rw (e, o) (pack-Fit f k ps (buf ++ p) (length-joined buf p e o))
    ]
  ]

  hard_split-Fit : (t : Text) → Fit (hard_split max_chars t)
  unfolding hard_split
  hard_split-Fit t =
      keep_if-All _ _ (chunks (length t) max_chars t) (length-chunks (length t) max_chars t)

  cut_at-Fit : (seps : List Text) (t : Text) → Fit (cut_at max_chars seps t)
  unfolding cut_at
  cut_at-Fit [] t = hard_split-Fit t
  cut_at-Fit ([] ∷ rest) t = hard_split-Fit t
  cut_at-Fit ((d ∷ ds) ∷ rest) t = elim (Bool-cases (contains (d ∷ ds) t)) [
    | inl e ↦
        rw (e, cut_at)
          (pack-Fit (fits_or max_chars (cut_at max_chars rest))
            (fits_or-Fit (cut_at max_chars rest) (cut_at-Fit rest))
            (attach (d ∷ ds) (split (d ∷ ds) t)) [] (omega arith))
    | inr e ↦ rw (e, cut_at) (cut_at-Fit rest t)
  ]

  split_recursive-Fit : (seps : List Text) (text : Text) → Fit (split_recursive max_chars seps text)
  unfolding split_recursive
  split_recursive-Fit seps text = fits_or-Fit (cut_at max_chars seps) (cut_at-Fit seps) text

  -- A text whose pieces are none is blank.
  blank_pieces :
      (ps : List Text) (text : Text)
      → solids ps ≡ solid text
      → is_nil ps ≡ true
      → is_blank text ≡ true
  unfolding flat solid
  blank_pieces [] text k e = (is_blank_iff text).1 (sym k)
  blank_pieces (p ∷ ps) text k e = cc

  -- The pieces of a unit with a character that is not white are no longer than `max_chars`.
  pub split_oversized_unit-Fit :
      (text : Text)
      → 1 ≤ max_chars
      → is_blank text ≡ false
      → Fit (split_oversized_unit max_chars text)
  unfolding split_oversized_unit
  split_oversized_unit-Fit text h b =
      let out = solid_only (split_recursive max_chars separators text) in
      elim (Bool-cases (is_nil out)) [
        | inl e ↦ cc (blank_pieces out text (solids-split_pieces max_chars text h) e)
        | inr e ↦ rw e (
            keep_if-All _ _ (split_recursive max_chars separators text)
              (split_recursive-Fit separators text))
      ]
