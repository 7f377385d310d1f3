-- ===== src/Chunk/Split/Content.antt =====
-- The split of crates/memgardend/src/retain/chunk.rs drops white space only.
use memgarden.Prelude.{
  ℕ, ◌+◌, ◌≤◌, not, ◌≡◌, List, [], ◌∷◌, ◌++◌, refl, ◌∙◌, arith, ltb, ◌&&◌, ap, sym, Bool-cases, inl,
  inr,
}
use mathlib.Core.List.{append_assoc, append-nil}
use mathlib.Core.Path.{ap₂}
use memgarden.Prelude.Lists.{length}
use memgarden.Prelude.Text.{
  Text, is_nil, is_blank, trim, solid, flat, attach, split, contains, chunks,
}
use memgarden.Prelude.Text.Trim.{solid-append, solid-trim, is_blank_iff}
use memgarden.Prelude.Text.Cut.{flat-append, flat-attach-split, flat-chunks}
use memgarden.Chunk.Split.{
  separators, solid_only, push_trim, hard_split, fits_or, pack, cut_at, split_recursive,
  split_oversized_unit,
}

-- The solid characters of the pieces, in their order.
abbrev pub solids : List Text → Text
solids ps = solid (flat ps)

pub solids-append : (ps qs : List Text) → solids (ps ++ qs) ≡ solids ps ++ solids qs
solids-append ps qs = ap solid (flat-append ps qs) ∙ solid-append (flat ps) (flat qs)

pub solids-cons : (p : Text) (ps : List Text) → solids (p ∷ ps) ≡ solid p ++ solids ps
unfolding flat
solids-cons p ps = solid-append p (flat ps)

solids-push_trim : (buf : Text) → solids (push_trim buf) ≡ solid buf
unfolding push_trim flat
solids-push_trim buf = elim (Bool-cases (is_blank buf)) [
  | inl e ↦ rw (e, (is_blank_iff buf).0 e) (unfold solid in refl)
  | inr e ↦
      rw e
        (solid-append (trim buf) [] ∙ rw (solid-trim buf) (unfold solid in append-nil (solid buf)))
]

pub solids-solid_only : (ps : List Text) → solids (solid_only ps) ≡ solids ps
solids-solid_only [] = refl
solids-solid_only (p ∷ ps) = elim (Bool-cases (is_blank p)) [
  | inl e ↦ rw (e, solids-cons p ps, (is_blank_iff p).0 e) (solids-solid_only ps)
  | inr e ↦
      rw (e, solids-cons p ps)
        (solids-cons p (solid_only ps) ∙ ap (λ r. solid p ++ r) (solids-solid_only ps))
]

module _ (max_chars : ℕ) where
  -- `f` keeps the solid characters of what it splits.
  abbrev Keeps : (Text → List Text) → Type 0
  Keeps f = (t : Text) → solids (f t) ≡ solid t

  solids-fits_or : (f : Text → List Text) → Keeps f → Keeps (fits_or max_chars f)
  unfolding fits_or
  solids-fits_or f k t = ground (arith, solids-push_trim t, k t)

  solids-pack :
      (f : Text → List Text)
      → Keeps f
      → (ps : List Text) (buf : Text) → solids (pack max_chars f ps buf) ≡ solid buf ++ solids ps
  unfolding pack solid
  solids-pack f k [] buf = solids-push_trim buf ∙ sym (unfold flat solid in append-nil (solid buf))
  solids-pack f k (p ∷ ps) buf =
      rw (solids-cons p ps) (elim (Bool-cases (ltb max_chars (length p))) [
        | inl e ↦ rw e (
            solids-append (push_trim buf ++ f p) (pack max_chars f ps [])
            ∙ ap₂ (λ a b. a ++ b)
                (solids-append (push_trim buf) (f p)
                  ∙ ap₂ (λ a b. a ++ b) (solids-push_trim buf) (k p))
                (solids-pack f k ps [])
            ∙ append_assoc (solid buf) (solid p) (solids ps))
        | inr e ↦ elim (Bool-cases (ltb max_chars (length buf + length p) && not (is_nil buf))) [
          | inl o ↦
              rw (e, o)
                (solids-append (push_trim buf) (pack max_chars f ps p)
                  ∙ ap₂ (λ a b. a ++ b) (solids-push_trim buf) (solids-pack f k ps p))
          | inr o ↦
              rw (e, o)
                (solids-pack f k ps (buf ++ p)
                  ∙ ap (λ a. a ++ solids ps) (solid-append buf p)
                  ∙ append_assoc (solid buf) (solid p) (solids ps))
        ]
      ])

  solids-hard_split : 1 ≤ max_chars → Keeps (hard_split max_chars)
  unfolding hard_split
  solids-hard_split h t =
      solids-solid_only (chunks (length t) max_chars t)
      ∙ ap solid (flat-chunks (length t) max_chars t (omega arith) h)

  solids-cut_at : 1 ≤ max_chars → (seps : List Text) → Keeps (cut_at max_chars seps)
  unfolding cut_at solid
  solids-cut_at h [] t = solids-hard_split h t
  solids-cut_at h ([] ∷ rest) t = solids-hard_split h t
  solids-cut_at h ((d ∷ ds) ∷ rest) t = elim (Bool-cases (contains (d ∷ ds) t)) [
    | inl e ↦
        rw (e, cut_at)
          (solids-pack (fits_or max_chars (cut_at max_chars rest))
              (solids-fits_or (cut_at max_chars rest) (solids-cut_at h rest))
              (attach (d ∷ ds) (split (d ∷ ds) t)) []
            ∙ ap solid (flat-attach-split d ds t))
    | inr e ↦ rw (e, cut_at) (solids-cut_at h rest t)
  ]

  pub solids-split_pieces :
      (text : Text)
      → 1 ≤ max_chars
      → solids (solid_only (split_recursive max_chars separators text)) ≡ solid text
  unfolding split_recursive
  solids-split_pieces text h =
      solids-solid_only (fits_or max_chars (cut_at max_chars separators) text)
      ∙ solids-fits_or (cut_at max_chars separators) (solids-cut_at h separators) text

  -- The pieces of an oversized unit, one after the other, hold exactly the unit's characters that are
  -- not white, in their order: the split neither loses, nor repeats, nor moves one.
  pub solids-split_oversized_unit :
      (text : Text) → 1 ≤ max_chars → solids (split_oversized_unit max_chars text) ≡ solid text
  unfolding split_oversized_unit
  solids-split_oversized_unit text h =
      elim (Bool-cases (is_nil (solid_only (split_recursive max_chars separators text)))) [
        | inl e ↦ rw e (unfold flat in ap solid (append-nil text))
        | inr e ↦ rw e (solids-split_pieces text h)
      ]
