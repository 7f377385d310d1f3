-- ===== src/Chunk/Whole/Content.antt =====
-- Text that is no structured JSON unit keeps its characters: crates/memgardend/src/retain/chunk.rs.
use memgarden.Prelude.{
  ℕ, ◌+◌, ◌≤◌, min, true, not, ◌≡◌, some, List, [], ◌∷◌, ◌++◌, map, refl, sym, ◌∙◌, ap, arith, ltb,
  ◌&&◌, Bool-cases, Option-cases, inl, inr,
}
use mathlib.Core.List.{append_assoc, append-nil}
use mathlib.Core.Path.{ap₂}
use memgarden.Prelude.Lists.{length, keep_if}
use memgarden.Prelude.Text.{
  Text, is_nil, is_white, solid, flat, join, lines, strip_last, strip_line, attach, split,
}
use memgarden.Prelude.Text.Trim.{solid-append}
use memgarden.Prelude.Text.Cut.{flat-attach-split}
use memgarden.Chunk.Json.{Json}
use memgarden.Chunk.Split.{solid_only, split_oversized_unit}
use memgarden.Chunk.Split.Content.{
  solids, solids-append, solids-cons, solids-solid_only, solids-split_oversized_unit,
}
use memgarden.Chunk.Whole.{push_lines, lines_size_after, jsonl_loop, chunk_jsonl, chunk_plain}

solid-strip_last :
    (c : ℕ) (l r : Text) → is_white c ≡ true → strip_last c l ≡ some r → solid r ≡ solid l
unfolding strip_last solid
solid-strip_last c [] r w h = cc
solid-strip_last c (x ∷ []) r w h = ground arith
solid-strip_last c (x ∷ y ∷ s) r w h = elim (Option-cases (strip_last c (y ∷ s))) [
  | inl e ↦ ground (arith, e)
  | inr (q, e) ↦ ground (arith, e, solid-strip_last c (y ∷ s) q w e)
]

solid-strip_line : (l : Text) → solid (strip_line l) ≡ solid l
unfolding strip_line
solid-strip_line l = elim (Option-cases (strip_last 10 l)) [
  | inl e ↦ rw (e, strip_line) refl
  | inr (r, e) ↦ elim (Option-cases (strip_last 13 r)) [
    | inl f ↦ rw (e, strip_line, f) (solid-strip_last 10 l r (unfold is_white in refl) e)
    | inr (q, f) ↦
        rw (e, strip_line, f)
          (solid-strip_last 13 r q (unfold is_white in refl) f
            ∙ solid-strip_last 10 l r (unfold is_white in refl) e)
  ]
]

solids-strip_lines : (ls : List Text) → solids (map strip_line ls) ≡ solids ls
solids-strip_lines [] = refl
solids-strip_lines (l ∷ ls) =
    solids-cons (strip_line l) (map strip_line ls)
    ∙ ap₂ (λ a b. a ++ b) (solid-strip_line l) (solids-strip_lines ls)
    ∙ sym (solids-cons l ls)

solids-not_nil : (ls : List Text) → solids (keep_if (λ l. not (is_nil l)) ls) ≡ solids ls
solids-not_nil [] = refl
solids-not_nil ([] ∷ ls) = solids-not_nil ls ∙ sym (solids-cons [] ls ∙ unfold solid in refl)
solids-not_nil ((c ∷ l) ∷ ls) =
    solids-cons (c ∷ l) (keep_if (λ l. not (is_nil l)) ls)
    ∙ ap (λ r. solid (c ∷ l) ++ r) (solids-not_nil ls)
    ∙ sym (solids-cons (c ∷ l) ls)

pub solids-lines : (s : Text) → solids (lines s) ≡ solid s
unfolding lines
solids-lines s =
    solids-strip_lines (keep_if (λ l. not (is_nil l)) (attach (10 ∷ []) (split (10 ∷ []) s)))
    ∙ solids-not_nil (attach (10 ∷ []) (split (10 ∷ []) s))
    ∙ ap solid (flat-attach-split 10 [] s)

solid-join : (ls : List Text) → solid (join (10 ∷ []) ls) ≡ solids ls
unfolding join
solid-join [] = unfold flat in refl
solid-join (l ∷ []) = unfold flat in sym (ap solid (append-nil l))
solid-join (l ∷ m ∷ ls) =
    solid-append (l ++ 10 ∷ []) (join (10 ∷ []) (m ∷ ls))
    ∙ ap₂ (λ a b. a ++ b) (solid-append l (10 ∷ []) ∙ newline l) (solid-join (m ∷ ls))
    ∙ sym (solids-cons l (m ∷ ls))
  where
    newline : (l : Text) → solid l ++ solid (10 ∷ []) ≡ solid l
    newline l = unfold solid is_white in append-nil (solid l)

solids-push_lines : (ls : List Text) → solids (push_lines ls) ≡ solids ls
unfolding push_lines
solids-push_lines [] = refl
solids-push_lines (l ∷ ls) =
    solids-cons (join (10 ∷ []) (l ∷ ls)) []
    ∙ unfold flat solid in append-nil (solid (join (10 ∷ []) (l ∷ ls))) ∙ solid-join (l ∷ ls)

pub solids-one : (l : Text) → solids (l ∷ []) ≡ solid l
unfolding flat
solids-one l = ap solid (append-nil l)

module _ (j : Json) (max_chars : ℕ) where
  abbrev unit_of : Text → List Text
  unit_of line = split_oversized_unit (min max_chars max_chars) line

  solids-jsonl_loop :
      (ls current : List Text) (size : ℕ)
      → 1 ≤ max_chars
      → solids (jsonl_loop j max_chars max_chars ls current size) ≡ solids current ++ solids ls
  unfolding jsonl_loop solid flat
  solids-jsonl_loop [] current size p =
      solids-push_lines current ∙ sym (unfold flat solid in append-nil (solids current))
  solids-jsonl_loop (l ∷ ls) current size p =
      let q : 1 ≤ min max_chars max_chars = omega arith in
      let after = lines_size_after current size in
      rw (solids-cons l ls) (elim (Bool-cases (ltb max_chars (length l))) [
        | inl e ↦ rw e (
            solids-append (push_lines current ++ unit_of l)
              (jsonl_loop j max_chars max_chars ls [] after)
            ∙ ap₂ (λ a b. a ++ b)
                (solids-append (push_lines current) (unit_of l)
                  ∙ ap₂ (λ a b. a ++ b) (solids-push_lines current)
                      (solids-split_oversized_unit (min max_chars max_chars) l q))
                (solids-jsonl_loop ls [] after p)
            ∙ append_assoc (solids current) (solid l) (solids ls))
        | inr e ↦
            elim (Bool-cases (ltb max_chars (size + (length l + 1)) && not (is_nil current))) [
              | inl o ↦
                  let n = after + (length l + 1) in
                  rw (e, o)
                    (solids-append (push_lines current)
                        (jsonl_loop j max_chars max_chars ls (l ∷ []) n)
                      ∙ ap₂ (λ a b. a ++ b) (solids-push_lines current)
                          (solids-jsonl_loop ls (l ∷ []) n p
                            ∙ ap (λ a. a ++ solids ls) (solids-one l)))
              | inr o ↦
                  rw (e, o)
                    (solids-jsonl_loop ls (current ++ l ∷ []) (size + (length l + 1)) p
                      ∙ ap (λ a. a ++ solids ls)
                          (solids-append current (l ∷ [])
                            ∙ ap (λ a. solids current ++ a) (solids-one l))
                      ∙ append_assoc (solids current) (solid l) (solids ls))
            ]
      ])

  solids-chunk_jsonl :
      (text : Text) (chunks : List Text)
      → 1 ≤ max_chars
      → chunk_jsonl j max_chars max_chars text ≡ some chunks
      → solids chunks ≡ solid text
  unfolding chunk_jsonl
  solids-chunk_jsonl text chunks p h =
      let ls = solid_only (lines text) in
      let same : chunks ≡ jsonl_loop j max_chars max_chars ls [] 0 = ground arith in
      rw same (
        solids-jsonl_loop ls [] 0 p
        ∙ unfold flat solid in solids-solid_only (lines text) ∙ solids-lines text)

  pub solids-chunk_plain :
      (text : Text) → 1 ≤ max_chars → solids (chunk_plain j max_chars text) ≡ solid text
  unfolding chunk_plain
  solids-chunk_plain text p = elim (Option-cases (chunk_jsonl j max_chars max_chars text)) [
    | inl e ↦ rw (e, chunk_plain) (solids-split_oversized_unit max_chars text p)
    | inr (chunks, e) ↦ rw (e, chunk_plain) (solids-chunk_jsonl text chunks p e)
  ]
