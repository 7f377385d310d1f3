-- ===== src/Examples/Chunk.antt =====
-- The chunker of crates/memgardend/src/retain/chunk.rs, over a small stand-in for serde_json: a
-- value is what follows an opening bracket; nothing is an object, and anything else an array of
-- three objects.
use memgarden.Prelude.{
  true, Option, none, some, [], ◌∷◌, ◌++◌, map, ◌≡◌, refl, arith, ◌==◌, if◌then◌else◌,
}
use memgarden.Prelude.Lists.{All}
use memgarden.Prelude.Text.{
  Text, codes, join, strip_last, is_blank, is_white, trim, trim_start, trim_end, solid,
}
use memgarden.Chunk.Json.{Json, Shape, array, object}
use memgarden.Chunk.Split.Fits.{Fit}
use memgarden.Chunk.Split.Content.{solids}
use memgarden.Chunk.Whole.{chunk_text}
use memgarden.Chunk.Whole.Idempotent.{chunk_text-Fit, chunk_text-chunk_text}
use memgarden.Chunk.Whole.Unstructured.{solids-chunk_text}

abbrev read : Text → Option Text
read [] = none
read (c ∷ s) = if c == 91 then some s else none

abbrev shape : Text → Shape Text
shape [] = object
shape (c ∷ s) = array ([] ∷ [] ∷ [] ∷ [])

read_blank : (s : Text) → is_blank s ≡ true → read s ≡ none
unfolding trim trim_start trim_end is_white
read_blank [] h = refl
read_blank (c ∷ s) h = ground arith

abbrev brackets : Json
brackets = record {
  Value = Text;
  from_str = read;
  view = shape;
  to_string = λ v. 91 ∷ v;
  of_array = λ vs. join (44 ∷ []) (map (λ v. 91 ∷ v) vs) ++ 93 ∷ [];
  compact = λ vs. refl;
  solid_text = λ v. unfold trim trim_start trim_end is_white in refl;
  blank_text = read_blank;
}

-- Three turns that go into one chunk each.
turns_run : chunk_text brackets (codes "[xxxxxx") 4 ≡ codes "[[]" ∷ codes "[[]" ∷ codes "[[]" ∷ []
unfolding chunk_text join
turns_run = refl

-- Plain text, cut after a sentence, at a word, and inside a word.
plain_run :
    chunk_text brackets (codes "One two. Threefour five") 9
    ≡ codes "One two." ∷ codes "Threefour" ∷ codes "five" ∷ []
unfolding chunk_text trim strip_last is_white
plain_run = refl

chunk_text-Fit_example : Fit 9 (chunk_text brackets (codes "One two. Threefour five") 9)
chunk_text-Fit_example =
    chunk_text-Fit brackets (codes "One two. Threefour five") 9 (omega arith)
      (unfold trim trim_start trim_end is_white in refl)

chunk_text-chunk_text_example :
    All (λ c. chunk_text brackets c 4 ≡ c ∷ []) (chunk_text brackets (codes "[xxxxxx") 4)
chunk_text-chunk_text_example = chunk_text-chunk_text brackets (codes "[xxxxxx") 4 (omega arith)

solids-chunk_text_example :
    solids (chunk_text brackets (codes "One two. Threefour five") 9)
    ≡ solid (codes "One two. Threefour five")
solids-chunk_text_example = solids-chunk_text brackets (codes "One two. Threefour five") 9 refl
