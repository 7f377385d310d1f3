-- ===== src/Chunk/Whole/Sizes.antt =====
-- The size that the loops of crates/memgardend/src/retain/chunk.rs keep is the size of what they hold.
use memgarden.Prelude.{
  ℕ, ◌+◌, ◌≤◌, min, true, false, not, ◌≡◌, List, [], ◌∷◌, ◌++◌, map, refl, arith, ltb, ◌&&◌,
  Bool-cases, inl, inr,
}
use memgarden.Prelude.Lists.{length, length-append, All, All-append}
use memgarden.Prelude.Text.{Text, is_nil, is_blank, join}
use memgarden.Chunk.Json.{Json}
use memgarden.Chunk.Split.{split_oversized_unit, split_recursive, separators, solid_only}
use memgarden.Chunk.Split.Fits.{Fit, split_oversized_unit-Fit}
use memgarden.Chunk.Whole.{
  flush, size_after, conversation_loop, chunk_conversation, push_lines, lines_size_after,
  jsonl_loop,
}

-- Each text and a separator of one character.
abbrev pub weight : List Text → ℕ
weight [] = 0
weight (p ∷ ps) = length p + 1 + weight ps

weight-append : (ps : List Text) (p : Text) → weight (ps ++ p ∷ []) ≡ weight ps + length p + 1
weight-append [] p = omega arith
weight-append (q ∷ ps) p = omega (arith, weight-append ps p)

length-join :
    (c : ℕ) (p : Text) (ps : List Text) → length (join (c ∷ []) (p ∷ ps)) + 1 ≡ weight (p ∷ ps)
unfolding join
length-join c p [] = omega arith
length-join c p (q ∷ ps) =
    let rest = join (c ∷ []) (q ∷ ps) in
    omega (arith, length-join c q ps, length-append (p ++ c ∷ []) rest, length-append p (c ∷ []))

append_cons {ℓ} : {A : Type ℓ} (xs ys : List A) → is_nil xs ≡ false → is_nil (xs ++ ys) ≡ false
append_cons [] ys h = cc
append_cons (x ∷ xs) ys h = refl

-- An oversized unit has a piece.
unit-cons : (max_chars : ℕ) (text : Text) → is_nil (split_oversized_unit max_chars text) ≡ false
unfolding split_oversized_unit
unit-cons max_chars text =
    elim (Bool-cases (is_nil (solid_only (split_recursive max_chars separators text)))) [
      | inl e ↦ rw e refl
      | inr e ↦ rw (e, e) refl
    ]

module _ (max_chars : ℕ) where
  -- The lines that are held, and their size.
  pub record Held (current : List Text) (size : ℕ) : Type 0 where
    pub exact : size ≡ weight current
    pub small : weight current ≤ max_chars + 1

  pub Held-nil : Held [] 0
  Held-nil = record { exact = omega arith; small = omega arith }

  push_lines-Fit :
      (current : List Text) (size : ℕ) → Held current size → Fit max_chars (push_lines current)
  unfolding push_lines
  push_lines-Fit [] size h = tt
  push_lines-Fit (l ∷ ls) size h = (omega (arith, length-join 10 l ls, h.small), tt)

  Held-line :
      (line : Text) (current : List Text) (size : ℕ)
      → Held current size
      → length line ≤ max_chars
      → (ltb max_chars (size + (length line + 1)) && not (is_nil current)) ≡ false
      → Held (current ++ line ∷ []) (size + (length line + 1))
  Held-line line [] size h f o = record { exact = omega (arith, h.exact); small = omega arith }
  Held-line line (c ∷ cs) size h f o =
      let w = weight-append (c ∷ cs) line in
      record { exact = omega (arith, h.exact, w); small = ground (arith, h.exact, w) }

  lines_size_after_lem :
      (current : List Text) (size : ℕ) → Held current size → lines_size_after current size ≡ 0
  lines_size_after_lem [] size h = h.exact
  lines_size_after_lem (c ∷ cs) size h = refl

  pub jsonl_loop-Fit :
      (j : Json) (ls current : List Text) (size : ℕ)
      → 1 ≤ max_chars
      → All (λ l. is_blank l ≡ false) ls
      → Held current size
      → Fit max_chars (jsonl_loop j max_chars max_chars ls current size)
  unfolding jsonl_loop
  jsonl_loop-Fit j [] current size p b h = push_lines-Fit current size h
  jsonl_loop-Fit j (l ∷ ls) current size p b h =
      let zero_after = lines_size_after_lem current size h in
      let pushed = push_lines-Fit current size h in
      elim (Bool-cases (ltb max_chars (length l))) [
        | inl e ↦
            let m : min max_chars max_chars ≡ max_chars = omega arith in
            rw (e, zero_after, m)
              (All-append _ (push_lines current ++ split_oversized_unit max_chars l)
                (jsonl_loop j max_chars max_chars ls [] 0)
                (All-append _ (push_lines current) (split_oversized_unit max_chars l) pushed
                  (split_oversized_unit-Fit max_chars l p b.0))
                (jsonl_loop-Fit j ls [] 0 p b.1 Held-nil))
        | inr e ↦
            elim (Bool-cases (ltb max_chars (size + (length l + 1)) && not (is_nil current))) [
              | inl o ↦
                  rw (e, o, zero_after)
                    (All-append _ (push_lines current)
                      (jsonl_loop j max_chars max_chars ls (l ∷ []) (0 + (length l + 1))) pushed
                      (jsonl_loop-Fit j ls (l ∷ []) (0 + (length l + 1)) p b.1
                        (record { exact = omega arith; small = ground arith })))
              | inr o ↦
                  rw (e, o)
                    (jsonl_loop-Fit j ls (current ++ l ∷ []) (size + (length l + 1)) p b.1
                      (Held-line l current size h (ground arith) o))
            ]
      ]

  module _ (j : Json) where
    open j use {Value, to_string, of_array, compact, solid_text}

    abbrev written : List Value → List Text
    written = map to_string

    -- The turns that are held, and the size of their array, with a comma to spare.
    pub record Packed (current : List Value) (size : ℕ) : Type 0 where
      pub exact : size ≡ weight (written current) + 2
      pub small : weight (written current) + 1 ≤ max_chars

    pub Packed-nil : 1 ≤ max_chars → Packed [] 2
    Packed-nil p = record { exact = omega arith; small = omega arith }

    length-of_array :
        (v : Value) (vs : List Value)
        → length (to_string (of_array (v ∷ vs))) ≡ weight (written (v ∷ vs)) + 1
    length-of_array v vs =
        let inner = join (44 ∷ []) (written (v ∷ vs)) in
        rw (compact (v ∷ vs)) (
          omega (
            arith,
            length-append (91 ∷ inner) (93 ∷ []),
            length-join 44 (to_string v) (written vs),
          ))

    flush-Fit :
        (current : List Value) (size : ℕ) → Packed current size → Fit max_chars (flush j current)
    unfolding flush
    flush-Fit [] size h = tt
    flush-Fit (v ∷ vs) size h = (omega (arith, length-of_array v vs, h.small), tt)

    weight-turns :
        (vs : List Value) (v : Value)
        → weight (written (vs ++ v ∷ [])) ≡ weight (written vs) + length (to_string v) + 1
    weight-turns [] v = omega arith
    weight-turns (u ∷ vs) v = omega (arith, weight-turns vs v)

    Packed-turn :
        (v : Value) (current : List Value) (size : ℕ)
        → Packed current size
        → length (to_string v) + 2 ≤ max_chars
        → (ltb max_chars (size + (length (to_string v) + 1)) && not (is_nil current)) ≡ false
        → Packed (current ++ v ∷ []) (size + (length (to_string v) + 1))
    Packed-turn v [] size h f o = record { exact = omega (arith, h.exact); small = omega arith }
    Packed-turn v (c ∷ cs) size h f o =
        let w = weight-turns (c ∷ cs) v in
        record { exact = omega (arith, h.exact, w); small = ground (arith, h.exact, w) }

    size_after_lem :
        (current : List Value) (size : ℕ) → Packed current size → size_after j current size ≡ 2
    size_after_lem [] size h = h.exact
    size_after_lem (c ∷ cs) size h = refl

    conversation_loop-Fit :
        (turns current : List Value) (size : ℕ)
        → 1 ≤ max_chars
        → Packed current size
        → Fit max_chars (conversation_loop j max_chars max_chars turns current size)
    unfolding conversation_loop
    conversation_loop-Fit [] current size p h = flush-Fit current size h
    conversation_loop-Fit (v ∷ vs) current size p h =
        let two_after = size_after_lem current size h in
        let flushed = flush-Fit current size h in
        elim (Bool-cases (ltb max_chars (length (to_string v) + 2))) [
          | inl e ↦
              let m : min max_chars max_chars ≡ max_chars = omega arith in
              let pieces = split_oversized_unit max_chars (to_string v) in
              rw (e, two_after, m)
                (All-append _ (flush j current ++ pieces)
                  (conversation_loop j max_chars max_chars vs [] 2)
                  (All-append _ (flush j current) pieces flushed
                    (split_oversized_unit-Fit max_chars (to_string v) p (solid_text v)))
                  (conversation_loop-Fit vs [] 2 p (Packed-nil p)))
          | inr e ↦
              elim (Bool-cases
                (ltb max_chars (size + (length (to_string v) + 1)) && not (is_nil current))) [
                  | inl o ↦
                      let n = 2 + (length (to_string v) + 1) in
                      rw (e, o, two_after)
                        (All-append _ (flush j current)
                          (conversation_loop j max_chars max_chars vs (v ∷ []) n) flushed
                          (conversation_loop-Fit vs (v ∷ []) n p
                            (record { exact = omega arith; small = ground arith })))
                  | inr o ↦
                      rw (e, o)
                        (conversation_loop-Fit vs (current ++ v ∷ [])
                          (size + (length (to_string v) + 1)) p
                          (Packed-turn v current size h (ground arith) o))
                ]
        ]

    loop-cons :
        (turns : List Value) (c : Value) (cs : List Value) (size : ℕ)
        → is_nil (conversation_loop j max_chars max_chars turns (c ∷ cs) size) ≡ false
    unfolding conversation_loop flush
    loop-cons [] c cs size = refl
    loop-cons (v ∷ vs) c cs size = elim (Bool-cases (ltb max_chars (length (to_string v) + 2))) [
      | inl e ↦ rw e refl
      | inr e ↦ elim (Bool-cases (ltb max_chars (size + (length (to_string v) + 1)))) [
        | inl o ↦ rw (e, o) refl
        | inr o ↦ rw (e, o) (loop-cons vs c (cs ++ v ∷ []) (size + (length (to_string v) + 1)))
      ]
    ]

    loop-first :
        (v : Value) (vs : List Value)
        → is_nil (conversation_loop j max_chars max_chars (v ∷ vs) [] 2) ≡ false
    unfolding conversation_loop flush
    loop-first v vs = elim (Bool-cases (ltb max_chars (length (to_string v) + 2))) [
      | inl e ↦ rw e (
          append_cons (split_oversized_unit (min max_chars max_chars) (to_string v)) _
            (unit-cons (min max_chars max_chars) (to_string v)))
      | inr e ↦ elim (Bool-cases (ltb max_chars (2 + (length (to_string v) + 1)))) [
        | inl o ↦ rw (e, o) (loop-cons vs v [] (2 + (length (to_string v) + 1)))
        | inr o ↦ rw (e, o) (loop-cons vs v [] (2 + (length (to_string v) + 1)))
      ]
    ]

    no_turns :
        (turns : List Value)
        → is_nil (conversation_loop j max_chars max_chars turns [] 2) ≡ true
        → length (to_string (of_array turns)) ≡ 2
    unfolding join
    no_turns [] e = rw (compact []) refl
    no_turns (v ∷ vs) e = cc (loop-first v vs, e)

    -- The chunks of a conversation fit; where there is no turn, the two brackets do.
    pub chunk_conversation-Fit :
        (turns : List Value)
        → 2 ≤ max_chars
        → Fit max_chars (chunk_conversation j max_chars max_chars turns)
    unfolding chunk_conversation
    chunk_conversation-Fit turns p =
        elim (Bool-cases (is_nil (conversation_loop j max_chars max_chars turns [] 2))) [
          | inl e ↦ rw e (omega (arith, no_turns turns e), tt)
          | inr e ↦ rw e (conversation_loop-Fit turns [] 2 (omega arith) (Packed-nil (omega arith)))
        ]
