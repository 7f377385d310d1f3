-- ===== src/Hook/Reader/Whole.antt =====
-- What one read of crates/memgarden-cli/src/transcript.rs covers.
use memgarden.Prelude.{
  ℕ, zero, suc, ◌+◌, ◌≤◌, true, false, Option, some, List, [], ◌∷◌, ◌++◌, ◌≡◌, ◌⊎◌, inl, inr, refl,
  sym, ◌∙◌, ap, arith, Bool-cases, ◌==◌,
}
use mathlib.Core.List.{append_assoc, append-nil}
use memgarden.Prelude.Lists.{length, drop, length-drop, length-append, All}
use memgarden.Prelude.Text.{Text, flat}
use memgarden.Hook.Reader.{
  max_line_bytes, next_line, ends_line, Entry, Delta, Reading, take_line, read_loop, reading_at,
  read_delta,
}
use memgarden.Hook.Reader.Took.{taken, boundaries, weight, values, Took, Took-line}

next_line-append : (n : ℕ) (s : Text) → (next_line n s).0 ++ (next_line n s).1 ≡ s
unfolding next_line
next_line-append zero s = refl
next_line-append (suc n) [] = refl
next_line-append (suc n) (c ∷ s) = elim (Bool-cases (c == 10)) [
  | inl e ↦ rw e refl
  | inr e ↦ rw e (ap (λ r. c ∷ r) (next_line-append n s))
]

module _ {V : Type 0} (parse : Text → Option (Entry V)) (size : V → ℕ) (max_post_bytes : ℕ) where
  -- A loop that has the fuel: the lines that it takes, and where it stops.
  record Reads (from : ℕ) (before : List Text) (s : Text) (r : Reading V) : Type 0 where
    more : List Text
    rest : Text
    spells : flat more ++ rest ≡ s
    lines : All (λ l. ends_line l ≡ true) more
    stops : ends_line (next_line max_line_bytes rest).0 ≡ false
    took : Took parse size max_post_bytes from (before ++ more) r

  length-line : (l : Text) → ends_line l ≡ true → 1 ≤ length l
  length-line [] h = cc
  length-line (c ∷ l) h = omega arith

  read_loop-Reads :
      (fuel from : ℕ) (before : List Text) (s : Text) (r : Reading V)
      → length s ≤ fuel
      → Took parse size max_post_bytes from before r
      → Reads from before s (read_loop parse size max_post_bytes fuel s r)
  unfolding read_loop flat
  read_loop-Reads zero from before [] r f t = record {
    more = [];
    rest = [];
    spells = refl;
    lines = tt;
    stops = unfold next_line in refl;
    took = rw (append-nil before) t;
  }
  read_loop-Reads zero from before (c ∷ s) r f t = absurd (omega arith)
  read_loop-Reads (suc fuel) from before s r f t =
      let l = (next_line max_line_bytes s).0 in
      let rest = (next_line max_line_bytes s).1 in
      elim (Bool-cases (ends_line l)) [
        | inl e ↦
            let shorter : length rest ≤ fuel = omega (
              arith,
              length-line l e,
              length-append l rest,
              ap length (next_line-append max_line_bytes s),
            ) in
            let ih =
              read_loop-Reads fuel from (before ++ l ∷ []) rest
                (take_line parse size max_post_bytes l r) shorter
                (Took-line parse size max_post_bytes from before l r t) in
            rw e (record {
              more = l ∷ ih.more;
              rest = ih.rest;
              spells =
                  append_assoc l (flat ih.more) ih.rest
                  ∙ ap (λ q. l ++ q) ih.spells
                  ∙ next_line-append max_line_bytes s;
              lines = (e, ih.lines);
              stops = ih.stops;
              took = rw (sym (append_assoc before (l ∷ []) ih.more)) ih.took;
            })
        | inr e ↦ rw e (record {
          more = [];
          rest = s;
          spells = refl;
          lines = tt;
          stops = e;
          took = rw (append-nil before) t;
        })
      ]

  -- What a read from `from` covers: whole lines, to the first that is not whole.
  pub record Covers (bytes : Text) (from : ℕ) (d : Delta V) : Type 0 where
    pub lines : List Text
    pub rest : Text
    pub spells : flat lines ++ rest ≡ drop from bytes
    pub complete : All (λ l. ends_line l ≡ true) lines
    pub stops : ends_line (next_line max_line_bytes rest).0 ≡ false
    pub consumed : d.consumed_to ≡ from + length (flat lines)
    pub counted : d.compactions ≡ boundaries parse size max_post_bytes lines
    pub dropped : List V
    pub messages : taken parse size max_post_bytes lines ≡ dropped ++ d.messages
    pub whole : d.truncated ≡ false → dropped ≡ []
    pub fits :
        (d.messages ≡ []) ⊎ (weight parse size max_post_bytes d.messages + 1 ≤ max_post_bytes)

  fits_values :
      (w : List (ℕ × V)) (total : ℕ)
      → total ≡ weight parse size max_post_bytes (values parse size max_post_bytes w)
      → (w ≡ []) ⊎ (total + 1 ≤ max_post_bytes)
      → (values parse size max_post_bytes w ≡ [])
        ⊎ (weight parse size max_post_bytes (values parse size max_post_bytes w) + 1
            ≤ max_post_bytes)
  fits_values w total t (inl e) = inl (rw e refl)
  fits_values w total t (inr h) = inr (omega (arith, t, h))

  Took-start : (from : ℕ) → Took parse size max_post_bytes from [] (reading_at from)
  Took-start from = record {
    consumed = unfold flat in omega arith;
    counted = refl;
    dropped = [];
    messages = refl;
    whole = λ h. refl;
    sized = tt;
    total = refl;
    fits = inl refl;
  }

  -- One read of a transcript: the cursor moves over exactly the whole lines behind it, up to the
  -- first that no line feed ends yet, or not within 32 MiB; their compactions are counted, and their messages delivered in
  -- order. Only leading messages are dropped, which `truncated` reports, and those delivered are within
  -- the size that a post may have.
  pub read_delta-Covers :
      (bytes : Text) (from : ℕ)
      → Covers bytes from (read_delta parse size max_post_bytes (some bytes) from)
  unfolding read_delta
  read_delta-Covers bytes from =
      let enough : length (drop from bytes) ≤ length bytes =
        omega (arith, length-drop from bytes) in
      let r =
        read_loop-Reads (length bytes) from [] (drop from bytes) (reading_at from) enough
          (Took-start from) in
      record {
        lines = r.more;
        rest = r.rest;
        spells = r.spells;
        complete = r.lines;
        stops = r.stops;
        consumed = r.took.consumed;
        counted = r.took.counted;
        dropped = r.took.dropped;
        messages = r.took.messages;
        whole = r.took.whole;
        fits = fits_values _ _ r.took.total r.took.fits;
      }
