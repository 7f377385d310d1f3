-- ===== src/Settings/Uninstall/Restores.antt =====
-- `uninstall` takes out of a text what one splice of `install` has put into it,
-- crates/memgarden-cli/src/settings.rs.
use memgarden.Prelude.{
  ℕ, zero, suc, ◌+◌, ◌-◌, ◌≤◌, ◌<◌, Bool, true, false, not, Option, none, some, [], ◌∷◌, ◌++◌, ◌≡◌,
  ◌∙◌, refl, sym, ap, arith, leb, ltb, ◌==◌, if◌then◌else◌, Bool-cases, inl, inr,
}
use mathlib.Core.List.{append_assoc}
use memgarden.Prelude.Lists.{length, take, drop, length-append, length-drop, drop-append}
use memgarden.Prelude.Text.{Text, contains}
use memgarden.Settings.Scan.{ws_loop, skip_ws_inline, is_inline, get_range}
use memgarden.Settings.Scan.Runs.{drop-past}
use memgarden.Settings.Scan.Members.{take-append}
use memgarden.Settings.View.{has_code}
use memgarden.Settings.Tree.{all}
use memgarden.Settings.Install.{inner_indent, splice}
use memgarden.Settings.Install.Splice.{lead, splice_lem, inner_indent-inline}
use memgarden.Settings.Uninstall.{
  feed_loop, chunk_end, commands, span_end, with_return, may_start, chunk_span, remove,
}

abbrev pub starts_line : Text → Bool
starts_line [] = false
starts_line (c ∷ r) = not (is_inline c)

-- What `install` inserts, up to the blanks: one line, that ends where the scan says, and holds one
-- command.
pub record IsChunk (chunk rest : Text) : Type 0 where
  pub begins : starts_line chunk ≡ true
  pub one_line : has_code 10 chunk ≡ false
  pub once : commands chunk ≡ 1
  pub ends : (s : Text) (i : ℕ) → drop i s ≡ chunk ++ rest → chunk_end s i ≡ some (i + length chunk)
  pub ours : (s : Text) (i : ℕ) → drop i s ≡ chunk ++ rest → may_start s i ≡ true

has_code-append :
    (c : ℕ) (x y : Text) → has_code c x ≡ false → has_code c y ≡ false → has_code c (x ++ y) ≡ false
has_code-append c [] y h k = k
has_code-append c (d ∷ x) y h k = ground (arith, has_code-append c x y)

has_code-take :
    (c n : ℕ) (x y : Text)
    → n ≤ length x
    → has_code c x ≡ false
    → has_code c (take n (x ++ y)) ≡ false
has_code-take c zero x y k h = refl
has_code-take c (suc n) [] y k h = absurd (omega arith)
has_code-take c (suc n) (d ∷ x) y k h = ground (arith, has_code-take c n x y (omega arith))

has_code-inline : (x : Text) → all is_inline x ≡ true → has_code 10 x ≡ false
has_code-inline [] h = refl
has_code-inline (c ∷ x) h = ground (arith, has_code-inline x)

feed_loop-none :
    (best : Option ℕ) (i : ℕ) (y : Text) → has_code 10 y ≡ false → feed_loop best i y ≡ best
unfolding feed_loop
feed_loop-none best i [] h = refl
feed_loop-none best i (c ∷ y) h =
    let f : (c == 10) ≡ false = ground arith in
    let g : has_code 10 y ≡ false = ground arith in rw f (feed_loop-none best (suc i) y g)

-- The last line feed.
feed_loop-last :
    (best : Option ℕ) (i : ℕ) (x y : Text)
    → has_code 10 y ≡ false
    → feed_loop best i (x ++ 10 ∷ y) ≡ some (i + length x)
unfolding feed_loop
feed_loop-last best i [] y h = feed_loop-none (some i) (suc i) y h ∙ ap (λ n. some n) (omega arith)
feed_loop-last best i (c ∷ x) y h =
    feed_loop-last (if c == 10 then some i else best) (suc i) x y h ∙ ap (λ n. some n) (omega arith)

take-past : (x y : Text) (n : ℕ) → take (length x + n) (x ++ y) ≡ x ++ take n y
take-past [] y n = let e : 0 + n ≡ n = omega arith in rw e refl
take-past (c ∷ x) y n =
    let e : suc (length x) + n ≡ suc (length x + n) = omega arith in
    rw e (ap (λ t. c ∷ t) (take-past x y n))

ws_loop_inline :
    (i : ℕ) (w rest : Text)
    → all is_inline w ≡ true
    → starts_line rest ≡ true
    → ws_loop is_inline i (w ++ rest) ≡ i + length w
unfolding ws_loop
ws_loop_inline i [] [] h k = cc
ws_loop_inline i [] (c ∷ r) h k = ground arith
ws_loop_inline i (c ∷ w) rest h k = ground (arith, ws_loop_inline (suc i) w rest)

starts_line-append : (x y : Text) → starts_line x ≡ true → starts_line (x ++ y) ≡ true
starts_line-append [] y h = cc
starts_line-append (c ∷ x) y h = h

get_range-piece :
    (s : Text) (a : ℕ) (x rest : Text)
    → drop a s ≡ x ++ rest
    → 0 < length x
    → get_range s a (a + length x) ≡ some x
unfolding get_range
get_range-piece s a x rest e h =
    let f : take (length x) (x ++ rest) ≡ x = take-append x rest in
    let long : length s - a ≡ length x + length rest =
      sym (length-drop a s) ∙ ap length e ∙ length-append x rest in
    let p : leb a (a + length x) ≡ true = ground arith in
    let q : leb (a + length x) (length s) ≡ true = ground arith in
    let n : a + length x - a ≡ length x = omega arith in rw (p, q, n, e, f) refl

with_return_lem :
    (t before y : Text) (c : ℕ) (r : Bool)
    → t ≡ (before ++ c ∷ (if r then 13 ∷ [] else [])) ++ 10 ∷ y
    → (c == 13) ≡ false
    → with_return t (length (before ++ c ∷ (if r then 13 ∷ [] else []))) ≡ length before + 1
with_return_lem t before y c true e h =
    let n : length (before ++ c ∷ 13 ∷ []) ≡ length before + 2 =
      omega (arith, length-append before (c ∷ 13 ∷ [])) in
    let m : length before + 2 - 1 ≡ length before + 1 = omega arith in
    let p : leb 1 (length before + 2) ≡ true = ground arith in
    let f = e ∙ append_assoc before (c ∷ 13 ∷ []) (10 ∷ y) in
    let behind : drop (length before + 1) t ≡ 13 ∷ 10 ∷ y =
      drop-past t (length before) (c ∷ []) (13 ∷ 10 ∷ y)
        (ap (λ u. drop (length before) u) f ∙ drop-append before (c ∷ 13 ∷ 10 ∷ y)) in
    rw (n, p, m, behind) refl
with_return_lem t before y c false e h =
    let n : length (before ++ c ∷ []) ≡ length before + 1 =
      omega (arith, length-append before (c ∷ [])) in
    let m : length before + 1 - 1 ≡ length before = omega arith in
    let p : leb 1 (length before + 1) ≡ true = ground arith in
    let f = e ∙ append_assoc before (c ∷ []) (10 ∷ y) in
    let behind : drop (length before) t ≡ c ∷ 10 ∷ y =
      ap (λ u. drop (length before) u) f ∙ drop-append before (c ∷ 10 ∷ y) in
    rw (n, p, m, behind, h) refl

module _ (s before rest : Text) (c : ℕ) (chunk : Text) (e : s ≡ before ++ c ∷ rest)
    (opens : (c == 13) ≡ false) (h : IsChunk chunk rest) where
  abbrev at : ℕ
  at = length before + 1

  abbrev spliced : Text
  spliced = splice s (at, chunk)

  abbrev returns : Text
  returns = if contains (13 ∷ 10 ∷ []) s then 13 ∷ [] else []

  abbrev indent : Text
  indent = inner_indent s at

  abbrev head : Text
  head = before ++ c ∷ returns

  lead_lem : lead s at ≡ returns ++ 10 ∷ indent
  lead_lem = elim (Bool-cases (contains (13 ∷ 10 ∷ []) s)) [ inl x ↦ rw x refl | inr x ↦ rw x refl ]

  text_lem : spliced ≡ (head ++ 10 ∷ indent) ++ (chunk ++ rest)
  text_lem =
      splice_lem s before rest c at chunk e refl
      ∙ ap (λ t. before ++ c ∷ (t ++ (chunk ++ rest))) lead_lem
      ∙ (simp append_assoc)

  abbrev line_at : ℕ
  line_at = length (head ++ 10 ∷ indent)

  at_chunk : drop line_at spliced ≡ chunk ++ rest
  at_chunk = ap (λ t. drop line_at t) text_lem ∙ drop-append (head ++ 10 ∷ indent) (chunk ++ rest)

  feed_lem :
      (k : ℕ)
      → k < length chunk
      → feed_loop none 0 (take (line_at + k) spliced) ≡ some (length head)
  feed_lem k less =
      let cut : take (line_at + k) spliced ≡ head ++ 10 ∷ (indent ++ take k (chunk ++ rest)) =
        ap (λ t. take (line_at + k) t) text_lem
        ∙ take-past (head ++ 10 ∷ indent) (chunk ++ rest) k
        ∙ append_assoc head (10 ∷ indent) (take k (chunk ++ rest)) in
      let none_in =
        has_code-append 10 indent (take k (chunk ++ rest))
          (has_code-inline indent (inner_indent-inline s at))
          (has_code-take 10 k chunk rest (omega arith) h.one_line) in
      ap (λ t. feed_loop none 0 t) cut
      ∙ feed_loop-last none 0 head (indent ++ take k (chunk ++ rest)) none_in
      ∙ ap (λ n. some n) (omega arith)

  line_lem : skip_ws_inline spliced (length head + 1) ≡ line_at
  unfolding skip_ws_inline
  line_lem =
      let text' : spliced ≡ head ++ 10 ∷ (indent ++ (chunk ++ rest)) =
        text_lem ∙ append_assoc head (10 ∷ indent) (chunk ++ rest) in
      let behind : drop (length head + 1) spliced ≡ indent ++ (chunk ++ rest) =
        drop-past spliced (length head) (10 ∷ []) (indent ++ (chunk ++ rest)) (
          ap (λ t. drop (length head) t) text'
          ∙ drop-append head (10 ∷ (indent ++ (chunk ++ rest)))) in
      ap (λ t. ws_loop is_inline (length head + 1) t) behind
      ∙ ws_loop_inline (length head + 1) indent (chunk ++ rest) (inner_indent-inline s at)
          (starts_line-append chunk rest h.begins)
      ∙ omega (arith, length-append head (10 ∷ indent))

  return_lem : with_return spliced (length head) ≡ at
  return_lem =
      with_return_lem spliced before (indent ++ (chunk ++ rest)) c (contains (13 ∷ 10 ∷ []) s)
        (text_lem ∙ append_assoc head (10 ∷ indent) (chunk ++ rest)) opens

  span_lem :
      (k : ℕ)
      → k < length chunk
      → span_end spliced (line_at + k) at line_at ≡ some (at, line_at + length chunk)
  unfolding span_end
  span_lem k less =
      let low : leb line_at (line_at + k) ≡ true = ground arith in
      let high : ltb (line_at + k) (line_at + length chunk) ≡ true = ground arith in
      let piece = get_range-piece spliced line_at chunk rest at_chunk (omega arith) in
      let once : (commands chunk == 1) ≡ true = rw (h.once) refl in
      rw (h.ends spliced line_at at_chunk, span_end, low, high, piece, once) refl

  span_at :
      (k : ℕ)
      → k < length chunk
      → chunk_span spliced (line_at + k) ≡ some (at, line_at + length chunk)
  unfolding chunk_span
  span_at k less =
      rw (feed_lem k less, chunk_span, line_lem, h.ours spliced line_at at_chunk, return_lem)
        (span_lem k less)

  line_at_lem : at + length (lead s at) ≡ line_at
  line_at_lem = omega (
    arith,
    ap length lead_lem,
    length-append returns (10 ∷ indent),
    length-append before (c ∷ returns),
    length-append head (10 ∷ indent),
  )

  remove_lem : remove spliced (at, line_at + length chunk) ≡ s
  remove_lem =
      let text = splice_lem s before rest c at chunk e refl in
      let front : take at spliced ≡ before ++ c ∷ [] =
        ap (λ t. take at t) text ∙ take-past before (c ∷ (lead s at ++ (chunk ++ rest))) 1 in
      let back : drop (line_at + length chunk) spliced ≡ rest =
        drop-past spliced line_at chunk rest at_chunk in
      ap (λ t. t ++ drop (line_at + length chunk) spliced) front
      ∙ ap (λ t. (before ++ c ∷ []) ++ t) back
      ∙ append_assoc before (c ∷ []) rest
      ∙ sym e

  -- Whatever `install` has inserted as one chunk into a text, `chunk_span` finds from any byte of the
  -- chunk, with the newline and the blanks before it; to remove it gives the text back, byte for byte,
  -- also where lines end in CRLF.
  pub chunk_span-splice :
      (k : ℕ)
      → k < length chunk
      → (span : ℕ × ℕ) × (chunk_span spliced (at + length (lead s at) + k) ≡ some span)
        × (remove spliced span ≡ s)
  chunk_span-splice k less = (
    (at, line_at + length chunk),
    ap (λ n. chunk_span spliced (n + k)) line_at_lem ∙ span_at k less,
    remove_lem,
  )
