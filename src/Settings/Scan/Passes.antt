-- ===== src/Settings/Scan/Passes.antt =====
-- The loop of `skip_container`, crates/memgarden-cli/src/settings.rs, over the pieces of a value.
use memgarden.Prelude.{
  ℕ, suc, ◌+◌, ◌-◌, ◌≤◌, Bool, true, false, some, [], ◌∷◌, ◌++◌, ◌≡◌, ◌∙◌, refl, sym, ap, ◌==◌,
  arith,
}
use mathlib.Core.List.{append_assoc}
use memgarden.Prelude.Lists.{length, drop, length-append, length-drop}
use memgarden.Prelude.Text.{Text}
use memgarden.Settings.Scan.{
  container_loop, skip_container, byte_of, Byte, quotes, opens, closes, other,
}
use memgarden.Settings.Tree.{
  Value, Members, Items, text, atom, object, array, end, member, nil, item, layout, layout_members,
  layout_items, comma, item_comma, quoted, all, is_spelling, is_other, is_atom_byte, IsWhite,
  IsValue, IsMembers, IsItems,
}
use memgarden.Settings.Scan.Runs.{drop-past, drop-suc, skip_string_lem}

-- Inside a container, the loop runs over the piece in so many rounds, and stays at its depth.
pub record Passes (x : Text) : Type 0 where
  pub rounds : ℕ
  pub few : rounds ≤ length x
  pub over :
      (s : Text) (n d i : ℕ) (rest : Text)
      → drop i s ≡ x ++ rest
      → container_loop (rounds + n) s (suc d) i ≡ container_loop n s (suc d) (i + length x)

Passes-nil : Passes []
Passes-nil = record {
  rounds = 0;
  few = omega arith;
  over = λ s n d i rest e.
      let f : 0 + n ≡ n = omega arith in let g : i + 0 ≡ i = omega arith in rw (f, g) refl;
}

Passes-append : {x y : Text} → Passes x → Passes y → Passes (x ++ y)
Passes-append {x} {y} p q = record {
  rounds = p.rounds + q.rounds;
  few = omega (arith, p.few, q.few, length-append x y);
  over = λ s n d i rest e.
      let a : p.rounds + q.rounds + n ≡ p.rounds + (q.rounds + n) = omega arith in
      let b : i + length (x ++ y) ≡ i + length x + length y = omega (arith, length-append x y) in
      let f = e ∙ append_assoc x y rest in
      rw (a, b)
        (p.over s (q.rounds + n) d i (y ++ rest) f
          ∙ q.over s n d (i + length x) rest (drop-past s i x (y ++ rest) f));
}

abbrev is_plain : ℕ → Bool
is_plain c = is_other (byte_of c)

other-is_plain : (c : ℕ) → is_plain c ≡ true → byte_of c ≡ other
other-is_plain c h = of_byte (byte_of c) h
  where
    of_byte : (b : Byte) → is_other b ≡ true → b ≡ other
    of_byte other h = refl
    of_byte quotes h = cc
    of_byte opens h = cc
    of_byte closes h = cc

Passes-byte : (c : ℕ) → is_plain c ≡ true → Passes (c ∷ [])
unfolding container_loop
Passes-byte c h = record {
  rounds = 1;
  few = omega arith;
  over = λ s n d i rest e.
      let a : 1 + n ≡ suc n = omega arith in
      let b : i + 1 ≡ suc i = omega arith in rw (a, e, container_loop, other-is_plain c h, b) refl;
}

Passes-plain : (x : Text) → all is_plain x ≡ true → Passes x
Passes-plain [] h = Passes-nil
Passes-plain (c ∷ x) h =
    Passes-append (Passes-byte c (ground arith)) (Passes-plain x (ground arith))

Passes-quoted : (x : Text) → is_spelling false x ≡ true → Passes (quoted x)
unfolding container_loop byte_of
Passes-quoted x h = record {
  rounds = 1;
  few = omega arith;
  over = λ s n d i rest e.
      let a : 1 + n ≡ suc n = omega arith in
      rw (a, e, container_loop, skip_string_lem s i x rest e h) refl;
}

module _ (s : Text) (n i c : ℕ) (r : Text) (e : drop i s ≡ c ∷ r) where
  loop_opens :
      (d : ℕ)
      → byte_of c ≡ opens
      → container_loop (suc n) s d i ≡ container_loop n s (suc d) (suc i)
  unfolding container_loop
  loop_opens d h = rw (e, container_loop, h) refl

  loop_closes :
      (d : ℕ)
      → byte_of c ≡ closes
      → container_loop (suc n) s (suc (suc d)) i ≡ container_loop n s (suc d) (suc i)
  unfolding container_loop
  loop_closes d h =
      let t : suc (suc d) - 1 ≡ suc d = omega arith in
      let f : (suc (suc d) - 1 == 0) ≡ false = ground arith in
      rw (e, container_loop, h, f) (ap (λ k. container_loop n s k (suc i)) t)

  loop_ends : byte_of c ≡ closes → container_loop (suc n) s 1 i ≡ some (suc i)
  unfolding container_loop
  loop_ends h = rw (e, container_loop, h) refl

-- What opens and closes around a piece.
module _ (left right : ℕ) (x : Text) (o : byte_of left ≡ opens) (c : byte_of right ≡ closes)
    (p : Passes x) where
  nested_rest : (rest : Text) → (left ∷ (x ++ right ∷ [])) ++ rest ≡ left ∷ (x ++ right ∷ rest)
  nested_rest rest = ap (λ t. left ∷ t) (append_assoc x (right ∷ []) rest)

  Passes-nested : Passes (left ∷ (x ++ right ∷ []))
  Passes-nested = record {
    rounds = suc (p.rounds + 1);
    few = omega (arith, p.few, length-append x (right ∷ []));
    over = λ s n d i rest e.
        let f = e ∙ nested_rest rest in
        let inner = drop-suc s i left (x ++ right ∷ rest) f in
        let behind = drop-past s (suc i) x (right ∷ rest) inner in
        let a : suc (p.rounds + 1) + n ≡ suc (p.rounds + suc n) = omega arith in
        let b : i + length (left ∷ (x ++ right ∷ [])) ≡ suc (suc i + length x) =
          omega (arith, length-append x (right ∷ [])) in
        rw (a, b)
          (loop_opens s (p.rounds + suc n) i left (x ++ right ∷ rest) f (suc d) o
            ∙ p.over s (suc n) (suc d) (suc i) (right ∷ rest) inner
            ∙ loop_closes s n (suc i + length x) right rest behind d c);
  }

  -- The scan of a container ends behind it, whatever follows.
  pub skip_container_lem :
      (s : Text) (i : ℕ) (rest : Text)
      → drop i s ≡ (left ∷ (x ++ right ∷ [])) ++ rest
      → skip_container s i ≡ some (i + length (left ∷ (x ++ right ∷ [])))
  unfolding skip_container
  skip_container_lem s i rest e =
      let f = e ∙ nested_rest rest in
      let inner = drop-suc s i left (x ++ right ∷ rest) f in
      let behind = drop-past s (suc i) x (right ∷ rest) inner in
      let long : length s - i ≡ suc (length x + suc (length rest)) =
        sym (length-drop i s) ∙ ap length f ∙ omega (arith, length-append x (right ∷ rest)) in
      let n = length s - p.rounds - 1 in
      let a : length s ≡ p.rounds + suc n = omega (arith, p.few, long) in
      let b : i + length (left ∷ (x ++ right ∷ [])) ≡ suc (suc i + length x) =
        omega (arith, length-append x (right ∷ [])) in
      rw b (
        loop_opens s (length s) i left (x ++ right ∷ rest) f 0 o
        ∙ ap (λ k. container_loop k s 1 (suc i)) a
        ∙ p.over s (suc n) 0 (suc i) (right ∷ rest) inner
        ∙ loop_ends s n (suc i + length x) right rest behind c)

pub open_brace : byte_of 123 ≡ opens
unfolding byte_of
open_brace = refl

pub open_bracket : byte_of 91 ≡ opens
unfolding byte_of
open_bracket = refl

pub close_brace : byte_of 125 ≡ closes
unfolding byte_of
close_brace = refl

pub close_bracket : byte_of 93 ≡ closes
unfolding byte_of
close_bracket = refl

white-is_plain : (w : Text) → IsWhite w → all is_plain w ≡ true
unfolding byte_of
white-is_plain [] h = refl
white-is_plain (c ∷ w) h = ground (arith, white-is_plain w)

atom-is_plain : (w : Text) → all is_atom_byte w ≡ true → all is_plain w ≡ true
atom-is_plain [] h = refl
atom-is_plain (c ∷ w) h = ground (arith, atom-is_plain w)

Passes-white : (w : Text) → IsWhite w → Passes w
Passes-white w h = Passes-plain w (white-is_plain w h)

Passes-comma : (ms : Members) → Passes (comma ms)
unfolding byte_of
Passes-comma (end w) = Passes-nil
Passes-comma (member a k b c v d ms) = Passes-byte 44 refl

Passes-item_comma : (is : Items) → Passes (item_comma is)
unfolding byte_of
Passes-item_comma (nil w) = Passes-nil
Passes-item_comma (item a v b is) = Passes-byte 44 refl

Passes-colon : Passes (58 ∷ [])
unfolding byte_of
Passes-colon = Passes-byte 58 refl

mutual
  unfolding layout IsValue

  pub Passes-value : (v : Value) → IsValue v → Passes (layout v)
  Passes-value (text s) h = Passes-quoted s h
  Passes-value (atom c s) h = Passes-plain (c ∷ s) (atom-is_plain (c ∷ s) h)
  Passes-value (object ms) h =
      Passes-nested 123 125 (layout_members ms) open_brace close_brace (Passes-members ms h)
  Passes-value (array is) h =
      Passes-nested 91 93 (layout_items is) open_bracket close_bracket (Passes-items is h)

  pub Passes-members : (ms : Members) → IsMembers ms → Passes (layout_members ms)
  Passes-members (end w) h = Passes-white w h
  Passes-members (member a k b c v d ms) (ha, hk, hb, hc, hv, hd, hms) =
      Passes-append (Passes-white a ha) (
        Passes-append (Passes-quoted k hk) (
          Passes-append (Passes-white b hb) (
            Passes-append (Passes-colon) (
              Passes-append (Passes-white c hc) (
                Passes-append (Passes-value v hv) (
                  Passes-append (Passes-white d hd)
                    (Passes-append (Passes-comma ms) (Passes-members ms hms))))))))

  pub Passes-items : (is : Items) → IsItems is → Passes (layout_items is)
  Passes-items (nil w) h = Passes-white w h
  Passes-items (item a v b is) (ha, hv, hb, his) = Passes-append (Passes-white a ha) (
      Passes-append (Passes-value v hv) (
        Passes-append (Passes-white b hb)
          (Passes-append (Passes-item_comma is) (Passes-items is his))))
