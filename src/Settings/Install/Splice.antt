-- ===== src/Settings/Install/Splice.antt =====
-- The comma, the white space and the splice of crates/memgarden-cli/src/settings.rs.
use memgarden.Prelude.{
  ℕ, suc, ◌+◌, ◌-◌, Bool, true, false, ◌||◌, [], ◌∷◌, ◌++◌, ◌≡◌, ◌∙◌, refl, ap, ◌==◌, if◌then◌else◌,
  arith,
}
use mathlib.Core.List.{append_assoc}
use memgarden.Prelude.Lists.{length, drop, take, drop-append}
use memgarden.Prelude.Text.{Text, codes, contains}
use memgarden.Settings.Scan.{is_ascii_whitespace, is_inline, skip_ws_inline, is_at, byte_of}
use memgarden.Settings.Scan.Runs.{skip_ws_lem, drop-past}
use memgarden.Settings.Scan.Members.{layout_member, IsWhite-append}
use memgarden.Settings.Tree.{
  Value, Members, Items, text, atom, object, array, end, member, nil, item, layout, layout_members,
  layout_items, comma, item_comma, all, IsWhite, IsValue, IsMembers, IsItems,
}
use memgarden.Settings.Install.{
  trailing_comma, or_else, last_line, blanks, inner_indent, inserted_text, splice,
}

abbrev is_close : ℕ → Bool
is_close c = (c == 125) || (c == 93)

trailing_comma_lem :
    (s : Text) (o c : ℕ) (a r : Text)
    → drop (o + 1) s ≡ a ++ c ∷ r
    → IsWhite a
    → is_ascii_whitespace c ≡ false
    → trailing_comma s o ≡ (if is_close c then [] else 44 ∷ [])
trailing_comma_lem s o c a r e h k =
    let at = skip_ws_lem s (o + 1) a (c ∷ r) e h (rw k refl) in
    let behind = drop-past s (o + 1) a (c ∷ r) e in rw (at, behind) refl

pub trailing_comma-members :
    (s : Text) (o : ℕ) (ms : Members) (rest : Text)
    → IsMembers ms
    → drop (o + 1) s ≡ layout_members ms ++ 125 ∷ rest
    → trailing_comma s o ≡ comma ms
unfolding layout IsValue
trailing_comma-members s o (end w) rest h e = trailing_comma_lem s o 125 w rest e h refl
trailing_comma-members s o (member a k b c v d ms) rest h e =
    trailing_comma_lem s o 34 a _ (e ∙ layout_member a k b c v d ms (125 ∷ rest)) h.0 refl

-- The first byte of a value closes nothing.
value_head :
    (v : Value)
    → IsValue v
    → (c : ℕ) × (r : Text) × (layout v ≡ c ∷ r)
      × (is_ascii_whitespace c ≡ false)
      × (is_close c ≡ false)
unfolding layout IsValue byte_of
value_head (text s) h = (34, s ++ 34 ∷ [], refl, refl, refl)
value_head (atom c s) h = (c, s, refl, ground arith, ground arith)
value_head (object ms) h = (123, layout_members ms ++ 125 ∷ [], refl, refl, refl)
value_head (array is) h = (91, layout_items is ++ 93 ∷ [], refl, refl, refl)

pub trailing_comma-items :
    (s : Text) (o : ℕ) (is : Items) (rest : Text)
    → IsItems is
    → drop (o + 1) s ≡ layout_items is ++ 93 ∷ rest
    → trailing_comma s o ≡ item_comma is
unfolding layout IsValue
trailing_comma-items s o (nil w) rest h e = trailing_comma_lem s o 93 w rest e h refl
trailing_comma-items s o (item a v b is) rest (ha, hv, hb, his) e =
    let (c, r, f, x, y) = value_head v hv in
    let tail = b ++ (item_comma is ++ (layout_items is ++ 93 ∷ rest)) in
    let g : drop (o + 1) s ≡ a ++ c ∷ (r ++ tail) =
      e ∙ (simp append_assoc) ∙ ap (λ t. a ++ (t ++ tail)) f in
    trailing_comma_lem s o c a (r ++ tail) g ha x ∙ rw y refl

all-append : (p : ℕ → Bool) (s t : Text) → all p s ≡ true → all p t ≡ true → all p (s ++ t) ≡ true
all-append p [] t h k = k
all-append p (c ∷ s) t h k = ground (arith, all-append p s t)

all-inline-IsWhite : (s : Text) → all is_inline s ≡ true → IsWhite s
all-inline-IsWhite [] h = refl
all-inline-IsWhite (c ∷ s) h = ground (arith, all-inline-IsWhite s)

blanks-inline : (s : Text) → all is_inline (blanks s) ≡ true
unfolding blanks
blanks-inline [] = refl
blanks-inline (c ∷ s) = ground (arith, blanks-inline s)

or_else-all :
    (p : ℕ → Bool) (s t : Text) → all p s ≡ true → all p t ≡ true → all p (or_else s t) ≡ true
or_else-all p [] t h k = k
or_else-all p (c ∷ s) t h k = h

if-all :
    (p : ℕ → Bool) (b : Bool) (s t : Text)
    → all p s ≡ true
    → all p t ≡ true
    → all p (if b then s else t) ≡ true
if-all p true s t h k = h
if-all p false s t h k = k

pub inner_indent-inline : (s : Text) (i : ℕ) → all is_inline (inner_indent s i) ≡ true
unfolding inner_indent
inner_indent-inline s i =
    let j = skip_ws_inline s i in
    let child = drop (j + 1) s in
    let before = take i s in
    let line = drop (i - length (last_line before before)) s in
    let at_feed = is_at 10 (drop j s) in
    or_else-all is_inline (if at_feed then blanks child else []) (blanks line ++ codes "  ")
      (if-all is_inline at_feed (blanks child) [] (blanks-inline child) refl)
      (all-append is_inline (blanks line) (codes "  ") (blanks-inline line) refl)

-- The white space before what is inserted.
abbrev pub lead : Text → ℕ → Text
lead s at = (if contains (13 ∷ 10 ∷ []) s then 13 ∷ 10 ∷ [] else 10 ∷ []) ++ inner_indent s at

pub lead-IsWhite : (s : Text) (at : ℕ) → IsWhite (lead s at)
lead-IsWhite s at =
    IsWhite-append (if contains (13 ∷ 10 ∷ []) s then 13 ∷ 10 ∷ [] else 10 ∷ []) (inner_indent s at)
      (if-all is_ascii_whitespace (contains (13 ∷ 10 ∷ []) s) (13 ∷ 10 ∷ []) (10 ∷ []) refl refl)
      (all-inline-IsWhite (inner_indent s at) (inner_indent-inline s at))

take-past : (x y : Text) (c : ℕ) → take (length x + 1) (x ++ c ∷ y) ≡ x ++ c ∷ []
take-past [] y c = refl
take-past (d ∷ x) y c =
    let e : suc (length x) + 1 ≡ suc (length x + 1) = omega arith in
    rw e (ap (λ t. d ∷ t) (take-past x y c))

-- What is spliced in stands right behind the byte that opens the container.
pub splice_lem :
    (s before rest : Text) (c at : ℕ) (chunk : Text)
    → s ≡ before ++ c ∷ rest
    → at ≡ length before + 1
    → splice s (at, chunk) ≡ before ++ c ∷ (lead s at ++ (chunk ++ rest))
unfolding inserted_text
splice_lem s before rest c at chunk e f =
    let head : take at s ≡ before ++ c ∷ [] =
      ap (λ n. take n s) f ∙ ap (λ t. take (length before + 1) t) e ∙ take-past before rest c in
    let behind : drop (length before + 1) s ≡ rest =
      drop-past s (length before) (c ∷ []) rest
        (ap (λ t. drop (length before) t) e ∙ drop-append before (c ∷ rest)) in
    let tail : drop at s ≡ rest = ap (λ n. drop n s) f ∙ behind in
    ap (λ t. t ++ (inserted_text s at chunk ++ drop at s)) head
    ∙ ap (λ t. (before ++ c ∷ []) ++ (inserted_text s at chunk ++ t)) tail
    ∙ (simp append_assoc)
