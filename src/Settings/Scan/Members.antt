-- ===== src/Settings/Scan/Members.antt =====
-- `find_member` of crates/memgarden-cli/src/settings.rs looks through the members of one object.
use memgarden.Prelude.{
  ℕ, zero, suc, ◌+◌, ◌-◌, ◌<◌, Bool, true, false, ◌&&◌, Option, none, some, List, [], ◌∷◌, ◌++◌,
  ◌≡◌, ◌∙◌, refl, sym, ap, leb, if◌then◌else◌, arith,
}
use mathlib.Core.List.{append_assoc}
use memgarden.Prelude.Lists.{length, take, drop, length-append, length-drop}
use memgarden.Prelude.Text.{Text, same_text}
use memgarden.Settings.Scan.{
  skip_ws, skip_value, get_range, Member, found_at, not_found, duplicate, found_or_not, is_some,
  member_loop, after_value, with_value,
}
use memgarden.Settings.Scan.Runs.{drop-past, drop-suc, skip_string_lem, skip_ws_lem}
use memgarden.Settings.Scan.Whole.{skip_value_lem, EndsWell, ends_here, starts_solid-layout}
use memgarden.Settings.Tree.{
  Value, Members, text, atom, object, array, end, member, layout, layout_members, comma, quoted,
  is_spelling, IsWhite, IsValue, IsMembers,
}

-- The offsets of the values of the members whose key is spelled `key`, where the members begin at `i`.
abbrev pub value_offset : ℕ → Text → Text → Text → Text → ℕ
value_offset i a k b c = i + length a + length (quoted k) + length b + 1 + length c

unfoldable pub offsets : Text → ℕ → Members → List ℕ
offsets key i (end w) = []
offsets key i (member a k b c v d ms) =
    let at = value_offset i a k b c in
    let rest = offsets key (at + length (layout v) + length d + length (comma ms)) ms in
    if same_text k key then at ∷ rest else rest

-- What a search says that has found `found`, and then these.
abbrev pub of_found : Option ℕ → List ℕ → Member
of_found none [] = not_found
of_found none (o ∷ []) = found_at o
of_found none (o ∷ p ∷ os) = duplicate
of_found (some v) [] = found_at v
of_found (some v) (o ∷ os) = duplicate

abbrev pub member_count : Members → ℕ
member_count (end w) = 0
member_count (member a k b c v d ms) = suc (member_count ms)

pub take-append : (x y : Text) → take (length x) (x ++ y) ≡ x
take-append [] y = refl
take-append (c ∷ x) y = ap (λ t. c ∷ t) (take-append x y)

-- The key is read back as it is spelled.
pub get_range_lem :
    (s : Text) (i : ℕ) (k rest : Text)
    → drop i s ≡ quoted k ++ rest
    → get_range s (i + 1) (i + length (quoted k) - 1) ≡ some k
unfolding get_range
get_range_lem s i k rest e =
    let f : drop i s ≡ 34 ∷ (k ++ 34 ∷ rest) =
      e ∙ ap (λ t. 34 ∷ t) (append_assoc k (34 ∷ []) rest) in
    let inner = drop-suc s i 34 (k ++ 34 ∷ rest) f in
    let g : i + 1 ≡ suc i = omega arith in
    let h : i + length (quoted k) - 1 ≡ suc i + length k =
      omega (arith, length-append k (34 ∷ [])) in
    let long : length s - i ≡ suc (length k + suc (length rest)) =
      sym (length-drop i s) ∙ ap length f ∙ omega (arith, length-append k (34 ∷ rest)) in
    let a : leb (suc i) (suc i + length k) ≡ true = ground arith in
    let b : leb (suc i + length k) (length s) ≡ true = ground arith in
    let n : suc i + length k - suc i ≡ length k = omega arith in
    rw (g, h, a, b, n, inner, take-append k (34 ∷ rest)) refl

ends_here-white : (w t : Text) → IsWhite w → ends_here t ≡ true → ends_here (w ++ t) ≡ true
ends_here-white [] t h k = k
ends_here-white (c ∷ w) t h k = ground arith

pub IsWhite-append : (v w : Text) → IsWhite v → IsWhite w → IsWhite (v ++ w)
IsWhite-append [] w h k = k
IsWhite-append (c ∷ v) w h k = ground (arith, IsWhite-append v w)

EndsWell-of : (v : Value) (t : Text) → ends_here t ≡ true → EndsWell v t
EndsWell-of (text s) t h = tt
EndsWell-of (atom c s) t h = h
EndsWell-of (object ms) t h = tt
EndsWell-of (array is) t h = tt

pub layout_member :
    (a k b c : Text) (v : Value) (d : Text) (ms : Members) (t : Text)
    → layout_members (member a k b c v d ms) ++ t
      ≡ a
        ++ (quoted k
            ++ (b ++ 58 ∷ (c ++ (layout v ++ (d ++ (comma ms ++ (layout_members ms ++ t)))))))
unfolding layout
layout_member a k b c v d ms t = simp append_assoc

module _ (s key k b c : Text) (v : Value) (t : Text) (hk : is_spelling false k ≡ true)
    (hb : IsWhite b) (hc : IsWhite c) (hv : IsValue v) (ends : EndsWell v t) where
  member_round :
      (n : ℕ) (found : Option ℕ) (i : ℕ)
      → drop i s ≡ quoted k ++ (b ++ 58 ∷ (c ++ (layout v ++ t)))
      → member_loop (suc n) s key found i ≡ (
          if same_text k key && is_some found
          then duplicate
          else after_value s
              (member_loop n s key)
              (if same_text k key
                then some (i + length (quoted k) + length b + 1 + length c)
                else found)
              (some (i + length (quoted k) + length b + 1 + length c + length (layout v))))
  unfolding member_loop with_value
  member_round n found i e =
      let key_end = i + length (quoted k) in
      let colon = key_end + length b in
      let past_key = drop-past s i (quoted k) (b ++ 58 ∷ (c ++ (layout v ++ t))) e in
      let past_b = drop-past s key_end b (58 ∷ (c ++ (layout v ++ t))) past_key in
      let past_colon = drop-past s colon (58 ∷ []) (c ++ (layout v ++ t)) past_b in
      let past_c = drop-past s (colon + 1) c (layout v ++ t) past_colon in
      let string = skip_string_lem s i k (b ++ 58 ∷ (c ++ (layout v ++ t))) e hk in
      let range = get_range_lem s i k (b ++ 58 ∷ (c ++ (layout v ++ t))) e in
      let to_colon = skip_ws_lem s key_end b (58 ∷ (c ++ (layout v ++ t))) past_key hb refl in
      let to_value =
        skip_ws_lem s (colon + 1) c (layout v ++ t) past_colon hc (starts_solid-layout v t hv) in
      let value = colon + 1 + length c in
      let scan : skip_value s value ≡ some (value + length (layout v)) =
        skip_value_lem v s value [] t hv ends refl past_c
        ∙ ap (λ n. some (n + length (layout v))) (omega arith) in
      rw (e, member_loop, string, to_colon, past_b, range, to_colon, to_value, with_value, scan)
        refl

-- What stands at the value, and behind it.
pub member_value :
    (s k b c : Text) (v : Value) (t : Text) (i : ℕ)
    → drop i s ≡ quoted k ++ (b ++ 58 ∷ (c ++ (layout v ++ t)))
    → drop (i + length (quoted k) + length b + 1 + length c) s ≡ layout v ++ t
member_value s k b c v t i e =
    let colon = i + length (quoted k) + length b in
    drop-past s (colon + 1) c (layout v ++ t) (
      drop-past s colon (58 ∷ []) (c ++ (layout v ++ t)) (
        drop-past s (i + length (quoted k)) b (58 ∷ (c ++ (layout v ++ t)))
          (drop-past s i (quoted k) (b ++ 58 ∷ (c ++ (layout v ++ t))) e)))

pub member_behind :
    (s k b c : Text) (v : Value) (t : Text) (i : ℕ)
    → drop i s ≡ quoted k ++ (b ++ 58 ∷ (c ++ (layout v ++ t)))
    → drop (i + length (quoted k) + length b + 1 + length c + length (layout v)) s ≡ t
member_behind s k b c v t i e =
    drop-past s (i + length (quoted k) + length b + 1 + length c) (layout v) t
      (member_value s k b c v t i e)

ends_here-comma :
    (ms : Members) (rest : Text)
    → IsMembers ms
    → ends_here (comma ms ++ (layout_members ms ++ 125 ∷ rest)) ≡ true
unfolding layout IsValue
ends_here-comma (end w) rest h = ends_here-white w (125 ∷ rest) h refl
ends_here-comma (member a k b c v d ms) rest h = refl

-- A match that is not the second_of is what has been found from then on.
of_found-match :
    (found : Option ℕ) (b : Bool) (v : ℕ) (os : List ℕ)
    → of_found found (if b then v ∷ os else os)
      ≡ (if b && is_some found then duplicate else of_found (if b then some v else found) os)
of_found-match none true v [] = refl
of_found-match none true v (o ∷ os) = refl
of_found-match (some u) true v os = refl
of_found-match none false v os = refl
of_found-match (some u) false v os = refl

found_or_not-of_found : (found : Option ℕ) → found_or_not found ≡ of_found found []
found_or_not-of_found none = refl
found_or_not-of_found (some v) = refl

module _ (s key rest : Text) where
  abbrev pub Loops : ℕ → Members → Type 0
  Loops n ms =
      (found : Option ℕ) (i : ℕ)
      → drop i s ≡ layout_members ms ++ 125 ∷ rest
      → member_loop n s key found (skip_ws s i) ≡ of_found found (offsets key i ms)

  -- Behind the value of a member.
  after_value-of_found :
      (ms : Members) (n : ℕ) (found : Option ℕ) (i : ℕ) (d : Text)
      → IsWhite d
      → IsMembers ms
      → Loops n ms
      → drop i s ≡ d ++ (comma ms ++ (layout_members ms ++ 125 ∷ rest))
      → after_value s (member_loop n s key) found (some i)
        ≡ of_found found (offsets key (i + length d + length (comma ms)) ms)
  unfolding after_value layout IsValue offsets
  after_value-of_found (end w) n found i d hd hm loops e =
      let f : drop i s ≡ (d ++ w) ++ 125 ∷ rest = e ∙ sym (append_assoc d w (125 ∷ rest)) in
      let at = skip_ws_lem s i (d ++ w) (125 ∷ rest) f (IsWhite-append d w hd hm) refl in
      let behind = drop-past s i (d ++ w) (125 ∷ rest) f in
      rw (at, behind) (found_or_not-of_found found)
  after_value-of_found (member a k b c v d' ms) n found i d hd hm loops e =
      let more = layout_members (member a k b c v d' ms) ++ 125 ∷ rest in
      let at = skip_ws_lem s i d (44 ∷ more) e hd refl in
      let behind = drop-past s i d (44 ∷ more) e in
      rw (at, behind)
        (loops found (i + length d + 1) (drop-past s (i + length d) (44 ∷ []) more behind))

  pub loop-of_found : (ms : Members) (n : ℕ) → member_count ms < n → IsMembers ms → Loops n ms
  unfolding member_loop layout IsValue offsets
  loop-of_found ms zero f h found i e = absurd (omega arith)
  loop-of_found (end w) (suc n) f h found i e =
      let at = skip_ws_lem s i w (125 ∷ rest) e h refl in
      let behind = drop-past s i w (125 ∷ rest) e in
      rw (at, behind, member_loop) (found_or_not-of_found found)
  loop-of_found (member a k b c v d ms) (suc n) f (ha, hk, hb, hc, hv, hd, hms) found i e =
      let tail = d ++ (comma ms ++ (layout_members ms ++ 125 ∷ rest)) in
      let inner = quoted k ++ (b ++ 58 ∷ (c ++ (layout v ++ tail))) in
      let text = e ∙ layout_member a k b c v d ms (125 ∷ rest) in
      let at = skip_ws_lem s i a inner text ha refl in
      let behind = drop-past s i a inner text in
      let here = i + length a + length (quoted k) + length b + 1 + length c in
      let found' = if same_text k key then some here else found in
      let next =
        after_value-of_found ms n found' (here + length (layout v)) d hd hms
          (loop-of_found ms n (omega arith) hms)
          (member_behind s k b c v tail (i + length a) behind) in
      let ended =
        ends_here-white d (comma ms ++ (layout_members ms ++ 125 ∷ rest)) hd
          (ends_here-comma ms rest hms) in
      rw at (
        member_round s key k b c v tail hk hb hc hv (EndsWell-of v tail ended) n found
          (i + length a) behind
        ∙ ap (λ m. if same_text k key && is_some found then duplicate else m) next
        ∙ sym (
            of_found-match found (same_text k key) here
              (offsets key (here + length (layout v) + length d + length (comma ms)) ms)))
