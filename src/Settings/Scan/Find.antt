-- ===== src/Settings/Scan/Find.antt =====
-- What `find_member` of crates/memgarden-cli/src/settings.rs answers, in terms of the tree.
use memgarden.Prelude.{
  ℕ, suc, ◌+◌, ◌-◌, ◌≤◌, ◌<◌, none, List, [], ◌∷◌, ◌++◌, ◌≡◌, ◌∙◌, refl, sym, ap, if◌then◌else◌,
  arith, inl, inr, Bool-cases,
}
use mathlib.Core.List.{append_assoc}
use memgarden.Prelude.Lists.{length, drop, length-append, length-drop}
use memgarden.Prelude.Text.{Text, same_text}
use memgarden.Settings.Scan.{Member, found_at, not_found, duplicate, find_member}
use memgarden.Settings.Scan.Runs.{drop-past, drop-suc}
use memgarden.Settings.Scan.Members.{
  value_offset, offsets, of_found, member_count, layout_member, member_value, member_behind,
  loop-of_found,
}
use memgarden.Settings.Tree.{
  Value, Members, object, end, member, layout, layout_members, comma, quoted, IsMembers,
}

-- The values of the members whose key is spelled `key`.
abbrev pub values : Text → Members → List Value
values key (end w) = []
values key (member a k b c v d ms) =
    let rest = values key ms in if same_text k key then v ∷ rest else rest

-- What a search for the values should say: the offset of the only one.
abbrev pub Finds : Text → List Value → Member → Type 0
Finds s [] m = m ≡ not_found
Finds s (v ∷ []) m = (o : ℕ) × (m ≡ found_at o) × (r : Text) × (drop o s ≡ layout v ++ r)
Finds s (v ∷ w ∷ vs) m = m ≡ duplicate

abbrev Stand : Text → List ℕ → List Value → Type 0
Stand s [] [] = Unit
Stand s (o ∷ os) (v ∷ vs) = ((r : Text) × (drop o s ≡ layout v ++ r)) × Stand s os vs
Stand s _ _ = ⊥

Stand-Finds :
    (s : Text) (os : List ℕ) (vs : List Value) → Stand s os vs → Finds s vs (of_found none os)
Stand-Finds s [] [] h = refl
Stand-Finds s [] (v ∷ vs) h = absurd h
Stand-Finds s (o ∷ os) [] h = absurd h
Stand-Finds s (o ∷ []) (v ∷ []) (h, k) = (o, refl, h.0, h.1)
Stand-Finds s (o ∷ []) (v ∷ w ∷ vs) (h, k) = absurd k
Stand-Finds s (o ∷ p ∷ os) (v ∷ []) (h, k) = absurd k
Stand-Finds s (o ∷ p ∷ os) (v ∷ w ∷ vs) (h, k) = refl

offsets-Stand :
    (s key : Text) (ms : Members) (i : ℕ) (rest : Text)
    → drop i s ≡ layout_members ms ++ 125 ∷ rest
    → Stand s (offsets key i ms) (values key ms)
unfolding offsets
offsets-Stand s key (end w) i rest e = tt
offsets-Stand s key (member a k b c v d ms) i rest e =
    let tail = d ++ (comma ms ++ (layout_members ms ++ 125 ∷ rest)) in
    let here = value_offset i a k b c in
    let text = e ∙ layout_member a k b c v d ms (125 ∷ rest) in
    let behind = drop-past s i a (quoted k ++ (b ++ 58 ∷ (c ++ (layout v ++ tail)))) text in
    let after = member_behind s k b c v tail (i + length a) behind in
    let more =
      drop-past s (here + length (layout v) + length d) (comma ms) (layout_members ms ++ 125 ∷ rest)
        (drop-past s (here + length (layout v)) d (comma ms ++ (layout_members ms ++ 125 ∷ rest))
          after) in
    let ih =
      offsets-Stand s key ms (here + length (layout v) + length d + length (comma ms)) rest more in
    elim (Bool-cases (same_text k key)) [
      | inl m ↦ rw m ((tail, member_value s k b c v tail (i + length a) behind), ih)
      | inr m ↦ rw m ih
    ]

le-append : (x y : Text) → length y ≤ length (x ++ y)
le-append x y = omega (arith, length-append x y)

member_count-le : (ms : Members) → member_count ms ≤ length (layout_members ms)
unfolding layout
member_count-le (end w) = omega arith
member_count-le (member a k b c v d ms) =
    let t1 = d ++ (comma ms ++ layout_members ms) in
    let t2 = b ++ 58 ∷ (c ++ (layout v ++ t1)) in
    omega (
      arith,
      member_count-le ms,
      le-append (comma ms) (layout_members ms),
      le-append d (comma ms ++ layout_members ms),
      le-append (layout v) t1,
      le-append c (layout v ++ t1),
      le-append b (58 ∷ (c ++ (layout v ++ t1))),
      le-append (quoted k) t2,
      le-append a (quoted k ++ t2),
    )

pub find_member-of_found :
    (ms : Members) (s : Text) (i : ℕ) (key rest : Text)
    → IsMembers ms
    → drop i s ≡ layout (object ms) ++ rest
    → find_member s i key ≡ of_found none (offsets key (suc i) ms)
unfolding find_member layout
find_member-of_found ms s i key rest h e =
    let f : drop i s ≡ 123 ∷ (layout_members ms ++ 125 ∷ rest) =
      e ∙ ap (λ t. 123 ∷ t) (append_assoc (layout_members ms) (125 ∷ []) rest) in
    let inner = drop-suc s i 123 (layout_members ms ++ 125 ∷ rest) f in
    let long : length s - i ≡ suc (length (layout_members ms) + suc (length rest)) =
      sym (length-drop i s)
      ∙ ap length f
      ∙ omega (arith, length-append (layout_members ms) (125 ∷ rest)) in
    let fuel : member_count ms < suc (length s) = omega (arith, member_count-le ms, long) in
    let g : i + 1 ≡ suc i = omega arith in
    rw (f, find_member, g) (loop-of_found s key rest ms (suc (length s)) fuel h none (suc i) inner)

-- `find_member` looks at the members of the object that stands at the offset, not deeper: it answers
-- the offset of the value if exactly one key is spelled `key`, `Duplicate` if more are, and `NotFound`
-- if none is. The fuel of the model is enough for it.
pub find_member_lem :
    (ms : Members) (s : Text) (i : ℕ) (key rest : Text)
    → IsMembers ms
    → drop i s ≡ layout (object ms) ++ rest
    → Finds s (values key ms) (find_member s i key)
unfolding layout
find_member_lem ms s i key rest h e =
    let f : drop i s ≡ 123 ∷ (layout_members ms ++ 125 ∷ rest) =
      e ∙ ap (λ t. 123 ∷ t) (append_assoc (layout_members ms) (125 ∷ []) rest) in
    let inner = drop-suc s i 123 (layout_members ms ++ 125 ∷ rest) f in
    rw (find_member-of_found ms s i key rest h e) (
      Stand-Finds s (offsets key (suc i) ms) (values key ms)
        (offsets-Stand s key ms (suc i) rest inner))
