-- ===== src/Settings/Install/Put.antt =====
-- A member's value in the text, found by `find_member` of crates/memgarden-cli/src/settings.rs, and
-- the text with another value in its place.
use memgarden.Prelude.{
  ℕ, ◌+◌, true, false, [], ◌∷◌, ◌++◌, ◌≡◌, ◌∙◌, refl, ap, subst, if◌then◌else◌, arith, inl, inr,
  Bool-cases,
}
use mathlib.Core.List.{append_assoc}
use memgarden.Prelude.Lists.{length, length-append}
use memgarden.Prelude.Text.{Text, same_text}
use memgarden.Settings.Scan.Members.{value_offset, offsets}
use memgarden.Settings.Scan.Find.{values}
use memgarden.Settings.Tree.{Value, Members, end, member, layout, layout_members, comma, quoted}

-- Another value for the members whose key is spelled `key`.
abbrev pub put : Text → Value → Members → Members
put key u (end w) = end w
put key u (member a k b c v d ms) =
    member a k b c (if same_text k key then u else v) d (put key u ms)

comma-put : (key : Text) (u : Value) (ms : Members) → comma (put key u ms) ≡ comma ms
comma-put key u (end w) = refl
comma-put key u (member a k b c v d ms) = refl

put-none : (key : Text) (u : Value) (ms : Members) → values key ms ≡ [] → put key u ms ≡ ms
put-none key u (end w) h = refl
put-none key u (member a k b c v d ms) h = elim (Bool-cases (same_text k key)) [
  | inl m ↦ cc (rw m at h)
  | inr m ↦ rw (m, put-none key u ms (rw m at h)) refl
]

pub offsets-none : (key : Text) (i : ℕ) (ms : Members) → values key ms ≡ [] → offsets key i ms ≡ []
unfolding offsets
offsets-none key i (end w) h = refl
offsets-none key i (member a k b c v d ms) h = elim (Bool-cases (same_text k key)) [
  | inl m ↦ cc (rw m at h)
  | inr m ↦ rw m (
      offsets-none key (value_offset i a k b c + length (layout v) + length d + length (comma ms))
        ms (rw m at h))
]

-- Where the only value of a key stands in the text of the members.
pub record Placed (key : Text) (v : Value) (ms : Members) : Type 0 where
  pub before : Text
  pub after : Text
  pub text : layout_members ms ≡ before ++ (layout v ++ after)
  pub put_text : (u : Value) → layout_members (put key u ms) ≡ before ++ (layout u ++ after)
  pub at : (i : ℕ) → offsets key i ms ≡ (i + length before) ∷ []

abbrev front : Text → Text → Text → Text → Text
front a k b c = a ++ (quoted k ++ (b ++ 58 ∷ c))

length-front : (i : ℕ) (a k b c : Text) → value_offset i a k b c ≡ i + length (front a k b c)
length-front i a k b c = omega (
  arith,
  length-append a (quoted k ++ (b ++ 58 ∷ c)),
  length-append (quoted k) (b ++ 58 ∷ c),
  length-append b (58 ∷ c),
)

layout-front :
    (a k b c : Text) (v : Value) (d : Text) (ms : Members)
    → layout_members (member a k b c v d ms)
      ≡ front a k b c ++ (layout v ++ (d ++ (comma ms ++ layout_members ms)))
unfolding layout
layout-front a k b c v d ms = simp append_assoc

module _ (key a k b c : Text) (x : Value) (d : Text) (ms : Members) where
  abbrev tail_offset : ℕ → ℕ
  tail_offset i = value_offset i a k b c + length (layout x) + length d + length (comma ms)

  Placed-here : same_text k key ≡ true → values key ms ≡ [] → Placed key x (member a k b c x d ms)
  unfolding offsets
  Placed-here m none_left = record {
    before = front a k b c;
    after = d ++ (comma ms ++ layout_members ms);
    text = layout-front a k b c x d ms;
    put_text = λ u. rw (m, put-none key u ms none_left) (layout-front a k b c u d ms);
    at = λ i.
        rw (m, offsets-none key (tail_offset i) ms none_left)
          (ap (λ n. n ∷ []) (length-front i a k b c));
  }

  Placed-over :
      (v : Value) → same_text k key ≡ false → Placed key v ms → Placed key v (member a k b c x d ms)
  unfolding offsets
  Placed-over v m p =
      let over = front a k b c ++ (layout x ++ (d ++ (comma ms ++ p.before))) in
      let split : (t : Text)
          → front a k b c ++ (layout x ++ (d ++ (comma ms ++ (p.before ++ t)))) ≡ over ++ t =
        λ t. simp append_assoc in
      record {
        before = over;
        after = p.after;
        text =
            layout-front a k b c x d ms
            ∙ ap (λ t. front a k b c ++ (layout x ++ (d ++ (comma ms ++ t)))) p.text
            ∙ split (layout v ++ p.after);
        put_text = λ u. rw m (
            layout-front a k b c x d (put key u ms)
            ∙ ap (λ t. front a k b c ++ (layout x ++ (d ++ (t ++ layout_members (put key u ms)))))
                (comma-put key u ms)
            ∙ ap (λ t. front a k b c ++ (layout x ++ (d ++ (comma ms ++ t)))) (p.put_text u)
            ∙ split (layout u ++ p.after));
        at = λ i. rw m (
            p.at (tail_offset i)
            ∙ ap (λ n. n ∷ [])
                (omega (
                  arith,
                  length-front i a k b c,
                  length-append (front a k b c) (layout x ++ (d ++ (comma ms ++ p.before))),
                  length-append (layout x) (d ++ (comma ms ++ p.before)),
                  length-append d (comma ms ++ p.before),
                  length-append (comma ms) p.before,
                )));
      }

pub Placed-of : (key : Text) (v : Value) (ms : Members) → values key ms ≡ v ∷ [] → Placed key v ms
Placed-of key v (end w) h = absurd (cc h)
Placed-of key v (member a k b c x d ms) h = elim (Bool-cases (same_text k key)) [
  | inl m ↦
      let same : x ≡ v = cc (rw m at h) in
      let none_left : values key ms ≡ [] = cc (rw m at h) in
      subst (λ y. Placed key y (member a k b c x d ms)) same
        (Placed-here key a k b c x d ms m none_left)
  | inr m ↦ Placed-over key a k b c x d ms v m (Placed-of key v ms (rw m at h))
]
