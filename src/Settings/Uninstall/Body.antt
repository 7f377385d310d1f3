-- ===== src/Settings/Uninstall/Body.antt =====
-- The chunks that `insertion` of crates/memgarden-cli/src/settings.rs makes, and where they go.
use memgarden.Prelude.{
  ℕ, ◌+◌, true, false, ◌||◌, [], ◌∷◌, ◌++◌, ◌≡◌, refl, ◌⊎◌, inl, inr, ◌==◌, some, arith,
}
use memgarden.Prelude.Lists.{length}
use memgarden.Prelude.Text.{Text}
use memgarden.Settings.Scan.{is_at}
use memgarden.Settings.Uninstall.{is_our_key}
use memgarden.Settings.Tree.{
  Value, Members, Items, text, atom, object, array, end, member, nil, item, layout, layout_members,
  layout_items, comma, item_comma, quoted, is_spelling, IsWhite, IsValue, IsMembers, IsItems,
}

-- An object or an array.
abbrev pub IsContainer : Value → Type 0
IsContainer (object ms) = Unit {0}
IsContainer (array is) = Unit {0}
IsContainer (text s) = ⊥
IsContainer (atom c s) = ⊥

-- A group, or a member whose key could be ours.
pub data Body (b : Text) : Type 0 where
  group : (gs : Members) → IsMembers gs → b ≡ layout (object gs) → Body b
  wrapper :
      (key : Text) (v : Value)
      → is_our_key (some key) ≡ true
      → is_spelling false key ≡ true
      → IsValue v
      → IsContainer v
      → b ≡ quoted key ++ 58 ∷ 32 ∷ layout v
      → Body b

-- A comma, or none and none behind.
abbrev pub Comma : Text → Text → Type 0
Comma k rest = (k ≡ 44 ∷ []) ⊎ ((k ≡ []) × (is_at 44 rest ≡ false))

-- Where a chunk goes: right behind the byte that opens a container.
pub record Spot (s : Text) (at : ℕ) (chunk : Text) : Type 0 where
  pub before : Text
  pub open_byte : ℕ
  pub rest : Text
  pub body : Text
  pub comma_text : Text
  pub opening : ((open_byte == 123) || (open_byte == 91)) ≡ true
  pub text : s ≡ before ++ open_byte ∷ rest
  pub place : at ≡ length before + 1
  pub parts : chunk ≡ body ++ comma_text
  pub shape : Body body
  pub ends : Comma comma_text rest

is_at-white : (w r : Text) → IsWhite w → is_at 44 r ≡ false → is_at 44 (w ++ r) ≡ false
is_at-white [] r h k = k
is_at-white (c ∷ w) r h k = ground arith

pub Comma-members :
    (ms : Members) (after : Text)
    → IsMembers ms
    → Comma (comma ms) (layout_members ms ++ 125 ∷ after)
unfolding layout IsValue
Comma-members (end w) after h = inr (refl, is_at-white w (125 ∷ after) h refl)
Comma-members (member a k b c v d ms) after h = inl refl

pub Comma-items :
    (is : Items) (after : Text) → IsItems is → Comma (item_comma is) (layout_items is ++ 93 ∷ after)
unfolding layout IsValue
Comma-items (nil w) after h = inr (refl, is_at-white w (93 ∷ after) h refl)
Comma-items (item a v b is) after h = inl refl
