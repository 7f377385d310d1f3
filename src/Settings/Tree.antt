-- ===== src/Settings/Tree.antt =====
-- JSON as crates/memgarden-cli/src/settings.rs meets it: every text of JSON is the layout of a tree,
-- which keeps the white space, and the bytes of keys and texts as they are spelled.
use memgarden.Prelude.{ℕ, Bool, true, false, not, ◌&&◌, [], ◌∷◌, ◌++◌, ◌==◌, ◌≡◌}
use memgarden.Prelude.Text.{Text}
use memgarden.Settings.Scan.{
  Byte, quotes, opens, closes, other, byte_of, is_ascii_whitespace, ends_atom,
}

mutual
  pub data Value : Type 0 where
    text : Text → Value
    atom : ℕ → Text → Value
    object : Members → Value
    array : Items → Value

  -- White space, the key, white space around the colon, the value, and white space before what
  -- follows: a comma, or the end.
  pub data Members : Type 0 where
    end : Text → Members
    member : Text → Text → Text → Text → Value → Text → Members → Members

  pub data Items : Type 0 where
    nil : Text → Items
    item : Text → Value → Text → Items → Items

-- The comma before what follows.
abbrev pub comma : Members → Text
comma (end w) = []
comma (member a k b c v d ms) = 44 ∷ []

abbrev pub item_comma : Items → Text
item_comma (nil w) = []
item_comma (item a v b is) = 44 ∷ []

abbrev pub quoted : Text → Text
quoted s = 34 ∷ (s ++ 34 ∷ [])

unfoldable mutual
  pub layout : Value → Text
  layout (text s) = quoted s
  layout (atom c s) = c ∷ s
  layout (object ms) = 123 ∷ (layout_members ms ++ 125 ∷ [])
  layout (array is) = 91 ∷ (layout_items is ++ 93 ∷ [])

  pub layout_members : Members → Text
  layout_members (end w) = w
  layout_members (member a k b c v d ms) =
      a ++ (quoted k ++ (b ++ 58 ∷ (c ++ (layout v ++ (d ++ (comma ms ++ layout_members ms))))))

  pub layout_items : Items → Text
  layout_items (nil w) = w
  layout_items (item a v b is) = a ++ (layout v ++ (b ++ (item_comma is ++ layout_items is)))

-- Every byte passes.
abbrev pub all : (ℕ → Bool) → Text → Bool
all p [] = true
all p (c ∷ s) = p c && all p s

-- The bytes between two quotes: no quote but after a backslash, and no backslash alone at the end.
abbrev pub is_spelling : Bool → Text → Bool
is_spelling escaped [] = not escaped
is_spelling true (c ∷ s) = is_spelling false s
is_spelling false (c ∷ s) = not (c == 34) && is_spelling (c == 92) s

abbrev pub is_other : Byte → Bool
is_other other = true
is_other quotes = false
is_other opens = false
is_other closes = false

-- A byte of a number or a literal. (JSON has fewer of them.)
abbrev pub is_atom_byte : ℕ → Bool
is_atom_byte c = not (ends_atom c) && is_other (byte_of c)

abbrev pub IsWhite : Text → Type 0
IsWhite w = all is_ascii_whitespace w ≡ true

unfoldable mutual
  pub IsValue : Value → Type 0
  IsValue (text s) = is_spelling false s ≡ true
  IsValue (atom c s) = all is_atom_byte (c ∷ s) ≡ true
  IsValue (object ms) = IsMembers ms
  IsValue (array is) = IsItems is

  pub IsMembers : Members → Type 0
  IsMembers (end w) = IsWhite w
  IsMembers (member a k b c v d ms) =
      IsWhite a
      × (is_spelling false k ≡ true)
      × IsWhite b
      × IsWhite c
      × IsValue v
      × IsWhite d
      × IsMembers ms

  pub IsItems : Items → Type 0
  IsItems (nil w) = IsWhite w
  IsItems (item a v b is) = IsWhite a × IsValue v × IsWhite b × IsItems is
