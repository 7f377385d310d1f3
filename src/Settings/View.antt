-- ===== src/Settings/View.antt =====
-- How crates/memgarden-cli/src/settings.rs reads the document that serde_json makes of a text: off the
-- tree of the text.
use memgarden.Prelude.{
  ℕ, Bool, true, false, ◌&&◌, ◌||◌, Option, none, some, List, [], ◌∷◌, ◌++◌, ◌≡◌, ◌==◌,
  if◌then◌else◌, coalesce,
}
use memgarden.Prelude.Text.{Text, codes, same_text, starts_with}
use memgarden.Settings.Tree.{
  Value, Members, Items, text, atom, object, array, end, member, nil, item,
}
use memgarden.Settings.Entry.{Entry, entries}

abbrev pub has_code : ℕ → Text → Bool
has_code c [] = false
has_code c (d ∷ s) = (d == c) || has_code c s

-- What the code uses of serde_json: the key or text that a spelling stands for, and the tree of a
-- text. A spelling without a backslash stands for itself.
pub record Serde : Type 0 where
  pub decode : Text → Text
  pub from_str : Text → Option Value
  pub decode_plain : (k : Text) → has_code 92 k ≡ false → decode k ≡ k

abbrev pub is_json_object : Value → Bool
is_json_object (object ms) = true
is_json_object (text s) = false
is_json_object (atom c s) = false
is_json_object (array is) = false

abbrev pub elements : Items → List Value
elements (nil w) = []
elements (item a v b is) = v ∷ elements is

-- `.and_then(|v| v.as_array())`
abbrev pub as_array : Option Value → Option (List Value)
as_array (some (array is)) = some (elements is)
as_array (some (text s)) = none
as_array (some (atom c s)) = none
as_array (some (object ms)) = none
as_array none = none

abbrev pub second_of : Option (List Value) → Option Value
second_of (some (x ∷ y ∷ r)) = some y
second_of (some (x ∷ [])) = none
second_of (some []) = none
second_of none = none

abbrev pub starts_ours : Option Text → Bool
starts_ours none = false
starts_ours (some s) = starts_with (codes "memgarden: ") s

abbrev pub is_exactly : Text → Option Text → Bool
is_exactly t none = false
is_exactly t (some s) = same_text s t

abbrev pub any : (Value → Bool) → List Value → Bool
any p [] = false
any p (v ∷ vs) = p v || any p vs

-- serde_json's view of a tree: of equal keys the last one counts.
module _ (serde : Serde) where
  unfoldable pub get_member : Text → Members → Option Value
  get_member key (end w) = none
  get_member key (member a k b c v d ms) =
      coalesce (get_member key ms) (if same_text (serde.decode k) key then some v else none)

  unfoldable pub get_key : Text → Value → Option Value
  unfolding get_member
  get_key key (object ms) = get_member key ms
  get_key key (text s) = none
  get_key key (atom c s) = none
  get_key key (array is) = none

  abbrev pub get_of : Text → Option Value → Option Value
  get_of key none = none
  get_of key (some v) = get_key key v

  abbrev pub json_str : Option Value → Option Text
  json_str (some (text s)) = some (serde.decode s)
  json_str (some (array is)) = none
  json_str (some (atom c s)) = none
  json_str (some (object ms)) = none
  json_str none = none

  -- The hooks of the groups, in order.
  unfoldable pub flatten_groups : List Value → List Value
  unfolding get_key
  flatten_groups [] = []
  flatten_groups (g ∷ gs) =
      let rest = flatten_groups gs in
      elim (as_array (get_key (codes "hooks") g)) [ none ↦ rest | some hs ↦ hs ++ rest ]

  unfoldable pub groups : Value → Text → List Value
  unfolding get_key flatten_groups
  groups doc event = elim (as_array (get_of event (get_key (codes "hooks") doc))) [
    | none ↦ []
    | some gs ↦ flatten_groups gs
  ]

  unfoldable pub is_ours : Entry → Value → Bool
  unfolding get_key
  is_ours entry hook =
      starts_ours (json_str (get_key (codes "statusMessage") hook))
      && is_exactly entry.sub (json_str (second_of (as_array (get_key (codes "args") hook))))

  unfoldable pub events_of : Value → List Entry → List Text
  unfolding is_ours groups
  events_of doc [] = []
  events_of doc (e ∷ es) =
      let rest = events_of doc es in
      if any (is_ours e) (groups doc e.event) then e.event ∷ rest else rest

  unfoldable pub wired_events : Value → List Text
  unfolding events_of
  wired_events doc = events_of doc entries
