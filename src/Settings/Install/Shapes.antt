-- ===== src/Settings/Install/Shapes.antt =====
-- The three shapes of text that crates/memgarden-cli/src/settings.rs inserts are layouts.
use memgarden.Prelude.{
  Bool, true, false, ◌||◌, some, [], ◌∷◌, ◌++◌, ◌≡◌, refl, ap, subst, if◌then◌else◌, Bool-cases,
  inl, inr,
}
use mathlib.Core.List.{append_assoc}
use memgarden.Prelude.Text.{Text, codes, same_text}
use memgarden.Settings.Scan.Find.{values}
use memgarden.Settings.Install.Put.{put}
use memgarden.Settings.Install.Added.{hooks_key, only, in_front}
use memgarden.Settings.Entry.{entries}
use memgarden.Settings.Uninstall.{is_event, is_our_key}
use memgarden.Settings.Tree.{
  Value, Members, Items, object, array, end, member, item, layout, layout_members, layout_items,
  comma, item_comma, quoted, IsValue, IsMembers,
}

abbrev pub hooks_chunk : Text → Text → Text → Text
hooks_chunk event line c =
    codes "\"hooks\": {\"" ++ (event ++ (codes "\": [" ++ (line ++ (codes "]}" ++ c))))

abbrev pub event_chunk : Text → Text → Text → Text
event_chunk event line c = codes "\"" ++ (event ++ (codes "\": [" ++ (line ++ (codes "]" ++ c))))

pub object_text :
    (before after : Text) (ms : Members)
    → before ++ (layout (object ms) ++ after) ≡ before ++ 123 ∷ (layout_members ms ++ 125 ∷ after)
unfolding layout
object_text before after ms =
    ap (λ t. before ++ 123 ∷ t) (append_assoc (layout_members ms) (125 ∷ []) after)

pub array_text :
    (before after : Text) (is : Items)
    → before ++ (layout (array is) ++ after) ≡ before ++ 91 ∷ (layout_items is ++ 93 ∷ after)
unfolding layout
array_text before after is =
    ap (λ t. before ++ 91 ∷ t) (append_assoc (layout_items is) (93 ∷ []) after)

pub hooks_shape :
    (w event after : Text) (g : Value) (ms : Members)
    → w ++ (hooks_chunk event (layout g) (comma ms) ++ (layout_members ms ++ after))
      ≡ layout_members (in_front w hooks_key (object (in_front [] event (only g) (end []))) ms)
        ++ after
unfolding layout
hooks_shape w event after g ms = simp append_assoc

pub event_shape :
    (w event after : Text) (g : Value) (ms : Members)
    → w ++ (event_chunk event (layout g) (comma ms) ++ (layout_members ms ++ after))
      ≡ layout_members (in_front w event (only g) ms) ++ after
unfolding layout
event_shape w event after g ms = simp append_assoc

pub group_shape :
    (w after : Text) (g : Value) (is : Items)
    → w ++ ((layout g ++ item_comma is) ++ (layout_items is ++ after))
      ≡ layout_items (item w g [] is) ++ after
unfolding layout
group_shape w after g is = simp append_assoc

pub hooks_parts :
    (event c : Text) (g : Value)
    → hooks_chunk event (layout g) c
      ≡ (quoted hooks_key ++ 58 ∷ 32 ∷ layout (object (in_front [] event (only g) (end [])))) ++ c
unfolding layout
hooks_parts event c g = simp append_assoc

pub event_parts :
    (event c : Text) (g : Value)
    → event_chunk event (layout g) c ≡ (quoted event ++ 58 ∷ 32 ∷ layout (only g)) ++ c
unfolding layout
event_parts event c g = simp append_assoc

pub or_right : (key : Text) → is_event key entries ≡ true → is_our_key (some key) ≡ true
or_right key h = with_test (same_text key (codes "hooks"))
  where
    with_test : (b : Bool) → (b || is_event key entries) ≡ true
    with_test true = refl
    with_test false = h

pub IsMembers-put :
    (key : Text) (u : Value) (ms : Members) → IsMembers ms → IsValue u → IsMembers (put key u ms)
unfolding IsValue
IsMembers-put key u (end w) h k = h
IsMembers-put key u (member a x b c v d ms) (ha, hk, hb, hc, hv, hd, hms) k =
    (ha, hk, hb, hc, either (same_text x key) u v k hv, hd, IsMembers-put key u ms hms k)
  where
    either : (b : Bool) (u v : Value) → IsValue u → IsValue v → IsValue (if b then u else v)
    either true u v h k = h
    either false u v h k = k

pub IsValue-values :
    (key : Text) (v : Value) (ms : Members) → values key ms ≡ v ∷ [] → IsMembers ms → IsValue v
unfolding IsValue
IsValue-values key v (end w) e h = absurd (cc e)
IsValue-values key v (member a k b c x d ms) e h = elim (Bool-cases (same_text k key)) [
  | inl m ↦ let same : x ≡ v = cc (rw m at e) in subst IsValue same h.4
  | inr m ↦ IsValue-values key v ms (rw m at e) h.6
]
