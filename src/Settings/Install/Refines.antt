-- ===== src/Settings/Install/Refines.antt =====
-- `insertion` of crates/memgarden-cli/src/settings.rs, spliced into the text, is the addition of a
-- group to the tree.
pub mod Hooks
pub mod Group
use memgarden.Prelude.{
  ℕ, suc, ◌+◌, true, false, none, some, [], ◌∷◌, ◌++◌, ◌≡◌, ◌∙◌, refl, sym, ap, subst, arith,
}
use mathlib.Core.List.{append_assoc}
use memgarden.Prelude.Lists.{length, drop, drop-append, length-append}
use memgarden.Prelude.Text.{Text}
use memgarden.Settings.Scan.{skip_ws, found_at, duplicate, find_member}
use memgarden.Settings.Scan.Runs.{skip_ws_lem, drop-past}
use memgarden.Settings.Scan.Members.{of_found}
use memgarden.Settings.Scan.Find.{values, Finds, find_member-of_found, find_member_lem}
use memgarden.Settings.Entry.{Result, ok, err}
use memgarden.Settings.View.{Serde, get_key}
use memgarden.Settings.Install.{wrong, right, array_or_not, insertion, trailing_comma, splice}
use memgarden.Settings.Install.Put.{put, Placed, Placed-of}
use memgarden.Settings.Install.Added.{
  hooks_key, only, in_front, Added, new_hooks, new_event, new_group, Refused, no_array, two_events,
  PlainKeys, get_member-last, last, Twice,
}
use memgarden.Settings.Install.Shapes.{
  hooks_chunk, event_chunk, object_text, array_text, hooks_shape, event_shape, group_shape,
  hooks_parts, event_parts, or_right, IsMembers-put, IsValue-values,
}
use memgarden.Settings.Install.Splice.{
  trailing_comma-members, trailing_comma-items, lead, lead-IsWhite, splice_lem,
}
use memgarden.Settings.Entry.{entries}
use memgarden.Settings.Uninstall.{is_event}
use memgarden.Settings.Uninstall.Body.{group, wrapper, Spot, Comma-members, Comma-items}
use memgarden.Settings.Tree.{
  quoted, Value, Members, Items, object, array, end, item, layout, layout_members, layout_items,
  comma, item_comma, is_spelling, IsWhite, IsValue, IsMembers, IsItems,
}

-- The offset of the only value of a key, in an object that stands behind `before`.
find_member-Placed :
    (s before rest key : Text) (ms : Members) (v : Value) (p : Placed key v ms)
    → IsMembers ms
    → s ≡ before ++ (layout (object ms) ++ rest)
    → find_member s (length before) key ≡ found_at (length (before ++ 123 ∷ p.before))
find_member-Placed s before rest key ms v p h e =
    let f : drop (length before) s ≡ layout (object ms) ++ rest =
      ap (λ t. drop (length before) t) e ∙ drop-append before (layout (object ms) ++ rest) in
    let n : suc (length before) + length p.before ≡ length (before ++ 123 ∷ p.before) =
      omega (arith, length-append before (123 ∷ p.before)) in
    find_member-of_found ms s (length before) key rest h f
    ∙ ap (λ os. of_found none os) (p.at (suc (length before)))
    ∙ ap (λ n. found_at n) n

pub find_member-Twice :
    (s before rest key : Text) (ms : Members)
    → Twice (values key ms)
    → IsMembers ms
    → s ≡ before ++ (layout (object ms) ++ rest)
    → find_member s (length before) key ≡ duplicate
find_member-Twice s before rest key ms (u, v, r, twice) h e =
    let f : drop (length before) s ≡ layout (object ms) ++ rest =
      ap (λ t. drop (length before) t) e ∙ drop-append before (layout (object ms) ++ rest) in
    subst (λ vs. Finds s vs (find_member s (length before) key)) twice
      (find_member_lem ms s (length before) key rest h f)

-- The text of a file.
abbrev pub file_of : Text → Text → Members → Text
file_of w0 w1 ms = w0 ++ (layout (object ms) ++ w1)

-- What is spliced in is the addition of the group, or the file is refused as it should be.
abbrev pub Implements : Text → Value → Text → Text → Members → Result (ℕ × Text) → Type 0
Implements event g w0 w1 ms (ok (at, chunk)) =
    (w : Text) × IsWhite w
    × (ms' : Members) × Added event g w ms ms'
    × IsMembers ms'
    × (splice (file_of w0 w1 ms) (at, chunk) ≡ file_of w0 w1 ms')
    × Spot (file_of w0 w1 ms) at chunk
Implements event g w0 w1 ms (err e) = Refused event ms e

-- A file that is edited: any JSON object with any layout, none of its keys spelled with a backslash,
-- and the group that is to go in.
pub record Site : Type 0 where
  pub serde : Serde
  pub event : Text
  pub g : Value
  pub w0 : Text
  pub w1 : Text
  pub ms : Members
  pub white : IsWhite w0
  pub good : IsMembers ms
  pub plain : PlainKeys ms
  pub spelled : is_spelling false event ≡ true
  pub hg : IsValue g
  pub gs : Members
  pub is_group : g ≡ object gs
  pub ours : is_event event entries ≡ true

module _ (c : Site) where
  abbrev pub file : Members → Text
  file = file_of c.w0 c.w1

  abbrev pub run : Result (ℕ × Text)
  run = insertion c.serde (file c.ms) (object c.ms) c.event (layout c.g)

  abbrev pub Outcome : Result (ℕ × Text) → Type 0
  Outcome = Implements c.event c.g c.w0 c.w1 c.ms

  pub root_lem : skip_ws (file c.ms) 0 ≡ length c.w0
  unfolding layout
  root_lem =
      skip_ws_lem (file c.ms) 0 c.w0 (layout (object c.ms) ++ c.w1) refl c.white refl ∙ omega arith

  pub hooks_view : get_key c.serde hooks_key (object c.ms) ≡ last (values hooks_key c.ms)
  unfolding get_key
  hooks_view = get_member-last c.serde hooks_key c.ms c.plain

  pub file_text : file c.ms ≡ c.w0 ++ 123 ∷ (layout_members c.ms ++ 125 ∷ c.w1)
  file_text = object_text c.w0 c.w1 c.ms

  pub comma_lem : trailing_comma (file c.ms) (length c.w0) ≡ comma c.ms
  comma_lem = trailing_comma-members (file c.ms) (length c.w0) c.ms c.w1 c.good (
      drop-past (file c.ms) (length c.w0) (123 ∷ []) (layout_members c.ms ++ 125 ∷ c.w1) (
        ap (λ t. drop (length c.w0) t) file_text
        ∙ drop-append c.w0 (123 ∷ (layout_members c.ms ++ 125 ∷ c.w1))))

  pub no_hooks : values hooks_key c.ms ≡ [] → Outcome run
  unfolding insertion IsValue layout
  no_hooks e =
      let view : get_key c.serde hooks_key (object c.ms) ≡ none = hooks_view ∙ ap last e in
      let w = lead (file c.ms) (length c.w0 + 1) in
      let hw = lead-IsWhite (file c.ms) (length c.w0 + 1) in
      let more = in_front w hooks_key (object (in_front [] c.event (only c.g) (end []))) c.ms in
      let text : splice (file c.ms) (length c.w0 + 1, hooks_chunk c.event (layout c.g) (comma c.ms))
          ≡ file more =
        splice_lem (file c.ms) c.w0 (layout_members c.ms ++ 125 ∷ c.w1) 123 (length c.w0 + 1)
          (hooks_chunk c.event (layout c.g) (comma c.ms)) file_text refl
        ∙ ap (λ t. c.w0 ++ 123 ∷ t) (hooks_shape w c.event (125 ∷ c.w1) c.g c.ms)
        ∙ sym (object_text c.w0 c.w1 more) in
      let created = object (in_front [] c.event (only c.g) (end [])) in
      let spot : Spot (file c.ms) (length c.w0 + 1)
          (hooks_chunk c.event (layout c.g) (comma c.ms)) =
        record {
          before = c.w0;
          open_byte = 123;
          rest = layout_members c.ms ++ 125 ∷ c.w1;
          body = quoted hooks_key ++ 58 ∷ 32 ∷ layout created;
          comma_text = comma c.ms;
          opening = refl;
          text = file_text;
          place = refl;
          parts = hooks_parts c.event (comma c.ms) c.g;
          shape =
              wrapper hooks_key created refl refl
                (refl, c.spelled, refl, refl, (refl, c.hg, refl, refl), refl, refl) tt refl;
          ends = Comma-members c.ms c.w1 c.good;
        } in
      rw (view, insertion, root_lem, comma_lem)
        (
          w,
          hw,
          more,
          new_hooks e refl,
          (
            hw,
            refl,
            refl,
            refl,
            (refl, c.spelled, refl, refl, (refl, c.hg, refl, refl), refl, refl),
            refl,
            c.good,
          ),
          text,
          spot,
        )
