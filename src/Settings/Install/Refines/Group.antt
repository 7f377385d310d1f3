-- ===== src/Settings/Install/Refines/Group.antt =====
-- The edit of crates/memgarden-cli/src/settings.rs where the event has one array.
use memgarden.Prelude.{◌+◌, some, [], ◌∷◌, ◌++◌, ◌≡◌, ◌∙◌, refl, sym, ap, subst}
use mathlib.Core.List.{append_assoc}
use memgarden.Prelude.Lists.{length, drop, drop-append}
use memgarden.Prelude.Text.{Text}
use memgarden.Settings.Scan.{found_at, find_member}
use memgarden.Settings.Scan.Runs.{drop-past}
use memgarden.Settings.Scan.Find.{values}
use memgarden.Settings.View.{get_key}
use memgarden.Settings.Install.{insertion, trailing_comma, splice}
use memgarden.Settings.Install.Put.{put, Placed, Placed-of}
use memgarden.Settings.Install.Added.{hooks_key, new_group, last}
use memgarden.Settings.Install.Shapes.{
  object_text, array_text, group_shape, IsMembers-put, IsValue-values,
}
use memgarden.Settings.Install.Splice.{trailing_comma-items, lead, lead-IsWhite, splice_lem}
use memgarden.Settings.Uninstall.Body.{group, Spot, Comma-items}
use memgarden.Settings.Tree.{
  Value, Items, object, array, item, layout, layout_items, item_comma, IsValue, IsItems,
}
use memgarden.Settings.Install.Refines.{find_member-Placed, file, run, Outcome, root_lem}
use memgarden.Settings.Install.Refines.Hooks.{
  OneHooks, before_hooks, after_hooks, good_hooks, file-put, hooks_text, found_hooks, one_view,
  event_view, inside_hooks,
}

module _ (h : OneHooks) (is : Items) (one_array : values h.site.event h.hs ≡ array is ∷ []) where
  Placed-event : Placed h.site.event (array is) h.hs
  Placed-event = Placed-of h.site.event (array is) h.hs one_array

  abbrev before_event : Text
  before_event = before_hooks h ++ 123 ∷ Placed-event.before

  abbrev after_event : Text
  after_event = Placed-event.after ++ 125 ∷ (after_hooks h)

  good-IsItems : IsItems is
  unfolding IsValue
  good-IsItems = IsValue-values h.site.event (array is) h.hs one_array (good_hooks h)

  put_event_file :
      (u : Value)
      → file h.site (put hooks_key (object (put h.site.event u h.hs)) h.site.ms)
        ≡ before_event ++ (layout u ++ after_event)
  put_event_file u =
      file-put h (object (put h.site.event u h.hs))
      ∙ object_text (before_hooks h) (after_hooks h) (put h.site.event u h.hs)
      ∙ ap (λ t. before_hooks h ++ 123 ∷ (t ++ 125 ∷ after_hooks h)) (Placed-event.put_text u)
      ∙ (simp append_assoc)

  inside_event : file h.site h.site.ms ≡ before_event ++ 91 ∷ (layout_items is ++ 93 ∷ after_event)
  inside_event =
      inside_hooks h
      ∙ ap (λ t. before_hooks h ++ 123 ∷ (t ++ 125 ∷ after_hooks h)) Placed-event.text
      ∙ (simp append_assoc)
      ∙ array_text before_event after_event is

  found_event :
      find_member (file h.site h.site.ms) (length (before_hooks h)) h.site.event
      ≡ found_at (length before_event)
  found_event =
      find_member-Placed (file h.site h.site.ms) (before_hooks h) (after_hooks h) h.site.event h.hs
        (array is) Placed-event (good_hooks h) (hooks_text h)

  comma_event : trailing_comma (file h.site h.site.ms) (length before_event) ≡ item_comma is
  comma_event =
      trailing_comma-items (file h.site h.site.ms) (length before_event) is after_event good-IsItems
        (drop-past (file h.site h.site.ms) (length before_event) (91 ∷ [])
          (layout_items is ++ 93 ∷ after_event)
          (ap (λ t. drop (length before_event) t) inside_event
            ∙ drop-append before_event (91 ∷ (layout_items is ++ 93 ∷ after_event))))

  pub one_event : Outcome h.site (run h.site)
  unfolding insertion IsValue layout
  one_event =
      let view : get_key h.site.serde h.site.event (object h.hs) ≡ some (array is) =
        event_view h ∙ ap last one_array in
      let at = length before_event + 1 in
      let w = lead (file h.site h.site.ms) at in
      let hw = lead-IsWhite (file h.site h.site.ms) at in
      let more = array (item w h.site.g [] is) in
      let text : splice (file h.site h.site.ms) (at, layout h.site.g ++ item_comma is)
          ≡ file h.site (put hooks_key (object (put h.site.event more h.hs)) h.site.ms) =
        splice_lem (file h.site h.site.ms) before_event (layout_items is ++ 93 ∷ after_event) 91 at
          (layout h.site.g ++ item_comma is) inside_event refl
        ∙ ap (λ t. before_event ++ 91 ∷ t) (group_shape w (93 ∷ after_event) h.site.g is)
        ∙ sym (array_text before_event after_event (item w h.site.g [] is))
        ∙ sym (put_event_file more) in
      let spot : Spot (file h.site h.site.ms) at (layout h.site.g ++ item_comma is) = record {
        before = before_event;
        open_byte = 91;
        rest = layout_items is ++ 93 ∷ after_event;
        body = layout h.site.g;
        comma_text = item_comma is;
        opening = refl;
        text = inside_event;
        place = refl;
        parts = refl;
        shape =
            group h.site.gs (subst IsValue h.site.is_group h.site.hg) (ap layout h.site.is_group);
        ends = Comma-items is after_event good-IsItems;
      } in
      rw (one_view h, insertion, root_lem h.site, found_hooks h, view, found_event, comma_event)
        (
          w,
          hw,
          put hooks_key (object (put h.site.event more h.hs)) h.site.ms,
          new_group h.hs is h.one one_array refl,
          IsMembers-put hooks_key (object (put h.site.event more h.hs)) h.site.ms h.site.good (
              IsMembers-put h.site.event more h.hs (good_hooks h)
                (hw, h.site.hg, refl, good-IsItems)),
          text,
          spot,
        )
