-- ===== src/Settings/Install/Refines/Hooks.antt =====
-- The edit of crates/memgarden-cli/src/settings.rs where the file has one `hooks`, an object.
use memgarden.Prelude.{◌+◌, none, some, [], ◌∷◌, ◌++◌, ◌≡◌, ◌∙◌, refl, sym, ap}
use mathlib.Core.List.{append_assoc}
use memgarden.Prelude.Lists.{length, drop, drop-append}
use memgarden.Prelude.Text.{Text}
use memgarden.Settings.Scan.{found_at, find_member}
use memgarden.Settings.Scan.Runs.{drop-past}
use memgarden.Settings.Scan.Find.{values}
use memgarden.Settings.View.{get_key}
use memgarden.Settings.Install.{wrong, right, array_or_not, insertion, trailing_comma, splice}
use memgarden.Settings.Install.Put.{put, Placed, Placed-of}
use memgarden.Settings.Install.Added.{
  hooks_key, only, in_front, new_event, no_array, two_events, PlainKeys, get_member-last, last,
  Twice,
}
use memgarden.Settings.Install.Shapes.{
  event_chunk, object_text, event_shape, event_parts, or_right, IsMembers-put, IsValue-values,
}
use memgarden.Settings.Install.Splice.{trailing_comma-members, lead, lead-IsWhite, splice_lem}
use memgarden.Settings.Uninstall.Body.{wrapper, Spot, Comma-members}
use memgarden.Settings.Tree.{
  quoted, Value, Members, object, layout, layout_members, comma, IsValue, IsMembers,
}
use memgarden.Settings.Install.Refines.{
  Site, find_member-Placed, find_member-Twice, file, run, Outcome, root_lem, hooks_view, file_text,
}

-- The file has one `hooks`, an object.
pub record OneHooks : Type 0 where
  pub site : Site
  pub hs : Members
  pub one : values hooks_key site.ms ≡ object hs ∷ []
  pub plain_hooks : PlainKeys hs

module _ (h : OneHooks) where
  pub placed : Placed hooks_key (object h.hs) h.site.ms
  placed = Placed-of hooks_key (object h.hs) h.site.ms h.one

  abbrev pub before_hooks : Text
  before_hooks = h.site.w0 ++ 123 ∷ placed.before

  abbrev pub after_hooks : Text
  after_hooks = placed.after ++ 125 ∷ h.site.w1

  pub good_hooks : IsMembers h.hs
  unfolding IsValue
  good_hooks = IsValue-values hooks_key (object h.hs) h.site.ms h.one h.site.good

  -- The file with another `hooks`.
  pub file-put :
      (u : Value)
      → file h.site (put hooks_key u h.site.ms) ≡ before_hooks ++ (layout u ++ after_hooks)
  file-put u =
      object_text h.site.w0 h.site.w1 (put hooks_key u h.site.ms)
      ∙ ap (λ t. h.site.w0 ++ 123 ∷ (t ++ 125 ∷ h.site.w1)) (placed.put_text u)
      ∙ (simp append_assoc)

  pub hooks_text : file h.site h.site.ms ≡ before_hooks ++ (layout (object h.hs) ++ after_hooks)
  hooks_text =
      file_text h.site
      ∙ ap (λ t. h.site.w0 ++ 123 ∷ (t ++ 125 ∷ h.site.w1)) placed.text
      ∙ (simp append_assoc)

  pub found_hooks :
      find_member (file h.site h.site.ms) (length h.site.w0) hooks_key
      ≡ found_at (length before_hooks)
  found_hooks =
      find_member-Placed (file h.site h.site.ms) h.site.w0 h.site.w1 hooks_key h.site.ms
        (object h.hs) placed h.site.good refl

  pub one_view : get_key h.site.serde hooks_key (object h.site.ms) ≡ some (object h.hs)
  one_view = hooks_view h.site ∙ ap last h.one

  pub event_view : get_key h.site.serde h.site.event (object h.hs) ≡ last (values h.site.event h.hs)
  unfolding get_key
  event_view = get_member-last h.site.serde h.site.event h.hs h.plain_hooks

  pub inside_hooks :
      file h.site h.site.ms ≡ before_hooks ++ 123 ∷ (layout_members h.hs ++ 125 ∷ after_hooks)
  inside_hooks = hooks_text ∙ object_text before_hooks after_hooks h.hs

  pub comma_hooks : trailing_comma (file h.site h.site.ms) (length before_hooks) ≡ comma h.hs
  comma_hooks =
      trailing_comma-members (file h.site h.site.ms) (length before_hooks) h.hs after_hooks
        good_hooks
        (drop-past (file h.site h.site.ms) (length before_hooks) (123 ∷ [])
          (layout_members h.hs ++ 125 ∷ after_hooks)
          (ap (λ t. drop (length before_hooks) t) inside_hooks
            ∙ drop-append before_hooks (123 ∷ (layout_members h.hs ++ 125 ∷ after_hooks))))

  pub no_event : values h.site.event h.hs ≡ [] → Outcome h.site (run h.site)
  unfolding insertion IsValue layout
  no_event e =
      let view : get_key h.site.serde h.site.event (object h.hs) ≡ none = event_view ∙ ap last e in
      let at = length before_hooks + 1 in
      let w = lead (file h.site h.site.ms) at in
      let hw = lead-IsWhite (file h.site h.site.ms) at in
      let more = object (in_front w h.site.event (only h.site.g) h.hs) in
      let text : splice (file h.site h.site.ms)
            (at, event_chunk h.site.event (layout h.site.g) (comma h.hs))
          ≡ file h.site (put hooks_key more h.site.ms) =
        splice_lem (file h.site h.site.ms) before_hooks (layout_members h.hs ++ 125 ∷ after_hooks)
          123 at (event_chunk h.site.event (layout h.site.g) (comma h.hs)) inside_hooks refl
        ∙ ap (λ t. before_hooks ++ 123 ∷ t)
            (event_shape w h.site.event (125 ∷ after_hooks) h.site.g h.hs)
        ∙ sym (object_text before_hooks after_hooks (in_front w h.site.event (only h.site.g) h.hs))
        ∙ sym (file-put more) in
      let spot : Spot (file h.site h.site.ms) at
          (event_chunk h.site.event (layout h.site.g) (comma h.hs)) =
        record {
          before = before_hooks;
          open_byte = 123;
          rest = layout_members h.hs ++ 125 ∷ after_hooks;
          body = quoted h.site.event ++ 58 ∷ 32 ∷ layout (only h.site.g);
          comma_text = comma h.hs;
          opening = refl;
          text = inside_hooks;
          place = refl;
          parts = event_parts h.site.event (comma h.hs) h.site.g;
          shape =
              wrapper h.site.event (only h.site.g) (or_right h.site.event h.site.ours)
                h.site.spelled (refl, h.site.hg, refl, refl) tt refl;
          ends = Comma-members h.hs after_hooks good_hooks;
        } in
      rw (one_view, insertion, root_lem h.site, found_hooks, view, comma_hooks)
        (
          w,
          hw,
          put hooks_key more h.site.ms,
          new_event h.hs h.one e refl,
          IsMembers-put hooks_key more h.site.ms h.site.good
              (hw, h.site.spelled, refl, refl, (refl, h.site.hg, refl, refl), refl, good_hooks),
          text,
          spot,
        )

  pub no_array_lem :
      array_or_not (last (values h.site.event h.hs)) ≡ wrong → Outcome h.site (run h.site)
  unfolding insertion
  no_array_lem e =
      let slot : array_or_not (get_key h.site.serde h.site.event (object h.hs)) ≡ wrong =
        ap array_or_not event_view ∙ e in
      rw (one_view, insertion, root_lem h.site, found_hooks, slot) (no_array h.hs h.one e refl)

  pub two_events_lem :
      (v : Value)
      → array_or_not (last (values h.site.event h.hs)) ≡ right v
      → Twice (values h.site.event h.hs)
      → Outcome h.site (run h.site)
  unfolding insertion
  two_events_lem v e twice =
      let slot : array_or_not (get_key h.site.serde h.site.event (object h.hs)) ≡ right v =
        ap array_or_not event_view ∙ e in
      let found =
        find_member-Twice (file h.site h.site.ms) before_hooks after_hooks h.site.event h.hs twice
          good_hooks hooks_text in
      rw (one_view, insertion, root_lem h.site, found_hooks, slot, found)
        (two_events h.hs h.one twice refl)
