-- ===== src/Settings/Install/Total.antt =====
-- `insertion` of crates/memgarden-cli/src/settings.rs, whatever the file holds.
use memgarden.Prelude.{
  true, false, Option, none, some, List, [], ◌∷◌, ◌≡◌, ◌≢◌, ◌⊎◌, coalesce, ◌∙◌, refl, sym, ap, inl,
  inr,
}
use memgarden.Prelude.Text.{Text}
use memgarden.Settings.Scan.Find.{values}
use memgarden.Settings.View.{Serde, get_key}
use memgarden.Settings.Install.{Slot, absent, wrong, right, object_or_not, array_or_not, insertion}
use memgarden.Settings.Install.Added.{
  hooks_key, no_object, two_hooks, PlainKeys, last, Twice, Values-cases,
}
use memgarden.Settings.Entry.{entries}
use memgarden.Settings.Uninstall.{is_event}
use memgarden.Settings.Tree.{
  Value, Members, text, atom, object, array, layout, is_spelling, IsWhite, IsValue, IsMembers,
}
use memgarden.Settings.Install.Refines.{
  file_of, Implements, Site, hooks_view, root_lem, find_member-Twice, no_hooks,
}
use memgarden.Settings.Install.Refines.Hooks.{OneHooks, no_event, no_array_lem, two_events_lem}
use memgarden.Settings.Install.Refines.Group.{one_event}

Slot-cases : (o : Slot) → (o ≡ absent) ⊎ (o ≡ wrong) ⊎ ((v : Value) × (o ≡ right v))
Slot-cases absent = inl refl
Slot-cases wrong = inr (inl refl)
Slot-cases (right v) = inr (inr (v, refl))

-- Of two values, there is a last one.
last-Twice : (vs : List Value) → Twice vs → (v : Value) × (last vs ≡ some v)
last-Twice vs (u, v, r, e) = rw e (coalesce-some (coalesce (last r) (some v)) u)
  where
    coalesce-some : (o : Option Value) (u : Value) → (w : Value) × (coalesce o (some u) ≡ some w)
    coalesce-some none u = (u, refl)
    coalesce-some (some w) u = (w, refl)

object_or_not-some : (v : Value) → object_or_not (some v) ≢ absent
object_or_not-some (text s) = cc
object_or_not-some (atom c s) = cc
object_or_not-some (object ms) = cc
object_or_not-some (array is) = cc

array_or_not-some : (v : Value) → array_or_not (some v) ≢ absent
array_or_not-some (text s) = cc
array_or_not-some (atom c s) = cc
array_or_not-some (object ms) = cc
array_or_not-some (array is) = cc

module _ (serde : Serde) (event : Text) (g : Value) (w0 w1 : Text) (ms : Members)
    (white : IsWhite w0) (good : IsMembers ms) (plain : PlainKeys ms)
    (plain_hooks : (hs : Members) → values hooks_key ms ≡ object hs ∷ [] → PlainKeys hs)
    (spelled : is_spelling false event ≡ true) (hg : IsValue g) (gs : Members)
    (is_group : g ≡ object gs) (ours : is_event event entries ≡ true) where
  abbrev Answers : Type 0
  Answers =
      Implements event g w0 w1 ms (insertion serde (file_of w0 w1 ms) (object ms) event (layout g))

  abbrev site : Site
  site = record {
    serde = serde;
    event = event;
    g = g;
    w0 = w0;
    w1 = w1;
    ms = ms;
    white = white;
    good = good;
    plain = plain;
    spelled = spelled;
    hg = hg;
    gs = gs;
    is_group = is_group;
    ours = ours;
  }

  view_of : get_key serde hooks_key (object ms) ≡ last (values hooks_key ms)
  view_of = hooks_view site

  no_object_lem : object_or_not (last (values hooks_key ms)) ≡ wrong → Answers
  unfolding insertion
  no_object_lem e =
      let slot : object_or_not (get_key serde hooks_key (object ms)) ≡ wrong =
        ap object_or_not view_of ∙ e in
      rw (slot, insertion) (no_object e refl)

  many_hooks : Twice (values hooks_key ms) → Answers
  unfolding insertion
  many_hooks twice =
      let (v, is_last) = last-Twice (values hooks_key ms) twice in
      elim (Slot-cases (object_or_not (last (values hooks_key ms)))) [
        | inl e ↦ absurd (object_or_not-some v (ap object_or_not (sym is_last) ∙ e))
        | inr (inl e) ↦ no_object_lem e
        | inr (inr (u, e)) ↦
            let slot : object_or_not (get_key serde hooks_key (object ms)) ≡ right u =
              ap object_or_not view_of ∙ e in
            let root = root_lem site in
            let found = find_member-Twice (file_of w0 w1 ms) w0 w1 hooks_key ms twice good refl in
            rw (slot, insertion, root, found) (two_hooks twice refl)
      ]

  module _ (hs : Members) (one : values hooks_key ms ≡ object hs ∷ []) where
    abbrev held : OneHooks
    held = record { site = site; hs = hs; one = one; plain_hooks = plain_hooks hs one }

    not_array : array_or_not (last (values event hs)) ≡ wrong → Answers
    not_array = no_array_lem held

    single_event : (v : Value) → values event hs ≡ v ∷ [] → Answers
    single_event (text s) e = not_array (ap (λ vs. array_or_not (last vs)) e)
    single_event (atom c s) e = not_array (ap (λ vs. array_or_not (last vs)) e)
    single_event (object xs) e = not_array (ap (λ vs. array_or_not (last vs)) e)
    single_event (array is) e = one_event held is e

    many_events : Twice (values event hs) → Answers
    many_events twice =
        let (v, is_last) = last-Twice (values event hs) twice in
        elim (Slot-cases (array_or_not (last (values event hs)))) [
          | inl e ↦ absurd (array_or_not-some v (ap array_or_not (sym is_last) ∙ e))
          | inr (inl e) ↦ not_array e
          | inr (inr (u, e)) ↦ two_events_lem held u e twice
        ]

    with_hooks : Answers
    with_hooks = elim (Values-cases (values event hs)) [
      | inl e ↦ no_event held e
      | inr (inl (v, e)) ↦ single_event v e
      | inr (inr twice) ↦ many_events twice
    ]

  single_hooks : (v : Value) → values hooks_key ms ≡ v ∷ [] → Answers
  single_hooks (text s) e = no_object_lem (ap (λ vs. object_or_not (last vs)) e)
  single_hooks (atom c s) e = no_object_lem (ap (λ vs. object_or_not (last vs)) e)
  single_hooks (object hs) e = with_hooks hs e
  single_hooks (array is) e = no_object_lem (ap (λ vs. object_or_not (last vs)) e)

  -- Let the file be any JSON object, with any layout, no key of it or of its `hooks` spelled with a
  -- backslash. What `insertion` says to insert, with the newline and the indent before it, makes the
  -- text of the same tree with the group added: as the first group of the event, in a new array if the
  -- event is new, in a new `hooks` if there is none. It refuses the file just where there are two
  -- `hooks` or two of the event, or where one holds something else.
  pub insertion-Implements :
      Implements event g w0 w1 ms (insertion serde (file_of w0 w1 ms) (object ms) event (layout g))
  insertion-Implements = elim (Values-cases (values hooks_key ms)) [
    | inl e ↦ no_hooks site e
    | inr (inl (v, e)) ↦ single_hooks v e
    | inr (inr twice) ↦ many_hooks twice
  ]
