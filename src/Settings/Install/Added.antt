-- ===== src/Settings/Install/Added.antt =====
-- What `insertion` of crates/memgarden-cli/src/settings.rs should do to the tree of the file.
use memgarden.Prelude.{
  false, Option, none, some, List, [], ◌∷◌, ◌≡◌, ◌⊎◌, inl, inr, refl, Bool-cases, coalesce,
}
use memgarden.Prelude.Text.{Text, codes, same_text}
use memgarden.Settings.Scan.Find.{values}
use memgarden.Settings.Entry.{SettingsError, wrong_type, duplicated}
use memgarden.Settings.View.{Serde, has_code, get_member}
use memgarden.Settings.Install.{wrong, object_or_not, array_or_not}
use memgarden.Settings.Install.Put.{put}
use memgarden.Settings.Tree.{Value, Members, Items, object, array, end, member, nil, item}

abbrev pub hooks_key : Text
hooks_key = codes "hooks"

abbrev pub space : Text
space = 32 ∷ []

-- `[group]`
abbrev pub only : Value → Value
only g = array (item [] g [] (nil []))

-- A member in front of the others, after the white space `w`.
abbrev pub in_front : Text → Text → Value → Members → Members
in_front w key v ms = member w key [] space v [] ms

-- The members of the file before and after: `group` is a new first group of the event, the array or
-- the object around it is made where there is none, and all else stays as it is.
pub data Added (event : Text) (group : Value) (w : Text) (ms ms' : Members) : Type 0 where
  new_hooks :
      values hooks_key ms ≡ []
      → ms' ≡ in_front w hooks_key (object (in_front [] event (only group) (end []))) ms
      → Added event group w ms ms'
  new_event :
      (hs : Members)
      → values hooks_key ms ≡ object hs ∷ []
      → values event hs ≡ []
      → ms' ≡ put hooks_key (object (in_front w event (only group) hs)) ms
      → Added event group w ms ms'
  new_group :
      (hs : Members) (is : Items)
      → values hooks_key ms ≡ object hs ∷ []
      → values event hs ≡ array is ∷ []
      → ms' ≡ put hooks_key (object (put event (array (item w group [] is)) hs)) ms
      → Added event group w ms ms'

abbrev pub last : List Value → Option Value
last [] = none
last (v ∷ vs) = coalesce (last vs) (some v)

abbrev pub Twice : List Value → Type 0
Twice vs = (u : Value) × (v : Value) × (r : List Value) × (vs ≡ u ∷ v ∷ r)

-- When there is nothing to splice into, and what is said then.
pub data Refused (event : Text) (ms : Members) : SettingsError → Type 0 where
  no_object :
      {e : SettingsError}
      → object_or_not (last (values hooks_key ms)) ≡ wrong
      → e ≡ wrong_type hooks_key
      → Refused event ms e
  two_hooks :
      {e : SettingsError}
      → Twice (values hooks_key ms)
      → e ≡ duplicated hooks_key
      → Refused event ms e
  no_array :
      {e : SettingsError} (hs : Members)
      → values hooks_key ms ≡ object hs ∷ []
      → array_or_not (last (values event hs)) ≡ wrong
      → e ≡ wrong_type event
      → Refused event ms e
  two_events :
      {e : SettingsError} (hs : Members)
      → values hooks_key ms ≡ object hs ∷ []
      → Twice (values event hs)
      → e ≡ duplicated event
      → Refused event ms e

-- No key is spelled with a backslash.
abbrev pub PlainKeys : Members → Type 0
PlainKeys (end w) = Unit
PlainKeys (member a k b c v d ms) = (has_code 92 k ≡ false) × PlainKeys ms

pub get_member-last :
    (serde : Serde) (key : Text) (ms : Members)
    → PlainKeys ms
    → get_member serde key ms ≡ last (values key ms)
unfolding get_member
get_member-last serde key (end w) h = refl
get_member-last serde key (member a k b c v d ms) (h, hs) =
    let ih = get_member-last serde key ms hs in
    let plain = serde.decode_plain k h in
    elim (Bool-cases (same_text k key)) [
      | inl m ↦ rw (plain, m, ih) refl
      | inr m ↦ rw (plain, m, ih) (coalesce-none (last (values key ms)))
    ]
  where
    coalesce-none : (o : Option Value) → coalesce o none ≡ o
    coalesce-none none = refl
    coalesce-none (some u) = refl

-- How often a key occurs.
pub Values-cases : (vs : List Value) → (vs ≡ []) ⊎ ((v : Value) × (vs ≡ v ∷ [])) ⊎ Twice vs
Values-cases [] = inl refl
Values-cases (v ∷ []) = inr (inl (v, refl))
Values-cases (u ∷ v ∷ r) = inr (inr (u, v, r, refl))
