-- ===== src/Settings/Install/Group.antt =====
-- The line that `group_line` of crates/memgarden-cli/src/settings.rs writes is the layout of a group.
use memgarden.Prelude.{
  ℕ, ◌+◌, ◌/◌, ◌%◌, ◌<◌, Bool, true, false, [], ◌∷◌, ◌≡◌, refl, ltb, if◌then◌else◌, inl, inr,
  Bool-cases, arith,
}
use mathlib.Core.List.{append_assoc}
use memgarden.Prelude.Text.{Text, codes}
use memgarden.Settings.Entry.{Entry, decimal, group_line}
use memgarden.Settings.Scan.{byte_of}
use memgarden.Settings.Tree.{
  Value, Members, Items, text, atom, object, array, end, member, nil, item, layout, quoted,
  is_spelling, IsValue, IsMembers,
}

-- A member with no white space.
abbrev tight : Text → Value → Members → Members
tight key v ms = member [] key [] [] v [] ms

abbrev tight_item : Value → Items → Items
tight_item v is = item [] v [] is

abbrev timeout_value : ℕ → Value
timeout_value n = if ltb n 10 then atom (48 + n) [] else atom (48 + n / 10) ((48 + n % 10) ∷ [])

abbrev async_member : Bool → Members → Members
async_member b ms = if b then tight (codes "async") (atom 116 (codes "rue")) ms else ms

abbrev pub hook_members : Entry → Text → Members
hook_members e path = tight (codes "type") (text (codes "command")) (
    tight (codes "command") (text path) (
      tight (codes "args")
        (array (tight_item (text (codes "hook")) (tight_item (text e.sub) (nil []))))
        (tight (codes "timeout") (timeout_value e.timeout) (
          async_member e.is_async
            (tight (codes "statusMessage") (text e.status_message) (end []))))))

abbrev pub group_members : Entry → Text → Members
group_members e path =
    tight (codes "hooks") (array (tight_item (object (hook_members e path)) (nil []))) (end [])

layout-timeout_value : (n : ℕ) → layout (timeout_value n) ≡ decimal n
unfolding layout decimal
layout-timeout_value n = elim (Bool-cases (ltb n 10)) [ inl e ↦ rw e refl | inr e ↦ rw e refl ]

pub group_line-layout :
    (e : Entry) (path : Text) → group_line e (quoted path) ≡ layout (object (group_members e path))
unfolding group_line layout
group_line-layout e path = elim (Bool-cases e.is_async) [
  | inl b ↦ rw (b, ← layout-timeout_value e.timeout) (simp append_assoc)
  | inr b ↦ rw (b, ← layout-timeout_value e.timeout) (simp append_assoc)
]

-- What an entry holds is spelled well.
abbrev pub IsEntry : Entry → Type 0
IsEntry e =
    (is_spelling false e.sub ≡ true)
    × (is_spelling false e.status_message ≡ true)
    × (e.timeout < 100)

IsValue-timeout_value : (n : ℕ) → n < 100 → IsValue (timeout_value n)
unfolding IsValue byte_of
IsValue-timeout_value n h = elim (Bool-cases (ltb n 10)) [
  | inl e ↦ rw e (ground arith)
  | inr e ↦ rw e (ground arith)
]

tight-IsMembers :
    (key : Text) (v : Value) (ms : Members)
    → is_spelling false key ≡ true
    → IsValue v
    → IsMembers ms
    → IsMembers (tight key v ms)
unfolding IsValue
tight-IsMembers key v ms h k l = (refl, h, refl, refl, k, refl, l)

async-IsMembers : (b : Bool) (ms : Members) → IsMembers ms → IsMembers (async_member b ms)
unfolding IsValue byte_of
async-IsMembers true ms h = tight-IsMembers (codes "async") (atom 116 (codes "rue")) ms refl refl h
async-IsMembers false ms h = h

pub IsValue-group :
    (e : Entry) (path : Text)
    → IsEntry e
    → is_spelling false path ≡ true
    → IsValue (object (group_members e path))
unfolding IsValue
IsValue-group e path (hs, hm, hn) hp =
    let args = array (tight_item (text (codes "hook")) (tight_item (text e.sub) (nil []))) in
    let m1 = tight (codes "statusMessage") (text e.status_message) (end []) in
    let m2 = async_member e.is_async m1 in
    let m3 = tight (codes "timeout") (timeout_value e.timeout) m2 in
    let m4 = tight (codes "args") args m3 in
    let m5 = tight (codes "command") (text path) m4 in
    let status =
      tight-IsMembers (codes "statusMessage") (text e.status_message) (end []) refl hm refl in
    let async = async-IsMembers e.is_async m1 status in
    let timeout =
      tight-IsMembers (codes "timeout") (timeout_value e.timeout) m2 refl
        (IsValue-timeout_value e.timeout hn) async in
    let with_args =
      tight-IsMembers (codes "args") args m3 refl (refl, refl, refl, (refl, hs, refl, refl))
        timeout in
    let command = tight-IsMembers (codes "command") (text path) m4 refl hp with_args in
    let hook = tight-IsMembers (codes "type") (text (codes "command")) m5 refl refl command in
    tight-IsMembers (codes "hooks") (array (tight_item (object (hook_members e path)) (nil [])))
      (end []) refl (refl, hook, refl, refl) refl
