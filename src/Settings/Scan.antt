-- ===== src/Settings/Scan.antt =====
-- The scanner of crates/memgarden-cli/src/settings.rs. A text is the list of its bytes, and `s` from
-- the offset `i` on is `drop i s`. A loop over an offset takes the offset and the bytes from it on.
pub mod Runs
pub mod Passes
pub mod Whole
pub mod Members
pub mod Find
use memgarden.Prelude.{
  ℕ, zero, suc, ◌+◌, ◌-◌, Bool, true, false, not, ◌&&◌, ◌||◌, Option, none, some, List, [], ◌∷◌,
  leb, ltb, ◌==◌, if◌then◌else◌,
}
use memgarden.Prelude.Lists.{length, take, drop}
use memgarden.Prelude.Text.{Text, same_text}

abbrev pub quote : ℕ
quote = 34

-- `u8::is_ascii_whitespace`
abbrev pub is_ascii_whitespace : ℕ → Bool
is_ascii_whitespace c = (c == 32) || ((c == 9) || ((c == 10) || ((c == 12) || (c == 13))))

-- `s.get(i) == Some(&c)`
abbrev pub is_at : ℕ → Text → Bool
is_at c [] = false
is_at c (d ∷ r) = d == c

-- `s.get(a..b)`
unfoldable pub get_range : Text → ℕ → ℕ → Option Text
get_range s a b = if leb a b && leb b (length s) then some (take (b - a) (drop a s)) else none

unfoldable pub ws_loop : (ℕ → Bool) → ℕ → Text → ℕ
ws_loop is_ws i [] = i
ws_loop is_ws i (c ∷ r) = let rest = ws_loop is_ws (suc i) r in if is_ws c then rest else i

unfoldable pub skip_ws : Text → ℕ → ℕ
skip_ws s i = ws_loop is_ascii_whitespace i (drop i s)

abbrev pub is_inline : ℕ → Bool
is_inline c = (c == 32) || (c == 9)

unfoldable pub skip_ws_inline : Text → ℕ → ℕ
skip_ws_inline s i = ws_loop is_inline i (drop i s)

-- The loop of `skip_string`; the test says whether a backslash, whose step is two bytes, has just
-- been passed.
unfoldable pub string_loop : Bool → ℕ → Text → Option ℕ
string_loop escaped i [] = none
string_loop true i (c ∷ r) = string_loop false (suc i) r
string_loop false i (c ∷ r) =
    let rest = string_loop (c == 92) (suc i) r in if c == quote then some (suc i) else rest

unfoldable pub skip_string : Text → ℕ → Option ℕ
unfolding string_loop
skip_string s i = elim (drop i s) [
  | [] ↦ none
  | c ∷ r ↦ if c == quote then string_loop false (suc i) r else none
]

-- The arms of the two matches on a byte.
pub data Byte : Type 0 where
  quotes opens closes other : Byte

unfoldable pub byte_of : ℕ → Byte
byte_of c =
    if c == quote
    then quotes
    else if (c == 123) || (c == 91)
    then opens
    else if (c == 125) || (c == 93)
    then closes
    else other

-- The loop of `skip_container`, with one unit of fuel for each round.
unfoldable pub container_loop : ℕ → Text → ℕ → ℕ → Option ℕ
unfolding skip_string byte_of
container_loop zero s depth i = none
container_loop (suc n) s depth i = elim (drop i s) [
  | [] ↦ none
  | c ∷ r ↦ elim (byte_of c) [
    | quotes ↦ elim (skip_string s i) [ none ↦ none | some j ↦ container_loop n s depth j ]
    | opens ↦ container_loop n s (suc depth) (suc i)
    | closes ↦ elim (depth - 1 == 0) [
      | true ↦ some (suc i)
      | false ↦ container_loop n s (depth - 1) (suc i)
    ]
    | other ↦ container_loop n s depth (suc i)
  ]
]

unfoldable pub skip_container : Text → ℕ → Option ℕ
unfolding container_loop
skip_container s i = container_loop (suc (length s)) s 0 i

-- What ends a number or a literal.
abbrev pub ends_atom : ℕ → Bool
ends_atom c = (c == 44) || ((c == 125) || ((c == 93) || is_ascii_whitespace c))

unfoldable pub atom_loop : ℕ → Text → ℕ
atom_loop i [] = i
atom_loop i (c ∷ r) = let rest = atom_loop (suc i) r in if ends_atom c then i else rest

unfoldable pub value_from : Text → ℕ → Option ℕ
unfolding skip_string skip_container byte_of atom_loop
value_from s i = elim (drop i s) [
  | [] ↦ none
  | c ∷ r ↦ elim (byte_of c) [
    | quotes ↦ skip_string s i
    | opens ↦ skip_container s i
    | _ ↦ let j = atom_loop i (c ∷ r) in if ltb i j then some j else none
  ]
]

unfoldable pub skip_value : Text → ℕ → Option ℕ
unfolding skip_ws value_from
skip_value s i = value_from s (skip_ws s i)

-- `.is_some_and(|k| k == key)`
abbrev pub key_is : Option Text → Text → Bool
key_is none key = false
key_is (some k) key = same_text k key

pub data Member : Type 0 where
  found_at : ℕ → Member
  not_found duplicate : Member

abbrev pub is_some : Option ℕ → Bool
is_some none = false
is_some (some v) = true

abbrev pub found_or_not : Option ℕ → Member
found_or_not none = not_found
found_or_not (some v) = found_at v

-- What `find_member` does behind a colon: `go` is the next round, `found` what has matched so far.
module _ (s : Text) (go : Option ℕ → ℕ → Member) where
  unfoldable pub after_value : Option ℕ → Option ℕ → Member
  unfolding skip_ws
  after_value found none = found_or_not found
  after_value found (some after) =
      let comma = skip_ws s after in
      if is_at 44 (drop comma s) then go found (skip_ws s (comma + 1)) else found_or_not found

  unfoldable pub with_value : Option ℕ → Bool → ℕ → Member
  unfolding after_value skip_value
  with_value found matches value =
      if matches && is_some found
      then duplicate
      else after_value (if matches then some value else found) (skip_value s value)

-- The loop of `find_member` over the members, with one unit of fuel for each; `found` is the offset
-- of the value that has matched.
unfoldable pub member_loop : ℕ → Text → Text → Option ℕ → ℕ → Member
unfolding skip_string skip_ws get_range with_value
member_loop zero s key found i = not_found
member_loop (suc n) s key found i = elim (is_at quote (drop i s)) [
  | false ↦ found_or_not found
  | true ↦ elim (skip_string s i) [
    | none ↦ found_or_not found
    | some key_end ↦
        let colon = skip_ws s key_end in
        elim (is_at 58 (drop colon s)) [
          | false ↦ found_or_not found
          | true ↦
              with_value s (member_loop n s key) found
                (key_is (get_range s (i + 1) (key_end - 1)) key) (skip_ws s (colon + 1))
        ]
  ]
]

unfoldable pub find_member : Text → ℕ → Text → Member
unfolding member_loop skip_ws
find_member s obj_start key =
    if is_at 123 (drop obj_start s)
    then member_loop (suc (length s)) s key none (skip_ws s (obj_start + 1))
    else not_found
