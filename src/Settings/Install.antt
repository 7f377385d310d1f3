-- ===== src/Settings/Install.antt =====
-- `install` of crates/memgarden-cli/src/settings.rs. The document that serde_json makes of a text is
-- read off its tree.
pub mod Group
pub mod Put
pub mod Added
pub mod Shapes
pub mod Splice
pub mod Refines
pub mod Total
use memgarden.Prelude.{
  ℕ, zero, suc, ◌+◌, ◌-◌, ◌/◌, ◌%◌, Bool, true, false, not, ◌&&◌, ◌||◌, Option, none, some, List,
  [], ◌∷◌, ◌++◌, ◌≡◌, leb, ltb, ◌==◌, if◌then◌else◌, String,
}
use memgarden.Prelude.Lists.{length, take, drop}
use memgarden.Prelude.Text.{Text, codes, same_text, starts_with, contains}
use memgarden.Settings.Scan.{
  skip_ws, is_at, is_inline, ws_loop, skip_ws_inline, Member, found_at, not_found, duplicate,
  find_member,
}
use memgarden.Settings.Tree.{
  Value, Members, Items, text, atom, object, array, end, member, nil, item,
}
use memgarden.Settings.Entry.{
  Entry, entries, SettingsError, parse, not_an_object, would_corrupt, unlocatable, wrong_type,
  duplicated, Result, ok, err, group_line,
}
use memgarden.Settings.View.{Serde, get_key, is_json_object, wired_events}

-- `doc.get("hooks")` and its like: whether the key is there, and holds what can be spliced into.
pub data Slot : Type 0 where
  absent wrong : Slot
  right : Value → Slot

abbrev pub object_or_not : Option Value → Slot
object_or_not none = absent
object_or_not (some (object ms)) = right (object ms)
object_or_not (some (text s)) = wrong
object_or_not (some (atom c s)) = wrong
object_or_not (some (array is)) = wrong

abbrev pub array_or_not : Option Value → Slot
array_or_not none = absent
array_or_not (some (array is)) = right (array is)
array_or_not (some (object ms)) = wrong
array_or_not (some (text s)) = wrong
array_or_not (some (atom c s)) = wrong

abbrev pub any_text : Text → List Text → Bool
any_text t [] = false
any_text t (u ∷ us) = same_text u t || any_text t us

abbrev pub comma_before : Text → Text
comma_before [] = []
comma_before (c ∷ r) = if (c == 125) || (c == 93) then [] else 44 ∷ []

-- A comma, unless the container that opens at `open_at` is empty.
abbrev pub trailing_comma : Text → ℕ → Text
trailing_comma s open_at = comma_before (drop (skip_ws s (open_at + 1)) s)

-- The bytes up to the last line feed, and behind it: `rposition` and what follows.
unfoldable pub last_line : Text → Text → Text
last_line line [] = line
last_line line (c ∷ r) = last_line (if c == 10 then r else line) r

-- The blanks at the start.
unfoldable pub blanks : Text → Text
blanks [] = []
blanks (c ∷ r) = let rest = blanks r in if is_inline c then c ∷ rest else []

abbrev pub or_else : Text → Text → Text
or_else [] t = t
or_else (c ∷ r) t = c ∷ r

-- The blanks before the first child, or two more than the container's line has.
unfoldable pub inner_indent : Text → ℕ → Text
unfolding last_line blanks skip_ws_inline
inner_indent s after_open =
    let i = skip_ws_inline s after_open in
    let child = if is_at 10 (drop i s) then blanks (drop (i + 1) s) else [] in
    let before = take after_open s in
    let line_start = after_open - length (last_line before before) in
    or_else child (blanks (drop line_start s) ++ codes "  ")

unfoldable pub insertion : Serde → Text → Value → Text → Text → Result (ℕ × Text)
unfolding skip_ws find_member get_key
insertion serde s doc event line =
    let root = skip_ws s 0 in
    elim (object_or_not (get_key serde (codes "hooks") doc)) [
      | absent ↦ ok (
        root + 1,
        codes "\"hooks\": {\""
            ++ (event ++ (codes "\": [" ++ (line ++ (codes "]}" ++ trailing_comma s root)))),
      )
      | wrong ↦ err (wrong_type (codes "hooks"))
      | right hooks ↦ elim (find_member s root (codes "hooks")) [
        | not_found ↦ err (unlocatable (codes "hooks"))
        | duplicate ↦ err (duplicated (codes "hooks"))
        | found_at hooks_at ↦ elim (array_or_not (get_key serde event hooks)) [
          | absent ↦ ok (
            hooks_at + 1,
            codes "\""
                ++ (event ++ (codes "\": [" ++ (line ++ (codes "]" ++ trailing_comma s hooks_at)))),
          )
          | wrong ↦ err (wrong_type event)
          | right e ↦ elim (find_member s hooks_at event) [
            | not_found ↦ err (unlocatable event)
            | duplicate ↦ err (duplicated event)
            | found_at event_at ↦ ok (event_at + 1, line ++ trailing_comma s event_at)
          ]
        ]
      ]
    ]

-- `format!("{newline}{indent}{chunk}")`
unfoldable pub inserted_text : Text → ℕ → Text → Text
unfolding inner_indent
inserted_text s at chunk =
    (if contains (13 ∷ 10 ∷ []) s then 13 ∷ 10 ∷ [] else 10 ∷ []) ++ (inner_indent s at ++ chunk)

-- `text.insert_str(at, &inserted)`
abbrev pub insert_str : Text → ℕ → Text → Text
insert_str s at t = take at s ++ (t ++ drop at s)

abbrev pub splice : Text → ℕ × Text → Text
splice s (at, chunk) = insert_str s at (inserted_text s at chunk)

-- The loop of `install`: the text, and whether anything has changed. (The lines that the code keeps
-- for its `--dry-run` are not kept here.)
unfoldable pub install_loop :
    Serde → Text → List Text → List Entry → Text → Bool → Result (Text × Bool)
unfolding insertion inserted_text group_line
install_loop serde command already [] s changed = ok (s, changed)
install_loop serde command already (e ∷ es) s changed =
    let skip = install_loop serde command already es s changed in
    elim (any_text e.event already) [
      | true ↦ skip
      | false ↦ elim (serde.from_str s) [
        | none ↦ err parse
        | some doc ↦ elim (insertion serde s doc e.event (group_line e command)) [
          | err x ↦ err x
          | ok r ↦ install_loop serde command already es (splice s r) true
        ]
      ]
    ]

unfoldable pub install : Serde → Text → Text → Result Text
unfolding install_loop wired_events
install serde command src = elim (serde.from_str src) [
  | none ↦ err parse
  | some doc ↦
      if is_json_object doc
      then elim (install_loop serde command (wired_events serde doc) entries src false) [
        | err x ↦ err x
        | ok (s, false) ↦ ok src
        | ok (s, true) ↦ elim (serde.from_str s) [ none ↦ err would_corrupt | some d ↦ ok s ]
      ]
      else err not_an_object
]
