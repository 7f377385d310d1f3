-- ===== src/Examples/Settings.antt =====
-- The edit of crates/memgarden-cli/src/settings.rs on small files.
use memgarden.Prelude.{
  ◌+◌, ◌<◌, none, some, [], ◌∷◌, ◌++◌, ◌≡◌, refl, if◌then◌else◌, true, false, subst, arith,
}
use memgarden.Prelude.Lists.{length}
use memgarden.Prelude.Text.{Text, codes, contains, same_text}
use memgarden.Settings.Tree.{
  Value, Members, text, atom, object, array, end, member, nil, item, layout, IsValue, IsMembers,
}
use memgarden.Settings.Scan.{skip_value, find_member, ws_loop, byte_of}
use memgarden.Settings.Scan.Whole.{skip_value_lem}
use memgarden.Settings.Scan.Find.{Finds, values, find_member_lem}
use memgarden.Settings.Entry.{Result, ok, Entry}
use memgarden.Settings.View.{Serde, has_code, wired_events}
use memgarden.Settings.Install.{insertion, splice, inserted_text, inner_indent}
use memgarden.Settings.Install.Group.{group_members, IsValue-group}
use memgarden.Settings.Install.Refines.{Implements, file_of}
use memgarden.Settings.Install.Total.{insertion-Implements}
use memgarden.Settings.Install.Splice.{lead}
use memgarden.Settings.Uninstall.{uninstall, find_marker, commands}
use memgarden.Settings.Uninstall.Ends.{uninstall_total}
use memgarden.Settings.Install.Added.{PlainKeys}
use memgarden.Settings.Cycle.{uninstall-insertion}

-- {"a": ["}\"", 1]}
abbrev braces : Value
braces = object (
    member [] (codes "a") [] (codes " ")
      (array (item [] (text (codes "}\\\"")) [] (item (codes " ") (atom 49 []) [] (nil [])))) []
      (end []))

braces_good : IsValue braces
unfolding IsValue byte_of
braces_good = (refl, refl, refl, refl, (refl, refl, refl, (refl, refl, refl, refl)), refl, refl)

braces_text : codes "  {\"a\": [\"}\\\"\", 1]} " ≡ codes "  " ++ (layout braces ++ codes " ")
unfolding layout
braces_text = refl

abbrev stop : Text
stop = codes "Stop"

abbrev with_stop : Value → Members
with_stop v =
    member [] (codes "hooks") [] (codes " ") (object (member [] stop [] (codes " ") v [] (end [])))
      [] (end [])

-- {"hooks": {"Stop": []}}
abbrev before_members : Members
before_members = with_stop (array (nil []))

abbrev stop_entry : Entry
stop_entry = record {
  event = stop;
  sub = codes "retain";
  timeout = 30;
  is_async = true;
  status_message = codes "memgarden: retaining";
}

abbrev stop_group : Members
stop_group = group_members stop_entry (codes "/m")

abbrev after_members : Members
after_members = with_stop (array (item (codes "\n  ") (object stop_group) [] (nil [])))

abbrev before_text : Text
before_text = codes "{\"hooks\": {\"Stop\": []}}"

abbrev after_text : Text
after_text =
    codes
      "{\"hooks\": {\"Stop\": [\n  {\"hooks\":[{\"type\":\"command\",\"command\":\"/m\",\"args\":[\"hook\",\"retain\"],\"timeout\":30,\"async\":true,\"statusMessage\":\"memgarden: retaining\"}]}]}}"

abbrev serde : Serde
serde = record {
  decode = λ k. k;
  from_str = λ s.
      if same_text s before_text
      then some (object before_members)
      else if same_text s after_text
      then some (object after_members)
      else none;
  decode_plain = λ k h. refl;
}

layouts :
    (layout (object before_members) ≡ before_text) × (layout (object after_members) ≡ after_text)
unfolding layout
layouts = (refl, refl)

abbrev file : Text
file = file_of [] [] before_members

abbrev chunk : Text
chunk = layout (object stop_group)

abbrev edited : Text
edited = splice file (20, chunk)

inserted_run : insertion serde file (object before_members) stop chunk ≡ ok (20, chunk)
unfolding insertion layout ws_loop
inserted_run = refl

edited_run : edited ≡ after_text
unfolding inserted_text layout contains ws_loop inner_indent
edited_run = refl

marker_run : find_marker edited 0 ≡ some (20 + length (lead file 20) + 94)
unfolding find_marker ws_loop inserted_text layout contains inner_indent
marker_run = refl

unmarked_run : find_marker file 0 ≡ none
unfolding find_marker layout
unmarked_run = refl

one_line_run : has_code 10 chunk ≡ false
unfolding layout
one_line_run = refl

within_run : 94 < length chunk
unfolding layout
within_run = omega arith

once_run : commands chunk ≡ 1
unfolding layout commands
once_run = refl

parses_run : serde.from_str edited ≡ some (object after_members)
unfolding inserted_text layout contains ws_loop inner_indent
parses_run = refl

parses_file_run : serde.from_str file ≡ some (object before_members)
unfolding layout
parses_file_run = refl

unwired_run : wired_events serde (object before_members) ≡ []
unfolding wired_events
unwired_run = refl

before_good : IsMembers before_members
unfolding IsValue
before_good = (refl, refl, refl, refl, (refl, refl, refl, refl, refl, refl, refl), refl, refl)

group_good : IsValue (object stop_group)
group_good = IsValue-group stop_entry (codes "/m") (refl, refl, omega arith) refl

before_plain :
    (hs : Members) → values (codes "hooks") before_members ≡ object hs ∷ [] → PlainKeys hs
before_plain hs e =
    let same : member [] stop [] (codes " ") (array (nil [])) [] (end []) ≡ hs = cc e in
    subst PlainKeys same (refl, tt)

skip_value_lem_example :
    skip_value (codes "  {\"a\": [\"}\\\"\", 1]} ") 0 ≡ some (0 + 2 + length (layout braces))
skip_value_lem_example =
    skip_value_lem braces (codes "  {\"a\": [\"}\\\"\", 1]} ") 0 (codes "  ") (codes " ")
      braces_good tt refl braces_text

find_member_lem_example :
    Finds file (values (codes "hooks") before_members) (find_member file 0 (codes "hooks"))
find_member_lem_example = find_member_lem before_members file 0 (codes "hooks") [] before_good refl

insertion-Implements_example :
    Implements stop
      (object stop_group)
      []
      []
      before_members
      (insertion serde file (object before_members) stop chunk)
insertion-Implements_example =
    insertion-Implements serde stop (object stop_group) [] [] before_members refl before_good
      (refl, tt) before_plain refl group_good stop_group refl refl

uninstall-insertion_example : uninstall serde edited ≡ some (ok file)
uninstall-insertion_example =
    uninstall-insertion serde stop [] [] before_members refl before_good (refl, tt) before_plain
      refl refl stop_group group_good 20 chunk 94 (object after_members) (object before_members)
      inserted_run one_line_run once_run within_run marker_run unmarked_run parses_run
      parses_file_run unwired_run

uninstall_total_example : (r : Result Text) × (uninstall serde after_text ≡ some r)
uninstall_total_example = uninstall_total serde after_text
