-- ===== src/Examples/Sessions.antt =====
-- crates/memgarden-store/src/sessions.rs and what moves its cursors.
use memgarden.Prelude.{
  String, true, false, none, some, List, [], ◌∷◌, ◌≡◌, inl, refl, arith, str_eq, ◌&&◌, ◌↔◌, ◌⊎◌,
  if◌then◌else◌,
}
use memgarden.Prelude.Int.{ℤ, pos}
use memgarden.Error.{Error, ok, err, invalid, not_found}
use memgarden.Sessions.Row.{
  Session, SessionUpdate, no_change, merge_row, upsert_row, inflight_bytes,
}
use memgarden.Sessions.Row.Merge.{Advances, merge_row-Advances, merge_row-merge_row}
use memgarden.Sessions.Table.{get, has_bank, upsert}
use memgarden.Sessions.Table.Access.{IsSessionId, get-upsert, upsert_errors}
use memgarden.Sessions.Writers.{
  RetainRequest, task_of, task_range, no_confirm, if_settled, mirror_update, clean_update,
}
use memgarden.Sessions.Cursors.{World, start, durable, posted, Step, queue, clean, here, next}
use memgarden.Sessions.Cursors.Order.{IsOrdered, Reach-IsOrdered, clean_inverts}

-- A request that carries the bytes 0..500.
abbrev request : RetainRequest
request = record {
  session_id = some "s";
  cwd = none;
  byte_offset = some (pos 500);
  offset_from = some (pos 0);
  turn = some (pos 3);
  chunk = some (pos 0);
  compactions = none;
}

abbrev posted_row : Session
posted_row = upsert_row 10 "bank" (mirror_update request 4 no_confirm "s") none

abbrev queued_world : World
queued_world = record {
  row = some posted_row;
  queue = task_of request ∷ [];
  settled = [];
  jumped = [];
}

abbrev settled_row : Session
settled_row = upsert_row 20 "bank" (clean_update "s" (pos 0, pos 500)) (some posted_row)

abbrev settled_world : World
settled_world = record { row = some settled_row; queue = []; settled = (0, 500) ∷ []; jumped = [] }

queued : Step start queued_world
queued = queue 10 "bank" "s" request 4 refl

settled : Step queued_world settled_world
unfolding task_range
settled = clean 20 "bank" "s" [] [] (task_of request) (pos 0) (pos 500) refl refl refl

-- The run moves the durable cursor to 500.
settled_cursor : settled_row.confirmed_offset ≡ 500
unfolding upsert_row mirror_update clean_update
settled_cursor = refl

-- The row is dropped, and a request from 600 on is skipped.
abbrev late : RetainRequest
late = record request { byte_offset = some (pos 900); offset_from = some (pos 600) }

abbrev late_row : Session
late_row = upsert_row 40 "bank" (mirror_update late 0 if_settled "s") none

abbrev late_world : World
late_world = record {
  row = some late_row;
  queue = task_of request ∷ [];
  settled = (600, 900) ∷ [];
  jumped = (0, 600) ∷ [];
}

-- The run: nothing before 600 is settled, and the durable cursor stands at 900.
late_cursor : late_row.confirmed_offset ≡ 900
unfolding upsert_row mirror_update
late_cursor = refl

Reach-IsOrdered_example : IsOrdered settled_world
Reach-IsOrdered_example = Reach-IsOrdered (next (next (here refl) queued) settled)

clean_inverts_example :
    (posted (some (upsert_row 20 "bank" (clean_update "s" (ℤ.pos 0, pos 500)) none)) ≡ 0)
    × (durable (some (upsert_row 20 "bank" (clean_update "s" (ℤ.pos 0, pos 500)) none)) ≡ 500)
    × (inflight_bytes (upsert_row 20 "bank" (clean_update "s" (ℤ.pos 0, pos 500)) none) ≡ 0)
clean_inverts_example = clean_inverts 20 "bank" "s" (pos 500) (omega arith)

abbrev report : SessionUpdate
report = record (no_change "s") { turns = some (pos 7); byte_offset = some (pos 900) }

merge_row-Advances_example :
    Advances posted_row (merge_row 30 report posted_row)
    × ((merge_row 30 report posted_row).bank_id ≡ posted_row.bank_id)
    × ((merge_row 30 report posted_row).session_id ≡ posted_row.session_id)
    × ((merge_row 30 report posted_row).started_at ≡ posted_row.started_at)
    × ((x : String) → posted_row.source ≡ some x → (merge_row 30 report posted_row).source ≡ some x)
merge_row-Advances_example = merge_row-Advances 30 report posted_row

merge_row-merge_row_example :
    merge_row 30 report (merge_row 30 report posted_row) ≡ merge_row 30 report posted_row
merge_row-merge_row_example = merge_row-merge_row 30 report posted_row (inl refl) refl refl

has_bank_example : has_bank "bank" ("bank" ∷ []) ≡ true
unfolding has_bank
has_bank_example = refl

get-upsert_example :
    (after : List Session) × (upsert 30 ("bank" ∷ []) "bank" report []
      ≡ ok (upsert_row 30 "bank" report (get "bank" "s" []), after))
    × ((b i : String)
        → get b i after ≡ (
            if str_eq "bank" b && str_eq "s" i
            then some (upsert_row 30 "bank" report (get "bank" "s" []))
            else get b i []))
get-upsert_example =
    get-upsert 30 ("bank" ∷ []) "bank" report [] (omega arith, omega arith) has_bank_example

upsert_errors_example :
    ((upsert 30 [] "bank" report [] ≡ err invalid) ↔ (¬ IsSessionId "s"))
    × ((upsert 30 [] "bank" report [] ≡ err not_found)
        ↔ (IsSessionId "s" × (has_bank "bank" [] ≡ false) × (get "bank" "s" [] ≡ none)))
    × ((e : Error) → upsert 30 [] "bank" report [] ≡ err e → (e ≡ invalid) ⊎ (e ≡ not_found))
upsert_errors_example = upsert_errors 30 [] "bank" report []
