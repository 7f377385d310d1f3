-- ===== src/Sessions/Table.antt =====
-- crates/memgarden-store/src/sessions.rs: `upsert`, `get` and `gc` over the table, a list of rows.
-- `banks` are the ids of the table that the foreign key names.
pub mod Access
use memgarden.Prelude.{
  ℕ, String, len, Bool, false, not, ◌&&◌, ◌||◌, Option, none, some, List, [], ◌∷◌, ◌++◌, ltb, ◌==◌,
  str_eq, if◌then◌else◌, ◌-◌,
}
use memgarden.Prelude.Int.{ℤ, pos, ltb_ℤ}
use memgarden.Prelude.Lists.{length, keep_if}
use memgarden.Error.{Result, ok, err, invalid, not_found}
use memgarden.Sessions.Row.{Session, SessionUpdate, fresh_row, merge_row}

abbrev pub max_session_id_bytes : ℕ
max_session_id_bytes = 200

unfoldable pub is_key : String → String → Session → Bool
is_key bank id s = str_eq s.bank_id bank && str_eq s.session_id id

unfoldable pub get : String → String → List Session → Option Session
get bank id [] = none
get bank id (s ∷ rows) = if is_key bank id s then some s else get bank id rows

-- The row that conflicts is merged in its place.
unfoldable pub merge_at : ℕ → String → SessionUpdate → List Session → List Session
merge_at now bank u [] = []
merge_at now bank u (s ∷ rows) =
    if is_key bank u.session_id s then merge_row now u s ∷ rows else s ∷ merge_at now bank u rows

unfoldable pub has_bank : String → List String → Bool
has_bank bank [] = false
has_bank bank (b ∷ banks) = str_eq b bank || has_bank bank banks

-- The row as read back in the same transaction.
unfoldable pub read_back : String → String → List Session → Result (Session × List Session)
read_back bank id rows = elim (get bank id rows) [ none ↦ err not_found | some s ↦ ok (s, rows) ]

unfoldable pub upsert :
    ℕ → List String → String → SessionUpdate → List Session → Result (Session × List Session)
upsert now banks bank u rows =
    if (len u.session_id == 0) || ltb max_session_id_bytes (len u.session_id)
    then err invalid
    else elim (get bank u.session_id rows) [
      | some s ↦ read_back bank u.session_id (merge_at now bank u rows)
      | none ↦
          if has_bank bank banks
          then read_back bank u.session_id (rows ++ fresh_row now bank u ∷ [])
          else err not_found
    ]

-- `DELETE FROM sessions WHERE last_seen_at < ?1`, with the number of rows removed.
unfoldable pub gc : ℤ → List Session → ℕ × List Session
gc cutoff rows =
    let left = keep_if (λ s. not (ltb_ℤ (pos s.last_seen_at) cutoff)) rows in
    (length rows - length left, left)
