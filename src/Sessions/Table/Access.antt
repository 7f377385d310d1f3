-- ===== src/Sessions/Table/Access.antt =====
-- The table of crates/memgarden-store/src/sessions.rs, read after it is written.
use memgarden.Prelude.{
  ◌≤◌, ℕ, String, len, true, false, false, ◌&&◌, ◌↔◌, coalesce, none, some, List, [], ◌∷◌, ◌++◌,
  ◌≡◌, inl, inr, arith, str_eq, eq_iff, eq_refl, if◌then◌else◌, Option-cases, Bool-cases, ltb, ◌==◌,
  ◌||◌, ◌⊎◌, refl,
}
use mathlib.Core.Option
use memgarden.Error.{Error, ok, err, invalid, not_found}
use memgarden.Sessions.Row.{Session, SessionUpdate, fresh_row, merge_row, upsert_row}
use memgarden.Sessions.Table.{
  is_key, get, merge_at, has_bank, read_back, upsert, max_session_id_bytes,
}

is_key-merge_row :
    (now : ℕ) (u : SessionUpdate) (bank id : String) (s : Session)
    → is_key bank id (merge_row now u s) ≡ is_key bank id s
unfolding is_key merge_row
is_key-merge_row now u bank id s = refl

is_key-fresh_row :
    (now : ℕ) (bank : String) (u : SessionUpdate)
    → is_key bank u.session_id (fresh_row now bank u) ≡ true
unfolding is_key fresh_row
is_key-fresh_row now bank u = rw (eq_refl bank, eq_refl u.session_id)

-- A row bears the keys that its two columns spell.
pub is_key_iff :
    (bank id : String) (s : Session)
    → (is_key bank id s ≡ true) ↔ ((s.bank_id ≡ bank) × (s.session_id ≡ id))
unfolding is_key
is_key_iff bank id s = (
  λ h. (
    (eq_iff s.bank_id bank).0 (ground (arith, h)),
    (eq_iff s.session_id id).0 (ground (arith, h)),
  ),
  λ (p, q). rw ((eq_iff s.bank_id bank).1 p, (eq_iff s.session_id id).1 q),
)

get-append :
    (bank id : String) (rows : List Session) (s : Session)
    → get bank id (rows ++ s ∷ [])
      ≡ coalesce (get bank id rows) (if is_key bank id s then some s else none)
unfolding get
get-append bank id [] s = refl
get-append bank id (r ∷ rows) s = ground (arith, get-append bank id rows s)

-- The merge changes what one key finds, if that key finds a row.
get-merge_at :
    (now : ℕ) (bank : String) (u : SessionUpdate) (b i : String) (rows : List Session)
    → get b i (merge_at now bank u rows) ≡ (
        if str_eq bank b && str_eq u.session_id i
        then Option.map (merge_row now u) (get b i rows)
        else get b i rows)
unfolding get merge_at
get-merge_at now bank u b i [] = ground arith
get-merge_at now bank u b i (r ∷ rows) = ground (
  arith,
  get-merge_at now bank u b i rows,
  is_key-merge_row now u b i r,
  is_key_iff bank u.session_id r,
  is_key_iff b i r,
  eq_iff bank b,
  eq_iff u.session_id i,
)

-- The id is one that `upsert` takes.
abbrev pub IsSessionId : String → Type 0
IsSessionId id = (1 ≤ len id) × (len id ≤ max_session_id_bytes)

module _ (now : ℕ) (banks : List String) (bank : String) (u : SessionUpdate)
    (rows : List Session) where
  get-upsert_found :
      (s : Session)
      → get bank u.session_id rows ≡ some s
      → get bank u.session_id (merge_at now bank u rows) ≡ some (merge_row now u s)
  get-upsert_found s found =
      ground
        (arith, get-merge_at now bank u bank u.session_id rows, eq_refl bank, eq_refl u.session_id)

  get-upsert_missing :
      get bank u.session_id rows ≡ none
      → get bank u.session_id (rows ++ fresh_row now bank u ∷ []) ≡ some (fresh_row now bank u)
  get-upsert_missing missing =
      ground (
        arith,
        get-append bank u.session_id rows (fresh_row now bank u),
        is_key-fresh_row now bank u,
      )

  upsert_found :
      (s : Session)
      → IsSessionId u.session_id
      → get bank u.session_id rows ≡ some s
      → upsert now banks bank u rows ≡ ok (merge_row now u s, merge_at now bank u rows)
  unfolding upsert read_back
  upsert_found s v found = ground (arith, get-upsert_found s found)

  upsert_missing :
      IsSessionId u.session_id
      → has_bank bank banks ≡ true
      → get bank u.session_id rows ≡ none
      → upsert now banks bank u rows ≡ ok (fresh_row now bank u, rows ++ fresh_row now bank u ∷ [])
  unfolding upsert read_back
  upsert_missing v e missing = ground (arith, get-upsert_missing missing)

  other_found :
      (s : Session)
      → get bank u.session_id rows ≡ some s
      → (b i : String)
      → get b i (merge_at now bank u rows) ≡ (
          if str_eq bank b && str_eq u.session_id i then some (merge_row now u s) else get b i rows)
  other_found s found b i =
      ground (arith, get-merge_at now bank u b i rows, eq_iff bank b, eq_iff u.session_id i)

  other_missing :
      get bank u.session_id rows ≡ none
      → (b i : String)
      → get b i (rows ++ fresh_row now bank u ∷ []) ≡ (
          if str_eq bank b && str_eq u.session_id i
          then some (fresh_row now bank u)
          else get b i rows)
  other_missing missing b i = ground (
    arith,
    get-append b i rows (fresh_row now bank u),
    is_key-fresh_row now bank u,
    is_key_iff bank u.session_id (fresh_row now bank u),
    is_key_iff b i (fresh_row now bank u),
    eq_iff bank b,
    eq_iff u.session_id i,
  )

-- An upsert with an id of 1 to 200 bytes, against a bank that exists, always succeeds. It returns
-- the merge of the row that the key found, or a new row; a later read of the key gives exactly the
-- returned row, and a read of every other key gives what it gave before.
pub get-upsert :
    (now : ℕ) (banks : List String) (bank : String) (u : SessionUpdate) (rows : List Session)
    → IsSessionId u.session_id
    → has_bank bank banks ≡ true
    → (after : List Session) × (upsert now banks bank u rows
        ≡ ok (upsert_row now bank u (get bank u.session_id rows), after))
      × ((b i : String)
          → get b i after ≡ (
              if str_eq bank b && str_eq u.session_id i
              then some (upsert_row now bank u (get bank u.session_id rows))
              else get b i rows))
unfolding upsert_row
get-upsert now banks bank u rows v e = elim (Option-cases (get bank u.session_id rows)) [
  | inl missing ↦ rw missing (
    rows ++ fresh_row now bank u ∷ [],
    upsert_missing now banks bank u rows v e missing,
    other_missing now banks bank u rows missing,
  )
  | inr (s, found) ↦ rw found (
    merge_at now bank u rows,
    upsert_found now banks bank u rows s v found,
    other_found now banks bank u rows s found,
  )
]

-- When an upsert fails, in terms of its input alone: it is `invalid` exactly if the id is empty or
-- longer than 200 bytes, whatever the table and the banks hold; it is `not_found` exactly if the id
-- is not, the bank does not exist and the key has no row; and there is no other error, so that in
-- every other case (also that of a row whose bank is gone) it answers a row and the table.
pub upsert_errors :
    (now : ℕ) (banks : List String) (bank : String) (u : SessionUpdate) (rows : List Session)
    → ((upsert now banks bank u rows ≡ err invalid) ↔ (¬ IsSessionId u.session_id))
      × ((upsert now banks bank u rows ≡ err not_found) ↔ (
          IsSessionId u.session_id
          × (has_bank bank banks ≡ false)
          × (get bank u.session_id rows ≡ none)))
      × ((e : Error) → upsert now banks bank u rows ≡ err e → (e ≡ invalid) ⊎ (e ≡ not_found))
unfolding upsert
upsert_errors now banks bank u rows =
    elim (Bool-cases ((len u.session_id == 0) || ltb max_session_id_bytes (len u.session_id))) [
      | inl bad ↦
          rw (bad, upsert)
            ((λ h v. ground arith, λ n. refl), (λ h. cc, λ x. ground arith), λ e h. inl cc)
      | inr good ↦
          let v : IsSessionId u.session_id = (ground arith, ground arith) in
          elim (Option-cases (get bank u.session_id rows)) [
            | inr (s, e) ↦
                rw (upsert_found now banks bank u rows s v e)
                  ((λ h x. cc, λ n. absurd (n v)), (λ h. cc, λ (x, b, m). cc), λ f h. cc)
            | inl e ↦ elim (Bool-cases (has_bank bank banks)) [
              | inl b ↦
                  rw (upsert_missing now banks bank u rows v b e)
                    ((λ h x. cc, λ n. absurd (n v)), (λ h. cc, λ (x, f, m). cc), λ f h. cc)
              | inr b ↦
                  rw (good, upsert, e, b)
                    (
                      (λ h x. cc, λ n. absurd (n v)),
                      (λ h. (v, refl, refl), λ x. refl),
                      λ f h. inr cc,
                    )
            ]
          ]
    ]
