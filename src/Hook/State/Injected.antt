-- ===== src/Hook/State/Injected.antt =====
-- The ids that `note_injected` of crates/memgarden-cli/src/state.rs remembers.
use memgarden.Prelude.{
  ℕ, zero, suc, ◌-◌, ◌≤◌, String, false, ◌≡◌, List, [], ◌∷◌, ◌++◌, arith, ltb, str_eq, Bool-cases,
  inl, inr,
}
use memgarden.Prelude.Lists.{length, drop, length-drop, All, All-append}
use memgarden.Hook.State.{
  SessionState, note_injected, push_new, keep_newest, has_text, injected_cap,
}

-- No id twice.
abbrev pub AllDifferent : List String → Type 0
AllDifferent [] = Unit {0}
AllDifferent (u ∷ us) = All (λ v. str_eq u v ≡ false) us × AllDifferent us

AllDifferent-snoc :
    (held : List String) (u : String)
    → has_text u held ≡ false
    → AllDifferent held
    → AllDifferent (held ++ u ∷ [])
AllDifferent-snoc [] u h d = (tt, tt)
AllDifferent-snoc (v ∷ vs) u h d = (
  All-append (λ w. str_eq v w ≡ false) vs (u ∷ []) d.0 (ground arith, tt),
  AllDifferent-snoc vs u (ground arith) d.1,
)

push_new-AllDifferent :
    (held us : List String) → AllDifferent held → AllDifferent (push_new held us)
unfolding push_new
push_new-AllDifferent held [] d = d
push_new-AllDifferent held (u ∷ us) d = elim (Bool-cases (has_text u held)) [
  | inl e ↦ rw e (push_new-AllDifferent held us d)
  | inr e ↦ rw e (push_new-AllDifferent (held ++ u ∷ []) us (AllDifferent-snoc held u e d))
]

drop-AllDifferent : (n : ℕ) (us : List String) → AllDifferent us → AllDifferent (drop n us)
drop-AllDifferent zero us d = d
drop-AllDifferent (suc n) [] d = tt
drop-AllDifferent (suc n) (u ∷ us) d = drop-AllDifferent n us d.1

-- Whatever is injected: at most 1000 ids are remembered, none of them twice if none was before.
pub note_injected-AllDifferent :
    (us : List String) (st : SessionState)
    → AllDifferent st.injected_uuids
    → AllDifferent (note_injected us st).injected_uuids
      × (length (note_injected us st).injected_uuids ≤ injected_cap)
unfolding note_injected keep_newest
note_injected-AllDifferent us st d =
    let held = push_new st.injected_uuids us in
    let all = push_new-AllDifferent st.injected_uuids us d in
    elim (Bool-cases (ltb injected_cap (length held))) [
      | inl e ↦ rw e (
        drop-AllDifferent (length held - injected_cap) held all,
        let n = length-drop (length held - injected_cap) held in ground arith,
      )
      | inr e ↦ rw e (all, ground arith)
    ]
