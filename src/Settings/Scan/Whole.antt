-- ===== src/Settings/Scan/Whole.antt =====
-- The scanner of crates/memgarden-cli/src/settings.rs finds the end of each JSON value.
use memgarden.Prelude.{ℕ, suc, ◌+◌, Bool, true, some, [], ◌∷◌, ◌++◌, ◌≡◌, refl, arith}
use memgarden.Prelude.Lists.{length, drop}
use memgarden.Prelude.Text.{Text}
use memgarden.Settings.Scan.{byte_of, other}
use memgarden.Settings.Tree.{
  Value, text, atom, object, array, layout, layout_members, layout_items, all, is_atom_byte,
  IsWhite, IsValue,
}
use memgarden.Settings.Scan.Runs.{drop-past, skip_string_lem, skip_ws_lem, starts_solid}
use memgarden.Settings.Scan.Passes.{
  Passes-members, Passes-items, skip_container_lem, open_brace, open_bracket, close_brace,
  close_bracket,
}
use memgarden.Settings.Scan.{atom_loop, value_from, skip_value, ends_atom}

-- What may stand behind a number or a literal.
abbrev pub ends_here : Text → Bool
ends_here [] = true
ends_here (c ∷ r) = ends_atom c

abbrev pub EndsWell : Value → Text → Type 0
EndsWell (atom c s) rest = ends_here rest ≡ true
EndsWell _ rest = Unit

pub starts_solid-layout :
    (v : Value) (rest : Text) → IsValue v → starts_solid (layout v ++ rest) ≡ true
unfolding layout IsValue
starts_solid-layout (text s) rest h = refl
starts_solid-layout (atom c s) rest h = ground arith
starts_solid-layout (object ms) rest h = refl
starts_solid-layout (array is) rest h = refl

atom_loop_lem :
    (i : ℕ) (s rest : Text)
    → all is_atom_byte s ≡ true
    → ends_here rest ≡ true
    → atom_loop i (s ++ rest) ≡ i + length s
unfolding atom_loop
atom_loop_lem i [] [] h k = omega arith
atom_loop_lem i [] (c ∷ r) h k = ground arith
atom_loop_lem i (c ∷ s) rest h k = ground (arith, atom_loop_lem (suc i) s rest)

atom-other : (c : ℕ) → is_atom_byte c ≡ true → byte_of c ≡ other
unfolding byte_of
atom-other c h = ground arith

value_from_lem :
    (v : Value) (s : Text) (i : ℕ) (rest : Text)
    → IsValue v
    → EndsWell v rest
    → drop i s ≡ layout v ++ rest
    → value_from s i ≡ some (i + length (layout v))
unfolding value_from layout IsValue byte_of
value_from_lem (text x) s i rest h k e = rw (e, value_from) (skip_string_lem s i x rest e h)
value_from_lem (atom c x) s i rest h k e =
    let a = atom-other c (ground arith) in
    let b = atom_loop_lem i (c ∷ x) rest h k in rw (e, value_from, a, b) (ground arith)
value_from_lem (object ms) s i rest h k e =
    rw (e, value_from)
      (skip_container_lem 123 125 (layout_members ms) open_brace close_brace (Passes-members ms h) s
        i rest e)
value_from_lem (array is) s i rest h k e =
    rw (e, value_from)
      (skip_container_lem 91 93 (layout_items is) open_bracket close_bracket (Passes-items is h) s i
        rest e)

-- Wherever white space and a JSON value stand in a text, `skip_value` ends exactly behind the value,
-- whatever its texts, nesting and white space, and whatever follows (behind a number or a literal: a
-- comma, a closing bracket, white space or the end). The fuel of the model is enough for it.
pub skip_value_lem :
    (v : Value) (s : Text) (i : ℕ) (w rest : Text)
    → IsValue v
    → EndsWell v rest
    → IsWhite w
    → drop i s ≡ w ++ (layout v ++ rest)
    → skip_value s i ≡ some (i + length w + length (layout v))
unfolding skip_value
skip_value_lem v s i w rest h k white e =
    rw (skip_ws_lem s i w (layout v ++ rest) e white (starts_solid-layout v rest h))
      (value_from_lem v s (i + length w) rest h k (drop-past s i w (layout v ++ rest) e))
