-- ===== src/Settings/Scan/Runs.antt =====
-- The scanner of crates/memgarden-cli/src/settings.rs over one piece of a text, with any rest behind.
use memgarden.Prelude.{
  ℕ, zero, suc, ◌+◌, Bool, true, false, not, some, [], ◌∷◌, ◌++◌, ◌≡◌, ◌∙◌, refl, sym, ap, ◌==◌,
  arith,
}
use mathlib.Core.List.{append_assoc}
use memgarden.Prelude.Lists.{length, drop, length-append, drop-append}
use memgarden.Prelude.Text.{Text}
use memgarden.Settings.Scan.{is_ascii_whitespace, ws_loop, skip_ws, string_loop, skip_string}
use memgarden.Settings.Tree.{quoted, is_spelling, IsWhite}

drop-nil : (n : ℕ) → drop {A = ℕ} n [] ≡ []
drop-nil zero = refl
drop-nil (suc n) = refl

drop-add : (i n : ℕ) (s : Text) → drop (i + n) s ≡ drop n (drop i s)
drop-add zero n s = let e : 0 + n ≡ n = omega arith in rw e refl
drop-add (suc i) n [] = drop-nil (suc i + n) ∙ sym (drop-nil n)
drop-add (suc i) n (c ∷ s) = let e : suc i + n ≡ suc (i + n) = omega arith in rw e (drop-add i n s)

-- What follows a piece stands behind it.
pub drop-past :
    (s : Text) (i : ℕ) (x rest : Text) → drop i s ≡ x ++ rest → drop (i + length x) s ≡ rest
drop-past s i x rest h =
    drop-add i (length x) s ∙ ap (λ t. drop (length x) t) h ∙ drop-append x rest

pub drop-suc : (s : Text) (i c : ℕ) (r : Text) → drop i s ≡ c ∷ r → drop (suc i) s ≡ r
drop-suc s i c r e = let f : i + 1 ≡ suc i = omega arith in rw f at (drop-past s i (c ∷ []) r e)

-- No white space at the start.
abbrev pub starts_solid : Text → Bool
starts_solid [] = true
starts_solid (c ∷ s) = not (is_ascii_whitespace c)

ws_loop_lem :
    (i : ℕ) (w rest : Text)
    → IsWhite w
    → starts_solid rest ≡ true
    → ws_loop is_ascii_whitespace i (w ++ rest) ≡ i + length w
unfolding ws_loop
ws_loop_lem i [] [] h k = omega arith
ws_loop_lem i [] (c ∷ r) h k = ground arith
ws_loop_lem i (c ∷ w) rest h k = ground (arith, ws_loop_lem (suc i) w rest)

pub skip_ws_lem :
    (s : Text) (i : ℕ) (w rest : Text)
    → drop i s ≡ w ++ rest
    → IsWhite w
    → starts_solid rest ≡ true
    → skip_ws s i ≡ i + length w
unfolding skip_ws
skip_ws_lem s i w rest e h k = rw e (ws_loop_lem i w rest h k)

string_loop_lem :
    (b : Bool) (i : ℕ) (x rest : Text)
    → is_spelling b x ≡ true
    → string_loop b i (x ++ 34 ∷ rest) ≡ some (i + length x + 1)
unfolding string_loop
string_loop_lem true i [] rest h = cc
string_loop_lem false i [] rest h = ground arith
string_loop_lem true i (c ∷ x) rest h = ground (arith, string_loop_lem false (suc i) x rest)
string_loop_lem false i (c ∷ x) rest h = ground (arith, string_loop_lem (c == 92) (suc i) x rest)

pub skip_string_lem :
    (s : Text) (i : ℕ) (x rest : Text)
    → drop i s ≡ quoted x ++ rest
    → is_spelling false x ≡ true
    → skip_string s i ≡ some (i + length (quoted x))
unfolding skip_string
skip_string_lem s i x rest e h =
    let f : drop i s ≡ 34 ∷ (x ++ 34 ∷ rest) =
      e ∙ ap (λ t. 34 ∷ t) (append_assoc x (34 ∷ []) rest) in
    rw (f, skip_string)
      (string_loop_lem false (suc i) x rest h
        ∙ ap (λ n. some n) (omega (arith, length-append x (34 ∷ []))))
