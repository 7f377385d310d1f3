-- ===== src/Prelude/Text.antt =====
-- Texts as lists of code points, with the parts of Rust's `str` that the program uses.
pub mod Trim
pub mod Cut
use Prim.Native.Nat.{ℕ, zero, suc, ◌-◌, ◌≤◌}
use Prim.Native.Char.{code}
use Prim.Native.String.{String}
use mathlib.Core.Bool.{Bool, true, false, not, ◌&&◌, ◌||◌}
use mathlib.Core.List.{List, [], ◌∷◌, ◌++◌, map}
use mathlib.Core.Option.{Option, none, some}
use memgarden.Prelude.Tests.{leb, ◌==◌, if◌then◌else◌}
use memgarden.Prelude.Lists.{length, take, drop, keep_if}

abbrev pub Text : Type 0
Text = List ℕ

-- The code points of a literal.
abbrev pub codes : String → Text
codes String.[] = []
codes (String.◌∷◌ c s) = code c ∷ codes s

abbrev pub same_text : Text → Text → Bool
same_text [] [] = true
same_text (c ∷ s) (d ∷ t) = (c == d) && same_text s t
same_text _ _ = false

abbrev within : ℕ → ℕ → ℕ → Bool
within lo hi c = leb lo c && leb c hi

-- `char::is_whitespace`: Unicode's property White_Space.
unfoldable pub is_white : ℕ → Bool
is_white c =
    (c == 32)
    || (within 9 13 c
        || ((c == 133)
            || ((c == 160)
                || ((c == 5760)
                    || (within 8192 8202 c
                        || ((c == 8232)
                            || ((c == 8233) || ((c == 8239) || ((c == 8287) || (c == 12288))))))))))

-- The characters that are not white.
unfoldable pub solid : Text → Text
solid [] = []
solid (c ∷ s) = let rest = solid s in if is_white c then rest else c ∷ rest

abbrev pub is_nil {ℓ} : {A : Type ℓ} → List A → Bool
is_nil [] = true
is_nil (x ∷ xs) = false

unfoldable pub trim_start : Text → Text
trim_start [] = []
trim_start (c ∷ s) = let rest = trim_start s in if is_white c then rest else c ∷ s

unfoldable pub trim_end : Text → Text
trim_end [] = []
trim_end (c ∷ s) = let rest = trim_end s in if is_white c && is_nil rest then [] else c ∷ rest

unfoldable pub trim : Text → Text
unfolding trim_start trim_end
trim s = trim_end (trim_start s)

-- `s.trim().is_empty()`
abbrev pub is_blank : Text → Bool
is_blank s = is_nil (trim s)

abbrev pub starts_with : Text → Text → Bool
starts_with [] s = true
starts_with (p ∷ ps) [] = false
starts_with (p ∷ ps) (c ∷ s) = (p == c) && starts_with ps s

-- `s.contains(sep)`
unfoldable pub contains : Text → Text → Bool
contains sep [] = is_nil sep
contains sep (c ∷ s) = starts_with sep (c ∷ s) || contains sep s

abbrev pub cons_head : ℕ → List Text → List Text
cons_head c [] = (c ∷ []) ∷ []
cons_head c (p ∷ ps) = (c ∷ p) ∷ ps

-- The text behind `skip` characters that belong to a separator, cut at each separator.
unfoldable pub cut_from : Text → ℕ → Text → List Text
cut_from sep skip [] = [] ∷ []
cut_from sep (suc k) (c ∷ s) = cut_from sep k s
cut_from sep zero (c ∷ s) = elim (starts_with sep (c ∷ s)) [
  | true ↦ [] ∷ cut_from sep (length sep - 1) s
  | false ↦ cons_head c (cut_from sep zero s)
]

-- `s.split(sep)`, for a separator that is not empty.
unfoldable pub split : Text → Text → List Text
unfolding cut_from
split sep s = cut_from sep 0 s

-- The separator put back at the end of each piece but the last.
unfoldable pub attach : Text → List Text → List Text
attach sep [] = []
attach sep (p ∷ []) = p ∷ []
attach sep (p ∷ q ∷ ps) = (p ++ sep) ∷ attach sep (q ∷ ps)

unfoldable pub join : Text → List Text → Text
join sep [] = []
join sep (p ∷ []) = p
join sep (p ∷ q ∷ ps) = p ++ sep ++ join sep (q ∷ ps)

unfoldable pub flat : List Text → Text
flat [] = []
flat (p ∷ ps) = p ++ flat ps

unfoldable pub strip_last : ℕ → Text → Option Text
strip_last c [] = none
strip_last c (x ∷ []) = if x == c then some [] else none
strip_last c (x ∷ y ∷ s) = elim (strip_last c (y ∷ s)) [ none ↦ none | some r ↦ some (x ∷ r) ]

unfoldable pub strip_line : Text → Text
strip_line l = elim (strip_last 10 l) [
  | none ↦ l
  | some r ↦ elim (strip_last 13 r) [ none ↦ r | some q ↦ q ]
]

-- `s.lines()`: a line feed ends a line, with a carriage return before it; no line follows the last
-- line feed.
unfoldable pub lines : Text → List Text
unfolding attach split strip_line
lines s = map strip_line (keep_if (λ l. not (is_nil l)) (attach (10 ∷ []) (split (10 ∷ []) s)))

-- `s.chunks(n)`, on fuel: one for each character is enough.
unfoldable pub chunks : ℕ → ℕ → Text → List Text
chunks zero n s = []
chunks (suc fuel) n [] = []
chunks (suc fuel) n (c ∷ s) = take n (c ∷ s) ∷ chunks fuel n (drop n (c ∷ s))
