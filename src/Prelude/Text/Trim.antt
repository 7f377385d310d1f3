-- ===== src/Prelude/Text/Trim.antt =====
-- Trimming takes white characters only.
use memgarden.Prelude.{◌≤◌, true, ◌≡◌, ◌↔◌, List, [], ◌∷◌, ◌++◌, refl, ◌∙◌, arith, sym}
use memgarden.Prelude.Lists.{length}
use memgarden.Prelude.Text.{Text, solid, is_nil, trim, trim_start, trim_end, is_blank}

pub solid-append : (s t : Text) → solid (s ++ t) ≡ solid s ++ solid t
unfolding solid
solid-append [] t = refl
solid-append (c ∷ s) t = ground (arith, solid-append s t)

solid-trim_start : (s : Text) → solid (trim_start s) ≡ solid s
unfolding solid trim_start
solid-trim_start [] = refl
solid-trim_start (c ∷ s) = ground (arith, solid-trim_start s)

solid-trim_end : (s : Text) → solid (trim_end s) ≡ solid s
unfolding solid trim_end
solid-trim_end [] = refl
solid-trim_end (c ∷ s) = ground (arith, solid-trim_end s)

pub solid-trim : (s : Text) → solid (trim s) ≡ solid s
unfolding trim
solid-trim s = solid-trim_end (trim_start s) ∙ solid-trim_start s

length-trim_start : (s : Text) → length (trim_start s) ≤ length s
unfolding trim_start
length-trim_start [] = omega arith
length-trim_start (c ∷ s) = ground (arith, length-trim_start s)

length-trim_end : (s : Text) → length (trim_end s) ≤ length s
unfolding trim_end
length-trim_end [] = omega arith
length-trim_end (c ∷ s) = ground (arith, length-trim_end s)

pub length-trim : (s : Text) → length (trim s) ≤ length s
unfolding trim
length-trim s = omega (arith, length-trim_end (trim_start s), length-trim_start s)

-- What is left of a text that has a solid character has one.
trim_end-nil : (s : Text) → trim_end s ≡ [] → solid s ≡ []
unfolding solid trim_end
trim_end-nil s h = sym (solid-trim_end s) ∙ rw h refl

solid-nil_trim_start : (s : Text) → solid s ≡ [] → trim_start s ≡ []
unfolding solid trim_start
solid-nil_trim_start [] h = refl
solid-nil_trim_start (c ∷ s) h = ground (arith, solid-nil_trim_start s)

is_nil_iff {ℓ} : {A : Type ℓ} (xs : List A) → (is_nil xs ≡ true) ↔ (xs ≡ [])
is_nil_iff [] = (λ h. refl, λ h. refl)
is_nil_iff (x ∷ xs) = (λ h. cc, λ h. cc)

-- A text is blank when each of its characters is white.
pub is_blank_iff : (s : Text) → (is_blank s ≡ true) ↔ (solid s ≡ [])
unfolding trim
is_blank_iff s = (
  λ h. sym (solid-trim_start s) ∙ trim_end-nil (trim_start s) ((is_nil_iff (trim s)).0 h),
  λ h. rw (solid-nil_trim_start s h) (unfold trim_end in refl),
)
