-- ===== src/Prelude/Text/Cut.antt =====
-- Cutting a text loses nothing.
use memgarden.Prelude.{
  ℕ, zero, suc, ◌-◌, ◌≤◌, true, false, ◌≡◌, List, [], ◌∷◌, ◌++◌, refl, ◌∙◌, arith, ap, sym,
  Bool-cases, inl, inr,
}
use mathlib.Core.List.{append_assoc}
use memgarden.Prelude.Lists.{length, take, drop, All, take-append-drop, length-take, length-drop}
use memgarden.Prelude.Text.{
  Text, cons_head, cut_from, split, attach, flat, starts_with, chunks, is_nil,
}

starts_with_lem : (p s : Text) → starts_with p s ≡ true → s ≡ p ++ drop (length p) s
starts_with_lem [] s h = refl
starts_with_lem (p ∷ ps) [] h = cc
starts_with_lem (p ∷ ps) (c ∷ s) h = ground (arith, starts_with_lem ps s)

flat-cons_head :
    (sep : Text) (c : ℕ) (ps : List Text)
    → flat (attach sep (cons_head c ps)) ≡ c ∷ flat (attach sep ps)
unfolding flat attach
flat-cons_head sep c [] = refl
flat-cons_head sep c (p ∷ []) = refl
flat-cons_head sep c (p ∷ q ∷ ps) = refl

cons_head-cons : (c : ℕ) (ps : List Text) → is_nil (cons_head c ps) ≡ false
cons_head-cons c [] = refl
cons_head-cons c (p ∷ ps) = refl

cut_from-cons : (sep : Text) (k : ℕ) (s : Text) → is_nil (cut_from sep k s) ≡ false
unfolding cut_from
cut_from-cons sep zero [] = refl
cut_from-cons sep (suc k) [] = refl
cut_from-cons sep (suc k) (c ∷ s) = cut_from-cons sep k s
cut_from-cons sep zero (c ∷ s) = elim (Bool-cases (starts_with sep (c ∷ s))) [
  | inl e ↦ rw (e, cut_from) refl
  | inr e ↦ rw (e, cut_from) (cons_head-cons c (cut_from sep zero s))
]

flat-attach_cons :
    (sep : Text) (ps : List Text)
    → is_nil ps ≡ false
    → flat (attach sep ([] ∷ ps)) ≡ sep ++ flat (attach sep ps)
unfolding flat attach
flat-attach_cons sep [] h = cc
flat-attach_cons sep (p ∷ ps) h = refl

drop-nil : (k : ℕ) → ◌≡◌ {A = Text} (drop k []) []
drop-nil zero = refl
drop-nil (suc k) = refl

-- A separator that is not empty, spelled out.
module _ (d : ℕ) (ds : Text) where
  flat-cut_from : (k : ℕ) (s : Text) → flat (attach (d ∷ ds) (cut_from (d ∷ ds) k s)) ≡ drop k s
  unfolding cut_from
  flat-cut_from zero [] = unfold flat attach in refl
  flat-cut_from (suc k) [] = unfold flat attach in refl
  flat-cut_from (suc k) (c ∷ s) = flat-cut_from k s
  flat-cut_from zero (c ∷ s) = elim (Bool-cases (starts_with (d ∷ ds) (c ∷ s))) [
    | inl e ↦
        let m : length (d ∷ ds) - 1 ≡ length ds = omega arith in
        rw (e, cut_from, m)
          (flat-attach_cons (d ∷ ds) (cut_from (d ∷ ds) (length ds) s)
              (cut_from-cons (d ∷ ds) (length ds) s)
            ∙ ap (λ r. d ∷ ds ++ r) (flat-cut_from (length ds) s)
            ∙ sym (starts_with_lem (d ∷ ds) (c ∷ s) e))
    | inr e ↦
        rw (e, cut_from)
          (flat-cons_head (d ∷ ds) c (cut_from (d ∷ ds) zero s)
            ∙ ap (λ r. c ∷ r) (flat-cut_from zero s))
  ]

  -- The pieces, each with the separator that ends it, spell the text.
  pub flat-attach-split : (s : Text) → flat (attach (d ∷ ds) (split (d ∷ ds) s)) ≡ s
  unfolding split
  flat-attach-split s = flat-cut_from zero s

-- The pieces of `chunks` spell the text, if there is fuel for them.
pub flat-chunks : (fuel n : ℕ) (s : Text) → length s ≤ fuel → 1 ≤ n → flat (chunks fuel n s) ≡ s
unfolding flat chunks
flat-chunks zero n [] h p = refl
flat-chunks zero n (c ∷ s) h p = absurd (omega arith)
flat-chunks (suc fuel) n [] h p = refl
flat-chunks (suc fuel) n (c ∷ s) h p =
    ap (λ r. take n (c ∷ s) ++ r)
      (flat-chunks fuel n (drop n (c ∷ s)) (omega (arith, length-drop n (c ∷ s))) p)
    ∙ take-append-drop n (c ∷ s)

-- No piece of `chunks` is longer than asked.
pub length-chunks : (fuel n : ℕ) (s : Text) → All (λ c. length c ≤ n) (chunks fuel n s)
unfolding chunks
length-chunks zero n s = tt
length-chunks (suc fuel) n [] = tt
length-chunks (suc fuel) n (c ∷ s) =
    (omega (arith, length-take n (c ∷ s)), length-chunks fuel n (drop n (c ∷ s)))

pub flat-append : (ps qs : List Text) → flat (ps ++ qs) ≡ flat ps ++ flat qs
unfolding flat
flat-append [] qs = refl
flat-append (p ∷ ps) qs =
    ap (λ r. p ++ r) (flat-append ps qs) ∙ sym (append_assoc p (flat ps) (flat qs))
