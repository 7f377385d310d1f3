-- ===== src/Prelude/Sort.antt =====
-- A stable sort by a Boolean order, for Rust's `sort_by` and SQL's `ORDER BY`: an insertion sort,
-- since any stable sort returns the same list.
use mathlib.Core.Bool.{Bool, true, false}
use mathlib.Core.List.{List, [], ◌∷◌, Perm}
use mathlib.Core.List.Perm
use mathlib.Core.Path.{◌≡◌, refl}
use native.Mathlib.Omega.{arith}
use mathlib.Core.Logic.{inl, inr}
use memgarden.Prelude.Tests.{if◌then◌else◌, Bool-cases}
use memgarden.Prelude.Lists.{All, All-map, keep_if}

module _ {ℓ} {A : Type ℓ} (le : A → A → Bool) where
  -- Before the first element that `x` does not follow.
  unfoldable pub insert_by : A → List A → List A
  insert_by x [] = x ∷ []
  insert_by x (y ∷ ys) = if le x y then x ∷ y ∷ ys else y ∷ insert_by x ys

  unfoldable pub sort_by : List A → List A
  unfolding insert_by
  sort_by [] = []
  sort_by (x ∷ xs) = insert_by x (sort_by xs)

  abbrev pub IsSorted : List A → Type 0
  IsSorted [] = Unit {0}
  IsSorted (x ∷ xs) = All (λ y. le x y ≡ true) xs × IsSorted xs

  insert_by-perm : (x : A) (ys : List A) → Perm (insert_by x ys) (x ∷ ys)
  unfolding insert_by
  insert_by-perm x [] = Perm.refl _
  insert_by-perm x (y ∷ ys) = elim (Bool-cases (le x y)) [
    | inl e ↦ rw e (Perm.refl _)
    | inr e ↦ rw e (Perm.trans (Perm.cons y (insert_by-perm x ys)) (Perm.swap x y ys))
  ]

  pub sort_by-perm : (xs : List A) → Perm (sort_by xs) xs
  unfolding sort_by
  sort_by-perm [] = Perm.refl _
  sort_by-perm (x ∷ xs) = Perm.trans (insert_by-perm x (sort_by xs)) (Perm.cons x (sort_by-perm xs))

  insert_by-All {κ} :
      (P : A → Type κ) (x : A) (ys : List A) → P x → All P ys → All P (insert_by x ys)
  unfolding insert_by
  insert_by-All P x [] px h = (px, tt)
  insert_by-All P x (y ∷ ys) px h = elim (Bool-cases (le x y)) [
    | inl e ↦ rw e (px, (h.0, h.1))
    | inr e ↦ rw e (h.0, insert_by-All P x ys px h.1)
  ]

  pub sort_by-All {κ} : (P : A → Type κ) (xs : List A) → All P xs → All P (sort_by xs)
  unfolding sort_by
  sort_by-All P [] h = tt
  sort_by-All P (x ∷ xs) h = insert_by-All P x (sort_by xs) h.0 (sort_by-All P xs h.1)

  -- An element that satisfies `p` keeps its place among those that do, if the order does not tell
  -- them apart.
  insert_by-stable :
      (p : A → Bool)
      → ((x y : A) → p x ≡ true → p y ≡ true → le x y ≡ true)
      → (x : A) (ys : List A) → keep_if p (insert_by x ys) ≡ keep_if p (x ∷ ys)
  unfolding insert_by
  insert_by-stable p same x [] = refl
  insert_by-stable p same x (y ∷ ys) = ground (arith, same x y, insert_by-stable p same x ys)

  pub sort_by-stable :
      (p : A → Bool)
      → ((x y : A) → p x ≡ true → p y ≡ true → le x y ≡ true)
      → (xs : List A) → keep_if p (sort_by xs) ≡ keep_if p xs
  unfolding sort_by
  sort_by-stable p same [] = refl
  sort_by-stable p same (x ∷ xs) =
      ground (arith, insert_by-stable p same x (sort_by xs), sort_by-stable p same xs)

  module _ (total : (x y : A) → le x y ≡ false → le y x ≡ true)
      (trans : (x y z : A) → le x y ≡ true → le y z ≡ true → le x z ≡ true) where
    insert_by-IsSorted : (x : A) (ys : List A) → IsSorted ys → IsSorted (insert_by x ys)
    unfolding insert_by
    insert_by-IsSorted x [] s = (tt, tt)
    insert_by-IsSorted x (y ∷ ys) s = elim (Bool-cases (le x y)) [
      | inl e ↦ rw e ((e, All-map (λ z h. trans x y z e h) ys s.0), (s.0, s.1))
      | inr e ↦
          rw e
            (insert_by-All (λ z. le y z ≡ true) x ys (total x y e) s.0, insert_by-IsSorted x ys s.1)
    ]

    pub sort_by-IsSorted : (xs : List A) → IsSorted (sort_by xs)
    unfolding sort_by
    sort_by-IsSorted [] = tt
    sort_by-IsSorted (x ∷ xs) = insert_by-IsSorted x (sort_by xs) (sort_by-IsSorted xs)
