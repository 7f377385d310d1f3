-- ===== src/Metrics/Histogram/Counted.antt =====
-- What the buckets of crates/memgarden-core/src/metrics.rs sum to, and the lemmas on one atomic
-- operation.
use memgarden.Prelude.{
  ℕ, max, zero, suc, ◌+◌, ◌%◌, ◌^◌, ◌≤◌, ◌<◌, Bool, List, [], ◌∷◌, ◌≡◌, refl, leb, ltb,
  if◌then◌else◌, arith,
}
use memgarden.Prelude.Lists.{length}
use memgarden.Metrics.Histogram.{fetch_add_at, bucket_of, position, cumulative, nth}

-- The sum of the first `n` numbers.
abbrev pub sum_first : ℕ → List ℕ → ℕ
sum_first zero xs = 0
sum_first (suc n) [] = 0
sum_first (suc n) (x ∷ xs) = x + sum_first n xs

abbrev pub one_if : Bool → ℕ
one_if b = if b then 1 else 0

pub length-fetch_add_at : (i : ℕ) (bs : List ℕ) → length (fetch_add_at i bs) ≡ length bs
unfolding fetch_add_at
length-fetch_add_at i [] = refl
length-fetch_add_at zero (b ∷ bs) = omega arith
length-fetch_add_at (suc i) (b ∷ bs) = omega (arith, length-fetch_add_at i bs)

-- One more in a bucket is one more in every sum that the bucket is part of.
pub sum_first-fetch_add_at :
    (n i : ℕ) (bs : List ℕ)
    → n ≤ length bs
    → sum_first (length bs) bs + one_if (ltb i (length bs)) < 2 ^ 64
    → sum_first n (fetch_add_at i bs) ≡ sum_first n bs + one_if (ltb i n)
unfolding fetch_add_at
sum_first-fetch_add_at zero i bs h k = ground arith
sum_first-fetch_add_at (suc n) i [] h k = absurd (omega arith)
sum_first-fetch_add_at (suc n) zero (b ∷ bs) h k = ground arith
sum_first-fetch_add_at (suc n) (suc i) (b ∷ bs) h k =
    ground (arith, sum_first-fetch_add_at n i bs (omega arith) (ground arith))

pub nth-cumulative :
    (i running : ℕ) (bs : List ℕ)
    → i < length bs
    → running + sum_first (length bs) bs < 2 ^ 64
    → nth i (cumulative running bs) ≡ running + sum_first (suc i) bs
unfolding cumulative
nth-cumulative i running [] h k = absurd (omega arith)
nth-cumulative zero running (b ∷ bs) h k = omega arith
nth-cumulative (suc i) running (b ∷ bs) h k =
    let fits : (running + b) % 2 ^ 64 ≡ running + b = omega arith in
    omega (arith, fits, nth-cumulative i ((running + b) % 2 ^ 64) bs (omega arith) (omega arith))

-- An observation is in the first eleven buckets just if it is at most 35 ms.
pub bucket_of-35ms : (us : ℕ) → ltb (bucket_of us) 11 ≡ leb us 35_000
unfolding bucket_of position
bucket_of-35ms us = ground arith

pub bucket_of-60ms : (us : ℕ) → ltb (bucket_of us) 16 ≡ leb us 60_000
unfolding bucket_of position
bucket_of-60ms us = ground arith

-- How many pass a test.
abbrev pub how_many : (ℕ → Bool) → List ℕ → ℕ
how_many p [] = 0
how_many p (x ∷ xs) = one_if (p x) + how_many p xs

pub how_many-le : (p : ℕ → Bool) (xs : List ℕ) → how_many p xs ≤ length xs
how_many-le p [] = omega arith
how_many-le p (x ∷ xs) = ground (arith, how_many-le p xs)

pub how_many-same :
    (p q : ℕ → Bool) → ((x : ℕ) → p x ≡ q x) → (xs : List ℕ) → how_many p xs ≡ how_many q xs
how_many-same p q h [] = refl
how_many-same p q h (x ∷ xs) = rw (h x, how_many-same p q h xs) refl

abbrev pub sum_of : List ℕ → ℕ
sum_of [] = 0
sum_of (x ∷ xs) = x + sum_of xs

abbrev pub greatest : List ℕ → ℕ
greatest [] = 0
greatest (x ∷ xs) = max x (greatest xs)
