-- ===== src/Metrics/Histogram.antt =====
-- `Histogram` of crates/memgarden-core/src/metrics.rs. Its counters are `AtomicU64`s; `record_us` is
-- the list of its four atomic operations, so that threads can interleave between them.
use memgarden.Prelude.{
  ℕ, zero, suc, ◌+◌, ◌-◌, ◌%◌, ◌^◌, max, min, Bool, true, false, Option, none, some, List, [], ◌∷◌,
  ◌≡◌, leb, ◌==◌, if◌then◌else◌,
}
pub mod Counted
pub mod Interleaved
pub mod Exact
pub mod Quantile

abbrev pub bounds_us : List ℕ
bounds_us =
    100 ∷ 500 ∷ 1_000 ∷ 2_000 ∷ 5_000 ∷ 10_000 ∷ 15_000 ∷ 20_000 ∷ 25_000 ∷ 30_000 ∷ 35_000 ∷ 40_000
    ∷ 45_000 ∷ 50_000 ∷ 55_000 ∷ 60_000 ∷ 100_000 ∷ 250_000 ∷ 500_000 ∷ 18_446_744_073_709_551_615
    ∷ []

pub record Histogram : Type 0 where
  pub buckets : List ℕ
  pub count : ℕ
  pub sum_us : ℕ
  pub max_us : ℕ

abbrev pub zeros : ℕ → List ℕ
zeros zero = []
zeros (suc n) = 0 ∷ zeros n

abbrev pub new : Histogram
new = record { buckets = zeros 20; count = 0; sum_us = 0; max_us = 0 }

-- Rust's `Iterator::position`.
unfoldable pub position : (ℕ → Bool) → List ℕ → Option ℕ
position p [] = none
position p (x ∷ xs) =
    let rest = position p xs in
    if p x then some 0 else elim rest [ none ↦ none | some i ↦ some (suc i) ]

abbrev unwrap_or : ℕ → Option ℕ → ℕ
unwrap_or n none = n
unwrap_or n (some m) = m

unfoldable pub bucket_of : ℕ → ℕ
bucket_of us = unwrap_or 19 (position (λ bound. leb us bound) bounds_us)

-- The atomic operations.
pub data Rmw : Type 0 where
  add_bucket : ℕ → Rmw
  add_count : Rmw
  add_sum : ℕ → Rmw
  raise_max : ℕ → Rmw

-- `buckets[i].fetch_add(1)`; `record_us` has no index out of range.
unfoldable pub fetch_add_at : ℕ → List ℕ → List ℕ
fetch_add_at i [] = []
fetch_add_at zero (b ∷ bs) = (b + 1) % 2 ^ 64 ∷ bs
fetch_add_at (suc i) (b ∷ bs) = b ∷ fetch_add_at i bs

unfoldable pub perform : Rmw → Histogram → Histogram
perform (add_bucket i) h = record h { buckets = fetch_add_at i h.buckets }
perform add_count h = record h { count = (h.count + 1) % 2 ^ 64 }
perform (add_sum us) h = record h { sum_us = (h.sum_us + us) % 2 ^ 64 }
perform (raise_max us) h = record h { max_us = max h.max_us us }

unfoldable pub record_us : ℕ → List Rmw
record_us us = add_bucket (bucket_of us) ∷ add_count ∷ add_sum us ∷ raise_max us ∷ []

-- The loop that fills `cumulative`, from `running` on.
unfoldable pub cumulative : ℕ → List ℕ → List ℕ
cumulative running [] = []
cumulative running (b ∷ bs) = let next = (running + b) % 2 ^ 64 in next ∷ cumulative next bs

-- An index into an array; those of `snapshot` are in range.
abbrev pub nth : ℕ → List ℕ → ℕ
nth i [] = 0
nth zero (x ∷ xs) = x
nth (suc i) (x ∷ xs) = nth i xs

unfoldable pub under_bound : List ℕ → ℕ → ℕ
under_bound cums bound_us = elim (position (λ b. b == bound_us) bounds_us) [
  | none ↦ 0
  | some idx ↦ nth idx cums
]

-- What `snapshot` needs of `f64`. The law holds of floats: the smaller of a float, NaN included, and
-- a number is not greater than the number.
pub record Floats : Type 1 where
  pub F : Type 0
  pub of_u64 : ℕ → F
  pub add : F → F → F
  pub sub : F → F → F
  pub mul : F → F → F
  pub div : F → F → F
  pub min_f : F → F → F
  -- `x.ceil() as u64`
  pub ceil : F → ℕ
  pub hundredths : ℕ → F
  pub gt : F → F → Bool
  pub min_f-gt : (x : F) (m : ℕ) → gt (min_f x (of_u64 m)) (of_u64 m) ≡ false

module _ (f : Floats) where
  pub record HistogramSnapshot : Type 0 where
    pub count : ℕ
    pub mean_us : f.F
    pub max_us : ℕ
    pub p50_us : f.F
    pub p90_us : f.F
    pub p95_us : f.F
    pub p99_us : f.F
    pub under_35ms : ℕ
    pub under_60ms : ℕ

  -- `prev_bound + frac * (bound - prev_bound)`, where `frac` is the target's place in the bucket.
  unfoldable pub interpolate : ℕ → ℕ → ℕ → ℕ → ℕ → f.F
  interpolate target prev_bound prev_cum bound bucket_count = f.add (f.of_u64 prev_bound) (
      f.mul (f.div (f.of_u64 (target - prev_cum)) (f.of_u64 bucket_count))
        (f.sub (f.of_u64 bound) (f.of_u64 prev_bound)))

  -- The loop of `quantile` over the bounds and `cumulative`.
  unfoldable pub quantile_from : ℕ → ℕ → ℕ → ℕ → List ℕ → List ℕ → f.F
  quantile_from target max_us prev_bound prev_cum (bound ∷ bounds) (cum ∷ cums) =
      let rest = quantile_from target max_us bound cum bounds cums in
      let bucket_count = cum - prev_cum in
      if leb target cum
      then if bucket_count == 0
        then f.min_f (f.of_u64 prev_bound) (f.of_u64 max_us)
        else f.min_f (interpolate target prev_bound prev_cum bound bucket_count) (f.of_u64 max_us)
      else rest
  quantile_from target max_us prev_bound prev_cum _ _ =
      f.min_f (f.of_u64 prev_bound) (f.of_u64 max_us)

  unfoldable pub quantile : ℕ → ℕ → List ℕ → f.F → f.F
  quantile count max_us cums q =
      let target = max 1 (min (f.ceil (f.mul q (f.of_u64 count))) count) in
      quantile_from target max_us 0 0 bounds_us cums

  -- The snapshot of a histogram with observations.
  unfoldable pub filled : Histogram → HistogramSnapshot
  filled h =
      let cums = cumulative 0 h.buckets in
      record {
        count = h.count;
        mean_us = f.div (f.of_u64 h.sum_us) (f.of_u64 h.count);
        max_us = h.max_us;
        p50_us = quantile h.count h.max_us cums (f.hundredths 50);
        p90_us = quantile h.count h.max_us cums (f.hundredths 90);
        p95_us = quantile h.count h.max_us cums (f.hundredths 95);
        p99_us = quantile h.count h.max_us cums (f.hundredths 99);
        under_35ms = under_bound cums 35_000;
        under_60ms = under_bound cums 60_000;
      }

  unfoldable pub snapshot : Histogram → Option HistogramSnapshot
  snapshot h = if h.count == 0 then none else some (filled h)
