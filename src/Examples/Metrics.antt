-- ===== src/Examples/Metrics.antt =====
-- The histogram of crates/memgarden-core/src/metrics.rs, with floats in hundredths.
use memgarden.Prelude.{
  ℕ, ◌+◌, ◌-◌, ◌*◌, ◌/◌, min, false, some, List, [], ◌∷◌, ◌≡◌, refl, ltb, arith,
}
use memgarden.Metrics.Histogram.{
  Rmw, add_bucket, add_count, add_sum, raise_max, Floats, new, perform, record_us, bucket_of,
  position, fetch_add_at, snapshot, filled,
}
use memgarden.Metrics.Histogram.Interleaved.{Live, Reach, begin, go_on, here, next}
use memgarden.Metrics.Histogram.Exact.{Exact, Reach-Exact}
use memgarden.Metrics.Histogram.Quantile.{AllAtMost, snapshot-AllAtMost}

min_law : (x m : ℕ) → ltb (100 * m) (min x (100 * m)) ≡ false
min_law x m = ground arith

abbrev hundreds : Floats
hundreds = record {
  F = ℕ;
  of_u64 = λ n. 100 * n;
  add = λ a b. a + b;
  sub = λ a b. a - b;
  mul = λ a b. a * b / 100;
  div = λ a b. a * 100 / b;
  min_f = min;
  ceil = λ a. (a + 99) / 100;
  hundredths = λ n. n;
  gt = λ a b. ltb b a;
  min_f-gt = min_law;
}

-- A call with 35000 and one with 700000, operation by operation in turn.
abbrev both : Live
both = record {
  histogram = record {
    buckets = 0 ∷ 0 ∷ 0 ∷ 0 ∷ 0 ∷ 0 ∷ 0 ∷ 0 ∷ 0 ∷ 0 ∷ 1 ∷ 0 ∷ 0 ∷ 0 ∷ 0 ∷ 0 ∷ 0 ∷ 0 ∷ 0 ∷ 1 ∷ [];
    count = 2;
    sum_us = 735_000;
    max_us = 700_000;
  };
  calls = [] ∷ [] ∷ [];
  seen = 700_000 ∷ 35_000 ∷ [];
}

abbrev of_first : List Rmw
of_first = add_count ∷ add_sum 35_000 ∷ raise_max 35_000 ∷ []

abbrev of_second : List Rmw
of_second = add_count ∷ add_sum 700_000 ∷ raise_max 700_000 ∷ []

both-Reach : Reach both
unfolding perform record_us bucket_of position fetch_add_at
both-Reach =
    let b0 : Reach (record { histogram = new; calls = []; seen = [] }) = here refl in
    let b1 = next b0 (begin 35_000 (omega arith) refl) in
    let b2 = next b1 (begin 700_000 (omega arith) refl) in
    let b3 = next b2 (go_on (record_us 700_000 ∷ []) [] (add_bucket 10) of_first refl refl) in
    let b4 = next b3 (go_on [] (of_first ∷ []) (add_bucket 19) of_second refl refl) in
    let b5 = next b4 (go_on [] (of_first ∷ []) add_count _ refl refl) in
    let b6 = next b5 (go_on (_ ∷ []) [] add_count _ refl refl) in
    let b7 = next b6 (go_on [] (_ ∷ []) (add_sum 700_000) _ refl refl) in
    let b8 = next b7 (go_on (_ ∷ []) [] (add_sum 35_000) _ refl refl) in
    let b9 = next b8 (go_on [] (_ ∷ []) (raise_max 700_000) _ refl refl) in
    next b9 (go_on (_ ∷ []) [] (raise_max 35_000) _ refl refl)

Reach-Exact_example : Exact hundreds (700_000 ∷ 35_000 ∷ []) (snapshot hundreds both.histogram)
Reach-Exact_example = Reach-Exact hundreds both-Reach (refl, (refl, tt))

snapshot_both : snapshot hundreds both.histogram ≡ some (filled hundreds both.histogram)
unfolding snapshot
snapshot_both = refl

snapshot-AllAtMost_example : AllAtMost hundreds (filled hundreds both.histogram)
snapshot-AllAtMost_example =
    snapshot-AllAtMost hundreds both.histogram (filled hundreds both.histogram) snapshot_both
