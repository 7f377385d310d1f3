-- ===== src/Metrics/Histogram/Exact.antt =====
-- What `snapshot` of crates/memgarden-core/src/metrics.rs says of the observations, once every call
-- of `record_us` has returned.
use memgarden.Prelude.{
  ℕ, suc, ◌+◌, ◌%◌, ◌^◌, ◌<◌, Option, none, some, List, [], ◌∷◌, ◌≡◌, ◌∙◌, refl, leb, ltb, ◌==◌,
  inl, inr, Bool-cases, arith,
}
use memgarden.Prelude.Lists.{length, All}
use memgarden.Metrics.Histogram.{
  Rmw, Floats, HistogramSnapshot, bucket_of, position, cumulative, nth, under_bound, filled,
  snapshot,
}
use memgarden.Metrics.Histogram.Counted.{
  sum_first, how_many, how_many-le, how_many-same, sum_of, greatest, nth-cumulative, bucket_of-35ms,
  bucket_of-60ms,
}
use memgarden.Metrics.Histogram.Interleaved.{
  Live, Reach, IsCounted, Reach-IsCounted, left, left_max, to_buckets, to_count, to_sum,
}

-- Every call has returned.
abbrev pub Quiet : List (List Rmw) → Type 0
Quiet calls = All (λ ops. ops ≡ []) calls

left-Quiet : (w : Rmw → ℕ) (calls : List (List Rmw)) → Quiet calls → left w calls ≡ 0
left-Quiet w [] q = refl
left-Quiet w (ops ∷ calls) (e, q) = rw (e, left-Quiet w calls q) refl

left_max-Quiet : (calls : List (List Rmw)) → Quiet calls → left_max calls ≡ 0
left_max-Quiet [] q = refl
left_max-Quiet (ops ∷ calls) (e, q) = rw (e, left_max-Quiet calls q) refl

-- The sum of the first buckets, as `snapshot` computes it.
nth-cumulative-Reach :
    {b : Live} (i : ℕ)
    → i < 20
    → IsCounted b
    → Quiet b.calls
    → nth i (cumulative 0 b.histogram.buckets) ≡ how_many (λ us. ltb (bucket_of us) (suc i)) b.seen
nth-cumulative-Reach {b} i h k q =
    let bs = b.histogram.buckets in
    let full : sum_first 20 bs < 2 ^ 64 = omega (
      arith,
      k.buckets 20 (omega arith),
      k.fits,
      how_many-le (λ us. ltb (bucket_of us) 20) b.seen,
    ) in
    let room : 0 + sum_first (length bs) bs < 2 ^ 64 = rw k.width (omega (arith, full)) in
    omega (
      arith,
      nth-cumulative i 0 bs (omega (arith, k.width)) room,
      k.buckets (suc i) (omega arith),
      left-Quiet (to_buckets (suc i)) b.calls q,
    )

module _ (f : Floats) where
  -- What a snapshot says of the observations.
  pub record Tells (seen : List ℕ) (s : HistogramSnapshot f) : Type 0 where
    pub count : s.count ≡ length seen
    pub max_us : s.max_us ≡ greatest seen
    pub mean_us : s.mean_us ≡ f.div (f.of_u64 (sum_of seen % 2 ^ 64)) (f.of_u64 (length seen))
    pub under_35ms : s.under_35ms ≡ how_many (λ us. leb us 35_000) seen
    pub under_60ms : s.under_60ms ≡ how_many (λ us. leb us 60_000) seen

  abbrev pub Exact : List ℕ → Option (HistogramSnapshot f) → Type 0
  Exact seen none = seen ≡ []
  Exact seen (some s) = Tells seen s

  filled-Tells : (b : Live) → IsCounted b → Quiet b.calls → Tells b.seen (filled f b.histogram)
  unfolding filled under_bound position
  filled-Tells b k q =
      let all : b.histogram.count ≡ length b.seen =
        omega (arith, k.count, left-Quiet to_count b.calls q) in
      let sum : b.histogram.sum_us ≡ sum_of b.seen % 2 ^ 64 =
        omega (arith, k.sum_us, k.small, left-Quiet to_sum b.calls q) in
      record {
        count = all;
        max_us = omega (arith, k.max_us, left_max-Quiet b.calls q);
        mean_us = rw (all, sum) refl;
        under_35ms =
            nth-cumulative-Reach 10 (omega arith) k q
            ∙ how_many-same (λ us. ltb (bucket_of us) 11) (λ us. leb us 35_000) bucket_of-35ms
                b.seen;
        under_60ms =
            nth-cumulative-Reach 15 (omega arith) k q
            ∙ how_many-same (λ us. ltb (bucket_of us) 16) (λ us. leb us 60_000) bucket_of-60ms
                b.seen;
      }

  -- However the atomic operations of the threads interleave, in fewer than 2^64 calls of `record_us`:
  -- once every call has returned, a snapshot is none only if nothing was observed, and otherwise has
  -- the exact number of observations, the largest, the mean of them from their sum modulo 2^64, and
  -- the exact numbers of those of at most 35 ms and of at most 60 ms.
  pub Reach-Exact : {b : Live} → Reach b → Quiet b.calls → Exact b.seen (snapshot f b.histogram)
  unfolding snapshot
  Reach-Exact {b} r q =
      let k = Reach-IsCounted r in
      let tells = filled-Tells b k q in
      elim (Bool-cases (b.histogram.count == 0)) [
        | inl e ↦
            rw e (no_length b.seen (ground (arith, e, k.count, left-Quiet to_count b.calls q)))
        | inr e ↦ rw e tells
      ]
    where
      no_length : (xs : List ℕ) → length xs ≡ 0 → xs ≡ []
      no_length [] h = refl
      no_length (x ∷ xs) h = absurd (omega arith)
