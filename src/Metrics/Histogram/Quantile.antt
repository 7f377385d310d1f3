-- ===== src/Metrics/Histogram/Quantile.antt =====
-- The quantiles of a snapshot, crates/memgarden-core/src/metrics.rs.
use memgarden.Prelude.{
  ℕ, ◌-◌, max, min, inl, inr, false, some, List, [], ◌∷◌, ◌≡◌, leb, ◌==◌, Bool-cases, subst,
}
use memgarden.Metrics.Histogram.{
  Histogram, Floats, HistogramSnapshot, bounds_us, interpolate, quantile_from, quantile, cumulative,
  filled, snapshot,
}

module _ (f : Floats) where
  abbrev pub AtMost : f.F → ℕ → Type 0
  AtMost x m = f.gt x (f.of_u64 m) ≡ false

  quantile_from-AtMost :
      (target max_us prev_bound prev_cum : ℕ) (bounds cums : List ℕ)
      → AtMost (quantile_from f target max_us prev_bound prev_cum bounds cums) max_us
  unfolding quantile_from
  quantile_from-AtMost target m prev_bound prev_cum [] cums = f.min_f-gt (f.of_u64 prev_bound) m
  quantile_from-AtMost target m prev_bound prev_cum (bound ∷ bounds) [] =
      f.min_f-gt (f.of_u64 prev_bound) m
  quantile_from-AtMost target m prev_bound prev_cum (bound ∷ bounds) (cum ∷ cums) =
      elim (Bool-cases (leb target cum)) [
        | inr e ↦ rw e (quantile_from-AtMost target m bound cum bounds cums)
        | inl e ↦ elim (Bool-cases ((cum - prev_cum) == 0)) [
          | inl g ↦ rw (e, g) (f.min_f-gt (f.of_u64 prev_bound) m)
          | inr g ↦
              rw (e, g)
                (f.min_f-gt (interpolate f target prev_bound prev_cum bound (cum - prev_cum)) m)
        ]
      ]

  abbrev pub AllAtMost : HistogramSnapshot f → Type 0
  AllAtMost s =
      AtMost s.p50_us s.max_us
      × AtMost s.p90_us s.max_us
      × AtMost s.p95_us s.max_us
      × AtMost s.p99_us s.max_us

  filled-AllAtMost : (h : Histogram) → AllAtMost (filled f h)
  unfolding filled quantile
  filled-AllAtMost h = (at 50, at 90, at 95, at 99)
    where
      at :
          (n : ℕ)
          → AtMost (quantile f h.count h.max_us (cumulative 0 h.buckets) (f.hundredths n)) h.max_us
      at n =
          quantile_from-AtMost
            (max 1 (min (f.ceil (f.mul (f.hundredths n) (f.of_u64 h.count))) h.count)) h.max_us 0 0
            bounds_us (cumulative 0 h.buckets)

  -- No quantile of a snapshot exceeds the largest observation, although the last bucket reaches up
  -- to the largest number there is.
  pub snapshot-AllAtMost :
      (h : Histogram) (s : HistogramSnapshot f) → snapshot f h ≡ some s → AllAtMost s
  unfolding snapshot
  snapshot-AllAtMost h s e = elim (Bool-cases (h.count == 0)) [
    | inl g ↦ cc (rw (snapshot, g) at e)
    | inr g ↦
        let same : filled f h ≡ s = cc (rw (snapshot, g) at e) in
        subst AllAtMost same (filled-AllAtMost h)
  ]
