-- ===== src/Metrics/Histogram/Interleaved.antt =====
-- The histogram of crates/memgarden-core/src/metrics.rs under any number of threads, whose atomic
-- operations interleave.
use memgarden.Prelude.{
  ℕ, zero, suc, ◌+◌, ◌%◌, ◌^◌, ◌≤◌, ◌<◌, max, List, [], ◌∷◌, ◌++◌, ◌≡◌, ◌∙◌, refl, sym, subst, ltb,
  arith,
}
use memgarden.Prelude.Lists.{length}
use memgarden.Metrics.Histogram.{
  Histogram, Rmw, add_bucket, add_count, add_sum, raise_max, bucket_of, perform, record_us, new,
  zeros,
}
use memgarden.Metrics.Histogram.Counted.{
  sum_first, one_if, length-fetch_add_at, sum_first-fetch_add_at, how_many, how_many-le, sum_of,
  greatest,
}

-- The histogram, what is left of each call of `record_us`, and what has been observed.
pub record Live : Type 0 where
  pub histogram : Histogram
  pub calls : List (List Rmw)
  pub seen : List ℕ

-- A thread begins a call, or does the next atomic operation of one. Fewer calls begin than a counter
-- can count.
pub data Step (b : Live) : Live → Type 0 where
  begin :
      {c : Live} (us : ℕ)
      → length b.seen + 1 < 2 ^ 64
      → c ≡ record b { calls = record_us us ∷ b.calls; seen = us ∷ b.seen }
      → Step b c
  go_on :
      {c : Live} (before after : List (List Rmw)) (op : Rmw) (rest : List Rmw)
      → b.calls ≡ before ++ (op ∷ rest) ∷ after
      → c ≡ record b { histogram = perform op b.histogram; calls = before ++ rest ∷ after }
      → Step b c

pub data Reach : Live → Type 0 where
  here : {b : Live} → b ≡ record { histogram = new; calls = []; seen = [] } → Reach b
  next : {b c : Live} → Reach b → Step b c → Reach c

-- What an operation adds to the first `n` buckets, to `count`, to `sum_us` and to `max_us`.
abbrev pub to_buckets : ℕ → Rmw → ℕ
to_buckets n (add_bucket i) = one_if (ltb i n)
to_buckets n _ = 0

abbrev pub to_count : Rmw → ℕ
to_count add_count = 1
to_count _ = 0

abbrev pub to_sum : Rmw → ℕ
to_sum (add_sum us) = us
to_sum _ = 0

abbrev pub to_max : Rmw → ℕ
to_max (raise_max us) = us
to_max _ = 0

-- A quantity that operations add to, over what is left of all calls.
module _ (weight : Rmw → ℕ) where
  abbrev left_of : List Rmw → ℕ
  left_of [] = 0
  left_of (op ∷ ops) = weight op + left_of ops

  abbrev pub left : List (List Rmw) → ℕ
  left [] = 0
  left (ops ∷ calls) = left_of ops + left calls

  left-done :
      (before after : List (List Rmw)) (op : Rmw) (rest : List Rmw)
      → left (before ++ (op ∷ rest) ∷ after) ≡ weight op + left (before ++ rest ∷ after)
  left-done [] after op rest = omega arith
  left-done (ops ∷ before) after op rest = omega (arith, left-done before after op rest)

abbrev left_max_of : List Rmw → ℕ
left_max_of [] = 0
left_max_of (op ∷ ops) = max (to_max op) (left_max_of ops)

abbrev pub left_max : List (List Rmw) → ℕ
left_max [] = 0
left_max (ops ∷ calls) = max (left_max_of ops) (left_max calls)

left_max-done :
    (before after : List (List Rmw)) (op : Rmw) (rest : List Rmw)
    → left_max (before ++ (op ∷ rest) ∷ after) ≡ max (to_max op) (left_max (before ++ rest ∷ after))
left_max-done [] after op rest = omega arith
left_max-done (ops ∷ before) after op rest = omega (arith, left_max-done before after op rest)

-- Every counter, with what is still to be added to it, is what has been observed.
pub record IsCounted (b : Live) : Type 0 where
  pub width : length b.histogram.buckets ≡ 20
  pub buckets :
      (n : ℕ)
      → n ≤ 20
      → sum_first n b.histogram.buckets + left (to_buckets n) b.calls
        ≡ how_many (λ us. ltb (bucket_of us) n) b.seen
  pub count : b.histogram.count + left to_count b.calls ≡ length b.seen
  pub fits : length b.seen < 2 ^ 64
  pub sum_us : (b.histogram.sum_us + left to_sum b.calls) % 2 ^ 64 ≡ sum_of b.seen % 2 ^ 64
  pub small : b.histogram.sum_us < 2 ^ 64
  pub max_us : max b.histogram.max_us (left_max b.calls) ≡ greatest b.seen

begin-IsCounted :
    (b : Live) (us : ℕ)
    → length b.seen + 1 < 2 ^ 64
    → IsCounted b
    → IsCounted (record b { calls = record_us us ∷ b.calls; seen = us ∷ b.seen })
unfolding record_us
begin-IsCounted b us h k = record {
  width = k.width;
  buckets = λ n l. ground (arith, k.buckets n l);
  count = omega (arith, k.count);
  fits = omega arith;
  sum_us = omega (arith, k.sum_us);
  small = k.small;
  max_us = omega (arith, k.max_us);
}

-- The operation moves what it adds from what is left to the counter.
module _ (b : Live) (before after : List (List Rmw)) (rest : List Rmw) where
  abbrev moved : Rmw → Live
  moved op = record b { histogram = perform op b.histogram; calls = before ++ rest ∷ after }

  abbrev IsNext : Rmw → Type 0
  IsNext op = b.calls ≡ before ++ (op ∷ rest) ∷ after

  left-calls :
      (op : Rmw) (w : Rmw → ℕ) → IsNext op → left w b.calls ≡ w op + left w (before ++ rest ∷ after)
  left-calls op w e = rw e (left-done w before after op rest)

  left_max-calls :
      (op : Rmw)
      → IsNext op
      → left_max b.calls ≡ max (to_max op) (left_max (before ++ rest ∷ after))
  left_max-calls op e = rw e (left_max-done before after op rest)

  add_bucket-moved :
      (i : ℕ) → IsNext (add_bucket i) → IsCounted b → IsCounted (moved (add_bucket i))
  unfolding perform
  add_bucket-moved i e k =
      let l = λ (w : Rmw → ℕ). left-calls (add_bucket i) w e in
      let bs = b.histogram.buckets in
      let full : sum_first 20 bs + one_if (ltb i 20) < 2 ^ 64 = omega (
        arith,
        k.buckets 20 (omega arith),
        l (to_buckets 20),
        k.fits,
        how_many-le (λ us. ltb (bucket_of us) 20) b.seen,
      ) in
      let room : sum_first (length bs) bs + one_if (ltb i (length bs)) < 2 ^ 64 = rw k.width full in
      record {
        width = length-fetch_add_at i bs ∙ k.width;
        buckets = λ n h. omega (
          arith,
          k.buckets n h,
          l (to_buckets n),
          sum_first-fetch_add_at n i bs (omega (arith, k.width)) room,
        );
        count = omega (arith, k.count, l to_count);
        fits = k.fits;
        sum_us = omega (arith, k.sum_us, l to_sum);
        small = k.small;
        max_us = omega (arith, k.max_us, left_max-calls (add_bucket i) e);
      }

  add_count-moved : IsNext add_count → IsCounted b → IsCounted (moved add_count)
  unfolding perform
  add_count-moved e k = record {
    width = k.width;
    buckets = λ n h. omega (arith, k.buckets n h, left-calls add_count (to_buckets n) e);
    count = omega (arith, k.count, k.fits, left-calls add_count to_count e);
    fits = k.fits;
    sum_us = omega (arith, k.sum_us, left-calls add_count to_sum e);
    small = k.small;
    max_us = omega (arith, k.max_us, left_max-calls add_count e);
  }

  add_sum-moved : (us : ℕ) → IsNext (add_sum us) → IsCounted b → IsCounted (moved (add_sum us))
  unfolding perform
  add_sum-moved us e k = record {
    width = k.width;
    buckets = λ n h. omega (arith, k.buckets n h, left-calls (add_sum us) (to_buckets n) e);
    count = omega (arith, k.count, left-calls (add_sum us) to_count e);
    fits = k.fits;
    sum_us = omega (arith, k.sum_us, left-calls (add_sum us) to_sum e);
    small = omega arith;
    max_us = omega (arith, k.max_us, left_max-calls (add_sum us) e);
  }

  raise_max-moved :
      (us : ℕ) → IsNext (raise_max us) → IsCounted b → IsCounted (moved (raise_max us))
  unfolding perform
  raise_max-moved us e k = record {
    width = k.width;
    buckets = λ n h. omega (arith, k.buckets n h, left-calls (raise_max us) (to_buckets n) e);
    count = omega (arith, k.count, left-calls (raise_max us) to_count e);
    fits = k.fits;
    sum_us = omega (arith, k.sum_us, left-calls (raise_max us) to_sum e);
    small = k.small;
    max_us = omega (arith, k.max_us, left_max-calls (raise_max us) e);
  }

  moved-IsCounted : (op : Rmw) → IsNext op → IsCounted b → IsCounted (moved op)
  moved-IsCounted (add_bucket i) = add_bucket-moved i
  moved-IsCounted add_count = add_count-moved
  moved-IsCounted (add_sum us) = add_sum-moved us
  moved-IsCounted (raise_max us) = raise_max-moved us

pub Reach-IsCounted : {b : Live} → Reach b → IsCounted b
Reach-IsCounted (here e) = subst IsCounted (sym e) (record {
  width = refl;
  buckets = λ n h. zeros-sum n 20;
  count = refl;
  fits = omega arith;
  sum_us = refl;
  small = omega arith;
  max_us = refl;
})
  where
    zeros-sum : (n m : ℕ) → sum_first n (zeros m) + 0 ≡ 0
    zeros-sum zero m = omega arith
    zeros-sum (suc n) zero = omega arith
    zeros-sum (suc n) (suc m) = omega (arith, zeros-sum n m)
Reach-IsCounted (next {b} r (begin us h e)) =
    subst IsCounted (sym e) (begin-IsCounted b us h (Reach-IsCounted r))
Reach-IsCounted (next {b} r (go_on before after op rest e f)) =
    subst IsCounted (sym f) (moved-IsCounted b before after rest op e (Reach-IsCounted r))
