-- ===== src/Worker/Admission.antt =====
-- The byte budget of the retain queue: `try_reserve_bytes`, `release_bytes` and the counter that they
-- share, crates/memgardend/src/retain/mod.rs. The counter is an `AtomicUsize` of 64 bits.
use memgarden.Prelude.{
  ℕ, ◌+◌, ◌-◌, ◌*◌, ◌%◌, ◌^◌, ◌≤◌, ◌<◌, Bool, true, false, List, [], ◌∷◌, ◌++◌, ◌≡◌, refl, sym,
  subst, arith, ltb, if◌then◌else◌,
}

abbrev pub max_queued_bytes : ℕ
max_queued_bytes = 256 * 1024 * 1024

abbrev word : ℕ
word = 2 ^ 64

unfoldable pub fetch_add : ℕ → ℕ → ℕ
fetch_add q n = (q + n) % 2 ^ 64

unfoldable pub fetch_sub : ℕ → ℕ → ℕ
fetch_sub q n = (q + 2 ^ 64 - n) % 2 ^ 64

-- `QUEUED_BYTES.fetch_add(n) + n > MAX_QUEUED_BYTES`
unfoldable pub over_budget : ℕ → ℕ → Bool
over_budget q n = ltb max_queued_bytes ((q + n) % 2 ^ 64)

-- The call as one thread makes it alone: the counter after it, and the answer.
unfoldable pub try_reserve_bytes : ℕ → ℕ → ℕ × Bool
unfolding fetch_add fetch_sub over_budget
try_reserve_bytes n q =
    if over_budget q n then (fetch_sub (fetch_add q n) n, false) else (fetch_add q n, true)

abbrev pub total : List ℕ → ℕ
total [] = 0
total (n ∷ ns) = n + total ns

-- The counter, what has been admitted and not released, and what has been added by calls that are
-- about to take it back.
pub record Budget : Type 0 where
  pub queued : ℕ
  pub admitted : List ℕ
  pub refused : List ℕ

-- The atomic operations of any number of threads, one at a time. The transcripts that are held at
-- once, with the one that a call brings, are below 2^64 bytes together.
pub data Step (b : Budget) : Budget → Type 0 where
  admit :
      {c : Budget} (n : ℕ)
      → total b.admitted + total b.refused + n < 2 ^ 64
      → over_budget b.queued n ≡ false
      → c ≡ record b { queued = fetch_add b.queued n; admitted = n ∷ b.admitted }
      → Step b c
  overshoot :
      {c : Budget} (n : ℕ)
      → total b.admitted + total b.refused + n < 2 ^ 64
      → over_budget b.queued n ≡ true
      → c ≡ record b { queued = fetch_add b.queued n; refused = n ∷ b.refused }
      → Step b c
  take_back :
      {c : Budget} (before after : List ℕ) (n : ℕ)
      → b.refused ≡ before ++ n ∷ after
      → c ≡ record b { queued = fetch_sub b.queued n; refused = before ++ after }
      → Step b c
  release :
      {c : Budget} (before after : List ℕ) (n : ℕ)
      → b.admitted ≡ before ++ n ∷ after
      → c ≡ record b { queued = fetch_sub b.queued n; admitted = before ++ after }
      → Step b c

pub data Reach : Budget → Type 0 where
  here : {b : Budget} → b ≡ record { queued = 0; admitted = []; refused = [] } → Reach b
  next : {b c : Budget} → Reach b → Step b c → Reach c

-- The counter is exact, and the admitted bytes are within the budget.
pub record IsExact (b : Budget) : Type 0 where
  pub exact : b.queued ≡ total b.admitted + total b.refused
  pub within : total b.admitted ≤ max_queued_bytes
  pub fits : b.queued < 2 ^ 64

total-split : (xs ys : List ℕ) (n : ℕ) → total (xs ++ n ∷ ys) ≡ n + total (xs ++ ys)
total-split [] ys n = refl
total-split (x ∷ xs) ys n = omega (arith, total-split xs ys n)

-- What leaves a list of amounts.
total-leaves :
    (xs ys : List ℕ) (n : ℕ) {l : List ℕ} → l ≡ xs ++ n ∷ ys → total l ≡ n + total (xs ++ ys)
total-leaves xs ys n e = rw e (total-split xs ys n)

Step-IsExact : {b c : Budget} → Step b c → IsExact b → IsExact c
unfolding over_budget fetch_add fetch_sub
Step-IsExact {b} (admit n f o e) h =
    subst IsExact (sym e)
      (record { exact = ground arith; within = ground arith; fits = omega arith })
Step-IsExact {b} (overshoot n f o e) h =
    subst IsExact (sym e) (record { exact = ground arith; within = h.within; fits = omega arith })
Step-IsExact {b} (take_back before after n s e) h = subst IsExact (sym e) (record {
  exact = omega (arith, h.exact, h.fits, total-leaves before after n s);
  within = h.within;
  fits = omega arith;
})
Step-IsExact {b} (release before after n s e) h = subst IsExact (sym e) (record {
  exact = omega (arith, h.exact, h.fits, total-leaves before after n s);
  within = omega (arith, h.within, total-leaves before after n s);
  fits = omega arith;
})

-- Whatever the interleaving of reservations, refusals and releases: as long as each addition finds
-- the bytes admitted, those about to be taken back and its own below 2^64 together (the transcripts
-- stand in memory, so that they fit a 64-bit address space), the counter is the admitted bytes and
-- those about to be taken back, and the admitted bytes are at most the budget of 256 MiB.
pub Reach-IsExact : {b : Budget} → Reach b → IsExact b
Reach-IsExact (here e) =
    subst IsExact (sym e) (record { exact = refl; within = omega arith; fits = omega arith })
Reach-IsExact (next r s) = Step-IsExact s (Reach-IsExact r)

-- A refused call that nothing interrupts leaves the counter as it was.
try_reserve_bytes_refused :
    (n q : ℕ)
    → q < 2 ^ 64
    → n < 2 ^ 64
    → (try_reserve_bytes n q).1 ≡ false
    → (try_reserve_bytes n q).0 ≡ q
unfolding try_reserve_bytes
try_reserve_bytes_refused n q hq hn h = ground arith
