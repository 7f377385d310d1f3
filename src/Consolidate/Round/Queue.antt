-- ===== src/Consolidate/Round/Queue.antt =====
-- The queue of a round of crates/memgardend/src/consolidate/round.rs: its batches lie side by side
-- and cover the facts that are left.
use memgarden.Prelude.{
  ℕ, zero, suc, ◌+◌, ◌-◌, ◌*◌, ◌/◌, ◌≤◌, ◌<◌, min, List, [], ◌∷◌, ◌++◌, ◌≡◌, refl, ap, inl, inr,
  arith, leb, leb→le, ltb, ltb→lt, Bool-cases,
}
use memgarden.Prelude.Lists.{length, take, drop, length-take, length-drop, take-append-drop}
use memgarden.Consolidate.Runs.{FactRow}
use memgarden.Consolidate.Round.{slice, id_at, batches_from}

abbrev pub Tiles : ℕ → List (ℕ × ℕ) → ℕ → Type 0
Tiles start [] len = start ≡ len
Tiles start ((a, b) ∷ q) len = (a ≡ start) × (a < b) × (b ≤ len) × Tiles b q len

-- A round of the loop takes some of it away, also one that cuts a batch in two.
abbrev pub weight : List (ℕ × ℕ) → ℕ
weight [] = 0
weight ((a, b) ∷ q) = (2 * (b - a) - 1) + weight q

batches_from-none : (n size start len : ℕ) → len ≤ start → batches_from n size start len ≡ []
unfolding batches_from
batches_from-none zero size start len le = refl
batches_from-none (suc n) size start len le = ground (arith, le)

-- The batches behind the first one, which may end before its size.
Tiles-next :
    (n size start len : ℕ)
    → (start + size ≤ len
        → len - (start + size) ≤ n
        → Tiles (start + size) (batches_from n size (start + size) len) len)
    → len - (start + size) ≤ n
    → Tiles (min (start + size) len) (batches_from n size (start + size) len) len
Tiles-next n size start len inside enough = elim (Bool-cases (leb (start + size) len)) [
  | inl e ↦
      let le : start + size ≤ len = leb→le (start + size) len e in
      let same : min (start + size) len ≡ start + size = omega arith in rw same (inside le enough)
  | inr e ↦
      let less : len < start + size = ground (arith, e) in
      let same : min (start + size) len ≡ len = omega arith in
      rw (same, batches_from-none n size (start + size) len (omega arith)) refl
]

pub Tiles-batches_from :
    (n size start len : ℕ)
    → 0 < size
    → start ≤ len
    → len - start ≤ n
    → Tiles start (batches_from n size start len) len
unfolding batches_from
Tiles-batches_from zero size start len pos le enough = omega arith
Tiles-batches_from (suc n) size start len pos le enough = elim (Bool-cases (ltb start len)) [
  | inr e ↦ let done : start ≡ len = ground (arith, e) in rw e done
  | inl e ↦
      let less : start < len = ltb→lt start len e in
      let tail = Tiles-next n size start len (Tiles-batches_from n size (start + size) len pos) in
      rw e (refl, omega arith, omega arith, tail (omega arith))
]

pub weight-Tiles :
    (start : ℕ) (q : List (ℕ × ℕ)) (len : ℕ) → Tiles start q len → weight q ≤ 2 * (len - start)
weight-Tiles start [] len t = omega arith
weight-Tiles start ((a, b) ∷ q) len (e, less, le, t) = omega (arith, weight-Tiles b q len t)

-- A batch of several facts, in its halves.
pub Tiles-halves :
    (start end len : ℕ) (q : List (ℕ × ℕ))
    → 1 < end - start
    → end ≤ len
    → Tiles end q len
    → Tiles start ((start, start + (end - start) / 2) ∷ (start + (end - start) / 2, end) ∷ q) len
Tiles-halves start end len q several le t = (
  refl,
  omega (arith, several),
  omega (arith, several, le),
  (refl, omega (arith, several), le, t),
)

-- The last id of a list of facts.
unfoldable pub last_id : ℕ → List FactRow → ℕ
last_id m [] = m
last_id m (f ∷ fs) = last_id f.id fs

take-nil : (n : ℕ) → take {A = FactRow} n [] ≡ []
take-nil zero = refl
take-nil (suc n) = refl

pub slice-drop :
    (facts : List FactRow) (a b : ℕ) → a ≤ b → slice facts a b ++ drop b facts ≡ drop a facts
slice-drop facts zero b le =
    let same : b - 0 ≡ b = omega arith in rw same (take-append-drop b facts)
slice-drop [] (suc a) zero le = absurd (omega arith)
slice-drop [] (suc a) (suc b) le = ap (λ t. t ++ []) (take-nil (suc b - suc a))
slice-drop (f ∷ fs) (suc a) zero le = absurd (omega arith)
slice-drop (f ∷ fs) (suc a) (suc b) le =
    let same : suc b - suc a ≡ b - a = omega arith in rw same (slice-drop fs a b (omega arith))

pub length-slice :
    (facts : List FactRow) (a b : ℕ) → a ≤ b → b ≤ length facts → length (slice facts a b) ≡ b - a
length-slice facts a b le high =
    omega (arith, length-take (b - a) (drop a facts), length-drop a facts)

last_id-take :
    (facts : List FactRow) (m n : ℕ)
    → n < length facts
    → id_at facts n ≡ last_id m (take (suc n) facts)
unfolding id_at last_id
last_id-take [] m n less = absurd (omega arith)
last_id-take (f ∷ fs) m zero less = refl
last_id-take (f ∷ fs) m (suc n) less = last_id-take fs f.id n (omega arith)

-- The watermark that a batch leaves is the id of its last fact.
pub last_id-slice :
    (facts : List FactRow) (m a n : ℕ)
    → a ≤ n
    → n < length facts
    → id_at facts n ≡ last_id m (slice facts a (suc n))
unfolding id_at last_id
last_id-slice facts m zero n le less =
    let same : suc n - 0 ≡ suc n = omega arith in rw same (last_id-take facts m n less)
last_id-slice [] m (suc a) n le less = absurd (omega arith)
last_id-slice (f ∷ fs) m (suc a) zero le less = absurd (omega arith)
last_id-slice (f ∷ fs) m (suc a) (suc n) le less =
    let same : suc (suc n) - suc a ≡ suc n - a = omega arith in
    rw same (last_id-slice fs m a n (omega arith) (omega arith))
