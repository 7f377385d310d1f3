-- ===== src/Settings/Uninstall/Ends.antt =====
-- The loop of `uninstall`, crates/memgarden-cli/src/settings.rs, ends.
use memgarden.Prelude.{
  ℕ, zero, suc, ◌+◌, ◌-◌, ◌*◌, ◌≤◌, ◌<◌, min, Bool, true, false, ◌&&◌, Option, none, some, [], ◌∷◌,
  ◌≡◌, refl, sym, arith, leb, ltb, ◌==◌, Bool-cases, Option-cases, inl, inr,
}
use memgarden.Prelude.Lists.{length, take, drop, length-append, length-take, length-drop}
use memgarden.Prelude.Text.{Text, starts_with}
use memgarden.Settings.Scan.{ws_loop, skip_ws_inline, is_inline, get_range}
use memgarden.Settings.Entry.{Result, parse, err}
use memgarden.Settings.View.{Serde}
use memgarden.Settings.Uninstall.{
  marker_key, is_marker, marker_loop, find_marker, feed_loop, chunk_end, one_command, span_end,
  with_return, may_start, chunk_span, remove, uninstall_loop, enough_rounds, finished, uninstall,
}

marker_loop_bounds :
    (s : Text) (i m : ℕ) (r : Text) → marker_loop s i r ≡ some m → (i ≤ m) × (m < i + length r)
unfolding marker_loop
marker_loop_bounds s i m [] h = cc
marker_loop_bounds s i m (c ∷ r) h =
    elim (Bool-cases (starts_with marker_key (c ∷ r) && is_marker s i)) [
      | inl e ↦ let same : i ≡ m = cc (rw e at h) in (omega arith, omega arith)
      | inr e ↦ let k = marker_loop_bounds s (suc i) m r (rw e at h) in (omega arith, omega arith)
    ]

pub find_marker_bounds :
    (s : Text) (start m : ℕ)
    → start ≤ length s
    → find_marker s start ≡ some m
    → (start ≤ m) × (m < length s)
unfolding find_marker
find_marker_bounds s start m k h =
    let e : min start (length s) ≡ start = omega arith in
    let (a, b) = marker_loop_bounds s start m (drop start s) (rw e at h) in
    (a, omega (arith, length-drop start s))

feed_loop_bounds :
    (best : Option ℕ) (i n : ℕ) (r : Text)
    → feed_loop best i r ≡ some n
    → ((b : ℕ) → best ≡ some b → b < i)
    → n < i + length r
unfolding feed_loop
feed_loop_bounds best i n [] h k = omega (arith, k n h)
feed_loop_bounds best i n (c ∷ r) h k = elim (Bool-cases (c == 10)) [
  | inl e ↦ omega (
    arith,
    feed_loop_bounds (some i) (suc i) n r (rw e at h)
        (λ b q. let same : i ≡ b = cc q in omega arith),
  )
  | inr e ↦
      omega (arith, feed_loop_bounds best (suc i) n r (rw e at h) (λ b q. omega (arith, k b q)))
]

ws_loop-le : (p : ℕ → Bool) (i : ℕ) (r : Text) → i ≤ ws_loop p i r
unfolding ws_loop
ws_loop-le p i [] = omega arith
ws_loop-le p i (c ∷ r) = ground (arith, ws_loop-le p (suc i) r)

span_end_bounds :
    (s : Text) (marker start line_start a b : ℕ)
    → span_end s marker start line_start ≡ some (a, b)
    → (a ≡ start) × (line_start < b)
unfolding span_end
span_end_bounds s marker start line_start a b h = elim (Option-cases (chunk_end s line_start)) [
  | inl e ↦ cc (rw (e, span_end) at h)
  | inr (x, e) ↦
      elim (Bool-cases
        ((leb line_start marker && ltb marker x) && one_command (get_range s line_start x))) [
          | inl f ↦
              let same : some (start, x) ≡ some (a, b) = rw (e, span_end, f) at h in
              let sa : start ≡ a = cc same in
              let sb : x ≡ b = cc same in
              let in_range : line_start < x = ground (arith, f) in (sym sa, omega arith)
          | inr f ↦ cc (rw (e, span_end, f) at h)
        ]
]

-- A span ends behind its start, which is in the text.
pub chunk_span_bounds :
    (s : Text) (marker a b : ℕ)
    → marker < length s
    → chunk_span s marker ≡ some (a, b)
    → (a < b) × (a < length s)
unfolding chunk_span skip_ws_inline
chunk_span_bounds s marker a b k h = elim (Option-cases (feed_loop none 0 (take marker s))) [
  | inl e ↦ cc (rw (e, chunk_span) at h)
  | inr (n, e) ↦
      let line_start = skip_ws_inline s (n + 1) in
      elim (Bool-cases (may_start s line_start)) [
        | inr f ↦ cc (rw (e, chunk_span, f) at h)
        | inl f ↦
            let (x, y) =
              span_end_bounds s marker (with_return s n) line_start a b
                (rw (e, chunk_span, f) at h) in
            let near = feed_loop_bounds none 0 n (take marker s) e (λ b q. absurd (cc q)) in
            let up = ws_loop-le is_inline (n + 1) (drop (n + 1) s) in
            let low : with_return s n ≤ n = ground arith in
            (omega arith, omega (arith, length-take marker s))
      ]
]

length-remove : (s : Text) (a b : ℕ) → a < b → a < length s → length (remove s (a, b)) < length s
length-remove s a b h k =
    omega (arith, length-append (take a s) (drop b s), length-take a s, length-drop b s)

square : (a b : ℕ) → a < b → a * suc a + a < b * suc b
square a b h = grind arith

uninstall_loop_total :
    (n : ℕ) (s : Text) (from : ℕ) (changed : Bool)
    → from ≤ length s
    → length s * suc (length s) + (length s - from) < n
    → (r : Text × Bool) × (uninstall_loop n s from changed ≡ some r)
unfolding uninstall_loop
uninstall_loop_total zero s from changed k h = absurd (omega arith)
uninstall_loop_total (suc n) s from changed k h = elim (Option-cases (find_marker s from)) [
  | inl e ↦ ((s, changed), rw (e, uninstall_loop) refl)
  | inr (m, e) ↦
      let (low, high) = find_marker_bounds s from m k e in
      elim (Option-cases (chunk_span s m)) [
        | inl f ↦
            let (r, g) = uninstall_loop_total n s (m + 1) changed (omega arith) (omega arith) in
            (r, rw (e, uninstall_loop, f) g)
        | inr ((a, b), f) ↦
            let (x, y) = chunk_span_bounds s m a b high f in
            let shorter = length-remove s a b x y in
            let less = square (length (remove s (a, b))) (length s) shorter in
            let (r, g) =
              uninstall_loop_total n (remove s (a, b)) 0 true (omega arith) (omega arith) in
            (r, rw (e, uninstall_loop, f) g)
      ]
]

-- `uninstall` comes to an end on every text, whatever serde_json makes of it: each round either takes
-- a chunk out of the text, or passes a marker that belongs to none.
pub uninstall_total :
    (serde : Serde) (src : Text) → (r : Result Text) × (uninstall serde src ≡ some r)
unfolding uninstall
uninstall_total serde src = elim (Option-cases (serde.from_str src)) [
  | inl e ↦ (err parse, rw (e, uninstall) refl)
  | inr (doc, e) ↦
      let (r, f) =
        uninstall_loop_total (enough_rounds src) src 0 false (omega arith) (omega arith) in
      (finished serde src r, rw (e, uninstall, f) refl)
]
