-- ===== src/Hook/Reader/Took.antt =====
-- What the loop of crates/memgarden-cli/src/transcript.rs has taken, line by line.
use memgarden.Prelude.{
  ℕ, ◌+◌, ◌-◌, ◌≤◌, Bool, true, false, Option, none, some, List, [], ◌∷◌, ◌++◌, map, ◌≡◌, ◌⊎◌, inl,
  inr, refl, sym, ◌∙◌, ap, arith, ltb, Bool-cases, Option-cases,
}
use mathlib.Core.List.{append_assoc, append-nil}
use memgarden.Prelude.Lists.{length, length-append, All, All-append}
use memgarden.Prelude.Text.{Text, flat}
use memgarden.Prelude.Text.Cut.{flat-append}
use memgarden.Hook.Reader.{Entry, Reading, classify, shrink, push_message, take_line}

module _ {V : Type 0} (parse : Text → Option (Entry V)) (size : V → ℕ) (max_post_bytes : ℕ) where
  -- The messages of lines, the compactions that they count, and the size of messages in an array.
  abbrev pub one : Option V → List V
  one none = []
  one (some v) = v ∷ []

  abbrev pub taken : List Text → List V
  taken [] = []
  taken (l ∷ ls) = one (classify parse l).0 ++ taken ls

  abbrev pub boundaries : List Text → ℕ
  boundaries [] = 0
  boundaries (l ∷ ls) = (classify parse l).1 + boundaries ls

  abbrev pub weight : List V → ℕ
  weight [] = 0
  weight (v ∷ vs) = size v + 1 + weight vs

  abbrev pub values : List (ℕ × V) → List V
  values = map (λ (n, v). v)

  abbrev pub AllSized : List (ℕ × V) → Type 0
  AllSized = All (λ (n, v). n ≡ size v + 1)

  record Shrunk (window : List (ℕ × V)) (truncated : Bool) (r : List (ℕ × V) × ℕ × Bool)
      : Type 0 where
    dropped : List (ℕ × V)
    parts : window ≡ dropped ++ r.0
    sized : AllSized r.0
    total : r.1 ≡ weight (values r.0)
    fits : (r.0 ≡ []) ⊎ (r.1 + 1 ≤ max_post_bytes)
    whole : r.2 ≡ false → (dropped ≡ []) × (truncated ≡ false)

  shrink_lem :
      (window : List (ℕ × V)) (total : ℕ) (truncated : Bool)
      → AllSized window
      → total ≡ weight (values window)
      → Shrunk window truncated (shrink size max_post_bytes window total truncated)
  unfolding shrink
  shrink_lem [] total truncated a t = record {
    dropped = [];
    parts = refl;
    sized = tt;
    total = t;
    fits = inl refl;
    whole = λ h. (refl, h);
  }
  shrink_lem ((n, v) ∷ window) total truncated a t =
      elim (Bool-cases (ltb max_post_bytes (total + 1))) [
        | inl e ↦
            let less : total - n ≡ weight (values window) = omega (arith, t, a.0) in
            let s = shrink_lem window (total - n) true a.1 less in
            rw e (record {
              dropped = (n, v) ∷ s.dropped;
              parts = ap (λ r. (n, v) ∷ r) s.parts;
              sized = s.sized;
              total = s.total;
              fits = s.fits;
              whole = λ h. cc ((s.whole h).1);
            })
        | inr e ↦ rw e (record {
          dropped = [];
          parts = refl;
          sized = a;
          total = t;
          fits = inr (ground arith);
          whole = λ h. (refl, h);
        })
      ]

  -- The lines that a reading has taken, and the leading messages that it has dropped.
  pub record Took (from : ℕ) (ls : List Text) (r : Reading V) : Type 0 where
    pub consumed : r.consumed_to ≡ from + length (flat ls)
    pub counted : r.compactions ≡ boundaries ls
    pub dropped : List V
    pub messages : taken ls ≡ dropped ++ values r.window
    pub whole : r.truncated ≡ false → dropped ≡ []
    pub sized : AllSized r.window
    pub total : r.total ≡ weight (values r.window)
    pub fits : (r.window ≡ []) ⊎ (r.total + 1 ≤ max_post_bytes)

  values-append : (xs ys : List (ℕ × V)) → values (xs ++ ys) ≡ values xs ++ values ys
  values-append [] ys = refl
  values-append (x ∷ xs) ys = ap (λ r. x.1 ∷ r) (values-append xs ys)

  weight-snoc :
      (xs : List (ℕ × V)) (v : V)
      → weight (values (xs ++ (size v + 1, v) ∷ [])) ≡ weight (values xs) + (size v + 1)
  weight-snoc [] v = omega arith
  weight-snoc (x ∷ xs) v = omega (arith, weight-snoc xs v)

  taken-snoc :
      (ls : List Text) (l : Text) → taken (ls ++ l ∷ []) ≡ taken ls ++ one (classify parse l).0
  taken-snoc [] l = append-nil (one (classify parse l).0)
  taken-snoc (m ∷ ls) l =
      ap (λ r. one (classify parse m).0 ++ r) (taken-snoc ls l)
      ∙ sym (append_assoc (one (classify parse m).0) (taken ls) (one (classify parse l).0))

  boundaries-snoc :
      (ls : List Text) (l : Text) → boundaries (ls ++ l ∷ []) ≡ boundaries ls + (classify parse l).1
  boundaries-snoc [] l = omega arith
  boundaries-snoc (m ∷ ls) l = omega (arith, boundaries-snoc ls l)

  length-flat_snoc :
      (ls : List Text) (l : Text) → length (flat (ls ++ l ∷ [])) ≡ length (flat ls) + length l
  unfolding flat
  length-flat_snoc ls l = rw (flat-append ls (l ∷ []), append-nil l) (length-append (flat ls) l)

  regroup :
      (d : List V) (w sd left : List (ℕ × V)) (n : ℕ) (v : V)
      → w ++ (n, v) ∷ [] ≡ sd ++ left
      → (d ++ values w) ++ v ∷ [] ≡ (d ++ values sd) ++ values left
  regroup d w sd left n v e =
      append_assoc d (values w) (v ∷ [])
      ∙ ap (λ r. d ++ r) (sym (values-append w ((n, v) ∷ [])) ∙ ap values e ∙ values-append sd left)
      ∙ sym (append_assoc d (values sd) (values left))

  -- The messages after one more is pushed, in a reading whose other fields have taken its line.
  Took-push :
      (from : ℕ) (ls : List Text) (l : Text) (v : V) (r : Reading V)
      → Took from ls r
      → (classify parse l).0 ≡ some v
      → Took from (ls ++ l ∷ []) (
          push_message size max_post_bytes v (record r {
            consumed_to = r.consumed_to + length l;
            compactions = r.compactions + (classify parse l).1;
          }))
  unfolding push_message
  Took-push from ls l v r t e =
      let s =
        shrink_lem (r.window ++ (size v + 1, v) ∷ []) (r.total + (size v + 1)) r.truncated
          (All-append _ r.window ((size v + 1, v) ∷ []) t.sized (refl, tt))
          (omega (arith, t.total, weight-snoc r.window v)) in
      record {
        consumed = omega (arith, t.consumed, length-flat_snoc ls l);
        counted = omega (arith, t.counted, boundaries-snoc ls l);
        dropped = t.dropped ++ values s.dropped;
        messages =
            taken-snoc ls l
            ∙ rw (e, t.messages) (regroup t.dropped r.window s.dropped _ (size v + 1) v s.parts);
        whole = λ h. let w = s.whole h in rw (t.whole w.1, w.0) refl;
        sized = s.sized;
        total = s.total;
        fits = s.fits;
      }

  pub Took-line :
      (from : ℕ) (ls : List Text) (l : Text) (r : Reading V)
      → Took from ls r
      → Took from (ls ++ l ∷ []) (take_line parse size max_post_bytes l r)
  unfolding take_line
  Took-line from ls l r t = elim (Option-cases (classify parse l).0) [
    | inl e ↦
        rw (e, take_line)
          (record {
            consumed = omega (arith, t.consumed, length-flat_snoc ls l);
            counted = omega (arith, t.counted, boundaries-snoc ls l);
            dropped = t.dropped;
            messages = taken-snoc ls l ∙ rw (e, append-nil (taken ls)) t.messages;
            whole = t.whole;
            sized = t.sized;
            total = t.total;
            fits = t.fits;
          })
    | inr (v, e) ↦ rw (e, take_line) (Took-push from ls l v r t e)
  ]
