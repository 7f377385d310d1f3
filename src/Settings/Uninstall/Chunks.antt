-- ===== src/Settings/Uninstall/Chunks.antt =====
-- The chunks of crates/memgarden-cli/src/settings.rs are found as a whole by `chunk_span`.
use memgarden.Prelude.{
  ℕ, ◌+◌, true, false, some, [], ◌∷◌, ◌++◌, ◌≡◌, ◌∙◌, refl, sym, ap, subst, arith, inl, inr,
}
use mathlib.Core.List.{append_assoc}
use memgarden.Prelude.Lists.{length, drop, length-append}
use memgarden.Prelude.Text.{Text}
use memgarden.Settings.Scan.{skip_string, skip_value, skip_ws, is_at}
use memgarden.Settings.Scan.Runs.{drop-past, skip_string_lem, skip_ws_lem}
use memgarden.Settings.Scan.Whole.{skip_value_lem, starts_solid-layout, EndsWell}
use memgarden.Settings.Scan.Members.{get_range_lem}
use memgarden.Settings.View.{has_code}
use memgarden.Settings.Tree.{
  Value, Members, text, atom, object, array, layout, quoted, is_spelling, IsValue, IsMembers,
}
use memgarden.Settings.Uninstall.{
  take_comma, end_of, chunk_value, chunk_end, commands, may_start, is_our_key,
}
use memgarden.Settings.Uninstall.Body.{Body, group, wrapper, Comma, IsContainer}
use memgarden.Settings.Uninstall.Restores.{IsChunk}

take_comma_lem :
    (s : Text) (i : ℕ) (k rest : Text)
    → drop i s ≡ k ++ rest
    → Comma k rest
    → take_comma s i ≡ i + length k
take_comma_lem s i k rest e (inl h) =
    let f : drop i s ≡ 44 ∷ rest = e ∙ ap (λ t. t ++ rest) h in rw (f, h) refl
take_comma_lem s i k rest e (inr (h, n)) =
    let f : drop i s ≡ rest = e ∙ ap (λ t. t ++ rest) h in rw (f, n, h) (omega arith)

EndsWell-container : (v : Value) (r : Text) → IsContainer v → EndsWell v r
EndsWell-container (object ms) r h = tt
EndsWell-container (array is) r h = tt
EndsWell-container (text s) r h = absurd h
EndsWell-container (atom c s) r h = absurd h

-- From the value of a chunk to its end.
value_end :
    (s : Text) (i : ℕ) (v : Value) (k rest : Text)
    → IsValue v
    → IsContainer v
    → Comma k rest
    → drop i s ≡ layout v ++ (k ++ rest)
    → end_of s (skip_value s i) ≡ some (i + length (layout v ++ k))
value_end s i v k rest h c m e =
    let scan : skip_value s i ≡ some (i + length (layout v)) =
      skip_value_lem v s i [] (k ++ rest) h (EndsWell-container v (k ++ rest) c) refl e
      ∙ ap (λ n. some (n + length (layout v))) (omega arith) in
    rw scan (
      ap (λ n. some n)
        (take_comma_lem s (i + length (layout v)) k rest (drop-past s i (layout v) (k ++ rest) e) m
          ∙ omega (arith, length-append (layout v) k)))

module _ (k rest : Text) (m : Comma k rest) where
  group-IsChunk :
      (gs : Members)
      → IsMembers gs
      → has_code 10 (layout (object gs) ++ k) ≡ false
      → commands (layout (object gs) ++ k) ≡ 1
      → IsChunk (layout (object gs) ++ k) rest
  unfolding chunk_end chunk_value may_start layout IsValue
  group-IsChunk gs h line one = record {
    begins = refl;
    one_line = line;
    once = one;
    ends = λ s i e.
        let f = e ∙ append_assoc (layout (object gs)) k rest in
        rw (f, chunk_end, chunk_value) (value_end s i (object gs) k rest h tt m f);
    ours = λ s i e. rw (e, may_start) refl;
  }

  abbrev wrapped : Text → Value → Text
  wrapped key v = quoted key ++ 58 ∷ 32 ∷ layout v

  module _ (key : Text) (v : Value) (hk : is_spelling false key ≡ true) (hv : IsValue v)
      (hc : IsContainer v) (s : Text) (i : ℕ) (e : drop i s ≡ (wrapped key v ++ k) ++ rest) where
    wrapped_text : drop i s ≡ quoted key ++ 58 ∷ 32 ∷ (layout v ++ (k ++ rest))
    wrapped_text = e ∙ (simp append_assoc)

    quote_at : is_at 34 (drop i s) ≡ true
    quote_at = rw wrapped_text refl

    key_end_lem : skip_string s i ≡ some (i + length (quoted key))
    key_end_lem = skip_string_lem s i key (58 ∷ 32 ∷ (layout v ++ (k ++ rest))) wrapped_text hk

    wrapper_value : chunk_value s i ≡ some (i + length (quoted key) + 2)
    unfolding chunk_value
    wrapper_value =
        let tail = layout v ++ (k ++ rest) in
        let behind = drop-past s i (quoted key) (58 ∷ 32 ∷ tail) wrapped_text in
        let colon = i + length (quoted key) in
        let at_colon : skip_ws s colon ≡ colon =
          skip_ws_lem s colon [] (58 ∷ 32 ∷ tail) behind refl refl ∙ omega arith in
        let inner = drop-past s colon (58 ∷ []) (32 ∷ tail) behind in
        let at_value : skip_ws s (colon + 1) ≡ colon + 2 =
          skip_ws_lem s (colon + 1) (32 ∷ []) tail inner refl (starts_solid-layout v (k ++ rest) hv)
          ∙ omega arith in
        rw (quote_at, chunk_value, key_end_lem, at_colon, behind, at_value) refl

    wrapper_end : chunk_end s i ≡ some (i + length (wrapped key v ++ k))
    unfolding chunk_end
    wrapper_end =
        let tail = layout v ++ (k ++ rest) in
        let start = i + length (quoted key) + 2 in
        let inner : drop start s ≡ tail =
          ap (λ n. drop n s) (omega arith)
          ∙ drop-past s (i + length (quoted key)) (58 ∷ 32 ∷ []) tail
              (drop-past s i (quoted key) (58 ∷ 32 ∷ tail) wrapped_text) in
        rw (wrapper_value, chunk_end)
          (value_end s start v k rest hv hc m inner
            ∙ ap (λ n. some n)
                (omega (
                  arith,
                  length-append (wrapped key v) k,
                  length-append (quoted key) (58 ∷ 32 ∷ layout v),
                  length-append (layout v) k,
                )))

    wrapper_starts : is_our_key (some key) ≡ true → may_start s i ≡ true
    unfolding may_start
    wrapper_starts ours =
        let range = get_range_lem s i key (58 ∷ 32 ∷ (layout v ++ (k ++ rest))) wrapped_text in
        let not_brace : is_at 123 (drop i s) ≡ false = rw wrapped_text refl in
        rw (not_brace, may_start, quote_at, key_end_lem, range, ours) refl

  pub Body-IsChunk :
      (b : Text)
      → Body b
      → has_code 10 (b ++ k) ≡ false
      → commands (b ++ k) ≡ 1
      → IsChunk (b ++ k) rest
  Body-IsChunk b (group gs h e) line one =
      subst (λ t. IsChunk (t ++ k) rest) (sym e) (group-IsChunk gs h (rw e at line) (rw e at one))
  Body-IsChunk b (wrapper key v ours hk hv hc e) line one =
      subst (λ t. IsChunk (t ++ k) rest) (sym e)
        (record {
          begins = refl;
          one_line = rw e at line;
          once = rw e at one;
          ends = wrapper_end key v hk hv hc;
          ours = λ s i f. wrapper_starts key v hk hv hc s i f ours;
        })
