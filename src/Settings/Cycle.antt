-- ===== src/Settings/Cycle.antt =====
-- `uninstall` after `install`, crates/memgarden-cli/src/settings.rs.
use memgarden.Prelude.{
  ℕ, suc, ◌+◌, ◌-◌, ◌*◌, ◌≤◌, ◌<◌, Bool, true, false, none, some, [], ◌∷◌, ◌++◌, ◌≡◌, ◌∙◌, refl,
  sym, ap, subst, arith, ◌==◌,
}
use memgarden.Prelude.Lists.{length, length-append}
use memgarden.Prelude.Text.{Text}
use memgarden.Settings.Scan.Find.{values}
use memgarden.Settings.Tree.{
  Value, Members, object, layout, IsWhite, IsValue, IsMembers, is_spelling,
}
use memgarden.Settings.Entry.{entries, Result, ok, err}
use memgarden.Settings.View.{Serde, has_code, wired_events}
use memgarden.Settings.Install.{insertion, splice}
use memgarden.Settings.Install.Splice.{lead, splice_lem}
use memgarden.Settings.Install.Added.{hooks_key, PlainKeys}
use memgarden.Settings.Install.Refines.{file_of, Implements}
use memgarden.Settings.Install.Total.{insertion-Implements}
use memgarden.Settings.Uninstall.{
  find_marker, chunk_span, commands, remove, uninstall_loop, enough_rounds, finished, uninstall,
  is_event,
}
use memgarden.Settings.Uninstall.Body.{Spot}
use memgarden.Settings.Uninstall.Restores.{IsChunk, chunk_span-splice}
use memgarden.Settings.Uninstall.Chunks.{Body-IsChunk}

module _ (s : Text) (at : ℕ) (chunk : Text) (spot : Spot s at chunk)
    (one_line : has_code 10 chunk ≡ false) (once : commands chunk ≡ 1) where
  spot-IsChunk : IsChunk chunk spot.rest
  spot-IsChunk =
      subst (λ t. IsChunk t spot.rest) (sym spot.parts)
        (Body-IsChunk spot.comma_text spot.rest spot.ends spot.body spot.shape
          (rw spot.parts at one_line) (rw spot.parts at once))

  not_return : (spot.open_byte == 13) ≡ false
  not_return = ground (arith, spot.opening)

  span_at_marker :
      (k : ℕ)
      → k < length chunk
      → (span : ℕ × ℕ) × (chunk_span (splice s (at, chunk)) (at + length (lead s at) + k)
          ≡ some span)
        × (remove (splice s (at, chunk)) span ≡ s)
  span_at_marker k less = rw spot.place (
      chunk_span-splice s spot.before spot.rest spot.open_byte chunk spot.text not_return
        spot-IsChunk k less)

  spliced_long : 1 ≤ length (splice s (at, chunk))
  spliced_long =
      let e = ap length (
        ap (λ n. splice s (n, chunk)) spot.place
        ∙ splice_lem s spot.before spot.rest spot.open_byte (length spot.before + 1) chunk spot.text
            refl) in
      omega (
        arith,
        e,
        length-append spot.before
            (spot.open_byte ∷ (lead s (length spot.before + 1) ++ (chunk ++ spot.rest))),
      )

  loop-splice :
      (k n : ℕ) (b : Bool)
      → k < length chunk
      → find_marker (splice s (at, chunk)) 0 ≡ some (at + length (lead s at) + k)
      → find_marker s 0 ≡ none
      → uninstall_loop (suc (suc n)) (splice s (at, chunk)) 0 b ≡ some (s, true)
  unfolding uninstall_loop
  loop-splice k n b less found unmarked =
      let (span, f, g) = span_at_marker k less in
      let done : uninstall_loop (suc n) s 0 true ≡ some (s, true) =
        rw (unmarked, uninstall_loop) refl in
      rw (found, uninstall_loop, f) (ap (λ t. uninstall_loop (suc n) t 0 true) g ∙ done)

  uninstall-splice :
      (serde : Serde) (k : ℕ) (doc d : Value)
      → k < length chunk
      → find_marker (splice s (at, chunk)) 0 ≡ some (at + length (lead s at) + k)
      → find_marker s 0 ≡ none
      → serde.from_str (splice s (at, chunk)) ≡ some doc
      → serde.from_str s ≡ some d
      → wired_events serde d ≡ []
      → uninstall serde (splice s (at, chunk)) ≡ some (ok s)
  unfolding uninstall finished
  uninstall-splice serde k doc d less found unmarked parses parses_s unwired =
      let t = splice s (at, chunk) in
      let n = length t * suc (length t) + length t - 1 in
      let fuel : enough_rounds t ≡ suc (suc n) = omega (arith, spliced_long) in
      let loop : uninstall_loop (enough_rounds t) t 0 false ≡ some (s, true) =
        ap (λ r. uninstall_loop r t 0 false) fuel ∙ loop-splice k n false less found unmarked in
      rw (parses, uninstall, loop, parses_s, unwired) refl

module _ (serde : Serde) (event : Text) (w0 w1 : Text) (ms : Members) (white : IsWhite w0)
    (good : IsMembers ms) (plain : PlainKeys ms)
    (plain_hooks : (hs : Members) → values hooks_key ms ≡ object hs ∷ [] → PlainKeys hs)
    (spelled : is_spelling false event ≡ true) (ours : is_event event entries ≡ true) (gs : Members)
    (good_group : IsValue (object gs)) where
  Spot-of :
      (r : Result (ℕ × Text)) (at : ℕ) (chunk : Text)
      → Implements event (object gs) w0 w1 ms r
      → r ≡ ok (at, chunk)
      → Spot (file_of w0 w1 ms) at chunk
  Spot-of (err x) at chunk h e = absurd (cc e)
  Spot-of (ok (a, c)) at chunk (w, hw, more, added, kept, text, spot) e =
      let p : a ≡ at = cc e in
      let q : c ≡ chunk = cc e in
      subst (λ n. Spot (file_of w0 w1 ms) n chunk) p
        (subst (λ t. Spot (file_of w0 w1 ms) a t) q spot)

  -- `uninstall` gives back, byte for byte, the file into which `install` has spliced one event's group,
  -- whichever of the three shapes the splice had, and whatever the file's layout and line endings. (The
  -- chunk is one line with one command in it, the first marker of the new file is in the chunk, and the
  -- file had no marker and no event of ours before.)
  pub uninstall-insertion :
      (at : ℕ) (chunk : Text) (k : ℕ) (doc d : Value)
      → insertion serde (file_of w0 w1 ms) (object ms) event (layout (object gs)) ≡ ok (at, chunk)
      → has_code 10 chunk ≡ false
      → commands chunk ≡ 1
      → k < length chunk
      → find_marker (splice (file_of w0 w1 ms) (at, chunk)) 0
        ≡ some (at + length (lead (file_of w0 w1 ms) at) + k)
      → find_marker (file_of w0 w1 ms) 0 ≡ none
      → serde.from_str (splice (file_of w0 w1 ms) (at, chunk)) ≡ some doc
      → serde.from_str (file_of w0 w1 ms) ≡ some d
      → wired_events serde d ≡ []
      → uninstall serde (splice (file_of w0 w1 ms) (at, chunk)) ≡ some (ok (file_of w0 w1 ms))
  uninstall-insertion at chunk k doc d inserted_text one_line once less found unmarked parses
        parses_s unwired =
      let implements =
        insertion-Implements serde event (object gs) w0 w1 ms white good plain plain_hooks spelled
          good_group gs refl ours in
      let spot = Spot-of _ at chunk implements inserted_text in
      uninstall-splice (file_of w0 w1 ms) at chunk spot one_line once serde k doc d less found
        unmarked parses parses_s unwired
