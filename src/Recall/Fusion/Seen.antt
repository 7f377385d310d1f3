-- ===== src/Recall/Fusion/Seen.antt =====
-- The order in which the arms first show the documents: crates/memgardend/src/recall/fusion.rs.
use memgarden.Prelude.{
  ℕ, suc, ◌+◌, Bool, false, none, some, List, [], ◌∷◌, ◌≡◌, refl, arith, ◌==◌, if◌then◌else◌, ◌∙◌,
  ap, map,
}
use memgarden.Prelude.Lists.{All, keep_if}
use memgarden.Recall.Float.{Float}
use memgarden.Recall.Fusion.{ArmHit, Merged, bump, add_hit, add_arm, add_arms}
use memgarden.Recall.Fusion.Each.{
  find, Distinct, alone_arms, score_at, score_of, find-add_arms, Distinct-add_arms,
  score-alone_arms,
}

-- The ids in the order in which they are first seen.
abbrev note : List ℕ → ℕ → List ℕ
note [] id = id ∷ []
note (i ∷ ids) id = if i == id then i ∷ ids else i ∷ note ids id

module _ (f : Float) (k : f.F) where
  open f use {F, zero_f}

  -- The ids of the entries whose score satisfies `p`, in the list's order.
  abbrev pub ids_where : (F → Bool) → List (Merged f) → List ℕ
  ids_where p ms = map (λ m. m.id) (keep_if (λ m. p m.rrf_score) ms)

  note-add_hit :
      (arm rank : ℕ) (hit : ArmHit f) (ms : List (Merged f))
      → map (λ m. m.id) (add_hit f k arm rank hit ms) ≡ note (map (λ m. m.id) ms) hit.id
  unfolding add_hit bump
  note-add_hit arm rank hit [] = refl
  note-add_hit arm rank hit (m ∷ ms) = ground (arith, note-add_hit arm rank hit ms)

  abbrev pub note_arm : List ℕ → List (ArmHit f) → List ℕ
  note_arm ids [] = ids
  note_arm ids (hit ∷ hits) = note_arm (note ids hit.id) hits

  abbrev pub first_seen : List ℕ → List (List (ArmHit f)) → List ℕ
  first_seen ids [] = ids
  first_seen ids (hits ∷ arms) = first_seen (note_arm ids hits) arms

  note-add_arm :
      (arm rank0 : ℕ) (hits : List (ArmHit f)) (ms : List (Merged f))
      → map (λ m. m.id) (add_arm f k arm rank0 hits ms) ≡ note_arm (map (λ m. m.id) ms) hits
  unfolding add_arm
  note-add_arm arm rank0 [] ms = refl
  note-add_arm arm rank0 (hit ∷ hits) ms =
      note-add_arm arm (suc rank0) hits (add_hit f k arm (rank0 + 1) hit ms)
      ∙ ap (λ ids. note_arm ids hits) (note-add_hit arm (rank0 + 1) hit ms)

  -- Before the sort the documents stand in the order in which they are first seen, each once.
  pub first_seen-add_arms :
      (arm : ℕ) (arms : List (List (ArmHit f))) (ms : List (Merged f))
      → map (λ m. m.id) (add_arms f k arm arms ms) ≡ first_seen (map (λ m. m.id) ms) arms
  unfolding add_arms
  first_seen-add_arms arm [] ms = refl
  first_seen-add_arms arm (hits ∷ arms) ms =
      first_seen-add_arms (suc arm) arms (add_arm f k arm 0 hits ms)
      ∙ ap (λ ids. first_seen ids arms) (note-add_arm arm 0 hits ms)

  -- Each entry is the one that its own id finds.
  Finds : List (Merged f) → List (Merged f) → Type 0
  Finds ms = All (λ m. find f k m.id ms ≡ some m)

  Finds-behind :
      (m : Merged f) (ms ys : List (Merged f))
      → All (λ y. (y.id == m.id) ≡ false) ys
      → Finds ms ys
      → Finds (m ∷ ms) ys
  unfolding Finds find
  Finds-behind m ms [] o h = tt
  Finds-behind m ms (y ∷ ys) o h = (ground (arith, h.0, o.0), Finds-behind m ms ys o.1 h.1)

  Finds-Distinct : (ms : List (Merged f)) → Distinct f k ms → Finds ms ms
  unfolding Finds find
  Finds-Distinct [] d = tt
  Finds-Distinct (m ∷ ms) d = (ground arith, Finds-behind m ms ms d.0 (Finds-Distinct ms d.1))

  ids_where-scores :
      (p : F → Bool) (score : ℕ → F) (whole ms : List (Merged f))
      → ((id : ℕ) → score_at f k id (find f k id whole) ≡ score id)
      → Finds whole ms
      → ids_where p ms ≡ keep_if (λ id. p (score id)) (map (λ m. m.id) ms)
  unfolding Finds
  ids_where-scores p score whole [] e h = refl
  ids_where-scores p score whole (m ∷ ms) e h =
      let own : m.rrf_score ≡ score m.id = rw h.0 at (e m.id) in
      rw own (ground (arith, ids_where-scores p score whole ms e h.1))

  -- Before the sort, the entries whose score satisfies `p` stand as they are first seen.
  pub ids_where-add_arms :
      (p : F → Bool) (arms : List (List (ArmHit f)))
      → ids_where p (add_arms f k 0 arms [])
        ≡ keep_if (λ id. p (score_of f k id arms zero_f)) (first_seen [] arms)
  ids_where-add_arms p arms =
      let ms = add_arms f k 0 arms [] in
      let score : (id : ℕ) → score_at f k id (find f k id ms) ≡ score_of f k id arms zero_f = λ id.
        let none_yet : find f k id [] ≡ none = unfold find in refl in
        ap (score_at f k id)
          (find-add_arms f k id 0 arms [] ∙ ap (alone_arms f k id 0 arms) none_yet)
        ∙ score-alone_arms f k id 0 arms none in
      ids_where-scores p (λ id. score_of f k id arms zero_f) ms ms score
        (Finds-Distinct ms (Distinct-add_arms f k 0 arms [] tt))
      ∙ ap (keep_if (λ id. p (score_of f k id arms zero_f))) (first_seen-add_arms 0 arms [])
