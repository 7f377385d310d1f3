-- ===== src/Consolidate/Plan.antt =====
-- crates/memgardend/src/consolidate/round.rs: the plan of a batch, and `validate`.
pub mod Sound
pub mod Accepted
use memgarden.Prelude.{
  ℕ, suc, ◌+◌, Bool, true, false, not, ◌&&◌, ◌||◌, Option, none, some, List, [], ◌∷◌, ltb,
  if◌then◌else◌, coalesce,
}
use memgarden.Prelude.Lists.{length}
use memgarden.Prelude.Text.{Text, same_text, trim, is_blank}
use memgarden.Consolidate.Runs.{FactRow}

pub record RawCreate : Type 0 where
  pub text : Text
  pub source_fact_ids : List Text
  pub reason : Text

pub record RawUpdate : Type 0 where
  pub observation_id : Text
  pub text : Text
  pub source_fact_ids : List Text
  pub reason : Text

pub record RawDelete : Type 0 where
  pub observation_id : Text
  pub reason : Text

pub record RawPlan : Type 0 where
  pub creates : List RawCreate
  pub updates : List RawUpdate
  pub deletes : List RawDelete

pub record Plan : Type 0 where
  pub creates : List (Text × List ℕ)
  pub updates : List (Text × Text × List ℕ)
  pub deletes : List Text

abbrev pub max_deletes_per_plan : ℕ
max_deletes_per_plan = 2

-- `facts.get(u)` of the map from the uuids to the ids: of equal keys the last one counts.
unfoldable pub get_fact : Text → List FactRow → Option ℕ
get_fact u [] = none
get_fact u (f ∷ fs) = coalesce (get_fact u fs) (if same_text f.uuid u then some f.id else none)

abbrev pub holds_text : Text → List Text → Bool
holds_text t [] = false
holds_text t (u ∷ us) = same_text u t || holds_text t us

-- Two updates of one observation; `seen` are the observations of the updates before.
unfoldable pub has_twice : List Text → List RawUpdate → Bool
has_twice seen [] = false
has_twice seen (u ∷ us) = holds_text u.observation_id seen || has_twice (u.observation_id ∷ seen) us

abbrev pub consed : Option ℕ → Option (List ℕ) → Option (List ℕ)
consed (some i) (some is) = some (i ∷ is)
consed (some i) none = none
consed none is = none

-- `collect` into an option.
unfoldable pub all_facts : List FactRow → List Text → Option (List ℕ)
unfolding get_fact
all_facts facts [] = some []
all_facts facts (u ∷ us) = consed (get_fact u facts) (all_facts facts us)

unfoldable pub resolve : List FactRow → List Text → Option (List ℕ)
unfolding all_facts
resolve facts [] = none
resolve facts (u ∷ us) = all_facts facts (u ∷ us)

unfoldable pub keep_creates : List FactRow → List RawCreate → List (Text × List ℕ)
unfolding resolve
keep_creates facts [] = []
keep_creates facts (c ∷ cs) =
    let rest = keep_creates facts cs in
    if is_blank c.reason || is_blank c.text then rest else elim (resolve facts c.source_fact_ids) [
      | none ↦ rest
      | some sources ↦ (trim c.text, sources) ∷ rest
    ]

unfoldable pub keep_updates :
    List FactRow → List Text → List RawUpdate → List (Text × Text × List ℕ)
unfolding resolve
keep_updates facts pooled [] = []
keep_updates facts pooled (u ∷ us) =
    let rest = keep_updates facts pooled us in
    if (is_blank u.reason || is_blank u.text) || not (holds_text u.observation_id pooled)
    then rest
    else elim (resolve facts u.source_fact_ids) [
      | none ↦ rest
      | some sources ↦ (u.observation_id, trim u.text, sources) ∷ rest
    ]

abbrev pub targets : List (Text × Text × List ℕ) → List Text
targets [] = []
targets ((u, t, sources) ∷ us) = u ∷ targets us

unfoldable pub keep_deletes : List Text → List Text → List RawDelete → List Text
keep_deletes pooled updated [] = []
keep_deletes pooled updated (d ∷ ds) =
    let rest = keep_deletes pooled updated ds in
    if is_blank d.reason
      || (not (holds_text d.observation_id pooled) || holds_text d.observation_id updated)
    then rest
    else d.observation_id ∷ rest

-- The plan that is left of a reply, or none where the reply is rejected; `pooled` are the uuids of
-- the observations that the prompt has shown.
unfoldable pub validate : RawPlan → List FactRow → List Text → Option Plan
unfolding has_twice keep_creates keep_updates keep_deletes
validate raw facts pooled =
    let updates = keep_updates facts pooled raw.updates in
    if has_twice [] raw.updates
    then none
    else if ltb max_deletes_per_plan (length raw.deletes)
    then none
    else some (record {
      creates = keep_creates facts raw.creates;
      updates = updates;
      deletes = keep_deletes pooled (targets updates) raw.deletes;
    })
