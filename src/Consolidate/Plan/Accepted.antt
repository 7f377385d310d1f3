-- ===== src/Consolidate/Plan/Accepted.antt =====
-- `validate` of crates/memgardend/src/consolidate/round.rs: the deletes, and the plan as a whole.
use memgarden.Prelude.{
  ◌≤◌, true, false, not, ◌||◌, some, List, [], ◌∷◌, ◌≡◌, subst, inl, inr, arith, ltb, Bool-cases,
  or-false, not-false,
}
use memgarden.Prelude.Lists.{length, All}
use memgarden.Prelude.Text.{Text, is_blank}
use memgarden.Consolidate.Runs.{FactRow}
use memgarden.Consolidate.Plan.{
  RawDelete, RawPlan, Plan, max_deletes_per_plan, holds_text, has_twice, keep_creates, keep_updates,
  targets, keep_deletes, validate,
}
use memgarden.Consolidate.Plan.Sound.{
  Sourced, Updates, Different, keep_creates-Sourced, keep_updates-Updates, keep_updates-Different,
}

length-keep_deletes :
    (pooled updated : List Text) (ds : List RawDelete)
    → length (keep_deletes pooled updated ds) ≤ length ds
unfolding keep_deletes
length-keep_deletes pooled updated [] = omega arith
length-keep_deletes pooled updated (d ∷ ds) = ground (arith, length-keep_deletes pooled updated ds)

abbrev Deletes : List Text → List Text → Text → Type 0
Deletes pooled updated d = (holds_text d pooled ≡ true) × (holds_text d updated ≡ false)

keep_deletes-Deletes :
    (pooled updated : List Text) (ds : List RawDelete)
    → All (Deletes pooled updated) (keep_deletes pooled updated ds)
unfolding keep_deletes
keep_deletes-Deletes pooled updated [] = tt
keep_deletes-Deletes pooled updated (d ∷ ds) =
    let unpooled = not (holds_text d.observation_id pooled) in
    let hit = holds_text d.observation_id updated in
    elim (Bool-cases (is_blank d.reason || (unpooled || hit))) [
      | inl e ↦ rw e (keep_deletes-Deletes pooled updated ds)
      | inr e ↦
          let (free, kept) =
            or-false unpooled hit (or-false (is_blank d.reason) (unpooled || hit) e).1 in
          rw e (
            (not-false (holds_text d.observation_id pooled) free, kept),
            keep_deletes-Deletes pooled updated ds,
          )
    ]

-- What an accepted plan can do: each new or changed text rests on facts of the batch, one at least;
-- only observations that the prompt has shown are changed or deleted, each changed at most once, none
-- both; and at most two are deleted.
pub record IsSound (facts : List FactRow) (pooled : List Text) (plan : Plan) : Type 0 where
  pub creates : All (λ c. Sourced facts c.1) plan.creates
  pub updates : All (Updates facts pooled) plan.updates
  pub once : Different (targets plan.updates)
  pub deletes : All (Deletes pooled (targets plan.updates)) plan.deletes
  pub few : length plan.deletes ≤ max_deletes_per_plan

-- Whatever the model replies, a plan that `validate` accepts is sound: each text that it creates or
-- changes cites facts of the batch, one at least; it changes and deletes only observations that the
-- prompt has shown, changes none twice, none that it deletes, and deletes at most two.
pub validate-IsSound :
    (raw : RawPlan) (facts : List FactRow) (pooled : List Text) (plan : Plan)
    → validate raw facts pooled ≡ some plan
    → IsSound facts pooled plan
unfolding validate
validate-IsSound raw facts pooled plan e = elim (Bool-cases (has_twice [] raw.updates)) [
  | inl twice ↦ absurd (cc (rw twice at e))
  | inr once ↦ elim (Bool-cases (ltb max_deletes_per_plan (length raw.deletes))) [
    | inl many ↦ absurd (cc (rw (once, many) at e))
    | inr few ↦
        let updates = keep_updates facts pooled raw.updates in
        let kept : Plan = record {
          creates = keep_creates facts raw.creates;
          updates = updates;
          deletes = keep_deletes pooled (targets updates) raw.deletes;
        } in
        let same : some kept ≡ some plan = rw (once, few) at e in
        let same_plan : kept ≡ plan = cc same in
        let bound = length-keep_deletes pooled (targets updates) raw.deletes in
        subst (IsSound facts pooled) same_plan (record {
          creates = keep_creates-Sourced facts raw.creates;
          updates = keep_updates-Updates facts pooled raw.updates;
          once = keep_updates-Different facts pooled [] raw.updates once;
          deletes = keep_deletes-Deletes pooled (targets updates) raw.deletes;
          few = ground (arith, few, bound);
        })
  ]
]
