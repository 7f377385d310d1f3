-- ===== src/Jobs/Status.antt =====
-- crates/memgarden-store/src/retain_jobs.rs: `JobStatus` and the column that holds it.
use memgarden.Prelude.{
  String, Bool, true, false, not, ◌||◌, Option, none, some, ◌≡◌, ◌↔◌, ◌⊎◌, inl, inr, Bool-cases,
  refl, arith, eq_iff, str_eq, if◌then◌else◌,
}

pub data JobStatus : Type 0 where
  pending running done partial failed : JobStatus

unfoldable pub as_str : JobStatus → String
as_str pending = "pending"
as_str running = "running"
as_str done = "done"
as_str partial = "partial"
as_str failed = "failed"

unfoldable pub parse : String → Option JobStatus
parse s =
    if str_eq s "pending"
    then some pending
    else if str_eq s "running"
    then some running
    else if str_eq s "done"
    then some done
    else if str_eq s "partial"
    then some partial
    else if str_eq s "failed"
    then some failed
    else none

unfoldable pub is_terminal : JobStatus → Bool
is_terminal done = true
is_terminal partial = true
is_terminal failed = true
is_terminal _ = false

-- `?1 IN ('done','partial','failed')`
unfoldable pub is_settled : String → Bool
is_settled s = str_eq s "done" || (str_eq s "partial" || str_eq s "failed")

-- `status IN ('pending','running')`
unfoldable pub is_unfinished : String → Bool
is_unfinished s = str_eq s "pending" || str_eq s "running"

parse-as_str : (j : JobStatus) → parse (as_str j) ≡ some j
unfolding parse as_str
parse-as_str pending = refl
parse-as_str running = refl
parse-as_str done = refl
parse-as_str partial = refl
parse-as_str failed = refl

as_str-parse : (s : String) (j : JobStatus) → parse s ≡ some j → s ≡ as_str j
unfolding parse as_str
as_str-parse s j h = ground (
  arith,
  eq_iff s "pending",
  eq_iff s "running",
  eq_iff s "done",
  eq_iff s "partial",
  eq_iff s "failed",
)

-- The column and the type carry the same thing: a text parses to a status exactly when it is the
-- text that the status is written as.
pub parse_iff : (s : String) (j : JobStatus) → (parse s ≡ some j) ↔ (s ≡ as_str j)
parse_iff s j = (as_str-parse s j, λ e. rw e (parse-as_str j))

-- The two lists of strings in the SQL agree with the method that asks the type, for every status,
-- `partial` included.
pub is_settled-as_str :
    (j : JobStatus)
    → (is_settled (as_str j) ≡ is_terminal j) × (is_unfinished (as_str j) ≡ not (is_terminal j))
unfolding is_settled is_unfinished as_str is_terminal
is_settled-as_str pending = (refl, refl)
is_settled-as_str running = (refl, refl)
is_settled-as_str done = (refl, refl)
is_settled-as_str partial = (refl, refl)
is_settled-as_str failed = (refl, refl)

pub not_unfinished-failed : is_unfinished (as_str failed) ≡ false
unfolding is_unfinished as_str
not_unfinished-failed = refl

settled_cases :
    (s : String)
    → is_settled s ≡ true
    → (str_eq s "done" ≡ true) ⊎ ((str_eq s "partial" ≡ true) ⊎ (str_eq s "failed" ≡ true))
unfolding is_settled
settled_cases s h = elim (Bool-cases (str_eq s "done")) [
  | inl e ↦ inl e
  | inr e ↦ elim (Bool-cases (str_eq s "partial")) [
    | inl f ↦ inr (inl f)
    | inr f ↦ inr (inr (rw (e, f) at h))
  ]
]

pub not_unfinished_settled : (s : String) → is_settled s ≡ true → is_unfinished s ≡ false
unfolding is_unfinished
not_unfinished_settled s h = elim (settled_cases s h) [
  | inl e ↦ rw ((eq_iff s "done").0 e)
  | inr (inl e) ↦ rw ((eq_iff s "partial").0 e)
  | inr (inr e) ↦ rw ((eq_iff s "failed").0 e)
]
