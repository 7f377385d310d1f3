-- ===== src/Hook/Replies.antt =====
-- crates/memgarden-cli/src/cmd/retain.rs: what a call meets from outside, its `Env`, and how the code
-- reads the daemon's replies. The body of a reply is none where it does not parse.
use memgarden.Prelude.{
  ℕ, String, len, Bool, false, ◌&&◌, ◌||◌, Option, none, some, ◌==◌, ltb, leb, str_eq,
  if◌then◌else◌,
}
use memgarden.Prelude.Text.{Text}

pub record RetainReply : Type 0 where
  pub status : Option String
  pub job_id : Option String

-- `chunks_failed` is an `i64` of which the code asks only whether it is positive.
pub record JobReply : Type 0 where
  pub status : Option String
  pub chunks_failed : ℕ

pub data HttpResult (A : Type 0) : Type 0 where
  response : ℕ → Option A → HttpResult A
  url_error other_error : HttpResult A

-- `super::target`
pub data Target : Type 0 where
  target bad_url no_token : Target

pub record Env : Type 0 where
  pub target_of : Target
  pub job : HttpResult JobReply
  pub first : HttpResult RetainReply
  pub second : HttpResult RetainReply
  -- the length of the transcript, if it is a regular file
  pub size : Option ℕ
  -- the bytes that the reader finds
  pub content : Option Text

pub data JobOutcome : Type 0 where
  job_done : ℕ → JobOutcome
  job_failed unsettled unreachable : JobOutcome

pub data Outcome : Type 0 where
  accepted : String → Outcome
  settled unreconcilable transport not_ready config_fault : Outcome
  rejected : ℕ → Outcome

abbrev pub is_status : String → Option String → Bool
is_status t none = false
is_status t (some s) = str_eq s t

-- `unwrap_or_default`
abbrev pub reply_or_default : Option JobReply → JobReply
reply_or_default none = record { status = none; chunks_failed = 0 }
reply_or_default (some r) = r

unfoldable pub status_outcome : JobReply → JobOutcome
status_outcome r =
    if is_status "done" r.status || is_status "partial" r.status
    then job_done r.chunks_failed
    else if is_status "failed" r.status
    then job_failed
    else unsettled

unfoldable pub job_response : HttpResult JobReply → JobOutcome
unfolding status_outcome
job_response (response status body) =
    if leb 200 status && ltb status 300
    then status_outcome (reply_or_default body)
    else if status == 404
    then job_failed
    else unreachable
job_response url_error = unreachable
job_response other_error = unreachable

unfoldable pub job_status : Env → JobOutcome
unfolding job_response
job_status env = elim env.target_of [
  | target ↦ job_response env.job
  | bad_url ↦ unreachable
  | no_token ↦ unreachable
]

-- `.and_then(|r| r.job_id).filter(|id| !id.is_empty())`
abbrev pub job_id_of : Option RetainReply → Option String
job_id_of none = none
job_id_of (some r) = elim r.job_id [ none ↦ none | some id ↦ if len id == 0 then none else some id ]

abbrev pub status_of : Option RetainReply → Option String
status_of none = none
status_of (some r) = r.status

unfoldable pub classify_response : ℕ → Option RetainReply → Outcome
classify_response status body =
    if status == 202
    then elim (job_id_of body) [ some id ↦ accepted id | none ↦ unreconcilable ]
    else if status == 200
    then (if is_status "duplicate" (status_of body) || is_status "skipped" (status_of body)
        then settled
        else transport)
    else if status == 429
    then transport
    else if status == 503
    then not_ready
    else if leb 400 status && ltb status 500
    then rejected status
    else transport

unfoldable pub classify : HttpResult RetainReply → Outcome
unfolding classify_response
classify (response status body) = classify_response status body
classify url_error = config_fault
classify other_error = transport

abbrev pub is_rejected_404 : Outcome → Bool
is_rejected_404 (rejected n) = n == 404
is_rejected_404 _ = false

-- The post, and the one retry after the bank is created.
unfoldable pub post_delta : Env → Outcome
unfolding classify
post_delta env = elim env.target_of [
  | bad_url ↦ config_fault
  | no_token ↦ transport
  | target ↦
      if is_rejected_404 (classify env.first) then classify env.second else classify env.first
]
