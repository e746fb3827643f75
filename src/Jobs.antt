-- ===== src/Jobs.antt =====
-- jobs.py: the contract of a durable research job.
pub mod Sound
use hedge_desk.Prelude.{
  ℕ, String, Bool, true, false, not, ◌||◌, ◌&&◌, List, [], ◌∷◌, ◌++◌, Option, none, some, any, map,
  Result, ok, ◌>>=◌, flags, canonical, is_blank, is_empty, has_double, lower_eq,
}
use hedge_desk.Time.{DateTime, naive, aware, datetime_gt}
use hedge_desk.Json.{Json}
use hedge_desk.Dict.{Dict}

pub data JobStatus : Type 0 where
  queued running completed failed cancelled blocked : JobStatus

pub record ResearchJob : Type 0 where
  pub job_id : String
  pub job_type : String
  pub requested_by : String
  pub created_at : DateTime
  pub started_at : Option DateTime
  pub completed_at : Option DateTime
  pub status : JobStatus
  pub input_dataset_ids : List String
  pub input_parameters : Dict Json
  pub code_version : String
  pub model_version : Option String
  pub output_dataset_ids : List String
  pub logs : List String
  pub error_state : Option String

abbrev pub has_no_zone : DateTime → Bool
has_no_zone (naive t) = true
has_no_zone (aware m) = false

-- job.started_at and job.started_at.tzinfo is None
abbrev pub present_unzoned : Option DateTime → Bool
present_unzoned none = false
present_unzoned (some t) = has_no_zone t

abbrev pub is_absent_time : Option DateTime → Bool
is_absent_time none = true
is_absent_time (some t) = false

-- not job.error_state
abbrev pub is_absent_text : Option String → Bool
is_absent_text none = true
is_absent_text (some s) = is_blank s

-- first and first < second, where a mix of zones raises TypeError
unfoldable pub present_before : Option DateTime → DateTime → Result Bool
present_before none second = ok false
present_before (some first) second = datetime_gt second first

-- job.started_at and job.completed_at and job.completed_at < job.started_at
unfoldable pub both_backward : Option DateTime → Option DateTime → Result Bool
both_backward none completed_at = ok false
both_backward (some started) completed_at = present_before completed_at started

-- status in (RUNNING, COMPLETED)
abbrev pub has_begun : JobStatus → Bool
has_begun running = true
has_begun completed = true
has_begun _ = false

abbrev pub is_completed : JobStatus → Bool
is_completed completed = true
is_completed _ = false

-- status in (FAILED, BLOCKED)
abbrev pub has_error : JobStatus → Bool
has_error failed = true
has_error blocked = true
has_error _ = false

-- status in TERMINAL_JOB_STATES
abbrev pub is_terminal : JobStatus → Bool
is_terminal queued = false
is_terminal running = false
is_terminal _ = true

abbrev pub is_queued : JobStatus → Bool
is_queued queued = true
is_queued _ = false

-- key.lower() in {"secret", "token", "password", "oauth"}
unfoldable pub is_secret_key : String → Bool
unfolding lower_eq
is_secret_key key =
    lower_eq key "secret" || lower_eq key "token" || lower_eq key "password" || lower_eq key "oauth"

unfoldable pub metadata_flags : ResearchJob → List (Bool × String)
metadata_flags job =
    (
      is_blank job.job_id || is_blank job.job_type || is_blank job.requested_by,
      "JOB_IDENTITY_MISSING",
    )
    ∷ (has_double job.input_dataset_ids, "JOB_INPUT_DATASETS_NONCANONICAL")
    ∷ (has_double job.output_dataset_ids, "JOB_OUTPUT_DATASETS_NONCANONICAL")
    ∷ (any is_blank (job.input_dataset_ids ++ job.output_dataset_ids), "JOB_DATASET_ID_MISSING")
    ∷ (is_blank job.code_version, "JOB_CODE_VERSION_MISSING")
    ∷ (
      any (λ (key, value). is_secret_key key) job.input_parameters,
      "JOB_PARAMETERS_CONTAIN_SECRET_FIELD",
    )
    ∷ []

-- `early` is job.started_at < job.created_at, and `backward` job.completed_at < job.started_at.
unfoldable pub job_time_flags :
    DateTime → Option DateTime → Option DateTime → Bool → Bool → List (Bool × String)
job_time_flags created_at started_at completed_at early backward =
    (has_no_zone created_at, "JOB_CREATED_AT_NOT_TIMEZONE_AWARE")
    ∷ (present_unzoned started_at, "JOB_STARTED_AT_NOT_TIMEZONE_AWARE")
    ∷ (present_unzoned completed_at, "JOB_COMPLETED_AT_NOT_TIMEZONE_AWARE")
    ∷ (early, "JOB_STARTED_BEFORE_CREATED")
    ∷ (
      not (is_absent_time completed_at) && is_absent_time started_at,
      "JOB_COMPLETED_WITHOUT_START",
    )
    ∷ (backward, "JOB_COMPLETED_BEFORE_STARTED")
    ∷ []

unfoldable pub status_flags :
    JobStatus
    → Option DateTime
    → Option DateTime
    → List String
    → Option String
    → List (Bool × String)
status_flags status started_at completed_at outputs error_state =
    (has_begun status && is_absent_time started_at, "JOB_START_TIME_MISSING")
    ∷ (
      is_completed status && (is_absent_time completed_at || is_empty outputs),
      "JOB_COMPLETION_OUTPUT_MISSING",
    )
    ∷ (has_error status && is_absent_text error_state, "JOB_ERROR_STATE_MISSING")
    ∷ (is_terminal status && is_absent_time completed_at, "JOB_TERMINAL_TIME_MISSING")
    ∷ (
      is_queued status && (not (is_absent_time started_at) || not (is_absent_time completed_at)),
      "JOB_QUEUED_HAS_EXECUTION_TIMES",
    )
    ∷ []

unfoldable pub job_flags : ResearchJob → Bool → Bool → List (Bool × String)
job_flags job early backward =
    metadata_flags job
    ++ (job_time_flags job.created_at job.started_at job.completed_at early backward
        ++ status_flags job.status job.started_at job.completed_at job.output_dataset_ids
            job.error_state)

-- The codes are sorted at the end, so the order of the tests shows nowhere.
unfoldable pub validate_research_job : ResearchJob → Result (List String)
validate_research_job job = do
  early ← present_before job.started_at job.created_at
  backward ← both_backward job.started_at job.completed_at
  ok (canonical (flags (job_flags job early backward)))
