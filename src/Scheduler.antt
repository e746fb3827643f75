-- ===== src/Scheduler.antt =====
-- scheduler.py: the journal of scheduled paper evaluations.
pub mod Run
use hedge_desk.Prelude.{
  ℕ, String, Bool, true, false, not, ◌||◌, ◌&&◌, Option, none, some, List, [], ◌∷◌, ◌++◌, any, keep,
  Error, value_error, Result, ok, err, checks, ◌>>=◌, ◌>>◌, is_blank, is_empty, canonical,
  is_canonical, flags, str_eq, if◌then◌else◌, valid_sha256,
}
use hedge_desk.Time.{Moment, DateTime, naive, aware, aware_or, datetime_eq}
use hedge_desk.Digest.{Digest, Field, text, texts, moment, absent}

pub data ScheduledRunStatus : Type 0 where
  complete failed_closed duplicate_suppressed : ScheduledRunStatus

pub record ScheduledRunRequest : Type 0 where
  pub idempotency_key : String
  pub scheduled_for : DateTime
  pub environment : String
  pub recovery_of : Option String

pub record ScheduledRunReceipt : Type 0 where
  pub idempotency_key : String
  pub scheduled_for : DateTime
  pub status : ScheduledRunStatus
  pub reason_codes : List String
  pub report_sha256 : Option String
  pub receipt_sha256 : String
  pub scheduler_version : String
  pub recovery_of : Option String

abbrev pub scheduler_version : String
scheduler_version = "paper-scheduler-1.0.0"

-- status.value
abbrev pub run_status_text : ScheduledRunStatus → String
run_status_text complete = "COMPLETE"
run_status_text failed_closed = "FAILED_CLOSED"
run_status_text duplicate_suppressed = "DUPLICATE_SUPPRESSED"

abbrev pub is_complete : ScheduledRunStatus → Bool
is_complete complete = true
is_complete failed_closed = false
is_complete duplicate_suppressed = false

abbrev pub is_failed : ScheduledRunStatus → Bool
is_failed complete = false
is_failed failed_closed = true
is_failed duplicate_suppressed = false

abbrev pub is_duplicate : ScheduledRunStatus → Bool
is_duplicate complete = false
is_duplicate failed_closed = false
is_duplicate duplicate_suppressed = true

abbrev pub is_naive : DateTime → Bool
is_naive (naive t) = true
is_naive (aware m) = false

abbrev optional : Option String → Field
optional none = absent
optional (some s) = text s

-- The leaves of the payload of `_make_receipt`, by their sorted names.
pub receipt_payload : ScheduledRunReceipt → List Field
receipt_payload r =
    text r.idempotency_key
    ∷ texts r.reason_codes
    ∷ optional r.recovery_of
    ∷ optional r.report_sha256
    ∷ moment r.scheduled_for
    ∷ text scheduler_version
    ∷ text (run_status_text r.status)
    ∷ []

-- A receipt before its hash is filled in.
blank_receipt :
    ScheduledRunRequest → ScheduledRunStatus → List String → Option String → ScheduledRunReceipt
unfolding canonical
blank_receipt request status codes report = record {
  idempotency_key = request.idempotency_key;
  scheduled_for = request.scheduled_for;
  status = status;
  reason_codes = canonical codes;
  report_sha256 = report;
  receipt_sha256 = "";
  scheduler_version = scheduler_version;
  recovery_of = request.recovery_of;
}

unfoldable pub make_receipt :
    Digest
    → ScheduledRunRequest
    → ScheduledRunStatus
    → List String
    → Option String
    → ScheduledRunReceipt
unfolding receipt_payload blank_receipt
make_receipt digest request status codes report =
    let r = blank_receipt request status codes report in
    record r { receipt_sha256 = digest (receipt_payload r) }

-- recovery_of is not None and (not recovery_of or recovery_of == key)
abbrev pub bad_recovery : Option String → String → Bool
bad_recovery none key = false
bad_recovery (some source) key = is_blank source || str_eq source key

-- value == text, for a value that may be None
abbrev pub is_text : Option String → String → Bool
is_text none s = false
is_text (some v) s = str_eq v s

abbrev pub valid_report_hash : Option String → Bool
valid_report_hash none = false
valid_report_hash (some v) = valid_sha256 v

abbrev pub is_present : Option String → Bool
is_present none = false
is_present (some v) = true

-- The request that `validate_scheduled_run_receipt` makes its expected receipt from.
abbrev pub request_of : ScheduledRunReceipt → ScheduledRunRequest
request_of r = record {
  idempotency_key = r.idempotency_key;
  scheduled_for = r.scheduled_for;
  environment = "paper";
  recovery_of = r.recovery_of;
}

receipt_flags : Digest → ScheduledRunReceipt → List (Bool × String)
unfolding make_receipt is_canonical valid_sha256
receipt_flags digest r =
    let expected = make_receipt digest (request_of r) r.status r.reason_codes r.report_sha256 in
    (is_blank r.idempotency_key, "SCHEDULER_IDEMPOTENCY_KEY_MISSING")
    ∷ (is_naive r.scheduled_for, "SCHEDULER_TIMESTAMP_NOT_TIMEZONE_AWARE")
    ∷ (bad_recovery r.recovery_of r.idempotency_key, "SCHEDULER_RECOVERY_IDENTITY_INVALID")
    ∷ (not (valid_sha256 r.receipt_sha256), "SCHEDULER_RECEIPT_HASH_INVALID")
    ∷ (not (str_eq r.scheduler_version scheduler_version), "SCHEDULER_VERSION_INVALID")
    ∷ (not (is_canonical r.reason_codes), "SCHEDULER_REASON_CODES_NONCANONICAL")
    ∷ (not (str_eq r.receipt_sha256 expected.receipt_sha256), "SCHEDULER_RECEIPT_HASH_MISMATCH")
    ∷ (
      is_complete r.status
          && (not (is_empty r.reason_codes) || not (valid_report_hash r.report_sha256)),
      "SCHEDULER_COMPLETE_STATE_INVALID",
    )
    ∷ (
      not (is_complete r.status) && is_present r.report_sha256,
      "SCHEDULER_NONCOMPLETE_REPORT_HASH_PRESENT",
    )
    ∷ []

-- The nine codes differ, so that sorting them drops none.
unfoldable pub validate_scheduled_run_receipt : Digest → ScheduledRunReceipt → List String
unfolding receipt_flags flags canonical
validate_scheduled_run_receipt digest r = canonical (flags (receipt_flags digest r))
