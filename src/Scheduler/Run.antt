-- ===== src/Scheduler/Run.antt =====
-- scheduler.py: `execute_scheduled_run`. The report builder is an argument of it; reporting.py is
-- not modelled, so that its report type and `validate_report` stand beside it as parameters.
pub mod Once
pub mod Kept
use hedge_desk.Prelude.{
  ℕ, String, Bool, true, false, not, ◌||◌, ◌&&◌, Option, none, some, List, [], ◌∷◌, ◌++◌, any, keep,
  Error, value_error, Result, ok, err, checks, ◌>>=◌, ◌>>◌, is_blank, is_empty, str_eq,
  if◌then◌else◌,
}
use hedge_desk.Time.{Moment, DateTime, aware, aware_or, datetime_eq}
use hedge_desk.Digest.{Digest}
use hedge_desk.Scheduler.{
  ScheduledRunRequest, ScheduledRunReceipt, ScheduledRunStatus, complete, failed_closed,
  duplicate_suppressed, is_failed, is_duplicate, is_text, make_receipt,
  validate_scheduled_run_receipt,
}

-- The outcome of `validate_report`.
pub record Publication : Type 0 where
  pub publishable : Bool
  pub reason_codes : List String

-- The code that a run calls: the builder, `validate_report`, and the reading of the report's hash,
-- which is `none` where the report holds no text. Each may raise.
pub record Reporting (Report : Type 0) : Type 0 where
  pub builder : DateTime → Result Report
  pub validate_report : Report → Result Publication
  pub report_sha256 : Report → Option String

-- A receipt that is invalid, or that blocks a second run of a key.
abbrev pub is_invalid : Digest → ScheduledRunReceipt → Bool
is_invalid digest r = not (is_empty (validate_scheduled_run_receipt digest r))

abbrev pub is_run_of : String → ScheduledRunReceipt → Bool
is_run_of key r = str_eq r.idempotency_key key && not (is_duplicate r.status)

valid_recovery : DateTime → List ScheduledRunReceipt → Bool
valid_recovery scheduled (source ∷ []) =
    is_failed source.status && datetime_eq source.scheduled_for scheduled
valid_recovery scheduled _ = false

-- recovery_of is not None and not valid_recovery
blocks_recovery : ScheduledRunRequest → List ScheduledRunReceipt → Bool
unfolding valid_recovery
blocks_recovery request priors = elim request.recovery_of [
  | none ↦ false
  | some source ↦ not (valid_recovery request.scheduled_for (keep (is_run_of source) priors))
]

hash_or : Option String → Result String
hash_or none = err (value_error "finalized report hash is missing")
hash_or (some h) = ok h

module _ {Report : Type 0} (digest : Digest) (reporting : Reporting Report) where
  failed : ScheduledRunRequest → List String → ScheduledRunReceipt
  unfolding make_receipt
  failed request codes = make_receipt digest request failed_closed codes none

  -- The body of the try statement.
  evaluated : ScheduledRunRequest → Result ScheduledRunReceipt
  unfolding failed hash_or make_receipt
  evaluated request = do
    report ← reporting.builder request.scheduled_for
    publication ← reporting.validate_report report
    if publication.publishable
        then (hash_or (reporting.report_sha256 report) >>= λ hash.
            ok (make_receipt digest request complete [] (some hash)))
        else ok (failed request publication.reason_codes)

  -- except Exception
  or_exception : ScheduledRunRequest → Result ScheduledRunReceipt → ScheduledRunReceipt
  unfolding failed
  or_exception request (ok r) = r
  or_exception request (err e) = failed request ("EVALUATION_EXCEPTION" ∷ [])

  -- The receipt for a request, by the four tests in their order.
  receipt_by : ScheduledRunRequest → Bool → Bool → Bool → Bool → ScheduledRunReceipt
  unfolding failed make_receipt evaluated or_exception
  receipt_by request invalid duplicate blocked not_paper =
      if invalid
      then failed request ("PRIOR_RECEIPT_INVALID" ∷ [])
      else if duplicate
      then make_receipt digest request duplicate_suppressed ("DUPLICATE_RUN_SUPPRESSED" ∷ []) none
      else if blocked
      then failed request ("INVALID_RECOVERY_REQUEST" ∷ [])
      else if not_paper
      then failed request ("PAPER_ONLY_VIOLATION" ∷ [])
      else or_exception request (evaluated request)

  -- The receipt that a run appends.
  pub receipt : ScheduledRunRequest → List ScheduledRunReceipt → ScheduledRunReceipt
  unfolding receipt_by blocks_recovery
  receipt request priors =
      receipt_by request (any (is_invalid digest) priors)
        (any (is_run_of request.idempotency_key) priors) (blocks_recovery request priors)
        (not (str_eq request.environment "paper"))

  unfoldable pub execute_scheduled_run :
      ScheduledRunRequest → List ScheduledRunReceipt → Result (List ScheduledRunReceipt)
  unfolding receipt checks aware_or
  execute_scheduled_run request priors = do
    checks (
        (is_blank request.idempotency_key, value_error "scheduled run idempotency key is required")
        ∷ [])
    _ ←
        aware_or request.scheduled_for
          (value_error "scheduled run timestamp must be timezone-aware")
    checks (
        (
          is_text request.recovery_of request.idempotency_key,
          value_error "a recovery run requires a distinct idempotency key",
        )
        ∷ [])
    ok (priors ++ receipt request priors ∷ [])

  -- The journal after a run; a request that raises leaves it.
  or_kept : List ScheduledRunReceipt → Result (List ScheduledRunReceipt) → List ScheduledRunReceipt
  or_kept journal (ok next) = next
  or_kept journal (err e) = journal

  -- The journal after a sequence of requests.
  unfoldable pub run_all :
      List ScheduledRunRequest → List ScheduledRunReceipt → List ScheduledRunReceipt
  unfolding execute_scheduled_run or_kept
  run_all [] journal = journal
  run_all (request ∷ later) journal =
      run_all later (or_kept journal (execute_scheduled_run request journal))
