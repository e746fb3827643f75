-- ===== src/Audit.antt =====
-- audit.py: the append-only, tamper-evident chain of audit events.
pub mod Chain
pub mod Append
pub mod Tamper
pub mod Store
use hedge_desk.Prelude.{
  ℕ, suc, ◌+◌, String, Bool, true, false, not, ◌||◌, ◌&&◌, Option, none, some, List, [], ◌∷◌, ◌++◌,
  any, length, Error, value_error, Result, ok, checks, ◌>>=◌, ◌>>◌, is_blank, is_empty, canonical,
  is_canonical, flags, str_eq, if◌then◌else◌, valid_sha256, valid_sha256_or_zero,
}
use hedge_desk.Decimal.{ℤ, pos, int_eq}
use hedge_desk.Time.{Moment, DateTime, naive, aware, aware_or, earlier, datetime_gt}
use hedge_desk.Digest.{Digest, Field, text, texts, integer, moment}

abbrev pub genesis_hash : String
genesis_hash = "0000000000000000000000000000000000000000000000000000000000000000"

pub record AuditEvent : Type 0 where
  pub sequence : ℤ
  pub run_id : String
  pub stage : String
  pub occurred_at : DateTime
  pub artifact_id : String
  pub candidate_id : String
  pub input_sha256 : String
  pub output_sha256 : String
  pub component_version : String
  pub policy_version : String
  pub reason_codes : List String
  pub previous_hash : String
  pub event_hash : String

-- The leaves of the payload of `_event_hash`, by their sorted names.
unfoldable pub event_payload : AuditEvent → List Field
event_payload e =
    text e.artifact_id
    ∷ text e.candidate_id
    ∷ text e.component_version
    ∷ text e.input_sha256
    ∷ moment e.occurred_at
    ∷ text e.output_sha256
    ∷ text e.policy_version
    ∷ text e.previous_hash
    ∷ texts e.reason_codes
    ∷ text e.run_id
    ∷ integer e.sequence
    ∷ text e.stage
    ∷ []

-- not run_id or not stage or ...
abbrev pub incomplete : AuditEvent → Bool
incomplete e =
    is_blank e.run_id
    || is_blank e.stage
    || is_blank e.artifact_id
    || is_blank e.candidate_id
    || is_blank e.component_version
    || is_blank e.policy_version

-- The variables of the loop of `verify_audit_chain`.
pub record Cursor : Type 0 where
  pub expected_sequence : ℕ
  pub expected_previous : String
  pub expected_input : String
  pub prior_time : Option Moment

abbrev pub genesis : Cursor
genesis = record {
  expected_sequence = 1;
  expected_previous = genesis_hash;
  expected_input = genesis_hash;
  prior_time = none;
}

-- event.occurred_at if event.occurred_at.tzinfo is not None else prior_time
abbrev pub time_or : DateTime → Option Moment → Option Moment
time_or (naive t) prior = prior
time_or (aware m) prior = some m

-- The assignments that end a round of the loop.
unfoldable pub advance : Cursor → AuditEvent → Cursor
advance c e = record {
  expected_sequence = suc c.expected_sequence;
  expected_previous = e.event_hash;
  expected_input = e.output_sha256;
  prior_time = time_or e.occurred_at c.prior_time;
}

-- A hash of an event; the first event may have the zero hash where `allow_zero` says so.
abbrev pub bad_hash : String → Bool → Bool
bad_hash value allow_zero =
    not (if allow_zero then valid_sha256_or_zero value else valid_sha256 value)

abbrev pub is_unzoned : DateTime → Bool
is_unzoned (naive t) = true
is_unzoned (aware m) = false

-- prior_time is not None and event.occurred_at < prior_time, on an aware time
abbrev pub out_of_order : DateTime → Option Moment → Bool
out_of_order (naive t) prior = false
out_of_order (aware m) none = false
out_of_order (aware m) (some prior) = earlier m prior

-- One round of the loop of `verify_audit_chain`.
unfoldable pub event_flags : Digest → Cursor → AuditEvent → List (Bool × String)
unfolding valid_sha256 valid_sha256_or_zero is_canonical int_eq event_payload
event_flags digest c e =
    let first = int_eq (pos c.expected_sequence) (pos 1) in
    (not (int_eq e.sequence (pos c.expected_sequence)), "AUDIT_SEQUENCE_INVALID")
    ∷ (not (str_eq e.previous_hash c.expected_previous), "AUDIT_PREVIOUS_HASH_INVALID")
    ∷ (not (str_eq e.input_sha256 c.expected_input), "AUDIT_INPUT_LINEAGE_INVALID")
    ∷ (bad_hash e.input_sha256 first, "AUDIT_INPUT_HASH_INVALID")
    ∷ (bad_hash e.output_sha256 false, "AUDIT_OUTPUT_HASH_INVALID")
    ∷ (bad_hash e.previous_hash first, "AUDIT_PREVIOUS_HASH_INVALID")
    ∷ (bad_hash e.event_hash false, "AUDIT_EVENT_HASH_INVALID")
    ∷ (is_unzoned e.occurred_at, "AUDIT_TIMESTAMP_NOT_TIMEZONE_AWARE")
    ∷ (out_of_order e.occurred_at c.prior_time, "AUDIT_TIME_ORDER_INVALID")
    ∷ (not (is_canonical e.reason_codes), "AUDIT_REASON_CODES_NONCANONICAL")
    ∷ (incomplete e, "AUDIT_METADATA_INCOMPLETE")
    ∷ (not (str_eq e.event_hash (digest (event_payload e))), "AUDIT_EVENT_HASH_INVALID")
    ∷ []

unfoldable pub verify_from : Digest → Cursor → List AuditEvent → List String
unfolding flags event_flags advance
verify_from digest c [] = []
verify_from digest c (e ∷ later) =
    flags (event_flags digest c e) ++ verify_from digest (advance c e) later

-- len({event.run_id for event in chain}) > 1
unfoldable pub several_runs : List AuditEvent → Bool
several_runs [] = false
several_runs (e ∷ later) = any (λ x. not (str_eq x.run_id e.run_id)) later

unfoldable pub verify_audit_chain : Digest → List AuditEvent → List String
unfolding verify_from several_runs flags canonical
verify_audit_chain digest chain =
    canonical (
      flags ((several_runs chain, "AUDIT_RUN_ID_MISMATCH") ∷ [])
      ++ verify_from digest genesis chain)

-- chain[-1] if chain else None
abbrev pub last_of : AuditEvent → List AuditEvent → AuditEvent
last_of e [] = e
last_of e (x ∷ xs) = last_of x xs

-- chain[-1].event_hash if chain else GENESIS_HASH
unfoldable pub head_hash : List AuditEvent → String
head_hash [] = genesis_hash
head_hash (e ∷ later) = (last_of e later).event_hash

-- chain[-1].output_sha256 if chain else GENESIS_HASH
unfoldable pub last_output : List AuditEvent → String
last_output [] = genesis_hash
last_output (e ∷ later) = (last_of e later).output_sha256

-- chain and run_id != chain[-1].run_id
unfoldable pub changes_run : String → List AuditEvent → Bool
changes_run run_id [] = false
changes_run run_id (e ∷ later) = not (str_eq run_id (last_of e later).run_id)

-- chain and occurred_at < chain[-1].occurred_at
unfoldable pub goes_back : DateTime → List AuditEvent → Result Bool
unfolding datetime_gt
goes_back occurred_at [] = ok false
goes_back occurred_at (e ∷ later) = datetime_gt (last_of e later).occurred_at occurred_at

-- The event that `append_audit_event` adds, before its hash is filled in. Its arguments are the
-- fields of an event but those that the function computes.
unfoldable pub next_event : List AuditEvent → AuditEvent → AuditEvent
unfolding canonical head_hash
next_event chain e = record e {
  sequence = pos (length chain + 1);
  reason_codes = canonical e.reason_codes;
  previous_hash = head_hash chain;
}

unfoldable pub hashed_event : Digest → AuditEvent → AuditEvent
unfolding event_payload
hashed_event digest e = record e { event_hash = digest (event_payload e) }

-- The checks of `append_audit_event` before and after the comparison of the times.
unfoldable pub identity_checks : Digest → List AuditEvent → AuditEvent → List (Bool × Error)
unfolding verify_audit_chain changes_run
identity_checks digest chain e =
    (incomplete e, value_error "audit identity, stage, and artifact are required")
    ∷ (
      not (is_empty (verify_audit_chain digest chain)),
      value_error "cannot append to invalid audit chain",
    )
    ∷ (changes_run e.run_id chain, value_error "audit run identity cannot change")
    ∷ []

unfoldable pub content_checks : List AuditEvent → AuditEvent → Bool → List (Bool × Error)
unfolding last_output valid_sha256 valid_sha256_or_zero
content_checks chain e back =
    (back, value_error "audit event time cannot move backward")
    ∷ (
      not (str_eq e.input_sha256 (last_output chain)),
      value_error "audit input must equal prior output",
    )
    ∷ (any is_blank e.reason_codes, value_error "audit reason codes must be nonempty strings")
    ∷ (
      bad_hash e.input_sha256 (is_empty chain) || bad_hash e.output_sha256 false,
      value_error "audit input and output hashes must be valid",
    )
    ∷ []

-- The arguments of `append_audit_event` are the fields of an event; its sequence, previous_hash and
-- event_hash are computed and not read.
unfoldable pub append_audit_event : Digest → List AuditEvent → AuditEvent → Result (List AuditEvent)
unfolding checks aware_or goes_back identity_checks content_checks next_event hashed_event
append_audit_event digest chain e = do
  _ ← aware_or e.occurred_at (value_error "audit timestamp must be timezone-aware")
  checks (identity_checks digest chain e)
  back ← goes_back e.occurred_at chain
  checks (content_checks chain e back)
  ok (chain ++ hashed_event digest (next_event chain e) ∷ [])
