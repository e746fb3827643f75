-- ===== src/BackOffice/Compliance.antt =====
-- backoffice/compliance.py: the policy artifact and the Back Office decision that embeds it.
pub mod Pass
pub mod Sealed
use hedge_desk.Prelude.{
  ℕ, String, Bool, true, false, not, ◌||◌, ◌&&◌, Option, none, some, List, [], ◌∷◌, ◌++◌, Error,
  value_error, Result, ok, err, ◌>>=◌, ◌>>◌, flags, canonical, is_canonical, is_empty, str_eq,
  if◌then◌else◌,
}
use hedge_desk.Time.{Moment, DateTime, naive, aware, aware_or}
use hedge_desk.Digest.{Digest, Field, text, texts, moment, stamp}
use hedge_desk.Domain.{Account, TradeCandidate}
use hedge_desk.AccountGate.{account_gate, is_defined_risk}
use hedge_desk.BackOffice.Portfolio.{
  PositionExposure, PortfolioPolicy, CircuitBreakerResult, evaluate_portfolio_gate,
}
use hedge_desk.BackOffice.Traceability.{traceability_sha256, reference_requirements}

pub data BackOfficeStatus : Type 0 where
  pass block : BackOfficeStatus

abbrev pub policy_version : String
policy_version = "paper-options-1.0.0"

abbrev pub compliance_version : String
compliance_version = "paper-securities-1.0.0"

-- `options_disclosure_acknowledged_at` is kept as the time whose text the artifact holds.
pub record CompliancePolicyDecision : Type 0 where
  pub candidate_id : String
  pub account_id : String
  pub status : BackOfficeStatus
  pub reason_codes : List String
  pub policy_version : String
  pub evaluated_at : DateTime
  pub environment : String
  pub options_disclosure_version : String
  pub options_disclosure_acknowledged_at : Option Moment
  pub broker_options_policy_version : String
  pub regulatory_traceability_sha256 : String
  pub artifact_sha256 : String

pub record BackOfficeDecision : Type 0 where
  pub candidate_id : String
  pub account_id : String
  pub status : BackOfficeStatus
  pub reason_codes : List String
  pub policy_version : String
  pub portfolio_snapshot_sha256 : String
  pub circuit_breaker_sha256 : String
  pub policy_decision : CompliancePolicyDecision
  pub evaluated_at : DateTime
  pub environment : String

-- status.value
abbrev pub status_text : BackOfficeStatus → String
status_text pass = "pass"
status_text block = "block"

abbrev pub is_pass : BackOfficeStatus → Bool
is_pass pass = true
is_pass block = false

-- BackOfficeStatus.BLOCK if reasons else BackOfficeStatus.PASS
abbrev pub status_of : List String → BackOfficeStatus
status_of [] = pass
status_of (x ∷ xs) = block

-- decision.status is not expected
abbrev pub status_differs : BackOfficeStatus → BackOfficeStatus → Bool
status_differs pass pass = false
status_differs block block = false
status_differs _ _ = true

-- The leaves that `_compliance_artifact_hash` joins, with '|' between them and ',' between the reason
-- codes; the text that is hashed does not keep the leaves apart.
pub artifact_payload : CompliancePolicyDecision → List Field
artifact_payload d =
    text d.candidate_id
    ∷ text d.account_id
    ∷ text (status_text d.status)
    ∷ texts d.reason_codes
    ∷ text d.policy_version
    ∷ moment d.evaluated_at
    ∷ text d.environment
    ∷ text d.options_disclosure_version
    ∷ stamp d.options_disclosure_acknowledged_at
    ∷ text d.broker_options_policy_version
    ∷ text d.regulatory_traceability_sha256
    ∷ []

abbrev pub is_naive : DateTime → Bool
is_naive (naive t) = true
is_naive (aware m) = false

artifact_flags : Digest → String → CompliancePolicyDecision → List (Bool × String)
unfolding artifact_payload is_canonical
artifact_flags digest trace d =
    (not (str_eq d.policy_version compliance_version), "COMPLIANCE_POLICY_VERSION_UNAPPROVED")
    ∷ (is_naive d.evaluated_at, "COMPLIANCE_TIMESTAMP_INVALID")
    ∷ (not (is_canonical d.reason_codes), "COMPLIANCE_REASON_CODES_NONCANONICAL")
    ∷ (status_differs d.status (status_of d.reason_codes), "COMPLIANCE_STATUS_INCONSISTENT")
    ∷ (not (str_eq d.regulatory_traceability_sha256 trace), "REGULATORY_TRACEABILITY_HASH_MISMATCH")
    ∷ (
      not (str_eq d.artifact_sha256 (digest (artifact_payload d))),
      "COMPLIANCE_ARTIFACT_HASH_MISMATCH",
    )
    ∷ []

-- The six codes differ, so that sorting them drops none.
unfoldable pub validate_compliance_policy_artifact :
    Digest → CompliancePolicyDecision → Result (List String)
unfolding artifact_flags flags canonical
validate_compliance_policy_artifact digest d = do
  trace ← traceability_sha256 digest reference_requirements
  ok (canonical (flags (artifact_flags digest trace d)))

-- value or ""
abbrev pub or_empty : Option String → String
or_empty none = ""
or_empty (some s) = s

policy_codes : Account → TradeCandidate → String → List String
unfolding flags
policy_codes account candidate environment =
    account_gate account candidate
    ++ flags (
        (not (str_eq environment "paper"), "PAPER_ONLY_VIOLATION")
        ∷ (not (is_defined_risk candidate.product_type), "PREMIUM_MVP_DEFINED_RISK_OPTIONS_ONLY")
        ∷ [])

policy_reasons : Account → TradeCandidate → String → List String
unfolding policy_codes canonical
policy_reasons account candidate environment =
    canonical (policy_codes account candidate environment)

-- The artifact before its hash is filled in.
unsealed : Account → TradeCandidate → DateTime → String → String → CompliancePolicyDecision
unfolding policy_reasons
unsealed account candidate evaluated_at environment trace =
    let reasons = policy_reasons account candidate environment in
    record {
      candidate_id = candidate.candidate_id;
      account_id = account.account_id;
      status = status_of reasons;
      reason_codes = reasons;
      policy_version = compliance_version;
      evaluated_at = evaluated_at;
      environment = environment;
      options_disclosure_version = or_empty account.options_disclosure_version;
      options_disclosure_acknowledged_at = account.options_disclosure_acknowledged_at;
      broker_options_policy_version = or_empty account.broker_options_policy_version;
      regulatory_traceability_sha256 = trace;
      artifact_sha256 = "";
    }

seal : Digest → CompliancePolicyDecision → CompliancePolicyDecision
unfolding artifact_payload
seal digest d = record d { artifact_sha256 = digest (artifact_payload d) }

unfoldable pub evaluate_compliance_policy :
    Digest → Account → TradeCandidate → DateTime → String → Result CompliancePolicyDecision
unfolding unsealed seal aware_or
evaluate_compliance_policy digest account candidate evaluated_at environment = do
  now ← aware_or evaluated_at (value_error "compliance timestamp must be timezone-aware")
  trace ← traceability_sha256 digest reference_requirements
  ok (seal digest (unsealed account candidate (aware now) environment trace))

-- The decision on the embedded artifact and the two portfolio gates.
assemble :
    Account
    → TradeCandidate
    → DateTime
    → CompliancePolicyDecision
    → List String
    → String
    → CircuitBreakerResult
    → BackOfficeDecision
unfolding canonical
assemble account candidate evaluated_at compliance portfolio_reasons snapshot breaker =
    let reasons =
      canonical (compliance.reason_codes ++ portfolio_reasons ++ breaker.reason_codes) in
    record {
      candidate_id = candidate.candidate_id;
      account_id = account.account_id;
      status = status_of reasons;
      reason_codes = reasons;
      policy_version = policy_version;
      portfolio_snapshot_sha256 = snapshot;
      circuit_breaker_sha256 = breaker.artifact_sha256;
      policy_decision = compliance;
      evaluated_at = evaluated_at;
      environment = "paper";
    }

unfoldable pub evaluate_paper_compliance :
    Digest
    → Account
    → TradeCandidate
    → DateTime
    → List PositionExposure
    → PortfolioPolicy
    → CircuitBreakerResult
    → Result BackOfficeDecision
unfolding assemble aware_or
evaluate_paper_compliance digest account candidate evaluated_at positions policy breaker = do
  now ← aware_or evaluated_at (value_error "Back Office timestamp must be timezone-aware")
  compliance ← evaluate_compliance_policy digest account candidate (aware now) "paper"
  portfolio ← evaluate_portfolio_gate digest account candidate positions policy
  ok (
      assemble account candidate (aware now) compliance portfolio.reason_codes
        portfolio.snapshot_sha256 breaker)
