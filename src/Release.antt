-- ===== src/Release.antt =====
-- release.py: the readiness gate between paper and live.
pub mod Ready
use hedge_desk.Prelude.{
  ℕ, String, Bool, true, false, not, ◌||◌, ◌&&◌, Option, none, some, List, [], ◌∷◌, ◌++◌, any, map,
  has, has_double, Error, value_error, Result, ok, err, checks, ◌>>=◌, ◌>>◌, is_blank, canonical,
  str_eq, str_append, text_lt, if◌then◌else◌, valid_sha256, is_empty, length,
}
use hedge_desk.Digest.{Digest, Field, text, texts, count, flag}

pub record ReleaseEvidence : Type 0 where
  pub requirement_id : String
  pub satisfied : Bool
  pub evidence_sha256 : String

pub data ReleaseStatus : Type 0 where
  release_blocked ready_for_separate_authorization : ReleaseStatus

pub record ReleaseReadiness : Type 0 where
  pub gate_version : String
  pub current_environment : String
  pub target_environment : String
  pub status : ReleaseStatus
  pub reason_codes : List String
  pub evidence : List ReleaseEvidence
  pub human_override_allowed : Bool
  pub live_transition_authorized : Bool
  pub artifact_sha256 : String

abbrev pub required_release_evidence : List String
required_release_evidence =
    "BACK_OFFICE_RECONCILIATION_CERTIFIED" ∷ "BROKER_ORDER_ADAPTER_CERTIFIED"
    ∷ "EXTERNAL_AUDIT_DURABILITY_VERIFIED" ∷ "KILL_SWITCH_AND_DR_TESTED"
    ∷ "LICENSED_POINT_IN_TIME_DATA_VERIFIED" ∷ "MODEL_VV_APPROVED" ∷ "REGULATORY_COUNSEL_SIGNOFF"
    ∷ "REGULATORY_TRACEABILITY_VERIFIED" ∷ "ROR_CONVENTIONAL_VV_APPROVED" ∷ []

abbrev pub release_status_text : ReleaseStatus → String
release_status_text release_blocked = "LIVE_RELEASE_BLOCKED"
release_status_text ready_for_separate_authorization = "READY_FOR_SEPARATE_LIVE_AUTHORIZATION"

abbrev pub release_gate_version : String
release_gate_version = "live-release-gate-1.2.0"

-- The identities are texts and the flags Booleans by their types. The message of the last check goes
-- on with the unknown identities.
evidence_checks : List ReleaseEvidence → List (Bool × Error)
unfolding has_double
evidence_checks evidence =
    (
      any (λ item. is_blank item.requirement_id) evidence,
      value_error "release evidence identities must be nonempty strings",
    )
    ∷ (
      has_double (map (λ item. item.requirement_id) evidence),
      value_error "release evidence identities must be unique",
    )
    ∷ (
      any (λ item. not (has item.requirement_id required_release_evidence)) evidence,
      value_error "unknown release evidence",
    )
    ∷ []

-- by_id.get(requirement_id), on identities that differ
unfoldable pub evidence_of : String → List ReleaseEvidence → Option ReleaseEvidence
evidence_of key [] = none
evidence_of key (item ∷ rest) =
    if str_eq item.requirement_id key then some item else evidence_of key rest

-- The code that a requirement adds.
reason_for : String → Option ReleaseEvidence → List String
unfolding valid_sha256
reason_for key none = str_append "RELEASE_EVIDENCE_MISSING:" key ∷ []
reason_for key (some item) =
    if item.satisfied && not (valid_sha256 item.evidence_sha256)
    then str_append "RELEASE_EVIDENCE_HASH_INVALID:" key ∷ []
    else if not item.satisfied
    then str_append "RELEASE_REQUIREMENT_UNSATISFIED:" key ∷ []
    else []

release_reasons : List ReleaseEvidence → List String → List String
unfolding reason_for evidence_of
release_reasons evidence [] = []
release_reasons evidence (key ∷ later) =
    reason_for key (evidence_of key evidence) ++ release_reasons evidence later

insert_evidence : ReleaseEvidence → List ReleaseEvidence → List ReleaseEvidence
insert_evidence x [] = x ∷ []
insert_evidence x (y ∷ ys) =
    let later = insert_evidence x ys in
    if text_lt y.requirement_id x.requirement_id then y ∷ later else x ∷ y ∷ ys

-- sorted(evidence, key=lambda item: item.requirement_id)
sort_evidence : List ReleaseEvidence → List ReleaseEvidence
unfolding insert_evidence
sort_evidence [] = []
sort_evidence (x ∷ xs) = insert_evidence x (sort_evidence xs)

evidence_fields : List ReleaseEvidence → List Field
evidence_fields [] = []
evidence_fields (item ∷ rest) =
    text item.evidence_sha256
    ∷ text item.requirement_id
    ∷ flag item.satisfied
    ∷ evidence_fields rest

release_payload : ReleaseReadiness → List Field
unfolding evidence_fields
release_payload r =
    text "paper"
    ∷ count (length r.evidence)
    ∷ (evidence_fields r.evidence
        ++ (text release_gate_version
            ∷ flag false
            ∷ flag false
            ∷ texts r.reason_codes
            ∷ text (release_status_text r.status)
            ∷ text "live"
            ∷ []))

-- ReleaseStatus.BLOCKED if reason_codes else READY_FOR_SEPARATE_AUTHORIZATION
abbrev pub release_status_of : List String → ReleaseStatus
release_status_of [] = ready_for_separate_authorization
release_status_of (x ∷ xs) = release_blocked

-- The readiness before its hash is filled in. A code belongs to one requirement, so that sorting the
-- codes drops none.
readiness : List ReleaseEvidence → ReleaseReadiness
unfolding release_reasons sort_evidence canonical
readiness evidence =
    let reasons = canonical (release_reasons evidence required_release_evidence) in
    record {
      gate_version = release_gate_version;
      current_environment = "paper";
      target_environment = "live";
      status = release_status_of reasons;
      reason_codes = reasons;
      evidence = sort_evidence evidence;
      human_override_allowed = false;
      live_transition_authorized = false;
      artifact_sha256 = "";
    }

released : Digest → ReleaseReadiness → ReleaseReadiness
unfolding release_payload
released digest r = record r { artifact_sha256 = digest (release_payload r) }

unfoldable pub evaluate_live_release_readiness :
    Digest → List ReleaseEvidence → Result ReleaseReadiness
unfolding checks evidence_checks readiness released
evaluate_live_release_readiness digest evidence = do
  checks (evidence_checks evidence)
  ok (released digest (readiness evidence))

abbrev zero_sha256 : String
zero_sha256 = "0000000000000000000000000000000000000000000000000000000000000000"

-- The evidence of `build_reference_release_readiness`.
abbrev pub reference_evidence : List ReleaseEvidence
reference_evidence =
    map (λ key. record { requirement_id = key; satisfied = false; evidence_sha256 = zero_sha256 })
      required_release_evidence

unfoldable pub build_reference_release_readiness : Digest → Result ReleaseReadiness
unfolding evaluate_live_release_readiness
build_reference_release_readiness digest = evaluate_live_release_readiness digest reference_evidence
