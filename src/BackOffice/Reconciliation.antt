-- ===== src/BackOffice/Reconciliation.antt =====
-- backoffice/reconciliation.py: the reconciliation of a paper ledger with the broker's.
pub mod Reconciled
pub mod Serialized
use hedge_desk.Prelude.{
  ℕ, String, Bool, true, false, not, ◌||◌, ◌&&◌, List, [], ◌∷◌, ◌++◌, Option, none, some, Error,
  value_error, arithmetic_error, Result, ok, err, checks, ◌>>=◌, ◌>>◌, flags, canonical, is_blank,
  is_empty, str_eq, valid_sha256, if◌then◌else◌,
}
use hedge_desk.Decimal.{ℤ, pos, int_eq, is_negative, Number, Decimal, finite_or, number_eq}
use hedge_desk.Time.{Moment, DateTime, aware, aware_or}
use hedge_desk.Digest.{Digest, Field, text, texts, number, moment, integer, flag}
use hedge_desk.Json.{
  Json, boolean, int, str, list, dict, Fields, none_left, entry, field, json_eq, Codec, items_of,
}
use hedge_desk.BackOffice.Compliance.{BackOfficeStatus, pass, block, status_text}

abbrev pub reconciliation_version : String
reconciliation_version = "paper-back-office-reconciliation-1.1.0"

-- The arguments of `evaluate_paper_reconciliation`.
pub record Ledgers : Type 0 where
  pub plan_sha256 : String
  pub internal_positions_sha256 : String
  pub broker_positions_sha256 : String
  pub internal_cash : Decimal
  pub broker_cash : Decimal
  pub unresolved_fill_count : ℤ
  pub unresolved_lifecycle_count : ℤ
  pub reconciled_at : DateTime
  pub environment : String
  pub lifecycle_artifact_sha256 : String

pub record PaperReconciliation : Type 0 where
  pub plan_sha256 : String
  pub internal_positions_sha256 : String
  pub broker_positions_sha256 : String
  pub internal_cash : Number
  pub broker_cash : Number
  pub unresolved_fill_count : ℤ
  pub unresolved_lifecycle_count : ℤ
  pub reconciled_at : Moment
  pub lifecycle_artifact_sha256 : String
  pub environment : String
  pub status : BackOfficeStatus
  pub reason_codes : List String
  pub live_release_evidence_eligible : Bool
  pub artifact_sha256 : String

-- if a hash is invalid: ... elif the two differ: ...
unfoldable pub position_flags : String → String → List (Bool × String)
position_flags internal broker =
    if not (valid_sha256 internal) || not (valid_sha256 broker)
    then (true, "RECONCILIATION_POSITION_HASH_INVALID") ∷ []
    else (not (str_eq internal broker), "POSITION_LEDGER_MISMATCH") ∷ []

unfoldable pub ledger_flags : Ledgers → Number → Number → List (Bool × String)
ledger_flags l internal broker =
    (not (valid_sha256 l.plan_sha256), "RECONCILIATION_PLAN_HASH_INVALID")
    ∷ (
      not (is_blank l.lifecycle_artifact_sha256) && not (valid_sha256 l.lifecycle_artifact_sha256),
      "LIFECYCLE_ARTIFACT_HASH_INVALID",
    )
    ∷ (not (number_eq internal broker), "CASH_LEDGER_MISMATCH")
    ∷ (not (int_eq l.unresolved_fill_count (pos 0)), "UNRESOLVED_FILL_EXCEPTIONS")
    ∷ (not (int_eq l.unresolved_lifecycle_count (pos 0)), "UNRESOLVED_LIFECYCLE_EXCEPTIONS")
    ∷ (not (str_eq l.environment "paper"), "PAPER_RECONCILIATION_ENVIRONMENT_REQUIRED")
    ∷ position_flags l.internal_positions_sha256 l.broker_positions_sha256

abbrev pub reconciliation_status : List String → BackOfficeStatus
reconciliation_status [] = pass
reconciliation_status (x ∷ xs) = block

-- The leaves of the payload, by their sorted names.
unfoldable pub reconciliation_payload : PaperReconciliation → List Field
reconciliation_payload r =
    number r.broker_cash
    ∷ text r.broker_positions_sha256
    ∷ text r.environment
    ∷ number r.internal_cash
    ∷ text r.internal_positions_sha256
    ∷ flag false
    ∷ text r.lifecycle_artifact_sha256
    ∷ text r.plan_sha256
    ∷ texts r.reason_codes
    ∷ moment (aware r.reconciled_at)
    ∷ text (status_text r.status)
    ∷ integer r.unresolved_fill_count
    ∷ integer r.unresolved_lifecycle_count
    ∷ text reconciliation_version
    ∷ []

-- The reconciliation before its hash is filled in.
unfoldable pub unsealed_reconciliation :
    Ledgers → Number → Number → Moment → List String → PaperReconciliation
unsealed_reconciliation l internal broker t reasons = record {
  plan_sha256 = l.plan_sha256;
  internal_positions_sha256 = l.internal_positions_sha256;
  broker_positions_sha256 = l.broker_positions_sha256;
  internal_cash = internal;
  broker_cash = broker;
  unresolved_fill_count = l.unresolved_fill_count;
  unresolved_lifecycle_count = l.unresolved_lifecycle_count;
  reconciled_at = t;
  lifecycle_artifact_sha256 = l.lifecycle_artifact_sha256;
  environment = l.environment;
  status = reconciliation_status reasons;
  reason_codes = reasons;
  live_release_evidence_eligible = false;
  artifact_sha256 = "";
}

unfoldable pub seal_reconciliation : Digest → PaperReconciliation → PaperReconciliation
seal_reconciliation digest r = record r { artifact_sha256 = digest (reconciliation_payload r) }

abbrev pub finite_cash : Error
finite_cash = value_error "reconciliation cash values must be finite"

unfoldable pub count_checks : Ledgers → List (Bool × Error)
count_checks l =
    (
      is_negative l.unresolved_fill_count || is_negative l.unresolved_lifecycle_count,
      value_error "reconciliation exception counts cannot be negative",
    )
    ∷ []

unfoldable pub evaluate_paper_reconciliation : Digest → Ledgers → Result PaperReconciliation
evaluate_paper_reconciliation digest l = do
  t ← aware_or l.reconciled_at (value_error "reconciliation timestamp must be timezone-aware")
  checks (count_checks l)
  internal ← finite_or l.internal_cash finite_cash
  broker ← finite_or l.broker_cash finite_cash
  let reasons = canonical (flags (ledger_flags l internal broker))
  ok (seal_reconciliation digest (unsealed_reconciliation l internal broker t reasons))

module _ (codec : Codec) where
  unfoldable pub serialize_paper_reconciliation : PaperReconciliation → Fields
  serialize_paper_reconciliation r = entry "version" (str reconciliation_version) (
      entry "plan_sha256" (str r.plan_sha256) (
        entry "internal_positions_sha256" (str r.internal_positions_sha256) (
          entry "broker_positions_sha256" (str r.broker_positions_sha256) (
            entry "internal_cash" (str (codec.decimal_text r.internal_cash)) (
              entry "broker_cash" (str (codec.decimal_text r.broker_cash)) (
                entry "unresolved_fill_count" (int r.unresolved_fill_count) (
                  entry "unresolved_lifecycle_count" (int r.unresolved_lifecycle_count) (
                    entry "reconciled_at" (str (codec.isoformat (aware r.reconciled_at))) (
                      entry "lifecycle_artifact_sha256" (str r.lifecycle_artifact_sha256) (
                        entry "environment" (str r.environment) (
                          entry "status" (str (status_text r.status)) (
                            entry "reason_codes" (list (items_of r.reason_codes)) (
                              entry "live_release_evidence_eligible"
                                (boolean r.live_release_evidence_eligible)
                                (entry "artifact_sha256" (str r.artifact_sha256)
                                  none_left))))))))))))))

  abbrev key_error : Error
  key_error = value_error "KeyError"

  -- str(value[key]); whatever is raised, the caller catches it
  unfoldable pub required_text : String → Fields → Result String
  required_text key fields = elim (field key fields) [
    | none ↦ err key_error
    | some v ↦ ok (codec.str_of v)
  ]

  -- value[key], which the evaluation refuses where it is no int
  unfoldable pub required_int : String → Fields → Result ℤ
  required_int key fields = elim (field key fields) [ some (int n) ↦ ok n | _ ↦ err key_error ]

  -- Decimal(str(value[key]))
  unfoldable pub required_decimal : String → Fields → Result Decimal
  required_decimal key fields = do
    s ← required_text key fields
    elim (codec.decimal_of s) [ none ↦ err arithmetic_error | some d ↦ ok d ]

  -- datetime.fromisoformat(str(value[key]))
  unfoldable pub required_time : String → Fields → Result DateTime
  required_time key fields = do
    s ← required_text key fields
    elim (codec.fromisoformat s) [ none ↦ err key_error | some t ↦ ok t ]

  unfoldable pub read_ledgers : Fields → Result Ledgers
  read_ledgers fields = do
    plan ← required_text "plan_sha256" fields
    internal ← required_text "internal_positions_sha256" fields
    broker ← required_text "broker_positions_sha256" fields
    internal_cash ← required_decimal "internal_cash" fields
    broker_cash ← required_decimal "broker_cash" fields
    fills ← required_int "unresolved_fill_count" fields
    lifecycles ← required_int "unresolved_lifecycle_count" fields
    t ← required_time "reconciled_at" fields
    environment ← required_text "environment" fields
    lifecycle ← required_text "lifecycle_artifact_sha256" fields
    ok (record {
      plan_sha256 = plan;
      internal_positions_sha256 = internal;
      broker_positions_sha256 = broker;
      internal_cash = internal_cash;
      broker_cash = broker_cash;
      unresolved_fill_count = fills;
      unresolved_lifecycle_count = lifecycles;
      reconciled_at = t;
      environment = environment;
      lifecycle_artifact_sha256 = lifecycle;
    })

  -- value.get("version") != PAPER_RECONCILIATION_VERSION
  unfoldable pub wrong_version : Fields → Bool
  wrong_version fields = elim (field "version" fields) [
    | none ↦ true
    | some v ↦ not (json_eq v (str reconciliation_version))
  ]

  -- The body of the `try` block.
  unfoldable pub expected_fields : Digest → Fields → Result Fields
  expected_fields digest fields = do
    checks ((wrong_version fields, value_error "version") ∷ [])
    l ← read_ledgers fields
    rebuilt ← evaluate_paper_reconciliation digest l
    ok (serialize_paper_reconciliation rebuilt)

  unfoldable pub compare_fields : Fields → Result Fields → List String
  compare_fields fields (err e) = "BACK_OFFICE_RECONCILIATION_SCHEMA_INVALID" ∷ []
  compare_fields fields (ok expected) =
      if json_eq (dict fields) (dict expected)
      then []
      else "BACK_OFFICE_RECONCILIATION_ARTIFACT_INVALID" ∷ []

  unfoldable pub validate_serialized_paper_reconciliation : Digest → Fields → List String
  validate_serialized_paper_reconciliation digest fields =
      compare_fields fields (expected_fields digest fields)
