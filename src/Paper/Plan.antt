-- ===== src/Paper/Plan.antt =====
-- paper/workflow.py: the trade plan, its hash, and `create_paper_trade_plan`.
use hedge_desk.Prelude.{
  ℕ, String, Bool, true, false, Option, List, [], ◌∷◌, ◌++◌, permission_error, Result, ok, err,
  str_eq, if◌then◌else◌,
}
use hedge_desk.Time.{Moment, aware}
use hedge_desk.Digest.{Digest, Field, text, texts, number, moment, moments, day, count, flag}
use hedge_desk.Domain.{Decision, DecisionStatus, risk_pass, blocked}
use hedge_desk.Options.Events.{EventCalendarGate}
use hedge_desk.Options.Spread.{VerticalSpreadCalculation}
use hedge_desk.BackOffice.Compliance.{BackOfficeDecision, status_text}

pub data MachineRiskStatus : Type 0 where
  machine_pass machine_reject : MachineRiskStatus

pub data HumanAuthorizationStatus : Type 0 where
  pending approved rejected : HumanAuthorizationStatus

pub record HumanAuthorization : Type 0 where
  pub status : HumanAuthorizationStatus
  pub human_id : Option String
  pub decided_at : Option Moment
  pub plan_hash : Option String
  pub reason_codes : List String

pub record PaperTradePlan : Type 0 where
  pub plan_id : String
  pub spread : VerticalSpreadCalculation
  pub risk_decision : Decision
  pub compliance_decision : BackOfficeDecision
  pub event_calendar_gate : EventCalendarGate
  pub machine_risk_status : MachineRiskStatus
  pub reason_codes : List String
  pub authorization : HumanAuthorization
  pub created_at : Moment
  pub approval_expires_at : Moment
  pub execution_quote_max_age_seconds : ℕ
  pub control_artifact_max_age_seconds : ℕ
  pub plan_hash : String

abbrev pub risk_status_text : DecisionStatus → String
risk_status_text risk_pass = "risk_pass"
risk_status_text blocked = "blocked"

abbrev pub machine_status_text : MachineRiskStatus → String
machine_status_text machine_pass = "pass"
machine_status_text machine_reject = "reject"

abbrev pub is_machine_pass : MachineRiskStatus → Bool
is_machine_pass machine_pass = true
is_machine_pass machine_reject = false

abbrev pub is_pending : HumanAuthorizationStatus → Bool
is_pending pending = true
is_pending approved = false
is_pending rejected = false

abbrev pub is_approved : HumanAuthorizationStatus → Bool
is_approved pending = false
is_approved approved = true
is_approved rejected = false

-- MachineRiskStatus.PASS if status is DecisionStatus.RISK_PASS else MachineRiskStatus.REJECT
abbrev pub machine_status : DecisionStatus → MachineRiskStatus
machine_status risk_pass = machine_pass
machine_status blocked = machine_reject

spread_fields : VerticalSpreadCalculation → List Field
spread_fields s =
    text s.spread_id
    ∷ text s.underlying
    ∷ text s.quote_source_id
    ∷ text s.model_id
    ∷ text s.model_version
    ∷ moment (aware s.calculated_at)
    ∷ texts (s.short_contract_id ∷ s.long_contract_id ∷ [])
    ∷ moments (aware s.short_quoted_at ∷ aware s.long_quoted_at ∷ [])
    ∷ moment (aware s.underlying_quote_timestamp)
    ∷ number s.underlying_bid
    ∷ number s.underlying_ask
    ∷ day s.expiration_date
    ∷ count s.days_to_expiration
    ∷ count s.planned_exit_days_before_expiration
    ∷ day s.planned_exit_date
    ∷ count s.minimum_leg_open_interest
    ∷ count s.minimum_leg_volume
    ∷ number s.maximum_observed_leg_spread_fraction
    ∷ count s.quantity
    ∷ count s.contract_multiplier
    ∷ number s.width_per_share
    ∷ number s.short_sale_price_per_share
    ∷ number s.long_purchase_price_per_share
    ∷ number s.gross_credit
    ∷ number s.total_commission
    ∷ number s.net_credit
    ∷ number s.maximum_loss
    ∷ number s.break_even
    ∷ number s.return_on_risk
    ∷ []

risk_fields : Decision → List Field
risk_fields d =
    text d.candidate_id
    ∷ text d.account_id
    ∷ text (risk_status_text d.status)
    ∷ texts d.reason_codes
    ∷ number d.risk_of_ruin_before
    ∷ number d.risk_of_ruin_after
    ∷ moment (aware d.evaluated_at)
    ∷ text d.risk_model_id
    ∷ text d.risk_model_version
    ∷ text d.risk_input_sha256
    ∷ text d.risk_source_artifact_sha256
    ∷ text d.portfolio_snapshot_sha256
    ∷ []

compliance_fields : BackOfficeDecision → List Field
compliance_fields d =
    let policy = d.policy_decision in
    text d.candidate_id
    ∷ text d.account_id
    ∷ text (status_text d.status)
    ∷ texts d.reason_codes
    ∷ text d.policy_version
    ∷ text d.portfolio_snapshot_sha256
    ∷ text d.circuit_breaker_sha256
    ∷ text policy.candidate_id
    ∷ text policy.account_id
    ∷ text (status_text policy.status)
    ∷ texts policy.reason_codes
    ∷ text policy.policy_version
    ∷ moment policy.evaluated_at
    ∷ text policy.environment
    ∷ text policy.options_disclosure_version
    ∷ Field.stamp policy.options_disclosure_acknowledged_at
    ∷ text policy.broker_options_policy_version
    ∷ text policy.artifact_sha256
    ∷ moment d.evaluated_at
    ∷ text d.environment
    ∷ []

control_fields : PaperTradePlan → List Field
control_fields p =
    flag p.event_calendar_gate.admissible
    ∷ texts p.event_calendar_gate.reason_codes
    ∷ text p.event_calendar_gate.calendar_sha256
    ∷ day p.event_calendar_gate.complete_through
    ∷ text (machine_status_text p.machine_risk_status)
    ∷ moment (aware p.created_at)
    ∷ moment (aware p.approval_expires_at)
    ∷ count p.execution_quote_max_age_seconds
    ∷ count p.control_artifact_max_age_seconds
    ∷ []

-- The leaves that `_calculate_plan_hash` joins, with '|' between them, as `joined` does; the
-- authorization is not among them. The text that is hashed does not keep the leaves apart.
unfoldable pub plan_payload : PaperTradePlan → List Field
unfolding spread_fields risk_fields compliance_fields control_fields
plan_payload p =
    text p.plan_id
    ∷ (spread_fields p.spread
        ++ (risk_fields p.risk_decision
            ++ (compliance_fields p.compliance_decision ++ control_fields p)))

unfoldable pub calculate_plan_hash : Digest → PaperTradePlan → String
unfolding plan_payload
calculate_plan_hash digest p = digest (plan_payload p)

unfoldable pub assert_plan_integrity : Digest → PaperTradePlan → Result (Unit {0})
unfolding calculate_plan_hash
assert_plan_integrity digest p =
    if str_eq (calculate_plan_hash digest p) p.plan_hash
    then ok tt
    else err (permission_error "paper-trade plan integrity check failed")
