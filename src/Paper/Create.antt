-- ===== src/Paper/Create.antt =====
-- paper/workflow.py: `create_paper_trade_plan`.
pub mod Sound
use hedge_desk.Prelude.{
  ℕ, String, Bool, true, false, not, ◌||◌, ◌&&◌, Option, none, some, List, [], ◌∷◌, ◌++◌, any, has,
  ltb, leb, Error, value_error, type_error, Result, ok, err, checks, ◌>>=◌, ◌>>◌, is_blank,
  is_empty, canonical, str_eq, ◌==◌,
}
use hedge_desk.Decimal.{ℤ, pos_part, is_positive}
use hedge_desk.Time.{
  Moment, DateTime, naive, aware, aware_or, earlier, not_later, older_than, datetime_eq,
}
use hedge_desk.Digest.{Digest}
use hedge_desk.Domain.{Decision}
use hedge_desk.Options.Spread.{VerticalSpreadCalculation}
use hedge_desk.BackOffice.Compliance.{
  BackOfficeDecision, CompliancePolicyDecision, is_pass, policy_version,
  validate_compliance_policy_artifact,
}
use hedge_desk.Options.Events.{EventCalendarGate}
use hedge_desk.Paper.Plan.{
  PaperTradePlan, pending, machine_status, plan_payload, calculate_plan_hash,
}

-- APPROVED_BACK_OFFICE_POLICY_VERSIONS
abbrev pub approved_versions : List String
approved_versions = policy_version ∷ []

window_checks : Moment → Moment → ℤ → ℤ → List (Bool × Error)
window_checks created expires quote_age control_age =
    (not_later expires created, value_error "approval expiry must follow plan creation")
    ∷ (not (is_positive quote_age), value_error "execution quote age limit must be positive")
    ∷ (not (is_positive control_age), value_error "control artifact age limit must be positive")
    ∷ []

required_calendar : Option EventCalendarGate → Result EventCalendarGate
required_calendar none = err (value_error "validated event calendar gate is required")
required_calendar (some gate) = ok gate

-- The message of the first check goes on with the reason codes of the calendar.
calendar_checks : VerticalSpreadCalculation → EventCalendarGate → List (Bool × Error)
calendar_checks spread gate =
    (not gate.admissible, value_error "event calendar blocked plan")
    ∷ (
      ltb gate.complete_through spread.expiration_date,
      value_error "event calendar is incomplete through expiration",
    )
    ∷ []

binding_checks : Decision → BackOfficeDecision → List (Bool × Error)
binding_checks risk compliance =
    (
      not (str_eq compliance.environment "paper"),
      value_error "only paper Back Office decisions are accepted",
    )
    ∷ (
      not (str_eq compliance.candidate_id risk.candidate_id),
      value_error "risk and compliance candidate identities must match",
    )
    ∷ (
      not (str_eq compliance.account_id risk.account_id),
      value_error "risk and compliance account identities must match",
    )
    ∷ (
      not (str_eq risk.portfolio_snapshot_sha256 compliance.portfolio_snapshot_sha256),
      value_error "risk and compliance portfolio snapshots must match",
    )
    ∷ (
      not (has compliance.policy_version approved_versions),
      value_error "Back Office policy version is not approved",
    )
    ∷ []

artifact_checks : Decision → BackOfficeDecision → List (Bool × Error)
artifact_checks risk compliance =
    let policy = compliance.policy_decision in
    (
      not (str_eq policy.candidate_id risk.candidate_id),
      value_error "compliance artifact candidate identity must match",
    )
    ∷ (
      not (str_eq policy.account_id risk.account_id),
      value_error "compliance artifact account identity must match",
    )
    ∷ (
      not (datetime_eq policy.evaluated_at compliance.evaluated_at),
      value_error "compliance artifact timestamp must match Back Office",
    )
    ∷ (
      not (str_eq policy.environment compliance.environment),
      value_error "compliance artifact environment must match Back Office",
    )
    ∷ (
      not (is_pass policy.status)
          && any (λ code. not (has code compliance.reason_codes)) policy.reason_codes,
      value_error "Back Office omitted compliance block reasons",
    )
    ∷ []

age_checks : Moment → ℕ → Moment → String → String → List (Bool × Error)
age_checks created limit evaluated_at future stale =
    (earlier created evaluated_at, value_error future)
    ∷ (older_than created evaluated_at limit, value_error stale)
    ∷ []

-- The plan before its hash is filled in.
draft :
    String
    → VerticalSpreadCalculation
    → Decision
    → BackOfficeDecision
    → EventCalendarGate
    → Moment
    → Moment
    → ℕ
    → ℕ
    → PaperTradePlan
unfolding canonical
draft plan_id spread risk compliance gate created expires quote_age control_age = record {
  plan_id = plan_id;
  spread = spread;
  risk_decision = risk;
  compliance_decision = compliance;
  event_calendar_gate = gate;
  machine_risk_status = machine_status risk.status;
  reason_codes = canonical (risk.reason_codes ++ compliance.reason_codes);
  authorization = record {
    status = pending;
    human_id = none;
    decided_at = none;
    plan_hash = none;
    reason_codes = [];
  };
  created_at = created;
  approval_expires_at = expires;
  execution_quote_max_age_seconds = quote_age;
  control_artifact_max_age_seconds = control_age;
  plan_hash = "";
}

hashed : Digest → PaperTradePlan → PaperTradePlan
unfolding calculate_plan_hash
hashed digest p = record p { plan_hash = calculate_plan_hash digest p }

unfoldable pub create_paper_trade_plan :
    Digest
    → String
    → VerticalSpreadCalculation
    → Decision
    → BackOfficeDecision
    → DateTime
    → DateTime
    → ℤ
    → ℤ
    → Option EventCalendarGate
    → Result PaperTradePlan
unfolding checks aware_or window_checks required_calendar calendar_checks binding_checks
    artifact_checks age_checks draft hashed
create_paper_trade_plan digest plan_id spread risk compliance created_at expires_at quote_age
      control_age calendar =
    do
      checks ((is_blank plan_id, value_error "plan identity is required") ∷ [])
      created ← aware_or created_at (value_error "plan timestamps must be timezone-aware")
      expires ← aware_or expires_at (value_error "plan timestamps must be timezone-aware")
      checks (window_checks created expires quote_age control_age)
      gate ← required_calendar calendar
      checks (calendar_checks spread gate)
      checks (binding_checks risk compliance)
      artifact_reasons ← validate_compliance_policy_artifact digest compliance.policy_decision
      checks ((not (is_empty artifact_reasons), value_error "invalid compliance artifact") ∷ [])
      checks (artifact_checks risk compliance)
      checks (
          age_checks created (pos_part control_age) risk.evaluated_at
            "risk control cannot be from the future" "risk control artifact is stale")
      evaluated_at ← aware_or compliance.evaluated_at type_error
      checks (
          age_checks created (pos_part control_age) evaluated_at
            "compliance control cannot be from the future" "compliance control artifact is stale")
      ok (
          hashed digest (
            draft plan_id spread risk compliance gate created expires (pos_part quote_age)
              (pos_part control_age)))
