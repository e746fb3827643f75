-- ===== src/Decide.antt =====
-- core/decision.py: the eligibility and risk gates combined into one decision.
pub mod Sound
use hedge_desk.Prelude.{
  String, Bool, true, false, not, ◌||◌, ◌&&◌, Option, none, some, List, [], ◌∷◌, ◌++◌, Error,
  value_error, Result, ok, err, checks, ◌>>=◌, ◌>>◌, canonical, is_empty, str_eq, has,
  if◌then◌else◌,
}
use hedge_desk.Decimal.{decimal_eq}
use hedge_desk.Time.{Moment, DateTime, datetime_gt}
use hedge_desk.Digest.{Digest}
use hedge_desk.Domain.{Account, TradeCandidate, Decision, make_decision, risk_pass, blocked}
use hedge_desk.AccountGate.{account_gate}
use hedge_desk.Risk.{RiskPolicy, risk_gate}
use hedge_desk.Risk.Inputs.{ValidatedRiskInputs, validate_risk_inputs}

required : Option ValidatedRiskInputs → Result ValidatedRiskInputs
required none = err (value_error "validated quantitative risk inputs are required")
required (some inputs) = ok inputs

-- The economics of the inputs are not those of the candidate.
economics_differ : ValidatedRiskInputs → TradeCandidate → Bool
economics_differ inputs candidate =
    not (decimal_eq inputs.maximum_loss candidate.max_loss)
    || not (decimal_eq inputs.expected_win candidate.expected_win)
    || not (decimal_eq inputs.win_probability candidate.win_probability)

binding_checks : ValidatedRiskInputs → TradeCandidate → List (Bool × Error)
unfolding economics_differ
binding_checks inputs candidate =
    (
      not (str_eq inputs.candidate_id candidate.candidate_id),
      value_error "risk inputs are bound to another candidate",
    )
    ∷ (
      economics_differ inputs candidate,
      value_error "candidate economics differ from validated risk inputs",
    )
    ∷ []

policy_checks : Bool → ValidatedRiskInputs → RiskPolicy → List (Bool × Error)
policy_checks from_future inputs policy =
    (from_future, value_error "risk inputs cannot be from the future")
    ∷ (
      not (str_eq inputs.risk_model_id policy.required_risk_model_id)
          || not (str_eq inputs.risk_model_version policy.required_risk_model_version),
      value_error "risk model is not permitted by policy",
    )
    ∷ (
      not (has inputs.validator_id policy.permitted_validator_ids),
      value_error "risk validator is not permitted by policy",
    )
    ∷ []

-- The decision on the reasons that the gates gave.
decide : Account → TradeCandidate → DateTime → ValidatedRiskInputs → List String → Result Decision
decide account candidate evaluated_at inputs reasons =
    make_decision candidate.candidate_id account.account_id
      (if is_empty reasons then risk_pass else blocked) reasons inputs.risk_of_ruin_before
      inputs.risk_of_ruin_after evaluated_at inputs.risk_model_id inputs.risk_model_version
      inputs.artifact_sha256 inputs.source_artifact_sha256 inputs.portfolio_snapshot_sha256

unfoldable pub evaluate_candidate :
    Digest
    → Account
    → TradeCandidate
    → DateTime
    → RiskPolicy
    → Option ValidatedRiskInputs
    → Result Decision
unfolding required binding_checks policy_checks decide canonical
evaluate_candidate digest account candidate evaluated_at policy risk_inputs = do
  inputs ← required risk_inputs
  validate_risk_inputs digest inputs
  checks (binding_checks inputs candidate)
  from_future ← datetime_gt inputs.as_of evaluated_at
  checks (policy_checks from_future inputs policy)
  blockers ← risk_gate account candidate evaluated_at policy inputs.risk_of_ruin_after
  decide account candidate evaluated_at inputs
      (canonical (account_gate account candidate ++ blockers))
