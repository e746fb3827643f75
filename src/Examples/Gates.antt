-- ===== src/Examples/Gates.antt =====
-- The theorems on the risk decision and on the Back Office, on the concrete desk.
use hedge_desk.Digest.{Collision}
use hedge_desk.BackOffice.Traceability.{traceability_sha256}
use hedge_desk.Prelude.{
  ◌≡◌, ◌↔◌, refl, ap, String, true, ◌||◌, some, List, [], ◌∷◌, ok, is_ok, from_ok, from_ok-eq, has,
  Ascending, valid_sha256, is_canonical, valid_sha256_or_zero,
}
use hedge_desk.Decimal.{
  number, number_lt, hundredths, decimal_eq, number_eq, number_div, decimal_gt, number_add,
}
use hedge_desk.Time.{datetime_gt}
use hedge_desk.Domain.{risk_pass, defined_risk_option, make_decision}
use hedge_desk.AccountGate.{account_gate}
use hedge_desk.AccountGate.Eligible.{EligibleFor, account_gate_exact}
use hedge_desk.Risk.{risk_gate, default_policy}
use hedge_desk.Risk.Gate.{WithinLimits}
use hedge_desk.Risk.Inputs.{ValidatedRiskInputs, validate_risk_inputs}
use hedge_desk.Risk.Inputs.Tamper.{validate-build, tamper_evident}
use hedge_desk.Decide.{evaluate_candidate}
use hedge_desk.Decide.Sound.{evaluate_candidate_reasons, risk_pass_sound}
use hedge_desk.BackOffice.Portfolio.{
  PortfolioGateResult, default_portfolio_policy, evaluate_portfolio_gate,
  evaluate_drawdown_circuit_breaker, CircuitBreakerResult,
}
use hedge_desk.BackOffice.Portfolio.Limits.{WithinPortfolio, portfolio_gate_exact}
use hedge_desk.BackOffice.Compliance.{
  CompliancePolicyDecision, BackOfficeDecision, pass, block, evaluate_compliance_policy,
  validate_compliance_policy_artifact, evaluate_paper_compliance,
}
use hedge_desk.BackOffice.Compliance.Sealed.{validate-evaluate}
use hedge_desk.BackOffice.Compliance.Pass.{Cleared, paper_compliance_exact, breaker_blocks}
use hedge_desk.Examples.Desk.{
  hash, digest, now, account, candidate, risk_inputs, tester, inputs_built, inputs,
  candidate_evaluated, decision, positions, breaker, compliance_evaluated, compliance,
}

account_gate_exact_example :
    (account_gate account candidate ≡ []) ↔ EligibleFor defined_risk_option account candidate
account_gate_exact_example = account_gate_exact account candidate

inputs_validate : validate_risk_inputs digest inputs ≡ ok tt
inputs_validate = validate-build digest (risk_inputs tester) inputs inputs_built

-- The same digest under other inputs, which the constant digest of the examples lets pass.
abbrev forged : ValidatedRiskInputs
forged = record { inputs = risk_inputs "other-validator"; artifact_sha256 = hash }

tamper_evident_example : Collision digest
unfolding validate_risk_inputs from_ok number_lt valid_sha256
tamper_evident_example =
    tamper_evident digest inputs forged inputs_validate refl refl
      (λ e. cc (ap (λ v. has v.validator_id (tester ∷ [])) e))

evaluate_candidate_reasons_example :
    (blockers : List String) × (risk_gate account candidate now default_policy
        (number decision.risk_of_ruin_after)
      ≡ ok blockers)
    × ((x : String)
        → has x decision.reason_codes ≡ (has x (account_gate account candidate) || has x blockers))
    × (Ascending decision.reason_codes)
    × ((decision.status ≡ risk_pass) ↔ (decision.reason_codes ≡ []))
evaluate_candidate_reasons_example =
    evaluate_candidate_reasons digest account candidate now default_policy (some inputs) decision
      candidate_evaluated

risk_pass_sound_example :
    EligibleFor defined_risk_option account candidate
    × WithinLimits account candidate decision.evaluated_at default_policy
        decision.risk_of_ruin_after
unfolding from_ok evaluate_candidate validate_risk_inputs number_lt valid_sha256 decimal_eq
    number_eq datetime_gt risk_gate number_div decimal_gt make_decision is_canonical account_gate
risk_pass_sound_example =
    risk_pass_sound digest account candidate now default_policy (some inputs) decision
      candidate_evaluated refl

portfolio_gated :
    is_ok (evaluate_portfolio_gate digest account candidate positions default_portfolio_policy)
    ≡ true
unfolding evaluate_portfolio_gate number_div number_add
portfolio_gated = refl

abbrev gated : PortfolioGateResult
gated =
    from_ok (evaluate_portfolio_gate digest account candidate positions default_portfolio_policy)
      portfolio_gated

portfolio_gate_exact_example :
    (gated.reason_codes ≡ []) ↔ WithinPortfolio account candidate positions default_portfolio_policy
portfolio_gate_exact_example =
    portfolio_gate_exact account candidate positions default_portfolio_policy digest gated (
      from_ok-eq
        (evaluate_portfolio_gate digest account candidate positions default_portfolio_policy)
        portfolio_gated)

policy_evaluated : is_ok (evaluate_compliance_policy digest account candidate now "live") ≡ true
unfolding evaluate_compliance_policy traceability_sha256
policy_evaluated = refl

-- An artifact that blocks, since it is about live trading.
abbrev live_artifact : CompliancePolicyDecision
live_artifact =
    from_ok (evaluate_compliance_policy digest account candidate now "live") policy_evaluated

validate-evaluate_example : validate_compliance_policy_artifact digest live_artifact ≡ ok []
validate-evaluate_example =
    validate-evaluate digest account candidate now "live" live_artifact
      (from_ok-eq (evaluate_compliance_policy digest account candidate now "live") policy_evaluated)

paper_compliance_exact_example :
    (compliance.status ≡ pass)
    ↔ Cleared digest account candidate now positions default_portfolio_policy breaker compliance
paper_compliance_exact_example =
    paper_compliance_exact digest account candidate now positions default_portfolio_policy breaker
      compliance compliance_evaluated

broken_evaluated :
    is_ok (
      evaluate_drawdown_circuit_breaker digest
        (number (hundredths 12))
        (number (hundredths 10))
        hash)
    ≡ true
unfolding evaluate_drawdown_circuit_breaker number_lt valid_sha256_or_zero
broken_evaluated = refl

abbrev broken : CircuitBreakerResult
broken =
    from_ok
      (evaluate_drawdown_circuit_breaker digest (number (hundredths 12)) (number (hundredths 10))
        hash)
      broken_evaluated

frozen_evaluated :
    is_ok (
      evaluate_paper_compliance digest account candidate now positions default_portfolio_policy
        broken)
    ≡ true
unfolding evaluate_paper_compliance from_ok evaluate_compliance_policy traceability_sha256
    evaluate_portfolio_gate number_div number_add
frozen_evaluated = refl

abbrev frozen : BackOfficeDecision
frozen =
    from_ok
      (evaluate_paper_compliance digest account candidate now positions default_portfolio_policy
        broken)
      frozen_evaluated

breaker_blocks_example :
    (frozen.status ≡ block) × (has "PORTFOLIO_DRAWDOWN_CIRCUIT_BREAKER" frozen.reason_codes ≡ true)
unfolding number_lt
breaker_blocks_example =
    breaker_blocks digest (hundredths 12) (hundredths 10) hash broken account candidate now
      positions default_portfolio_policy frozen
      (from_ok-eq
        (evaluate_drawdown_circuit_breaker digest (number (hundredths 12)) (number (hundredths 10))
          hash)
        broken_evaluated)
      refl
      (from_ok-eq
        (evaluate_paper_compliance digest account candidate now positions default_portfolio_policy
          broken)
        frozen_evaluated)
