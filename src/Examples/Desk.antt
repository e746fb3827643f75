-- ===== src/Examples/Desk.antt =====
-- One account, one put credit spread, and the decisions on it. Times count seconds from one morning.
use hedge_desk.BackOffice.Traceability.{traceability_sha256}
use hedge_desk.AccountGate.{account_gate}
use hedge_desk.Prelude.{
  ℕ, ◌+◌, ◌*◌, ◌≡◌, refl, String, true, false, some, List, [], ◌∷◌, ok, valid_sha256, is_canonical,
  valid_sha256_or_zero,
}
use hedge_desk.Decimal.{
  negsuc, number, number_lt, whole, hundredths, decimal_eq, number_eq, number_div, decimal_gt,
  number_add, number_sub, number_mul,
}
use hedge_desk.Time.{Moment, DateTime, aware, datetime_gt}
use hedge_desk.Digest.{Digest}
use hedge_desk.Domain.{
  Account, TradeCandidate, Decision, risk_pass, individual, defined_risk_option, make_decision,
}
use hedge_desk.Risk.{default_policy, risk_gate}
use hedge_desk.Risk.Inputs.{
  RiskInputs, ValidatedRiskInputs, build_validated_risk_inputs, validate_risk_inputs,
}
use hedge_desk.Decide.{evaluate_candidate}
use hedge_desk.BackOffice.Portfolio.{
  PositionExposure, CircuitBreakerResult, default_portfolio_policy,
  evaluate_drawdown_circuit_breaker, evaluate_portfolio_gate,
}
use hedge_desk.BackOffice.Compliance.{
  pass, BackOfficeDecision, evaluate_paper_compliance, evaluate_compliance_policy,
}
use hedge_desk.Options.Quotes.{OptionQuote, put, VerticalCreditSpread}
use hedge_desk.Options.Spread.{VerticalSpreadCalculation, calculate_vertical_credit_spread}

abbrev pub hash : String
hash = "aaaaaaaaaaaaaaaaaaaaaaaaaaaaaaaaaaaaaaaaaaaaaaaaaaaaaaaaaaaaaaaa"

-- A digest that is enough to run the code.
abbrev pub digest : Digest
digest = λ fields. hash

abbrev pub at : ℕ → Moment
at seconds = record {
  utc = 63900000000000000 + seconds * 1000000;
  wall = 63900000000000000 + seconds * 1000000;
}

abbrev pub now : DateTime
now = aware (at 60)

abbrev pub account : Account
account = record {
  account_id = "paper-1";
  account_type = individual;
  equity = whole 100000;
  cash = whole 50000;
  options_approved = true;
  futures_approved = false;
  options_disclosure_version = some "2024-06";
  options_disclosure_acknowledged_at = some (at 0);
  broker_options_policy_version = some "broker-3";
}

abbrev pub candidate : TradeCandidate
candidate = record {
  candidate_id = "candidate-1";
  symbol = "XYZ";
  product_type = defined_risk_option;
  quantity = 1;
  entry_price = whole 1;
  max_loss = hundredths 40130;
  expected_win = hundredths 9870;
  win_probability = hundredths 70;
  quote_timestamp = at 30;
  average_daily_dollar_volume = whole 5000000;
  thesis = "premium";
  invalidation = "trend break";
}

abbrev pub risk_inputs : String → RiskInputs
risk_inputs validator = record {
  candidate_id = "candidate-1";
  maximum_loss = number (hundredths 40130);
  expected_win = number (hundredths 9870);
  win_probability = number (hundredths 70);
  as_of = aware (at 50);
  source_artifact_sha256 = hash;
  portfolio_snapshot_sha256 = hash;
  risk_of_ruin_before = number (hundredths 1);
  risk_of_ruin_after = number (hundredths 2);
  risk_model_id = "finite-capital-ruin-approximation";
  risk_model_version = "0.1.0-unvalidated";
  validator_id = validator;
  validator_version = "1";
  environment = "paper";
}

abbrev pub tester : String
tester = "classic-vv-test-validator"

abbrev pub inputs : ValidatedRiskInputs
inputs = record { inputs = risk_inputs tester; artifact_sha256 = hash }

pub inputs_built : build_validated_risk_inputs digest (risk_inputs tester) ≡ ok inputs
unfolding build_validated_risk_inputs number_lt valid_sha256
inputs_built = refl

abbrev pub decision : Decision
decision = record {
  candidate_id = "candidate-1";
  account_id = "paper-1";
  status = risk_pass;
  reason_codes = [];
  risk_of_ruin_before = hundredths 1;
  risk_of_ruin_after = hundredths 2;
  evaluated_at = at 60;
  risk_model_id = "finite-capital-ruin-approximation";
  risk_model_version = "0.1.0-unvalidated";
  risk_input_sha256 = hash;
  risk_source_artifact_sha256 = hash;
  portfolio_snapshot_sha256 = hash;
}

pub candidate_evaluated :
    evaluate_candidate digest account candidate now default_policy (some inputs) ≡ ok decision
unfolding evaluate_candidate validate_risk_inputs number_lt valid_sha256 decimal_eq number_eq
    datetime_gt risk_gate number_div decimal_gt make_decision is_canonical account_gate
candidate_evaluated = refl

abbrev pub positions : List PositionExposure
positions =
    record { position_id = "p1"; symbol = "ABC"; maximum_loss = whole 400 }
    ∷ record { position_id = "p2"; symbol = "XYZ"; maximum_loss = whole 500 }
    ∷ []

abbrev pub breaker : CircuitBreakerResult
breaker = record { new_risk_frozen = false; reason_codes = []; artifact_sha256 = hash }

pub breaker_evaluated :
    evaluate_drawdown_circuit_breaker digest (number (hundredths 3)) (number (hundredths 10)) hash
    ≡ ok breaker
unfolding evaluate_drawdown_circuit_breaker number_lt valid_sha256_or_zero
breaker_evaluated = refl

abbrev pub compliance : BackOfficeDecision
compliance = record {
  candidate_id = "candidate-1";
  account_id = "paper-1";
  status = pass;
  reason_codes = [];
  policy_version = "paper-options-1.0.0";
  portfolio_snapshot_sha256 = hash;
  circuit_breaker_sha256 = hash;
  policy_decision = record {
    candidate_id = "candidate-1";
    account_id = "paper-1";
    status = pass;
    reason_codes = [];
    policy_version = "paper-securities-1.0.0";
    evaluated_at = aware (at 60);
    environment = "paper";
    options_disclosure_version = "2024-06";
    options_disclosure_acknowledged_at = some (at 0);
    broker_options_policy_version = "broker-3";
    regulatory_traceability_sha256 = hash;
    artifact_sha256 = hash;
  };
  evaluated_at = aware (at 60);
  environment = "paper";
}

pub compliance_evaluated :
    evaluate_paper_compliance digest account candidate now positions default_portfolio_policy
      breaker
    ≡ ok compliance
unfolding evaluate_paper_compliance evaluate_compliance_policy traceability_sha256
    evaluate_portfolio_gate number_div number_add account_gate number_lt
compliance_evaluated = refl

abbrev pub leg : String → ℕ → ℕ → ℕ → OptionQuote
leg contract strike bid ask = record {
  contract_id = contract;
  underlying = "XYZ";
  option_type = put;
  strike = whole strike;
  expiration = 739600;
  bid = hundredths bid;
  ask = hundredths ask;
  bid_size = 20;
  ask_size = 20;
  quoted_at = at 30;
  source_id = "vendor";
  open_interest = 500;
  volume = 100;
}

abbrev pub spread : VerticalCreditSpread
spread = record {
  spread_id = "spread-1";
  short_leg = leg "P100" 100 200 210;
  long_leg = leg "P95" 95 95 100;
  underlying_quote = record {
    symbol = "XYZ";
    bid = whole 104;
    ask = whole 105;
    quoted_at = at 30;
    source_id = "vendor";
  };
  quantity = 1;
  commission_per_contract = hundredths 65;
  quote_tolerance_seconds = 2;
  planned_exit_days_before_expiration = 7;
  minimum_open_interest = 100;
  minimum_volume = 10;
  maximum_leg_spread_fraction = hundredths 10;
}

abbrev pub calculated : VerticalSpreadCalculation
calculated = record {
  spread_id = "spread-1";
  underlying = "XYZ";
  quote_source_id = "vendor";
  model_id = "vertical-credit-spread-executable-side";
  model_version = "1.1.0";
  calculated_at = at 60;
  short_contract_id = "P100";
  long_contract_id = "P95";
  short_quoted_at = at 30;
  long_quoted_at = at 30;
  underlying_quote_timestamp = at 30;
  underlying_bid = whole 104;
  underlying_ask = whole 105;
  expiration_date = 739600;
  days_to_expiration = 17;
  planned_exit_days_before_expiration = 7;
  planned_exit_date = 739593;
  minimum_leg_open_interest = 500;
  minimum_leg_volume = 100;
  maximum_observed_leg_spread_fraction = hundredths 5;
  quantity = 1;
  contract_multiplier = 100;
  width_per_share = whole 5;
  short_sale_price_per_share = hundredths 200;
  long_purchase_price_per_share = hundredths 100;
  gross_credit = hundredths 10000;
  total_commission = hundredths 130;
  net_credit = hundredths 9870;
  maximum_loss = hundredths 40130;
  break_even = record { negative = false; digits = 99013; exponent = negsuc 2 };
  return_on_risk = record {
    negative = false;
    digits = 2459506603538499875404933965;
    exponent = negsuc 27;
  };
}

pub spread_calculated : calculate_vertical_credit_spread spread now ≡ ok calculated
unfolding calculate_vertical_credit_spread number_div number_sub number_lt number_mul
spread_calculated = refl
