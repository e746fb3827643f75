-- ===== src/Risk.antt =====
-- risk/ruin.py: the risk policy and the gate that blocks on a validated risk of ruin.
pub mod Gate
pub mod Inputs
use hedge_desk.Prelude.{
  ℕ, String, Bool, true, false, not, ◌||◌, ◌&&◌, ◌==◌, List, [], ◌∷◌, any, Error, value_error,
  type_error, Result, ok, err, checks, ◌>>=◌, ◌>>◌, flags, canonical, is_blank, is_empty,
  has_double,
}
use hedge_desk.Decimal.{
  ℤ, pos_part, is_positive, is_negative, Number, Decimal, finite_or, number_le, number_lt,
  number_div, decimal_gt, whole, hundredths, in_unit, in_unit_positive,
}
use hedge_desk.Time.{Moment, DateTime, aware_or, earlier, older_than}
use hedge_desk.Domain.{Account, TradeCandidate}

pub record RiskPolicy : Type 0 where
  pub maximum_risk_of_ruin : Number
  pub maximum_quote_age_seconds : ℕ
  pub minimum_daily_dollar_volume : Number
  pub maximum_single_trade_loss_fraction : Number
  pub assumed_loss_sequence : ℕ
  pub required_risk_model_id : String
  pub required_risk_model_version : String
  pub permitted_validator_ids : List String

abbrev pub default_policy : RiskPolicy
default_policy = record {
  maximum_risk_of_ruin = hundredths 4;
  maximum_quote_age_seconds = 900;
  minimum_daily_dollar_volume = whole 1000000;
  maximum_single_trade_loss_fraction = hundredths 1;
  assumed_loss_sequence = 20;
  required_risk_model_id = "finite-capital-ruin-approximation";
  required_risk_model_version = "0.1.0-unvalidated";
  permitted_validator_ids = "classic-vv-fixture-validator" ∷ "classic-vv-test-validator" ∷ [];
}

unfoldable pub make_risk_policy :
    Decimal → ℤ → Decimal → Decimal → ℤ → String → String → List String → Result RiskPolicy
unfolding checks finite_or has_double
make_risk_policy ruin age volume loss sequence model version validators = do
  let not_finite = value_error "risk policy decimal limits must be finite Decimals"
  ruin' ← finite_or ruin not_finite
  volume' ← finite_or volume not_finite
  loss' ← finite_or loss not_finite
  checks (
      (not (in_unit ruin'), value_error "maximum risk of ruin must be between zero and one")
      ∷ (number_lt volume' (whole 0), value_error "minimum liquidity cannot be negative")
      ∷ (not (in_unit_positive loss'), value_error "single-trade loss fraction must be in (0, 1]")
      ∷ (
        is_negative age || not (is_positive sequence),
        value_error "risk policy integer limits invalid",
      )
      ∷ (is_blank model || is_blank version, value_error "required risk model identity is missing")
      ∷ (
        is_empty validators || any (λ v. is_blank v) validators || has_double validators,
        value_error "risk validator allowlist invalid",
      )
      ∷ [])
  ok (record {
    maximum_risk_of_ruin = ruin';
    maximum_quote_age_seconds = pos_part age;
    minimum_daily_dollar_volume = volume';
    maximum_single_trade_loss_fraction = loss';
    assumed_loss_sequence = pos_part sequence;
    required_risk_model_id = model;
    required_risk_model_version = version;
    permitted_validator_ids = validators;
  })

-- The blockers of the gate at a time, with the loss as a fraction of the equity and the comparison
-- of the risk of ruin computed.
risk_flags : TradeCandidate → Moment → RiskPolicy → Number → Bool → List (Bool × String)
risk_flags candidate now policy fraction ruinous =
    let quoted = candidate.quote_timestamp in
    (number_le candidate.max_loss (whole 0), "MAX_LOSS_UNDEFINED")
    ∷ (earlier now quoted, "QUOTE_FROM_FUTURE")
    ∷ (
      not (earlier now quoted) && older_than now quoted policy.maximum_quote_age_seconds,
      "STALE_QUOTE",
    )
    ∷ (
      number_lt candidate.average_daily_dollar_volume policy.minimum_daily_dollar_volume,
      "INSUFFICIENT_LIQUIDITY",
    )
    ∷ (number_lt policy.maximum_single_trade_loss_fraction fraction, "SINGLE_TRADE_LOSS_LIMIT")
    ∷ (ruinous, "RISK_OF_RUIN_LIMIT")
    ∷ []

unfoldable pub risk_gate :
    Account → TradeCandidate → DateTime → RiskPolicy → Decimal → Result (List String)
unfolding risk_flags flags canonical
risk_gate account candidate evaluated_at policy ruin = do
  now ← aware_or evaluated_at type_error
  fraction ← number_div candidate.max_loss account.equity
  ruinous ← decimal_gt ruin policy.maximum_risk_of_ruin
  ok (canonical (flags (risk_flags candidate now policy fraction ruinous)))
