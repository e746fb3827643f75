-- ===== src/Risk/Inputs.antt =====
-- risk/inputs.py: the content-addressed inputs of a decision, and the check of their digest.
pub mod Tamper
use hedge_desk.Prelude.{
  String, Bool, true, false, not, ◌||◌, ◌&&◌, List, [], ◌∷◌, Error, value_error, Result, ok, err,
  checks, ◌>>=◌, ◌>>◌, is_blank, valid_sha256, str_eq,
}
use hedge_desk.Decimal.{Number, Decimal, number, finite_or, number_lt, whole, in_unit}
use hedge_desk.Time.{Moment, DateTime, aware, aware_or}
use hedge_desk.Digest.{Digest, Field, text, number as number_field, moment}

-- The arguments of `build_validated_risk_inputs`.
pub record RiskInputs : Type 0 where
  pub candidate_id : String
  pub maximum_loss : Decimal
  pub expected_win : Decimal
  pub win_probability : Decimal
  pub as_of : DateTime
  pub source_artifact_sha256 : String
  pub portfolio_snapshot_sha256 : String
  pub risk_of_ruin_before : Decimal
  pub risk_of_ruin_after : Decimal
  pub risk_model_id : String
  pub risk_model_version : String
  pub validator_id : String
  pub validator_version : String
  pub environment : String

pub record ValidatedRiskInputs : Type 0 where
  pub inputs : RiskInputs
  pub open inputs use *
  pub artifact_sha256 : String

-- The finite values of the inputs.
pub record RiskNumbers : Type 0 where
  pub maximum_loss : Number
  pub expected_win : Number
  pub win_probability : Number
  pub risk_of_ruin_before : Number
  pub risk_of_ruin_after : Number

payload : RiskInputs → Moment → RiskNumbers → List Field
payload v as_of n =
    moment (aware as_of)
    ∷ text v.candidate_id
    ∷ text v.environment
    ∷ number_field n.expected_win
    ∷ number_field n.maximum_loss
    ∷ text v.source_artifact_sha256
    ∷ text v.portfolio_snapshot_sha256
    ∷ number_field n.risk_of_ruin_before
    ∷ number_field n.risk_of_ruin_after
    ∷ text v.risk_model_id
    ∷ text v.risk_model_version
    ∷ text v.validator_id
    ∷ text v.validator_version
    ∷ number_field n.win_probability
    ∷ []

finite_numbers : RiskInputs → Result RiskNumbers
unfolding finite_or
finite_numbers v = do
  let not_finite = value_error "risk input numeric values must be finite Decimals"
  loss ← finite_or v.maximum_loss not_finite
  win ← finite_or v.expected_win not_finite
  probability ← finite_or v.win_probability not_finite
  before ← finite_or v.risk_of_ruin_before not_finite
  after ← finite_or v.risk_of_ruin_after not_finite
  ok (record {
    maximum_loss = loss;
    expected_win = win;
    win_probability = probability;
    risk_of_ruin_before = before;
    risk_of_ruin_after = after;
  })

is_unnamed : RiskInputs → Bool
is_unnamed v =
    is_blank v.candidate_id
    || is_blank v.validator_id
    || is_blank v.validator_version
    || is_blank v.risk_model_id
    || is_blank v.risk_model_version

range_checks : RiskInputs → RiskNumbers → List (Bool × Error)
range_checks v n =
    (
      number_lt n.maximum_loss (whole 0) || number_lt n.expected_win (whole 0),
      value_error "risk payoff inputs cannot be negative",
    )
    ∷ (not (in_unit n.win_probability), value_error "risk probability must be between zero and one")
    ∷ (
      not (valid_sha256 v.source_artifact_sha256) || not (valid_sha256 v.portfolio_snapshot_sha256),
      value_error "validated source and portfolio snapshot hashes are required",
    )
    ∷ (
      not (in_unit n.risk_of_ruin_before && in_unit n.risk_of_ruin_after),
      value_error "portfolio risk of ruin values must be between zero and one",
    )
    ∷ (not (str_eq v.environment "paper"), value_error "only paper risk inputs are accepted")
    ∷ []

unfoldable pub build_validated_risk_inputs : Digest → RiskInputs → Result ValidatedRiskInputs
unfolding is_unnamed finite_numbers range_checks payload checks aware_or
build_validated_risk_inputs digest v = do
  checks ((is_unnamed v, value_error "risk input and validator identities are required") ∷ [])
  as_of ← aware_or v.as_of (value_error "risk input timestamp must be timezone-aware")
  n ← finite_numbers v
  checks (range_checks v n)
  ok (record { inputs = v; artifact_sha256 = digest (payload v as_of n) })

unfoldable pub validate_risk_inputs : Digest → ValidatedRiskInputs → Result (Unit {0})
unfolding build_validated_risk_inputs
validate_risk_inputs digest inputs = do
  rebuilt ← build_validated_risk_inputs digest inputs.inputs
  checks (
      (
        not (str_eq rebuilt.artifact_sha256 inputs.artifact_sha256),
        value_error "risk input artifact integrity check failed",
      )
      ∷ [])
