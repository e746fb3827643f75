-- ===== src/Domain.antt =====
-- domain/models.py: the records of the decision contract. A constructor runs the checks of
-- `__post_init__` on raw values; the record that it returns holds finite numbers and aware times.
use hedge_desk.Prelude.{
  ℕ, String, Bool, true, false, not, ◌||◌, ◌&&◌, Option, List, [], ◌∷◌, value_error, Result, ok,
  checks, ◌>>=◌, ◌>>◌, is_blank, is_only_space, valid_sha256, is_canonical, is_empty,
}
use hedge_desk.Decimal.{
  ℤ, pos_part, is_positive, Number, Decimal, finite_or, number_le, number_lt, whole, in_unit,
}
use hedge_desk.Time.{Moment, DateTime, aware_or, aware_option_or}

pub data AccountType : Type 0 where
  individual traditional_ira roth_ira trust : AccountType

pub data ProductType : Type 0 where
  equity defined_risk_option undefined_risk_option future : ProductType

pub data DecisionStatus : Type 0 where
  risk_pass blocked : DecisionStatus

pub record Account : Type 0 where
  pub account_id : String
  pub account_type : AccountType
  pub equity : Number
  pub cash : Number
  pub options_approved : Bool
  pub futures_approved : Bool
  pub options_disclosure_version : Option String
  pub options_disclosure_acknowledged_at : Option Moment
  pub broker_options_policy_version : Option String

unfoldable pub make_account :
    String
    → AccountType
    → Decimal
    → Decimal
    → Bool
    → Bool
    → Option String
    → Option DateTime
    → Option String
    → Result Account
unfolding checks finite_or aware_option_or
make_account account_id account_type capital cash options futures version acknowledged_at broker =
    do
      checks ((is_blank account_id, value_error "account identity is required") ∷ [])
      equity' ← finite_or capital (value_error "account money values must be finite Decimals")
      cash' ← finite_or cash (value_error "account money values must be finite Decimals")
      checks (
          (number_le equity' (whole 0), value_error "account equity must be positive")
          ∷ (number_lt cash' (whole 0), value_error "account cash cannot be negative")
          ∷ [])
      acknowledged_at' ←
          aware_option_or acknowledged_at
            (value_error "options disclosure acknowledgement must be timezone-aware")
      ok (record {
        account_id = account_id;
        account_type = account_type;
        equity = equity';
        cash = cash';
        options_approved = options;
        futures_approved = futures;
        options_disclosure_version = version;
        options_disclosure_acknowledged_at = acknowledged_at';
        broker_options_policy_version = broker;
      })

pub record TradeCandidate : Type 0 where
  pub candidate_id : String
  pub symbol : String
  pub product_type : ProductType
  pub quantity : ℕ
  pub entry_price : Number
  pub max_loss : Number
  pub expected_win : Number
  pub win_probability : Number
  pub quote_timestamp : Moment
  pub average_daily_dollar_volume : Number
  pub thesis : String
  pub invalidation : String

unfoldable pub make_candidate :
    String
    → String
    → ProductType
    → ℤ
    → Decimal
    → Decimal
    → Decimal
    → Decimal
    → DateTime
    → Decimal
    → String
    → String
    → Result TradeCandidate
unfolding checks finite_or aware_or
make_candidate candidate_id symbol product quantity price loss win probability quoted volume thesis
      invalidation =
    do
      let not_finite = value_error "candidate numeric values must be finite Decimals"
      checks (
          (is_blank candidate_id || is_blank symbol, value_error "candidate identity is required")
          ∷ (not (is_positive quantity), value_error "quantity must be a positive integer")
          ∷ [])
      price' ← finite_or price not_finite
      loss' ← finite_or loss not_finite
      win' ← finite_or win not_finite
      probability' ← finite_or probability not_finite
      volume' ← finite_or volume not_finite
      checks (
          (number_le price' (whole 0), value_error "quantity and entry price must be positive")
          ∷ (
            number_lt loss' (whole 0) || number_lt win' (whole 0),
            value_error "loss and win amounts cannot be negative",
          )
          ∷ (not (in_unit probability'), value_error "win probability must be between zero and one")
          ∷ (number_lt volume' (whole 0), value_error "daily dollar volume cannot be negative")
          ∷ [])
      quoted' ← aware_or quoted (value_error "quote timestamp must be timezone-aware")
      checks (
          (
            is_only_space thesis || is_only_space invalidation,
            value_error "thesis and invalidation are required",
          )
          ∷ [])
      ok (record {
        candidate_id = candidate_id;
        symbol = symbol;
        product_type = product;
        quantity = pos_part quantity;
        entry_price = price';
        max_loss = loss';
        expected_win = win';
        win_probability = probability';
        quote_timestamp = quoted';
        average_daily_dollar_volume = volume';
        thesis = thesis;
        invalidation = invalidation;
      })

pub record Decision : Type 0 where
  pub candidate_id : String
  pub account_id : String
  pub status : DecisionStatus
  pub reason_codes : List String
  pub risk_of_ruin_before : Number
  pub risk_of_ruin_after : Number
  pub evaluated_at : Moment
  pub risk_model_id : String
  pub risk_model_version : String
  pub risk_input_sha256 : String
  pub risk_source_artifact_sha256 : String
  pub portfolio_snapshot_sha256 : String

-- status is DecisionStatus.BLOCKED
abbrev pub is_blocked : DecisionStatus → Bool
is_blocked risk_pass = false
is_blocked blocked = true

unfoldable pub make_decision :
    String
    → String
    → DecisionStatus
    → List String
    → Decimal
    → Decimal
    → DateTime
    → String
    → String
    → String
    → String
    → String
    → Result Decision
unfolding checks finite_or aware_or
make_decision candidate_id account_id status reasons before after evaluated_at model version input
      source snapshot =
    do
      let ruin_range = value_error "decision RoR values must be finite and between zero and one"
      evaluated_at' ←
          aware_or evaluated_at (value_error "decision timestamp must be timezone-aware")
      checks (
          (
            is_blank model || is_blank version,
            value_error "risk model identity and version are required",
          )
          ∷ [])
      before' ← finite_or before ruin_range
      after' ← finite_or after ruin_range
      checks (
          (not (in_unit before' && in_unit after'), ruin_range)
          ∷ (not (valid_sha256 input), value_error "risk input artifact hash is required")
          ∷ (not (valid_sha256 source), value_error "risk source artifact hash is required")
          ∷ (not (valid_sha256 snapshot), value_error "risk portfolio snapshot hash is required")
          ∷ (
            not (is_canonical reasons),
            value_error "decision reason codes must be unique and sorted",
          )
          ∷ (
            is_blocked status && is_empty reasons,
            value_error "blocked decisions require reason codes",
          )
          ∷ [])
      ok (record {
        candidate_id = candidate_id;
        account_id = account_id;
        status = status;
        reason_codes = reasons;
        risk_of_ruin_before = before';
        risk_of_ruin_after = after';
        evaluated_at = evaluated_at';
        risk_model_id = model;
        risk_model_version = version;
        risk_input_sha256 = input;
        risk_source_artifact_sha256 = source;
        portfolio_snapshot_sha256 = snapshot;
      })
