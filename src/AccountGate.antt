-- ===== src/AccountGate.antt =====
-- compliance/account_gate.py: which accounts may paper-trade a candidate, with reasons.
pub mod Eligible
use hedge_desk.Prelude.{
  ℕ, String, Bool, true, false, not, ◌||◌, ◌&&◌, Option, none, some, List, [], ◌∷◌, flags,
  canonical, is_blank,
}
use hedge_desk.Decimal.{Number, number_lt, number_mul, whole}
use hedge_desk.Time.{Moment, earlier}
use hedge_desk.Domain.{
  Account, AccountType, traditional_ira, roth_ira, TradeCandidate, ProductType, equity,
  defined_risk_option, undefined_risk_option, future,
}

-- not value, for an optional text
abbrev pub is_unset : Option String → Bool
is_unset none = true
is_unset (some s) = is_blank s

abbrev pub is_undefined_risk : ProductType → Bool
is_undefined_risk undefined_risk_option = true
is_undefined_risk _ = false

abbrev pub is_defined_risk : ProductType → Bool
is_defined_risk defined_risk_option = true
is_defined_risk _ = false

abbrev pub is_future : ProductType → Bool
is_future future = true
is_future _ = false

abbrev pub is_equity : ProductType → Bool
is_equity equity = true
is_equity _ = false

abbrev pub is_ira : AccountType → Bool
is_ira traditional_ira = true
is_ira roth_ira = true
is_ira _ = false

abbrev pub is_missing {ℓ} : {A : Type ℓ} → Option A → Bool
is_missing none = true
is_missing (some a) = false

-- acknowledged_at > quoted, where there is an acknowledgement
abbrev pub acknowledged_after : Option Moment → Moment → Bool
acknowledged_after none quoted = false
acknowledged_after (some m) quoted = earlier quoted m

pub notional : TradeCandidate → Number
notional c = number_mul c.entry_price (whole c.quantity)

gate_flags : ProductType → Account → TradeCandidate → List (Bool × String)
unfolding notional
gate_flags product account candidate =
    let option = is_defined_risk product || is_undefined_risk product in
    let acknowledged_at = account.options_disclosure_acknowledged_at in
    let undisclosed = is_unset account.options_disclosure_version || is_missing acknowledged_at in
    (is_undefined_risk product, "UNDEFINED_RISK_OPTION_PROHIBITED")
    ∷ (option && not account.options_approved, "OPTIONS_APPROVAL_REQUIRED")
    ∷ (option && undisclosed, "OPTIONS_DISCLOSURE_ACKNOWLEDGEMENT_REQUIRED")
    ∷ (
      option && not undisclosed && acknowledged_after acknowledged_at candidate.quote_timestamp,
      "OPTIONS_DISCLOSURE_ACKNOWLEDGED_AFTER_CANDIDATE",
    )
    ∷ (option && is_unset account.broker_options_policy_version, "BROKER_OPTIONS_POLICY_REQUIRED")
    ∷ (is_future product && not account.futures_approved, "FUTURES_APPROVAL_REQUIRED")
    ∷ (is_future product && is_ira account.account_type, "FUTURES_BLOCKED_IN_IRA_MVP")
    ∷ (is_equity product && number_lt account.cash (notional candidate), "INSUFFICIENT_CASH")
    ∷ []

unfoldable pub account_gate : Account → TradeCandidate → List String
unfolding gate_flags flags canonical
account_gate account candidate =
    canonical (flags (gate_flags candidate.product_type account candidate))
