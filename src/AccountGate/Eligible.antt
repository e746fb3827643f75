-- ===== src/AccountGate/Eligible.antt =====
-- The account gate against a description of eligibility by product.
use hedge_desk.Prelude.{
  ◌≡◌, ◌↔◌, inl, inr, Option-cases, true, false, some, [], arith, reasons-nil, NoneHolds, is_blank,
  String, ◌≤◌,
}
use hedge_desk.Decimal.{number_le}
use hedge_desk.Time.{Moment}
use hedge_desk.Domain.{
  Account, TradeCandidate, ProductType, equity, defined_risk_option, undefined_risk_option, future,
}
use hedge_desk.AccountGate.{gate_flags, account_gate, notional, is_ira, is_unset}

-- What the desk asks of an account before it trades options.
pub record OptionsReady (a : Account) (c : TradeCandidate) : Type 0 where
  pub approved : a.options_approved ≡ true
  pub version : String
  pub disclosed : a.options_disclosure_version ≡ some version
  pub named : is_blank version ≡ false
  pub acknowledgement : Moment
  pub acknowledged : a.options_disclosure_acknowledged_at ≡ some acknowledgement
  pub in_time : acknowledgement.utc ≤ c.quote_timestamp.utc
  pub policy : is_unset a.broker_options_policy_version ≡ false

-- Eligibility, product by product.
abbrev pub EligibleFor : ProductType → Account → TradeCandidate → Type 0
EligibleFor equity a c = number_le (notional c) a.cash ≡ true
EligibleFor defined_risk_option a c = OptionsReady a c
EligibleFor undefined_risk_option a c = ⊥
EligibleFor future a c = (a.futures_approved ≡ true) × (is_ira a.account_type ≡ false)

module _ (a : Account) (c : TradeCandidate) where
  options_ready : NoneHolds (gate_flags defined_risk_option a c) → OptionsReady a c
  unfolding gate_flags
  options_ready h = elim (Option-cases a.options_disclosure_version) [
    | inl unset ↦ ground arith
    | inr (v, set) ↦ elim (Option-cases a.options_disclosure_acknowledged_at) [
      | inl missing ↦ ground arith
      | inr (m, given) ↦ record {
        approved = ground arith;
        version = v;
        disclosed = set;
        named = ground arith;
        acknowledgement = m;
        acknowledged = given;
        in_time = ground arith;
        policy = ground arith;
      }
    ]
  ]

  flags_clear : (p : ProductType) → NoneHolds (gate_flags p a c) → EligibleFor p a c
  unfolding gate_flags
  flags_clear equity h = ground arith
  flags_clear defined_risk_option h = options_ready h
  flags_clear undefined_risk_option h = ground arith
  flags_clear future h = ground arith

  clear_flags : (p : ProductType) → EligibleFor p a c → NoneHolds (gate_flags p a c)
  unfolding gate_flags
  clear_flags equity h = ground arith
  clear_flags defined_risk_option h = ground arith
  clear_flags undefined_risk_option h = absurd h
  clear_flags future h = ground arith

  -- The gate returns no reason exactly when the account is eligible for the candidate's product:
  -- enough cash for a stock; an options approval, a disclosure that was acknowledged by the time of
  -- the quote and a broker's policy for a defined-risk option; an approval outside an IRA for a
  -- future; and never for an undefined-risk option.
  pub account_gate_exact : (account_gate a c ≡ []) ↔ EligibleFor c.product_type a c
  unfolding account_gate
  account_gate_exact =
      let clear = reasons-nil (gate_flags c.product_type a c) in
      ((λ h. flags_clear c.product_type (clear.0 h)), (λ h. clear.1 (clear_flags c.product_type h)))
