-- ===== src/Risk/Gate.antt =====
-- The risk gate against the limits of the policy.
use hedge_desk.Prelude.{
  ◌+◌, ◌*◌, ◌≤◌, ◌≡◌, ◌↔◌, ap, Bool, String, ok-injective, true, List, [], ok, >>=-eq-ok,
  reasons-nil, NoneHolds, arith,
}
use hedge_desk.Decimal.{Number, number, number_le, number_lt, number_div, decimal_gt, whole}
use hedge_desk.Time.{Moment, aware, aware_or}
use hedge_desk.Domain.{Account, TradeCandidate}
use hedge_desk.Risk.{RiskPolicy, risk_gate, risk_flags}

-- The limits of the policy on a trade at a time, for a risk of ruin after it.
pub record WithinLimits (a : Account) (c : TradeCandidate) (now : Moment) (p : RiskPolicy)
    (ruin : Number) : Type 0 where
  pub loss_defined : number_lt (whole 0) c.max_loss ≡ true
  pub quote_not_future : c.quote_timestamp.utc ≤ now.utc
  pub quote_fresh : now.utc ≤ c.quote_timestamp.utc + p.maximum_quote_age_seconds * 1000000
  pub liquid : number_le p.minimum_daily_dollar_volume c.average_daily_dollar_volume ≡ true
  pub fraction : Number
  pub loss_fraction : number_div c.max_loss a.equity ≡ ok fraction
  pub loss_small : number_le fraction p.maximum_single_trade_loss_fraction ≡ true
  pub ruin_small : number_le ruin p.maximum_risk_of_ruin ≡ true

module _ (a : Account) (c : TradeCandidate) (now : Moment) (p : RiskPolicy) (ruin : Number) where
  abbrev clear_flags : Number → List (Bool × String)
  clear_flags f = risk_flags c now p f (number_lt p.maximum_risk_of_ruin ruin)

  within_flags :
      (fraction : Number)
      → number_div c.max_loss a.equity ≡ ok fraction
      → NoneHolds (clear_flags fraction)
      → WithinLimits a c now p ruin
  unfolding risk_flags
  within_flags f e h = record {
    loss_defined = ground arith;
    quote_not_future = ground arith;
    quote_fresh = ground arith;
    liquid = ground arith;
    fraction = f;
    loss_fraction = e;
    loss_small = ground arith;
    ruin_small = ground arith;
  }

  flags_within : (w : WithinLimits a c now p ruin) → NoneHolds (clear_flags w.fraction)
  unfolding risk_flags
  flags_within w = ground arith

  -- At an aware time the gate returns no blocker exactly when the trade is within the policy's
  -- limits: a positive maximum loss, a quote that is neither from the future nor older than the
  -- policy allows, enough liquidity, a loss that is a small enough fraction of the equity, and a
  -- risk of ruin that is small enough.
  pub risk_gate_exact :
      (risk_gate a c (aware now) p (number ruin) ≡ ok []) ↔ WithinLimits a c now p ruin
  unfolding risk_gate aware_or decimal_gt
  risk_gate_exact = (
    (λ h.
        let (f, e, k) = >>=-eq-ok (number_div c.max_loss a.equity) _ h in
        within_flags f e ((reasons-nil (clear_flags f)).0 (ok-injective _ [] k))),
    (λ w. rw w.loss_fraction (ap ok ((reasons-nil (clear_flags w.fraction)).1 (flags_within w)))),
  )
