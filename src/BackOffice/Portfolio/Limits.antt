-- ===== src/BackOffice/Portfolio/Limits.antt =====
-- The portfolio gate against the limits of its policy.
use hedge_desk.Prelude.{
  ◌+◌, ◌≤◌, ◌≡◌, ◌↔◌, sym, ap, ◌∙◌, true, List, [], ◌∷◌, map, length, ok, checks-bind, >>=-eq-ok,
  ok-injective, reasons-nil, NoneHolds, has_double, arith,
}
use hedge_desk.Decimal.{Number, number_le, number_div}
use hedge_desk.Digest.{Digest}
use hedge_desk.Domain.{Account, TradeCandidate}
use hedge_desk.BackOffice.Portfolio.{
  PositionExposure, PortfolioPolicy, PortfolioGateResult, aggregate_after, symbol_after,
  portfolio_flags, evaluate_portfolio_gate,
}

module _ (a : Account) (c : TradeCandidate) (ps : List PositionExposure) (p : PortfolioPolicy) where
  -- With the candidate added, the portfolio is within the policy.
  pub record WithinPortfolio : Type 0 where
    pub room : length ps + 1 ≤ p.maximum_open_positions
    pub aggregate : Number
    pub aggregate_fraction : number_div (aggregate_after c ps) a.equity ≡ ok aggregate
    pub aggregate_small : number_le aggregate p.maximum_aggregate_loss_fraction ≡ true
    pub symbol : Number
    pub symbol_fraction : number_div (symbol_after c ps) a.equity ≡ ok symbol
    pub symbol_small : number_le symbol p.maximum_symbol_loss_fraction ≡ true

  limits_clear :
      (x y : Number)
      → number_div (aggregate_after c ps) a.equity ≡ ok x
      → number_div (symbol_after c ps) a.equity ≡ ok y
      → NoneHolds (portfolio_flags ps p x y) ↔ WithinPortfolio
  unfolding portfolio_flags
  limits_clear x y e f = (
    (λ h. record {
      room = ground arith;
      aggregate = x;
      aggregate_fraction = e;
      aggregate_small = ground arith;
      symbol = y;
      symbol_fraction = f;
      symbol_small = ground arith;
    }),
    (λ w. ground (arith, w)),
  )

  -- A portfolio gate that returned gave no reason exactly when the portfolio is within the policy
  -- with the candidate added: few enough open positions, and small enough losses in all and on the
  -- candidate's symbol, as fractions of the equity.
  pub portfolio_gate_exact :
      (digest : Digest) (g : PortfolioGateResult)
      → evaluate_portfolio_gate digest a c ps p ≡ ok g
      → (g.reason_codes ≡ []) ↔ WithinPortfolio
  unfolding evaluate_portfolio_gate
  portfolio_gate_exact digest g h =
      let (_, h₁) = checks-bind ((has_double (map (λ q. q.position_id) ps), _) ∷ []) _ g h in
      let (x, e, h₂) = >>=-eq-ok (number_div (aggregate_after c ps) a.equity) _ h₁ in
      let (y, f, h₃) = >>=-eq-ok (number_div (symbol_after c ps) a.equity) _ h₂ in
      let codes = ap (λ r. r.reason_codes) (ok-injective _ g h₃) in
      let clear = reasons-nil (portfolio_flags ps p x y) in
      (
        (λ none. (limits_clear x y e f).0 (clear.0 (codes ∙ none))),
        (λ w. sym codes ∙ clear.1 ((limits_clear x y e f).1 w)),
      )
