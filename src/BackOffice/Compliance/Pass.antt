-- ===== src/BackOffice/Compliance/Pass.antt =====
-- When the Back Office decision passes.
use hedge_desk.Prelude.{
  ◌≡◌, ◌↔◌, refl, sym, ap, subst, ◌∙◌, String, true, List, [], ◌∷◌, ◌++◌, ok, >>=-eq-ok,
  ok-injective, canonical, canonical-nil, append-eq-nil, arith, has, has-canonical, has-append,
}
use hedge_desk.Time.{DateTime, aware, aware_or}
use hedge_desk.Decimal.{Number, number, number_lt}
use hedge_desk.Digest.{Digest}
use hedge_desk.Domain.{
  Account, TradeCandidate, ProductType, equity, defined_risk_option, undefined_risk_option, future,
}
use hedge_desk.AccountGate.{account_gate, is_defined_risk}
use hedge_desk.AccountGate.Eligible.{OptionsReady, EligibleFor, account_gate_exact}
use hedge_desk.BackOffice.Portfolio.{
  PositionExposure, PortfolioPolicy, CircuitBreakerResult, PortfolioGateResult,
  evaluate_portfolio_gate, evaluate_drawdown_circuit_breaker,
}
use hedge_desk.BackOffice.Portfolio.Limits.{WithinPortfolio, portfolio_gate_exact}
use hedge_desk.BackOffice.Traceability.{traceability_sha256, reference_requirements}
use hedge_desk.BackOffice.Compliance.{
  pass, block, status_of, CompliancePolicyDecision, BackOfficeDecision, policy_reasons,
  policy_codes, evaluate_compliance_policy, evaluate_paper_compliance,
}

status_of-pass : (rs : List String) → (status_of rs ≡ pass) ↔ (rs ≡ [])
status_of-pass [] = ((λ h. refl), (λ h. refl))
status_of-pass (x ∷ xs) = ((λ h. cc), (λ h. cc))

module _ (a : Account) (c : TradeCandidate) where
  ready_of_eligible :
      (p : ProductType)
      → is_defined_risk p ≡ true
      → EligibleFor p a c
      → (p ≡ defined_risk_option) × OptionsReady a c
  ready_of_eligible equity h e = cc
  ready_of_eligible defined_risk_option h e = (refl, e)
  ready_of_eligible undefined_risk_option h e = cc
  ready_of_eligible future h e = cc

  policy_codes-nil :
      (policy_codes a c "paper" ≡ [])
      ↔ ((account_gate a c ≡ []) × (is_defined_risk c.product_type ≡ true))
  unfolding policy_codes
  policy_codes-nil = (
    (λ h. let parts = append-eq-nil (account_gate a c) _ h in (parts.0, ground (arith, parts.1))),
    (λ (e, f). rw (e, f)),
  )

  policy_clear :
      (policy_reasons a c "paper" ≡ [])
      ↔ ((c.product_type ≡ defined_risk_option) × OptionsReady a c)
  unfolding policy_reasons
  policy_clear = (
    (λ h.
        let empty = policy_codes-nil.0 ((canonical-nil (policy_codes a c "paper")).0 h) in
        ready_of_eligible c.product_type empty.1 ((account_gate_exact a c).0 empty.0)),
    (λ (e, ready). (canonical-nil (policy_codes a c "paper")).1 (
        policy_codes-nil.1 (
          (account_gate_exact a c).1 (subst (λ q. EligibleFor q a c) (sym e) ready),
          subst (λ q. is_defined_risk q ≡ true) (sym e) refl,
        ))),
  )

compliance_reasons :
    (digest : Digest) (a : Account) (c : TradeCandidate) (t : DateTime) (env : String)
    (art : CompliancePolicyDecision)
    → evaluate_compliance_policy digest a c t env ≡ ok art
    → art.reason_codes ≡ policy_reasons a c env
unfolding evaluate_compliance_policy
compliance_reasons digest a c t env art h =
    let (m, e, h₁) = >>=-eq-ok (aware_or t _) _ h in
    let (trace, f, h₂) = >>=-eq-ok (traceability_sha256 digest reference_requirements) _ h₁ in
    sym (ap (λ x. x.reason_codes) (ok-injective _ art h₂))

module _ (digest : Digest) (a : Account) (c : TradeCandidate) (t : DateTime)
    (ps : List PositionExposure) (p : PortfolioPolicy) (b : CircuitBreakerResult)
    (d : BackOfficeDecision) where
  -- What the Back Office asks before it lets a paper trade pass.
  pub record Cleared : Type 0 where
    pub product : c.product_type ≡ defined_risk_option
    pub options : OptionsReady a c
    pub portfolio : WithinPortfolio a c ps p
    pub not_frozen : b.reason_codes ≡ []

  record Parts : Type 0 where
    compliance : CompliancePolicyDecision
    policy : compliance.reason_codes ≡ policy_reasons a c "paper"
    gate : PortfolioGateResult
    gated : evaluate_portfolio_gate digest a c ps p ≡ ok gate
    status : d.status ≡ status_of d.reason_codes
    reasons :
        d.reason_codes ≡ canonical (compliance.reason_codes ++ gate.reason_codes ++ b.reason_codes)

  parts : evaluate_paper_compliance digest a c t ps p b ≡ ok d → Parts
  unfolding evaluate_paper_compliance
  parts h =
      let (m, e, h₁) = >>=-eq-ok (aware_or t _) _ h in
      let (art, f, h₂) = >>=-eq-ok (evaluate_compliance_policy digest a c (aware m) "paper") _ h₁ in
      let (g, k, h₃) = >>=-eq-ok (evaluate_portfolio_gate digest a c ps p) _ h₂ in
      let same = ok-injective _ d h₃ in
      record {
        compliance = art;
        policy = compliance_reasons digest a c (aware m) "paper" art f;
        gate = g;
        gated = k;
        status = sym (ap (λ x. x.status) same) ∙ ap (λ x. status_of x.reason_codes) same;
        reasons = sym (ap (λ x. x.reason_codes) same);
      }

  -- A Back Office decision passes exactly when the product is a defined-risk option, the account is
  -- ready for options, the portfolio stays within its policy with the candidate added, and the
  -- circuit breaker gave no reason to freeze.
  pub paper_compliance_exact :
      evaluate_paper_compliance digest a c t ps p b ≡ ok d → (d.status ≡ pass) ↔ Cleared
  paper_compliance_exact h =
      let w = parts h in
      let codes = w.compliance.reason_codes ++ w.gate.reason_codes ++ b.reason_codes in
      let gate = portfolio_gate_exact a c ps p digest w.gate w.gated in
      (
        (λ s.
            let none : d.reason_codes ≡ [] = (status_of-pass d.reason_codes).0 (sym w.status ∙ s) in
            let empty = (canonical-nil codes).0 (sym w.reasons ∙ none) in
            let most = append-eq-nil _ b.reason_codes empty in
            let two = append-eq-nil w.compliance.reason_codes w.gate.reason_codes most.0 in
            let ready = (policy_clear a c).0 (sym w.policy ∙ two.0) in
            record {
              product = ready.0;
              options = ready.1;
              portfolio = gate.0 two.1;
              not_frozen = most.1;
            }),
        (λ k.
            let none : codes ≡ [] =
              rw (w.policy, (policy_clear a c).1 (k.product, k.options), gate.1 k.portfolio)
                k.not_frozen in
            w.status
            ∙ (status_of-pass d.reason_codes).1 (w.reasons ∙ (canonical-nil codes).1 none)),
      )

named_blocks :
    (rs : List String) → has "PORTFOLIO_DRAWDOWN_CIRCUIT_BREAKER" rs ≡ true → status_of rs ≡ block
named_blocks [] h = cc
named_blocks (x ∷ xs) h = refl

breaker_reasons :
    (digest : Digest) (x y : Number) (source : String) (b : CircuitBreakerResult)
    → evaluate_drawdown_circuit_breaker digest (number x) (number y) source ≡ ok b
    → number_lt y x ≡ true
    → b.reason_codes ≡ "PORTFOLIO_DRAWDOWN_CIRCUIT_BREAKER" ∷ []
unfolding evaluate_drawdown_circuit_breaker
breaker_reasons digest x y source b h over = ground (arith, h, over)

-- A drawdown above its limit freezes new risk: whatever else holds of the trade, the Back Office
-- decision made with that circuit breaker blocks, and names the breaker among its reasons.
pub breaker_blocks :
    (digest : Digest) (x y : Number) (source : String) (b : CircuitBreakerResult) (a : Account)
    (c : TradeCandidate) (t : DateTime) (ps : List PositionExposure) (p : PortfolioPolicy)
    (d : BackOfficeDecision)
    → evaluate_drawdown_circuit_breaker digest (number x) (number y) source ≡ ok b
    → number_lt y x ≡ true
    → evaluate_paper_compliance digest a c t ps p b ≡ ok d
    → (d.status ≡ block) × (has "PORTFOLIO_DRAWDOWN_CIRCUIT_BREAKER" d.reason_codes ≡ true)
breaker_blocks digest x y source b a c t ps p d made over h =
    let w = parts digest a c t ps p b d h in
    let codes = w.compliance.reason_codes ++ w.gate.reason_codes in
    let named : has "PORTFOLIO_DRAWDOWN_CIRCUIT_BREAKER" d.reason_codes ≡ true =
      rw
        (
          w.reasons,
          has-canonical "PORTFOLIO_DRAWDOWN_CIRCUIT_BREAKER" (codes ++ b.reason_codes),
          has-append "PORTFOLIO_DRAWDOWN_CIRCUIT_BREAKER" codes b.reason_codes,
          breaker_reasons digest x y source b made over,
        )
        (ground arith) in
    (w.status ∙ named_blocks d.reason_codes named, named)
