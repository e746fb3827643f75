-- ===== src/Paper/Authorize/Fill.antt =====
-- When a fill check is ready.
use hedge_desk.Prelude.{
  ◌+◌, ◌*◌, ◌≤◌, ◌≡◌, ◌↔◌, sym, ap, ◌∙◌, Bool, true, false, is_empty, is_empty_iff, NoneHolds,
  after_bind, reasons-nil, canonical, flags, ok, ok-injective, arith,
}
use hedge_desk.Decimal.{ℤ, pos_part, neg_part, Decimal, decimal_lt, ◌-ℤ◌}
use hedge_desk.Time.{Moment, aware}
use hedge_desk.Digest.{Digest}
use hedge_desk.BackOffice.Compliance.{pass}
use hedge_desk.Paper.Plan.{PaperTradePlan, approved, machine_pass, assert_plan_integrity}
use hedge_desk.Paper.Authorize.{PaperFillCheck, evaluate_paper_fill, fill_flags, latest_quote}

module _ (p : PaperTradePlan) (size : ℤ) (credit : Decimal) (m : Moment) (adjustment : Bool) where
  -- The executable terms are those of the approved plan, or better.
  pub record Fillable : Type 0 where
    pub human : p.authorization.status ≡ approved
    pub machine : p.machine_risk_status ≡ machine_pass
    pub compliance : p.compliance_decision.status ≡ pass
    pub enough : p.spread.quantity + neg_part size ≤ pos_part size
    pub credit_kept : decimal_lt credit p.spread.net_credit ≡ ok false
    pub unadjusted : adjustment ≡ false
    pub after_quotes : latest_quote p ≤ m.utc
    pub quotes_fresh : m.utc ≤ latest_quote p + p.execution_quote_max_age_seconds * 1000000

  fillable :
      (below : Bool)
      → decimal_lt credit p.spread.net_credit ≡ ok below
      → NoneHolds (fill_flags p size below m adjustment) ↔ Fillable
  unfolding fill_flags ◌-ℤ◌
  fillable below e = (
    (λ clear. record {
      human = ground (arith, clear);
      machine = ground (arith, clear);
      compliance = ground (arith, clear);
      enough = ground (arith, clear);
      credit_kept = ground (arith, clear, e);
      unadjusted = ground (arith, clear);
      after_quotes = ground (arith, clear);
      quotes_fresh = ground (arith, clear);
    }),
    (λ k. (
      ground (arith, k.human),
      (
        ground (arith, k.machine),
        (
          ground (arith, k.compliance),
          (
            ground (arith, k.enough),
            (
              ground (arith, e, k.credit_kept),
              (
                k.unadjusted,
                (
                  ground (arith, k.after_quotes),
                  (ground (arith, k.after_quotes, k.quotes_fresh), tt),
                ),
              ),
            ),
          ),
        ),
      ),
    )),
  )

-- A fill check that returned is ready exactly where a human approved the plan, both gates passed it,
-- the combination is large enough, the credit is not below the approved one, no contract adjustment
-- is pending, and the check comes after the quotes and while they are fresh.
pub fill_ready_exact :
    (digest : Digest) (p : PaperTradePlan) (size : ℤ) (credit : Decimal) (m : Moment)
    (adjustment : Bool) (c : PaperFillCheck)
    → evaluate_paper_fill digest p size credit (aware m) adjustment ≡ ok c
    → (c.ready ≡ true) ↔ Fillable p size credit m adjustment
unfolding evaluate_paper_fill
fill_ready_exact digest p size credit m adjustment c h =
    after_bind (assert_plan_integrity digest p) _ h λ _ _ h₁.
      after_bind (decimal_lt credit p.spread.net_credit) _ h₁ λ below e h₂.
        let fs = fill_flags p size below m adjustment in
        let same : is_empty (canonical (flags fs)) ≡ c.ready =
          ap (λ r. r.ready) (ok-injective _ c h₂) in
        let empty = is_empty_iff (canonical (flags fs)) in
        let none_holds = reasons-nil fs in
        let terms = fillable p size credit m adjustment below e in
        (
          (λ ready. terms.0 (none_holds.0 (empty.0 (same ∙ ready)))),
          (λ k. sym same ∙ empty.1 (none_holds.1 (terms.1 k))),
        )
