-- ===== src/Paper/Close/Bound.antt =====
-- A close belongs to the plan that was opened, and settles it at the displayed prices.
use hedge_desk.Prelude.{
  ◌<◌, ◌≡◌, ◌≢◌, sym, ap, ◌∙◌, subst, String, Bool, after_bind, after_checks, ok, ok-injective,
  arith, value_error, eq_iff,
}
use hedge_desk.Decimal.{Decimal}
use hedge_desk.Time.{DateTime, aware, aware_or, aware_or-eq-ok}
use hedge_desk.Digest.{Digest, Field, joined, TextCollision}
use hedge_desk.Options.Quotes.{OptionQuote}
use hedge_desk.Options.Exit.{PremiumExitPolicy, PremiumExitEvaluation, evaluate_premium_exit}
use hedge_desk.Paper.Plan.{PaperTradePlan, approved, assert_plan_integrity, plan_payload}
use hedge_desk.Paper.Authorize.{PaperOpen, execute_paper_open}
use hedge_desk.Paper.Authorize.Opened.{open_hashed, integrity-eq-ok}
use hedge_desk.Paper.Close.{PaperClose, close_paper_trade, close_checks, closing}

module _ (digest : Digest) (p q : PaperTradePlan) (t u : DateTime) (o : PaperOpen) (c : PaperClose)
    (short long : OptionQuote) (commission : Decimal) (escalation : Bool)
    (policy : PremiumExitPolicy) where
  -- What a close says of the open and of the plan that it was given.
  pub record Closed : Type 0 where
    pub hashed : digest (plan_payload q) ≡ o.plan_hash
    pub human : q.authorization.status ≡ approved
    pub closed_at : u ≡ aware c.closed_at
    pub later : o.opened_at.utc < c.closed_at.utc
    pub evaluation : PremiumExitEvaluation
    pub evaluated :
        evaluate_premium_exit digest q.spread short long
          (aware c.closed_at)
          commission
          escalation
          policy
        ≡ ok evaluation
    pub settled :
        (c.exit_debit ≡ evaluation.executable_close_debit)
        × (c.exit_commission ≡ evaluation.close_commission)
        × (c.realized_pnl ≡ evaluation.marked_pnl)
        × (c.exit_evaluation_sha256 ≡ evaluation.artifact_sha256)
    pub same_plan : (o.plan_id ≡ q.plan_id) × (c.plan_id ≡ o.plan_id) × (c.plan_hash ≡ o.plan_hash)
    pub same_terms : (o.spread_id ≡ q.spread.spread_id) × (o.quantity ≡ q.spread.quantity)
    pub paper : (o.environment ≡ "paper") × (c.environment ≡ "paper")

  close_inverts :
      close_paper_trade digest o q short long commission u escalation policy ≡ ok c → Closed
  unfolding close_paper_trade close_checks closing
  close_inverts h = after_bind (assert_plan_integrity digest q) _ h λ _ intact h₁.
      after_bind (aware_or u (value_error "paper-close timestamp must be timezone-aware")) _ h₁
        λ closed dated h₂. after_checks (close_checks o q closed) _ h₂ λ clear h₃.
          after_bind
            (evaluate_premium_exit digest q.spread short long (aware closed) commission escalation
              policy)
            _ h₃
            λ e evaluated h₄.
              let p₁ = ok-injective _ c h₄ in
              record {
                hashed =
                    integrity-eq-ok digest q _ intact
                    ∙ sym (ground (arith, clear, eq_iff o.plan_hash q.plan_hash));
                human = ground (arith, clear);
                closed_at = aware_or-eq-ok u _ closed dated ∙ ap (λ x. aware x.closed_at) p₁;
                later = subst (λ x. o.opened_at.utc < x.closed_at.utc) p₁ (ground (arith, clear));
                evaluation = e;
                evaluated =
                    subst
                      (λ x.
                        evaluate_premium_exit digest q.spread short long (aware x.closed_at)
                          commission escalation policy
                        ≡ ok e)
                      p₁ evaluated;
                settled = (
                  sym (ap (λ x. x.exit_debit) p₁),
                  sym (ap (λ x. x.exit_commission) p₁),
                  sym (ap (λ x. x.realized_pnl) p₁),
                  sym (ap (λ x. x.exit_evaluation_sha256) p₁),
                );
                same_plan = (
                  ground (arith, clear, eq_iff o.plan_id q.plan_id),
                  sym (ap (λ x. x.plan_id) p₁),
                  sym (ap (λ x. x.plan_hash) p₁),
                );
                same_terms = (
                  ground (arith, clear, eq_iff o.spread_id q.spread.spread_id),
                  ground (arith, clear),
                );
                paper = (
                  ground (arith, clear, eq_iff o.environment "paper"),
                  sym (ap (λ x. x.environment) p₁),
                );
              }

  -- A close of an open comes later than it, is of its plan, spread and quantity, which a human
  -- approved, and books the debit, the commission, the gain and the hash of the exit evaluation at the
  -- time of the close. Where the plan's leaves are joined to one text that is hashed, the plan of the
  -- close and the opened plan have one hash, so that they have one joined text, or else their two texts
  -- collide.
  pub close_binds :
      (sha : String → String) (render : Field → String)
      → ((x : PaperTradePlan) → digest (plan_payload x) ≡ sha (joined render (plan_payload x)))
      → execute_paper_open digest p t ≡ ok o
      → close_paper_trade digest o q short long commission u escalation policy ≡ ok c
      → Closed
        × (digest (plan_payload p) ≡ digest (plan_payload q))
        × (joined render (plan_payload p) ≢ joined render (plan_payload q) → TextCollision sha)
  close_binds sha render joins h k =
      let opened = open_hashed digest p t o h in
      let closed = close_inverts k in
      let same = opened.0 ∙ sym opened.1 ∙ sym closed.hashed in
      (
        closed,
        same,
        λ differ. record {
          left = joined render (plan_payload p);
          right = joined render (plan_payload q);
          differ = differ;
          collide = sym (joins p) ∙ same ∙ joins q;
        },
      )
