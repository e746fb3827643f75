-- ===== src/Paper/Authorize/Opened.antt =====
-- The hash that a paper open hands on is that of the plan's content.
use hedge_desk.Prelude.{
  ◌≡◌, refl, subst, after_bind, after_checks, ok, ok-injective, arith, value_error, eq_iff,
}
use hedge_desk.Time.{DateTime, aware_or}
use hedge_desk.Digest.{Digest}
use hedge_desk.Paper.Plan.{PaperTradePlan, assert_plan_integrity, plan_payload, calculate_plan_hash}
use hedge_desk.Paper.Authorize.{PaperOpen, execute_paper_open, open_checks, opening}

pub integrity-eq-ok :
    (digest : Digest) (p : PaperTradePlan) (u : Unit {0})
    → assert_plan_integrity digest p ≡ ok u
    → digest (plan_payload p) ≡ p.plan_hash
unfolding assert_plan_integrity calculate_plan_hash
integrity-eq-ok digest p u h = ground (arith, h, eq_iff (digest (plan_payload p)) p.plan_hash)

pub open_hashed :
    (digest : Digest) (p : PaperTradePlan) (t : DateTime) (o : PaperOpen)
    → execute_paper_open digest p t ≡ ok o
    → (digest (plan_payload p) ≡ p.plan_hash) × (o.plan_hash ≡ p.plan_hash)
unfolding execute_paper_open opening
open_hashed digest p t o h = after_bind (assert_plan_integrity digest p) _ h λ _ intact h₁.
    after_bind (aware_or t (value_error "paper-open timestamp must be timezone-aware")) _ h₁
      λ opened _ h₂. after_checks (open_checks p opened) _ h₂ λ clear h₃. (
        integrity-eq-ok digest p _ intact,
        subst (λ x. x.plan_hash ≡ p.plan_hash) (ok-injective _ o h₃) refl,
      )
