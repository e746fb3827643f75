-- ===== src/Paper/Authorize/Once.antt =====
-- A plan receives one human decision: whatever is attempted on it, and in whatever order.
use hedge_desk.Prelude.{
  ◌≤◌, ◌≡◌, ◌≢◌, ◌↔◌, refl, ap, ◌∙◌, subst, String, false, List, [], ◌∷◌, is_only_space, NoneHolds,
  after_bind, after_checks, checks_pass, Result, ok, err, ok-injective, arith, value_error,
}
use hedge_desk.Time.{Moment, DateTime, aware, aware_or, aware_or-eq-ok}
use hedge_desk.Digest.{Digest}
use hedge_desk.BackOffice.Compliance.{pass}
use hedge_desk.Paper.Plan.{
  PaperTradePlan, approved, pending, is_pending, machine_pass, assert_plan_integrity,
}
use hedge_desk.Paper.Authorize.{
  approve_paper_trade, reject_paper_trade, authorized, approval_checks, rejection_checks,
  human_checks,
}

-- A human decision as it is put to a plan.
pub data Attempt : Type 0 where
  approve : String → DateTime → Attempt
  reject : String → DateTime → List String → Attempt

unfoldable pub attempt : Digest → PaperTradePlan → Attempt → Result PaperTradePlan
unfolding approve_paper_trade reject_paper_trade
attempt digest p (approve human t) = approve_paper_trade digest p human t
attempt digest p (reject human t codes) = reject_paper_trade digest p human t codes

-- The plan that a caller keeps: an attempt that raises leaves the one before.
kept : PaperTradePlan → Result PaperTradePlan → PaperTradePlan
kept p (ok q) = q
kept p (err e) = p

unfoldable pub attempts : Digest → PaperTradePlan → List Attempt → PaperTradePlan
unfolding attempt kept
attempts digest p [] = p
attempts digest p (a ∷ later) = attempts digest (kept p (attempt digest p a)) later

module _ (digest : Digest) (p q : PaperTradePlan) (human : String) (t : DateTime) where
  -- The conditions of an approval.
  pub record Approvable (decided : Moment) : Type 0 where
    pub intact : assert_plan_integrity digest p ≡ ok tt
    pub named : is_only_space human ≡ false
    pub dated : t ≡ aware decided
    pub machine : p.machine_risk_status ≡ machine_pass
    pub compliance : p.compliance_decision.status ≡ pass
    pub in_time : decided.utc ≤ p.approval_expires_at.utc
    pub undecided : p.authorization.status ≡ pending

  conditions_of_checks :
      (decided : Moment)
      → assert_plan_integrity digest p ≡ ok tt
      → NoneHolds (human_checks human)
      → t ≡ aware decided
      → NoneHolds (approval_checks p decided)
      → Approvable decided
  unfolding human_checks approval_checks
  conditions_of_checks decided intact named dated clear = record {
    intact = intact;
    named = named.0;
    dated = dated;
    machine = ground (arith, clear);
    compliance = ground (arith, clear);
    in_time = ground (arith, clear);
    undecided = ground (arith, clear);
  }

  checks_of_conditions :
      (decided : Moment)
      → Approvable decided
      → NoneHolds (human_checks human) × NoneHolds (approval_checks p decided)
  unfolding human_checks approval_checks
  checks_of_conditions decided k = (
    (k.named, tt),
    (
      ground (arith, k.machine),
      (
        ground (arith, k.compliance),
        (ground (arith, k.in_time), (ground (arith, k.undecided), tt)),
      ),
    ),
  )

  -- An approval succeeds exactly where a named human gives it in time on an intact plan that is
  -- undecided and that passed both the machine risk gate and the Back Office; the new plan differs
  -- from the old one in its authorization only.
  pub approve_exact :
      (approve_paper_trade digest p human t ≡ ok q)
      ↔ ((decided : Moment) × Approvable decided × (authorized approved p human decided [] ≡ q))
  unfolding approve_paper_trade
  approve_exact = (
    (λ h. after_bind (assert_plan_integrity digest p) _ h λ _ intact h₁.
        after_checks (human_checks human) _ h₁ λ named h₂.
          after_bind (aware_or t (value_error "authorization timestamp must be timezone-aware")) _
            h₂
            λ decided dated h₃. after_checks (approval_checks p decided) _ h₃ λ clear h₄. (
              decided,
              conditions_of_checks decided intact named (aware_or-eq-ok t _ decided dated) clear,
              ok-injective _ q h₄,
            )),
    (λ (decided, k, e).
        let (named, clear) = checks_of_conditions decided k in
        rw k.intact (
          rw (checks_pass (human_checks human) named)
            (rw k.dated (rw (checks_pass (approval_checks p decided) clear) (ap ok e))))),
  )

module _ (digest : Digest) where
  approve_decided :
      (p : PaperTradePlan) (human : String) (t : DateTime) (q : PaperTradePlan)
      → is_pending p.authorization.status ≡ false
      → approve_paper_trade digest p human t ≢ ok q
  approve_decided p human t q settled h =
      let (decided, k, e) = (approve_exact digest p q human t).0 h in
      ground (arith, k.undecided, settled)

  reject_decided :
      (p : PaperTradePlan) (human : String) (t : DateTime) (codes : List String)
      (q : PaperTradePlan)
      → is_pending p.authorization.status ≡ false
      → reject_paper_trade digest p human t codes ≢ ok q
  unfolding reject_paper_trade rejection_checks
  reject_decided p human t codes q settled h =
      after_bind (assert_plan_integrity digest p) _ h λ _ _ h₁.
        after_checks (human_checks human) _ h₁ λ _ h₂.
          after_bind (aware_or t (value_error "authorization timestamp must be timezone-aware")) _
            h₂
            λ decided _ h₃.
              after_checks (rejection_checks p decided codes) _ h₃
                λ clear _. ground (arith, clear, settled)

  attempt_settles :
      (p : PaperTradePlan) (a : Attempt) (q : PaperTradePlan)
      → attempt digest p a ≡ ok q
      → is_pending q.authorization.status ≡ false
  unfolding attempt reject_paper_trade authorized
  attempt_settles p (approve human t) q h =
      let (decided, k, e) = (approve_exact digest p q human t).0 h in
      subst (λ r. is_pending r.authorization.status ≡ false) e refl
  attempt_settles p (reject human t codes) q h =
      after_bind (assert_plan_integrity digest p) _ h λ _ _ h₁.
        after_checks (human_checks human) _ h₁ λ _ h₂.
          after_bind (aware_or t (value_error "authorization timestamp must be timezone-aware")) _
            h₂
            λ decided _ h₃. after_checks (rejection_checks p decided codes) _ h₃ λ _ h₄.
              subst (λ r. is_pending r.authorization.status ≡ false) (ok-injective _ q h₄) refl

  kept_when :
      (p : PaperTradePlan) (r : Result PaperTradePlan)
      → ((q : PaperTradePlan) → r ≢ ok q)
      → kept p r ≡ p
  unfolding kept
  kept_when p (ok q) h = elim (h q refl) [ ]
  kept_when p (err e) h = refl

  attempt_decided :
      (p : PaperTradePlan) (a : Attempt)
      → is_pending p.authorization.status ≡ false
      → kept p (attempt digest p a) ≡ p
  unfolding attempt
  attempt_decided p (approve human t) s =
      kept_when p (approve_paper_trade digest p human t) (λ q. approve_decided p human t q s)
  attempt_decided p (reject human t codes) s =
      kept_when p (reject_paper_trade digest p human t codes)
        (λ q. reject_decided p human t codes q s)

  attempts_decided :
      (p : PaperTradePlan) (later : List Attempt)
      → is_pending p.authorization.status ≡ false
      → attempts digest p later ≡ p
  unfolding attempts
  attempts_decided p [] s = refl
  attempts_decided p (a ∷ later) s =
      ap (λ q. attempts digest q later) (attempt_decided p a s) ∙ attempts_decided p later s

  -- The first human decision that succeeds on a plan stands: no approval and no rejection attempted
  -- later, by whomever and whenever, changes the plan again.
  pub first_decision_stands :
      (p : PaperTradePlan) (a : Attempt) (q : PaperTradePlan) (later : List Attempt)
      → attempt digest p a ≡ ok q
      → attempts digest p (a ∷ later) ≡ q
  unfolding attempts kept
  first_decision_stands p a q later h =
      ap (λ r. attempts digest (kept p r) later) h
      ∙ attempts_decided q later (attempt_settles p a q h)
