-- ===== src/Paper/Authorize/Reachable.antt =====
-- The plans that creation and human decisions can lead to, and what a paper open of one promises.
use hedge_desk.Prelude.{
  ◌+◌, ◌*◌, ◌≤◌, ◌≡◌, refl, subst, String, false, Option, some, is_only_space, NoneHolds,
  after_bind, after_checks, ok, ok-injective, arith, value_error,
}
use hedge_desk.Decimal.{ℤ}
use hedge_desk.Time.{Moment, DateTime, aware_or}
use hedge_desk.Digest.{Digest}
use hedge_desk.Domain.{Decision, risk_pass}
use hedge_desk.Options.Spread.{VerticalSpreadCalculation}
use hedge_desk.BackOffice.Compliance.{BackOfficeDecision, pass}
use hedge_desk.Options.Events.{EventCalendarGate}
use hedge_desk.Paper.Plan.{
  PaperTradePlan, HumanAuthorization, approved, machine_pass, assert_plan_integrity,
}
use hedge_desk.Paper.Create.{create_paper_trade_plan}
use hedge_desk.Paper.Create.Sound.{Controlled, create_controlled}
use hedge_desk.Paper.Authorize.{
  PaperOpen, execute_paper_open, reject_paper_trade, authorized, rejection_checks, human_checks,
  open_checks, opening, latest_quote,
}
use hedge_desk.Paper.Authorize.Once.{Attempt, approve, reject, attempt, approve_exact}

module _ (digest : Digest) where
  -- The plans of the desk: those created, and those decided on.
  pub data Reachable : PaperTradePlan → Type 0 where
    created :
        (plan_id : String) (spread : VerticalSpreadCalculation) (risk : Decision)
        (compliance : BackOfficeDecision) (created_at expires_at : DateTime)
        (quote_age control_age : ℤ) (calendar : Option EventCalendarGate) (p : PaperTradePlan)
        → create_paper_trade_plan digest plan_id spread risk compliance created_at expires_at
            quote_age control_age calendar
          ≡ ok p
        → Reachable p
    settled :
        (p q : PaperTradePlan) (a : Attempt) → Reachable p → attempt digest p a ≡ ok q → Reachable q

  -- A human approved the plan in time, after both gates had passed it.
  pub record Approval (p : PaperTradePlan) : Type 0 where
    pub machine : p.machine_risk_status ≡ machine_pass
    pub compliance : p.compliance_decision.status ≡ pass
    pub human : String
    pub named : is_only_space human ≡ false
    pub by : p.authorization.human_id ≡ some human
    pub decided : Moment
    pub at : p.authorization.decided_at ≡ some decided
    pub in_time : decided.utc ≤ p.approval_expires_at.utc

  record Standing (p : PaperTradePlan) : Type 0 where
    pub controls : Controlled digest p
    pub approval : p.authorization.status ≡ approved → Approval p

  controlled_with :
      (p : PaperTradePlan) (a : HumanAuthorization)
      → Controlled digest p
      → Controlled digest (record p { authorization = a })
  unfolding assert_plan_integrity
  controlled_with p a k = record {
    intact = k.intact;
    machine = k.machine;
    quote_age = k.quote_age;
    control_age = k.control_age;
    expires_later = k.expires_later;
    calendar_admissible = k.calendar_admissible;
    calendar_complete = k.calendar_complete;
    paper_only = k.paper_only;
    same_candidate = k.same_candidate;
    same_account = k.same_account;
    same_portfolio = k.same_portfolio;
    approved_policy = k.approved_policy;
    artifact_valid = k.artifact_valid;
    artifact_candidate = k.artifact_candidate;
    artifact_account = k.artifact_account;
    artifact_time = k.artifact_time;
    artifact_environment = k.artifact_environment;
    blocks_kept = k.blocks_kept;
    risk_fresh = k.risk_fresh;
    compliance_fresh = k.compliance_fresh;
  }

  attempt_keeps :
      (p q : PaperTradePlan) (a : Attempt) → Standing p → attempt digest p a ≡ ok q → Standing q
  unfolding attempt reject_paper_trade authorized
  attempt_keeps p q (approve human t) s h =
      let (decided, k, e) = (approve_exact digest p q human t).0 h in
      subst Standing e (record {
        controls = controlled_with p _ s.controls;
        approval = λ _. record {
          machine = k.machine;
          compliance = k.compliance;
          human = human;
          named = k.named;
          by = refl;
          decided = decided;
          at = refl;
          in_time = k.in_time;
        };
      })
  attempt_keeps p q (reject human t codes) s h =
      after_bind (assert_plan_integrity digest p) _ h λ _ _ h₁.
        after_checks (human_checks human) _ h₁ λ _ h₂.
          after_bind (aware_or t (value_error "authorization timestamp must be timezone-aware")) _
            h₂
            λ decided _ h₃. after_checks (rejection_checks p decided codes) _ h₃ λ _ h₄.
              subst Standing (ok-injective _ q h₄)
                (record { controls = controlled_with p _ s.controls; approval = λ e. cc })

  standing : (p : PaperTradePlan) → Reachable p → Standing p
  standing p (created i s r c t u x y g _ h) =
      let k = create_controlled digest i s r c t u x y g p h in
      record { controls = k.0; approval = λ e. cc }
  standing q (settled p _ a r h) = attempt_keeps p q a (standing p r) h

  machine_pass_means :
      (p : PaperTradePlan)
      → Controlled digest p
      → p.machine_risk_status ≡ machine_pass
      → p.risk_decision.status ≡ risk_pass
  machine_pass_means p k h = ground (arith, k.machine, h)

  -- What a paper open promises of its plan.
  pub record OpenSound (p : PaperTradePlan) (o : PaperOpen) : Type 0 where
    pub controls : Controlled digest p
    pub risk : p.risk_decision.status ≡ risk_pass
    pub approval : Approval p
    pub in_window : o.opened_at.utc ≤ p.approval_expires_at.utc
    pub after_quotes : latest_quote p ≤ o.opened_at.utc
    pub quotes_fresh :
        o.opened_at.utc ≤ latest_quote p + p.execution_quote_max_age_seconds * 1000000
    pub same_plan : (o.plan_id ≡ p.plan_id) × (o.plan_hash ≡ p.plan_hash)
    pub same_terms : (o.quantity ≡ p.spread.quantity) × (o.entry_credit ≡ p.spread.net_credit)
    pub paper : o.environment ≡ "paper"

  sound_opening :
      (p : PaperTradePlan) (m : Moment)
      → Standing p
      → NoneHolds (open_checks p m)
      → OpenSound p (opening p m)
  unfolding open_checks opening
  sound_opening p m s clear =
      let yes = s.approval (ground (arith, clear)) in
      record {
        controls = s.controls;
        risk = machine_pass_means p s.controls yes.machine;
        approval = yes;
        in_window = ground (arith, clear);
        after_quotes = ground (arith, clear);
        quotes_fresh = ground (arith, clear);
        same_plan = (refl, refl);
        same_terms = (refl, refl);
        paper = refl;
      }

  -- A paper open of a plan that creation and human decisions led to is of an intact, controlled plan
  -- whose risk decision is RISK_PASS and whose Back Office decision is a pass, which a named human
  -- approved in time; it is inside the approval window, comes after the quotes and while they are
  -- fresh, and has the approved terms.
  pub open_sound :
      (p : PaperTradePlan) (t : DateTime) (o : PaperOpen)
      → Reachable p
      → execute_paper_open digest p t ≡ ok o
      → OpenSound p o
  unfolding execute_paper_open
  open_sound p t o r h = after_bind (assert_plan_integrity digest p) _ h λ _ _ h₁.
      after_bind (aware_or t (value_error "paper-open timestamp must be timezone-aware")) _ h₁
        λ opened _ h₂. after_checks (open_checks p opened) _ h₂ λ clear h₃.
          subst (OpenSound p) (ok-injective _ o h₃) (sound_opening p opened (standing p r) clear)
