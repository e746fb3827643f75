-- ===== src/Paper/Create/Sound.antt =====
-- What a created plan promises.
use hedge_desk.Prelude.{
  ◌+◌, ◌*◌, ◌≤◌, ◌<◌, ◌≡◌, sym, inl, inr, str_eq, Bool-cases, refl, subst, String, true, false, not,
  Option, List, [], ◌∷◌, any, has, NoneHolds, after_bind, after_checks, ok, ok-injective, arith,
  eq_iff, eq_refl, is_blank, is_empty, value_error, type_error,
}
use hedge_desk.Decimal.{ℤ, pos_part, is_positive}
use hedge_desk.Time.{Moment, DateTime, aware, aware_or, aware_or-eq-ok, datetime_eq}
use hedge_desk.Digest.{Digest}
use hedge_desk.Domain.{Decision}
use hedge_desk.Options.Spread.{VerticalSpreadCalculation}
use hedge_desk.BackOffice.Compliance.{
  BackOfficeDecision, block, validate_compliance_policy_artifact,
}
use hedge_desk.Options.Events.{EventCalendarGate}
use hedge_desk.Paper.Plan.{
  PaperTradePlan, pending, machine_status, calculate_plan_hash, assert_plan_integrity,
}
use hedge_desk.Paper.Create.{
  create_paper_trade_plan, window_checks, required_calendar, calendar_checks, binding_checks,
  artifact_checks, age_checks, draft, hashed, approved_versions,
}

-- The controls of a plan: what its risk decision, its compliance decision and its event calendar
-- say together, whatever was decided on it.
module _ (digest : Digest) (p : PaperTradePlan) where
  pub record Controlled : Type 0 where
    pub intact : assert_plan_integrity digest p ≡ ok tt
    pub machine : p.machine_risk_status ≡ machine_status p.risk_decision.status
    pub quote_age : 1 ≤ p.execution_quote_max_age_seconds
    pub control_age : 1 ≤ p.control_artifact_max_age_seconds
    pub expires_later : p.created_at.utc < p.approval_expires_at.utc
    pub calendar_admissible : p.event_calendar_gate.admissible ≡ true
    pub calendar_complete : p.spread.expiration_date ≤ p.event_calendar_gate.complete_through
    pub paper_only : p.compliance_decision.environment ≡ "paper"
    pub same_candidate : p.compliance_decision.candidate_id ≡ p.risk_decision.candidate_id
    pub same_account : p.compliance_decision.account_id ≡ p.risk_decision.account_id
    pub same_portfolio :
        p.risk_decision.portfolio_snapshot_sha256 ≡ p.compliance_decision.portfolio_snapshot_sha256
    pub approved_policy : has p.compliance_decision.policy_version approved_versions ≡ true
    pub artifact_valid :
        validate_compliance_policy_artifact digest p.compliance_decision.policy_decision ≡ ok []
    pub artifact_candidate :
        p.compliance_decision.policy_decision.candidate_id ≡ p.risk_decision.candidate_id
    pub artifact_account :
        p.compliance_decision.policy_decision.account_id ≡ p.risk_decision.account_id
    pub artifact_time :
        datetime_eq p.compliance_decision.policy_decision.evaluated_at
          p.compliance_decision.evaluated_at
        ≡ true
    pub artifact_environment : p.compliance_decision.policy_decision.environment ≡ "paper"
    pub blocks_kept :
        p.compliance_decision.policy_decision.status ≡ block
        → (x : String) → has x p.compliance_decision.policy_decision.reason_codes ≡ true
        → has x p.compliance_decision.reason_codes ≡ true
    pub risk_fresh :
        (p.risk_decision.evaluated_at.utc ≤ p.created_at.utc)
        × (p.created_at.utc
            ≤ p.risk_decision.evaluated_at.utc + p.control_artifact_max_age_seconds * 1000000)
    pub compliance_fresh :
        (at : Moment) × (p.compliance_decision.evaluated_at ≡ aware at)
        × (at.utc ≤ p.created_at.utc)
        × (p.created_at.utc ≤ at.utc + p.control_artifact_max_age_seconds * 1000000)

is_positive_lem : (n : ℤ) → is_positive n ≡ true → 1 ≤ pos_part n
is_positive_lem n h = ground arith

none_missing :
    (kept codes : List String)
    → any (λ code. not (has code kept)) codes ≡ false
    → (x : String) → has x codes ≡ true
    → has x kept ≡ true
none_missing kept [] h x m = cc
none_missing kept (c ∷ cs) h x m = elim (Bool-cases (str_eq x c)) [
  | inl e ↦ subst (λ w. has w kept ≡ true) (sym ((eq_iff x c).0 e)) (ground arith)
  | inr n ↦ none_missing kept cs (ground arith) x (ground arith)
]

intact_when_hashed :
    (digest : Digest) (p : PaperTradePlan) → assert_plan_integrity digest (hashed digest p) ≡ ok tt
unfolding assert_plan_integrity hashed
intact_when_hashed digest p = ground (arith, eq_refl (calculate_plan_hash digest p))

module _ (digest : Digest) (plan_id : String) (spread : VerticalSpreadCalculation) (risk : Decision)
    (compliance : BackOfficeDecision) (created_at expires_at : DateTime) (quote_age control_age : ℤ)
    (calendar : Option EventCalendarGate) where
  controlled :
      (gate : EventCalendarGate) (created expires at : Moment)
      → NoneHolds (window_checks created expires quote_age control_age)
      → NoneHolds (calendar_checks spread gate)
      → NoneHolds (binding_checks risk compliance)
      → validate_compliance_policy_artifact digest compliance.policy_decision ≡ ok []
      → NoneHolds (artifact_checks risk compliance)
      → NoneHolds (
          age_checks created
            (pos_part control_age)
            risk.evaluated_at
            "risk control cannot be from the future"
            "risk control artifact is stale")
      → compliance.evaluated_at ≡ aware at
      → NoneHolds (
          age_checks created
            (pos_part control_age)
            at
            "compliance control cannot be from the future"
            "compliance control artifact is stale")
      → Controlled digest (
          hashed digest (
            draft plan_id spread risk compliance gate created expires
              (pos_part quote_age)
              (pos_part control_age)))
  unfolding window_checks calendar_checks binding_checks artifact_checks age_checks draft hashed
  controlled gate created expires at window cal binding valid artifact risk_age dated age = record {
    intact = intact_when_hashed digest (
        draft plan_id spread risk compliance gate created expires (pos_part quote_age)
          (pos_part control_age));
    machine = refl;
    quote_age = is_positive_lem quote_age (ground (arith, window));
    control_age = is_positive_lem control_age (ground (arith, window));
    expires_later = ground (arith, window);
    calendar_admissible = ground (arith, cal);
    calendar_complete = ground (arith, cal);
    paper_only = ground (arith, binding, eq_iff compliance.environment "paper");
    same_candidate = ground (arith, binding, eq_iff compliance.candidate_id risk.candidate_id);
    same_account = ground (arith, binding, eq_iff compliance.account_id risk.account_id);
    same_portfolio = ground (
      arith,
      binding,
      eq_iff risk.portfolio_snapshot_sha256 compliance.portfolio_snapshot_sha256,
    );
    approved_policy = ground (arith, binding);
    artifact_valid = valid;
    artifact_candidate =
        ground (arith, artifact, eq_iff compliance.policy_decision.candidate_id risk.candidate_id);
    artifact_account =
        ground (arith, artifact, eq_iff compliance.policy_decision.account_id risk.account_id);
    artifact_time = ground (arith, artifact);
    artifact_environment = ground (
      arith,
      artifact,
      binding,
      eq_iff compliance.policy_decision.environment compliance.environment,
      eq_iff compliance.environment "paper",
    );
    blocks_kept = λ blocked.
        none_missing compliance.reason_codes compliance.policy_decision.reason_codes
          (ground (arith, artifact, blocked));
    risk_fresh = (ground (arith, risk_age), ground (arith, risk_age));
    compliance_fresh = (at, dated, ground (arith, age), ground (arith, age));
  }

  empty_codes : (codes : List String) → not (is_empty codes) ≡ false → codes ≡ []
  empty_codes [] h = refl
  empty_codes (c ∷ cs) h = cc

  -- A plan that `create_paper_trade_plan` returned is pending, intact, and holds the spread and the
  -- two decisions it was given. Its risk decision and its compliance decision are about one candidate,
  -- account and portfolio, and both are fresh; the compliance decision is of an approved policy
  -- version and for paper; the compliance artifact in it is valid, is about the same candidate and
  -- account, is of the same time and for paper, and what it blocks for is among the decision's
  -- reasons; the age limits are positive, the approval expires after the creation, and the event
  -- calendar is admissible and covers the expiration.
  pub create_controlled :
      (p : PaperTradePlan)
      → create_paper_trade_plan digest plan_id spread risk compliance created_at expires_at
          quote_age control_age calendar
        ≡ ok p
      → Controlled digest p
        × (p.authorization.status ≡ pending)
        × (p.spread ≡ spread)
        × (p.risk_decision ≡ risk)
        × (p.compliance_decision ≡ compliance)
  unfolding create_paper_trade_plan
  create_controlled p h =
      after_checks ((is_blank plan_id, value_error "plan identity is required") ∷ []) _ h λ _ h₁.
        after_bind (aware_or created_at (value_error "plan timestamps must be timezone-aware")) _ h₁
          λ created _ h₂.
            after_bind (aware_or expires_at (value_error "plan timestamps must be timezone-aware"))
              _ h₂
              λ expires _ h₃.
                after_checks (window_checks created expires quote_age control_age) _ h₃ λ window h₄.
                  after_bind (required_calendar calendar) _ h₄ λ gate _ h₅.
                    after_checks (calendar_checks spread gate) _ h₅ λ cal h₆.
                      after_checks (binding_checks risk compliance) _ h₆ λ binding h₇.
                        after_bind
                          (validate_compliance_policy_artifact digest compliance.policy_decision) _
                          h₇
                          λ codes valid h₈.
                            after_checks
                              ((not (is_empty codes), value_error "invalid compliance artifact")
                                ∷ [])
                              _ h₈
                              λ empty h₉.
                                after_checks (artifact_checks risk compliance) _ h₉ λ artifact h₁₀.
                                  after_checks
                                    (age_checks created (pos_part control_age) risk.evaluated_at
                                      "risk control cannot be from the future"
                                      "risk control artifact is stale")
                                    _ h₁₀
                                    λ risk_age h₁₁.
                                      after_bind (aware_or compliance.evaluated_at type_error) _ h₁₁
                                        λ at dated h₁₂.
                                          after_checks
                                            (age_checks created (pos_part control_age) at
                                              "compliance control cannot be from the future"
                                              "compliance control artifact is stale")
                                            _ h₁₂
                                            λ age h₁₃.
                                              subst
                                                (λ q.
                                                  Controlled digest q
                                                  × (q.authorization.status ≡ pending)
                                                  × (q.spread ≡ spread)
                                                  × (q.risk_decision ≡ risk)
                                                  × (q.compliance_decision ≡ compliance))
                                                (ok-injective _ p h₁₃)
                                                (
                                                  controlled gate created expires at window cal
                                                      binding
                                                      (subst
                                                        (λ w.
                                                          validate_compliance_policy_artifact digest
                                                            compliance.policy_decision
                                                          ≡ ok w)
                                                        (empty_codes codes empty.0) valid)
                                                      artifact risk_age
                                                      (aware_or-eq-ok compliance.evaluated_at
                                                        type_error at dated)
                                                      age,
                                                  refl,
                                                  refl,
                                                  refl,
                                                  refl,
                                                )
