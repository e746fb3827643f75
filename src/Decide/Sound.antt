-- ===== src/Decide/Sound.antt =====
-- What a decision of `evaluate_candidate` says of its inputs and of the gates.
use hedge_desk.Prelude.{
  ◌≡◌, ◌↔◌, sym, ap, ◌∙◌, subst, subst₂, append-eq-nil, Ascending, has-append, has-canonical,
  canonical-Ascending, canonical-nil, String, true, false, ◌||◌, Option, some, List, [], ◌∷◌, ◌++◌,
  ok, checks-bind, >>=-eq-ok, canonical, is_empty, has, arith, eq_iff, if◌then◌else◌,
}
use hedge_desk.Decimal.{Decimal, number}
use hedge_desk.Time.{DateTime, aware, datetime_gt}
use hedge_desk.Digest.{Digest}
use hedge_desk.Domain.{
  Account, TradeCandidate, Decision, make_decision, DecisionStatus, risk_pass, blocked,
}
use hedge_desk.AccountGate.{account_gate}
use hedge_desk.AccountGate.Eligible.{EligibleFor, account_gate_exact}
use hedge_desk.Risk.{RiskPolicy, risk_gate}
use hedge_desk.Risk.Gate.{WithinLimits, risk_gate_exact}
use hedge_desk.Risk.Inputs.{ValidatedRiskInputs, validate_risk_inputs}
use hedge_desk.Decide.{evaluate_candidate, required, binding_checks, policy_checks, decide}

-- A decision records what it was made from.
record Recorded (status : DecisionStatus) (reasons : List String) (before after : Decimal)
    (at : DateTime) (d : Decision) : Type 0 where
  same_status : d.status ≡ status
  same_reasons : d.reason_codes ≡ reasons
  same_before : before ≡ number d.risk_of_ruin_before
  same_after : after ≡ number d.risk_of_ruin_after
  same_time : at ≡ aware d.evaluated_at

make_decision_records :
    (cid aid : String) (s : DecisionStatus) (rs : List String) (b a : Decimal) (t : DateTime)
    (m v i src snap : String) (d : Decision)
    → make_decision cid aid s rs b a t m v i src snap ≡ ok d
    → Recorded s rs b a t d
unfolding make_decision
make_decision_records cid aid s rs b a t m v i src snap d h = ground arith

pass_without_reasons :
    (found : List String) (s : DecisionStatus) (reasons : List String)
    → s ≡ (if is_empty found then risk_pass else blocked)
    → reasons ≡ found
    → (s ≡ risk_pass) ↔ (reasons ≡ [])
pass_without_reasons [] s reasons e f = ((λ _. f), (λ _. e))
pass_without_reasons (x ∷ xs) s reasons e f = ((λ h. cc), (λ h. cc))

module _ (digest : Digest) (a : Account) (c : TradeCandidate) (t : DateTime) (p : RiskPolicy)
    (given : Option ValidatedRiskInputs) (d : Decision) where
  -- What `evaluate_candidate` went through before it returned the decision.
  record Trace : Type 0 where
    pub inputs : ValidatedRiskInputs
    pub supplied : given ≡ some inputs
    pub validated : validate_risk_inputs digest inputs ≡ ok tt
    pub own_candidate : inputs.candidate_id ≡ c.candidate_id
    pub own_model : inputs.risk_model_id ≡ p.required_risk_model_id
    pub own_version : inputs.risk_model_version ≡ p.required_risk_model_version
    pub permitted : has inputs.validator_id p.permitted_validator_ids ≡ true
    pub not_future : datetime_gt inputs.as_of t ≡ ok false
    pub blockers : List String
    pub gated : risk_gate a c t p inputs.risk_of_ruin_after ≡ ok blockers
    pub decided : decide a c t inputs (canonical (account_gate a c ++ blockers)) ≡ ok d

  trace : evaluate_candidate digest a c t p given ≡ ok d → Trace
  unfolding evaluate_candidate
  trace h =
      let (i, e₁, h₁) = >>=-eq-ok (required given) _ h in
      let (u, e₂, h₂) = >>=-eq-ok (validate_risk_inputs digest i) _ h₁ in
      let (own, h₃) = checks-bind (binding_checks i c) _ d h₂ in
      let (late, e₃, h₄) = >>=-eq-ok (datetime_gt i.as_of t) _ h₃ in
      let (fit, h₅) = checks-bind (policy_checks late i p) _ d h₄ in
      let (bs, e₄, h₆) = >>=-eq-ok (risk_gate a c t p i.risk_of_ruin_after) _ h₅ in
      record {
        inputs = i;
        supplied = ground arith;
        validated = e₂;
        own_candidate = ground (arith, eq_iff i.candidate_id c.candidate_id);
        own_model = ground (arith, eq_iff i.risk_model_id p.required_risk_model_id);
        own_version = ground (arith, eq_iff i.risk_model_version p.required_risk_model_version);
        permitted = ground arith;
        not_future = ground arith;
        blockers = bs;
        gated = e₄;
        decided = h₆;
      }

  recorded :
      (w : Trace)
      → Recorded
          (if is_empty (canonical (account_gate a c ++ w.blockers)) then risk_pass else blocked)
          (canonical (account_gate a c ++ w.blockers))
          w.inputs.risk_of_ruin_before
          w.inputs.risk_of_ruin_after
          t
          d
  unfolding decide
  recorded w = make_decision_records _ _ _ _ _ _ _ _ _ _ _ _ d w.decided

  -- The reason codes of a decision are those of the account gate and those of the risk gate, sorted
  -- and each once; the decision is RISK_PASS exactly when there is none.
  pub evaluate_candidate_reasons :
      evaluate_candidate digest a c t p given ≡ ok d
      → (blockers : List String) × (risk_gate a c t p (number d.risk_of_ruin_after) ≡ ok blockers)
        × ((x : String) → has x d.reason_codes ≡ (has x (account_gate a c) || has x blockers))
        × (Ascending d.reason_codes)
        × ((d.status ≡ risk_pass) ↔ (d.reason_codes ≡ []))
  evaluate_candidate_reasons h =
      let w = trace h in
      let r = recorded w in
      let codes = account_gate a c ++ w.blockers in
      (
        w.blockers,
        subst (λ x. risk_gate a c t p x ≡ ok w.blockers) r.same_after w.gated,
        λ x.
            ap (has x) r.same_reasons
            ∙ has-canonical x codes
            ∙ has-append x (account_gate a c) w.blockers,
        subst Ascending (sym r.same_reasons) (canonical-Ascending codes),
        pass_without_reasons (canonical codes) d.status d.reason_codes r.same_status r.same_reasons,
      )

  -- A RISK_PASS decision is about an eligible account and a trade within the limits of the policy at
  -- the time of the decision and for the risk of ruin that the decision records.
  pub risk_pass_sound :
      evaluate_candidate digest a c t p given ≡ ok d
      → d.status ≡ risk_pass
      → EligibleFor c.product_type a c × WithinLimits a c d.evaluated_at p d.risk_of_ruin_after
  risk_pass_sound h s =
      let (blockers, gated, members, _, status) = evaluate_candidate_reasons h in
      let w = trace h in
      let r = recorded w in
      let codes = account_gate a c ++ w.blockers in
      let clear : codes ≡ [] = (canonical-nil codes).0 (sym r.same_reasons ∙ status.0 s) in
      let open_gate = append-eq-nil (account_gate a c) w.blockers clear in
      (
        (account_gate_exact a c).0 open_gate.0,
        (risk_gate_exact a c d.evaluated_at p d.risk_of_ruin_after).0 (
            subst₂ (λ at x. risk_gate a c at p x ≡ ok []) r.same_time r.same_after
              (w.gated ∙ ap ok open_gate.1)),
      )
