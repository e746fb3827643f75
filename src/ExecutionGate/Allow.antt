-- ===== src/ExecutionGate/Allow.antt =====
-- When the execution gate allows a paper order.
use hedge_desk.Prelude.{
  ◌≡◌, ◌↔◌, refl, sym, ap, ◌∙◌, String, true, false, not, Option, some, none, List, [], ◌∷◌,
  NoneHolds, after_bind, canonical, flags, reasons-nil, is_empty, is_empty_iff, ok, ok-injective,
  arith, eq_iff, if◌then◌else◌,
}
use hedge_desk.Decimal.{Decimal}
use hedge_desk.Time.{Moment, aware}
use hedge_desk.Digest.{Digest}
use hedge_desk.Domain.{Account, TradeCandidate}
use hedge_desk.Risk.{RiskPolicy, risk_gate}
use hedge_desk.Release.{
  ReleaseEvidence, ReleaseReadiness, ReleaseStatus, ready_for_separate_authorization,
  evaluate_live_release_readiness,
}
use hedge_desk.ExecutionGate.{
  KillSwitch, ExecutionDecision, evaluate_execution, risk_reasons_of, evidence_or_reference,
  is_ready, execution_flags, execution_decision, stamped,
}

is_ready_iff : (s : ReleaseStatus) → (is_ready s ≡ true) ↔ (s ≡ ready_for_separate_authorization)
is_ready_iff ready_for_separate_authorization = ((λ _. refl), (λ _. refl))
is_ready_iff ReleaseStatus.release_blocked = ((λ h. cc), (λ h. cc))

abbrev action_of : List String → String
action_of codes = if is_empty codes then "ALLOW_PAPER" else "BLOCKED"

allow_codes : (codes : List String) → (action_of codes ≡ "ALLOW_PAPER") ↔ (codes ≡ [])
allow_codes [] = ((λ _. refl), (λ _. refl))
allow_codes (c ∷ cs) = ((λ h. cc ((eq_iff "BLOCKED" "ALLOW_PAPER").1 h)), (λ h. cc))

module _ (digest : Digest) (c : TradeCandidate) (a : Account) (m : Moment) (ruin : Option Decimal)
    (policy : RiskPolicy) (switch : KillSwitch) (evidence : Option (List ReleaseEvidence)) where
  -- What has to hold for an order: the switch is armed, a risk of ruin is supplied on which the risk
  -- gate finds no blocker, and the release evidence is ready.
  pub record Allowed : Type 0 where
    pub armed : switch.armed ≡ true
    pub supplied : Decimal
    pub is_supplied : ruin ≡ some supplied
    pub gate_clear : risk_gate a c (aware m) policy supplied ≡ ok []
    pub release : ReleaseReadiness
    pub evaluated :
        evaluate_live_release_readiness digest (evidence_or_reference evidence) ≡ ok release
    pub ready : release.status ≡ ready_for_separate_authorization

  to_allowed :
      (given : Option Decimal) (rs : List String) (r : ReleaseReadiness)
      → ruin ≡ given
      → risk_reasons_of a c m policy given ≡ ok rs
      → evaluate_live_release_readiness digest (evidence_or_reference evidence) ≡ ok r
      → NoneHolds (execution_flags switch given rs (is_ready r.status))
      → Allowed
  unfolding risk_reasons_of execution_flags
  to_allowed none rs r e f g h = cc (h.1.0)
  to_allowed (some x) rs r e f g h = record {
    armed = ground (arith, h);
    supplied = x;
    is_supplied = e;
    gate_clear = f ∙ ap ok ((is_empty_iff rs).0 (ground (arith, h)));
    release = r;
    evaluated = g;
    ready = (is_ready_iff r.status).0 (ground (arith, h));
  }

  of_allowed :
      (given : Option Decimal) (rs : List String) (r : ReleaseReadiness)
      → ruin ≡ given
      → risk_reasons_of a c m policy given ≡ ok rs
      → evaluate_live_release_readiness digest (evidence_or_reference evidence) ≡ ok r
      → Allowed
      → NoneHolds (execution_flags switch given rs (is_ready r.status))
  unfolding risk_reasons_of execution_flags
  of_allowed none rs r e f g k = cc (sym e ∙ k.is_supplied)
  of_allowed (some x) rs r e f g k =
      let same : x ≡ k.supplied = some_injective x k.supplied (sym e ∙ k.is_supplied) in
      let clear : rs ≡ [] =
        ok-injective rs [] (sym f ∙ ap (risk_gate a c (aware m) policy) same ∙ k.gate_clear) in
      let release : r ≡ k.release = ok-injective r k.release (sym g ∙ k.evaluated) in
      (
        ap not k.armed,
        (
          refl,
          (
            ap (λ y. not (is_empty y)) clear,
            (
              ap not
                  (ap (λ y. is_ready y.status) release ∙ (is_ready_iff k.release.status).1 k.ready),
              tt,
            ),
          ),
        ),
      )
    where
      some_injective : (p q : Decimal) → some p ≡ some q → p ≡ q
      some_injective p q h = cc

  -- An execution decision that was evaluated allows a paper order exactly where the kill switch is
  -- armed, a risk of ruin was supplied on which the risk gate finds no blocker, and the release
  -- evidence, or else the reference evidence, is ready; in no case does it authorize a trade.
  pub allow_paper_exact :
      (d : ExecutionDecision)
      → evaluate_execution digest c a (aware m) ruin policy switch evidence ≡ ok d
      → ((d.decision ≡ "ALLOW_PAPER") ↔ Allowed) × (d.trade_authorized ≡ false)
  unfolding evaluate_execution execution_decision stamped
  allow_paper_exact d h = after_bind (risk_reasons_of a c m policy ruin) _ h λ rs f h₁.
      after_bind (evaluate_live_release_readiness digest (evidence_or_reference evidence)) _ h₁
        λ r g h₂.
          let e = ok-injective _ d h₂ in
          let fs = execution_flags switch ruin rs (is_ready r.status) in
          let same : action_of (canonical (flags fs)) ≡ d.decision = ap (λ x. x.decision) e in
          let codes = allow_codes (canonical (flags fs)) in
          let nil = reasons-nil fs in
          (
            (
              (λ allow. to_allowed ruin rs r refl f g (nil.0 (codes.0 (same ∙ allow)))),
              (λ k. sym same ∙ codes.1 (nil.1 (of_allowed ruin rs r refl f g k))),
            ),
            sym (ap (λ x. x.trade_authorized) e),
          )
