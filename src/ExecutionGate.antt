-- ===== src/ExecutionGate.antt =====
-- execution_gate.py: the decision before an order, behind the kill switch, the risk gate and the
-- release gate.
pub mod Allow
use hedge_desk.Prelude.{
  String, Bool, true, false, not, ◌||◌, ◌&&◌, Option, none, some, List, [], ◌∷◌, ◌++◌, Error,
  value_error, Result, ok, err, ◌>>=◌, ◌>>◌, canonical, flags, is_empty, if◌then◌else◌, str_eq,
}
use hedge_desk.Decimal.{Number, Decimal}
use hedge_desk.Time.{Moment, DateTime, aware, aware_or}
use hedge_desk.Digest.{Digest, Field, text, texts, number, flag}
use hedge_desk.Domain.{Account, TradeCandidate}
use hedge_desk.Risk.{RiskPolicy, risk_gate}
use hedge_desk.Release.{
  ReleaseEvidence, ReleaseReadiness, ReleaseStatus, ready_for_separate_authorization,
  release_blocked, reference_evidence, evaluate_live_release_readiness,
}

pub record KillSwitch : Type 0 where
  pub armed : Bool
  pub source : String

pub record ExecutionDecision : Type 0 where
  pub decision : String
  pub reason_codes : List String
  pub risk_gate_reasons : List String
  pub kill_switch_armed : Bool
  pub release_ready : Bool
  pub trade_authorized : Bool
  pub decision_sha256 : String
  pub evaluated_at : Moment

-- The reasons of the risk gate, which is asked only where a risk of ruin is supplied.
risk_reasons_of :
    Account → TradeCandidate → Moment → RiskPolicy → Option Decimal → Result (List String)
risk_reasons_of account candidate now policy none = ok []
risk_reasons_of account candidate now policy (some ruin) =
    risk_gate account candidate (aware now) policy ruin

-- release_evidence or the reference evidence: no evidence and an empty tuple are both replaced
abbrev pub evidence_or_reference : Option (List ReleaseEvidence) → List ReleaseEvidence
evidence_or_reference none = reference_evidence
evidence_or_reference (some []) = reference_evidence
evidence_or_reference (some (x ∷ xs)) = x ∷ xs

abbrev pub is_ready : ReleaseStatus → Bool
is_ready ready_for_separate_authorization = true
is_ready release_blocked = false

abbrev pub is_absent : Option Decimal → Bool
is_absent none = true
is_absent (some x) = false

execution_flags : KillSwitch → Option Decimal → List String → Bool → List (Bool × String)
execution_flags switch ruin risk_reasons ready =
    (not switch.armed, "KILL_SWITCH_OFF")
    ∷ (is_absent ruin, "RISK_INPUT_ABSENT")
    ∷ (not (is_empty risk_reasons), "RISK_GATE_BLOCKED")
    ∷ (not ready, "LIVE_RELEASE_NOT_READY")
    ∷ []

-- The decision before its hash is filled in.
execution_decision : KillSwitch → Moment → List String → Bool → List String → ExecutionDecision
execution_decision switch now risk_reasons ready reasons = record {
  decision = if is_empty reasons then "ALLOW_PAPER" else "BLOCKED";
  reason_codes = reasons;
  risk_gate_reasons = risk_reasons;
  kill_switch_armed = switch.armed;
  release_ready = ready;
  trade_authorized = false;
  decision_sha256 = "";
  evaluated_at = now;
}

-- The items of the payload by their names, the decision and the text of `trade_authorized`.
execution_payload : TradeCandidate → ReleaseReadiness → ExecutionDecision → List Field
execution_payload candidate release d =
    text candidate.candidate_id
    ∷ text d.decision
    ∷ flag d.kill_switch_armed
    ∷ number candidate.max_loss
    ∷ texts release.reason_codes
    ∷ texts d.risk_gate_reasons
    ∷ text candidate.symbol
    ∷ text d.decision
    ∷ flag d.trade_authorized
    ∷ []

stamped : Digest → TradeCandidate → ReleaseReadiness → ExecutionDecision → ExecutionDecision
unfolding execution_payload
stamped digest candidate release d = record d {
  decision_sha256 = digest (execution_payload candidate release d);
}

unfoldable pub evaluate_execution :
    Digest
    → TradeCandidate
    → Account
    → DateTime
    → Option Decimal
    → RiskPolicy
    → KillSwitch
    → Option (List ReleaseEvidence)
    → Result ExecutionDecision
unfolding aware_or risk_reasons_of execution_flags execution_decision stamped flags canonical
    risk_gate evaluate_live_release_readiness
evaluate_execution digest candidate account evaluated_at ruin policy switch evidence = do
  now ← aware_or evaluated_at (value_error "execution evaluated_at must be timezone-aware")
  risk_reasons ← risk_reasons_of account candidate now policy ruin
  release ← evaluate_live_release_readiness digest (evidence_or_reference evidence)
  ok (
      stamped digest candidate release (
        execution_decision switch now risk_reasons (is_ready release.status)
          (canonical (flags (execution_flags switch ruin risk_reasons (is_ready release.status))))))
