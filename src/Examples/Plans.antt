-- ===== src/Examples/Plans.antt =====
-- The theorems on the paper workflow, on the plan of the concrete desk.
use hedge_desk.Digest.{Field, join, written, joined, TextCollision}
use hedge_desk.BackOffice.Traceability.{traceability_sha256}
use hedge_desk.BackOffice.Compliance.{validate_compliance_policy_artifact}
use hedge_desk.Prelude.{
  ◌≤◌, ◌≡◌, ◌≢◌, ◌↔◌, refl, true, false, some, none, List, [], ◌∷◌, Result, ok, is_ok, from_ok,
  from_ok-eq, is_only_space, String,
}
use hedge_desk.Decimal.{
  pos, number, hundredths, number_div, number_sub, number_lt, number_mul, number_eq, number_neg,
}
use hedge_desk.Time.{Moment, aware, datetime_eq}
use hedge_desk.Options.Events.{EventCalendarGate}
use hedge_desk.Paper.Plan.{PaperTradePlan, machine_pass, pending, approved, plan_payload}
use hedge_desk.Paper.Create.{create_paper_trade_plan}
use hedge_desk.Paper.Create.Sound.{Controlled, create_controlled}
use hedge_desk.Paper.Authorize.{
  PaperOpen, PaperFillCheck, authorized, approve_paper_trade, execute_paper_open,
  evaluate_paper_fill,
}
use hedge_desk.Paper.Authorize.Once.{
  Approvable, approve_exact, Attempt, approve, reject, attempt, attempts, first_decision_stands,
}
use hedge_desk.Paper.Authorize.Reachable.{created, settled, OpenSound, open_sound}
use hedge_desk.Paper.Authorize.Fill.{Fillable, fill_ready_exact}
use hedge_desk.Paper.Lifecycle.{PaperLifecycleCheck, evaluate_paper_lifecycle}
use hedge_desk.Paper.Lifecycle.Urgency.{urgency, lifecycle_monotone}
use hedge_desk.Paper.Close.{PaperClose, close_paper_trade}
use hedge_desk.Paper.Close.Bound.{Closed, close_binds}
use hedge_desk.Options.Exit.{default_exit_policy}
use hedge_desk.Examples.Desk.{hash, digest, at, now, leg, calculated, decision, compliance}

abbrev calendar : EventCalendarGate
calendar = record {
  admissible = true;
  reason_codes = [];
  calendar_sha256 = hash;
  complete_through = 739700;
}

abbrev creation : Result PaperTradePlan
creation =
    create_paper_trade_plan digest "plan-1" calculated decision compliance (aware (at 70))
      (aware (at 600)) (pos 120) (pos 120) (some calendar)

abbrev plan : PaperTradePlan
plan = record {
  plan_id = "plan-1";
  spread = calculated;
  risk_decision = decision;
  compliance_decision = compliance;
  event_calendar_gate = calendar;
  machine_risk_status = machine_pass;
  reason_codes = [];
  authorization = record {
    status = pending;
    human_id = none;
    decided_at = none;
    plan_hash = none;
    reason_codes = [];
  };
  created_at = at 70;
  approval_expires_at = at 600;
  execution_quote_max_age_seconds = 120;
  control_artifact_max_age_seconds = 120;
  plan_hash = hash;
}

plan_created : creation ≡ ok plan
unfolding create_paper_trade_plan validate_compliance_policy_artifact traceability_sha256
    datetime_eq
plan_created = refl

create_controlled_example :
    Controlled digest plan
    × (plan.authorization.status ≡ pending)
    × (plan.spread ≡ calculated)
    × (plan.risk_decision ≡ decision)
    × (plan.compliance_decision ≡ compliance)
create_controlled_example =
    create_controlled digest "plan-1" calculated decision compliance (aware (at 70))
      (aware (at 600)) (pos 120) (pos 120) (some calendar) plan plan_created

abbrev approval : Result PaperTradePlan
approval = approve_paper_trade digest plan "mentor" (aware (at 90))

abbrev pub approved_plan : PaperTradePlan
approved_plan = record plan {
  authorization = record {
    status = approved;
    human_id = some "mentor";
    decided_at = some (at 90);
    plan_hash = some hash;
    reason_codes = [];
  };
}

plan_approved : approval ≡ ok approved_plan
unfolding approve_paper_trade is_only_space
plan_approved = refl

approve_exact_example : (approval ≡ ok approved_plan) ↔ (
    (decided : Moment) × Approvable digest plan approved_plan "mentor" (aware (at 90)) decided
    × (authorized approved plan "mentor" decided [] ≡ approved_plan))
approve_exact_example = approve_exact digest plan approved_plan "mentor" (aware (at 90))

abbrev second_thoughts : List Attempt
second_thoughts =
    reject "mentor" (aware (at 95)) ("TOO_RISKY" ∷ []) ∷ approve "other" (aware (at 96)) ∷ []

approved_attempt : attempt digest plan (approve "mentor" (aware (at 90))) ≡ ok approved_plan
unfolding attempt
approved_attempt = plan_approved

first_decision_stands_example :
    attempts digest plan (approve "mentor" (aware (at 90)) ∷ second_thoughts) ≡ approved_plan
first_decision_stands_example =
    first_decision_stands digest plan (approve "mentor" (aware (at 90))) approved_plan
      second_thoughts approved_attempt

abbrev opening : Result PaperOpen
opening = execute_paper_open digest approved_plan (aware (at 100))

abbrev pub opened : PaperOpen
opened = record {
  plan_id = "plan-1";
  plan_hash = hash;
  spread_id = "spread-1";
  opened_at = at 100;
  entry_credit = hundredths 9870;
  quantity = 1;
  environment = "paper";
}

plan_opened : opening ≡ ok opened
unfolding execute_paper_open
plan_opened = refl

open_sound_example : OpenSound digest approved_plan opened
open_sound_example =
    open_sound digest approved_plan (aware (at 100)) opened
      (settled plan approved_plan (approve "mentor" (aware (at 90)))
        (created "plan-1" calculated decision compliance (aware (at 70)) (aware (at 600)) (pos 120)
          (pos 120) (some calendar) plan plan_created)
        approved_attempt)
      plan_opened

abbrev filling : Result PaperFillCheck
filling =
    evaluate_paper_fill digest approved_plan (pos 3) (number (hundredths 9900)) (aware (at 99))
      false

abbrev fill : PaperFillCheck
fill = record {
  ready = true;
  reason_codes = [];
  available_combo_size = pos 3;
  current_net_credit = number (hundredths 9900);
  checked_at = at 99;
}

fill_checked : filling ≡ ok fill
unfolding evaluate_paper_fill number_lt
fill_checked = refl

fill_ready_exact_example :
    (fill.ready ≡ true) ↔ Fillable approved_plan (pos 3) (number (hundredths 9900)) (at 99) false
fill_ready_exact_example =
    fill_ready_exact digest approved_plan (pos 3) (number (hundredths 9900)) (at 99) false fill
      fill_checked

abbrev quiet_check : Result PaperLifecycleCheck
quiet_check = evaluate_paper_lifecycle now false false true false false false true

abbrev urgent_check : Result PaperLifecycleCheck
urgent_check = evaluate_paper_lifecycle now false false true true false false true

quiet_returns : is_ok quiet_check ≡ true
unfolding evaluate_paper_lifecycle
quiet_returns = refl

urgent_returns : is_ok urgent_check ≡ true
unfolding evaluate_paper_lifecycle
urgent_returns = refl

lifecycle_monotone_example :
    urgency (from_ok quiet_check quiet_returns).action
    ≤ urgency (from_ok urgent_check urgent_returns).action
lifecycle_monotone_example =
    lifecycle_monotone now now false false false false true true false true false false false false
      true true (from_ok quiet_check quiet_returns) (from_ok urgent_check urgent_returns)
      (from_ok-eq quiet_check quiet_returns) (from_ok-eq urgent_check urgent_returns) (λ h. h)
      (λ h. h) (λ h. h) (λ h. refl) (λ h. h) (λ h. h) (λ h. h)

abbrev closing : Result PaperClose
closing =
    close_paper_trade digest opened approved_plan (leg "P100" 100 40 45) (leg "P95" 95 10 12)
      (number (hundredths 65)) (aware (at 130)) false default_exit_policy

abbrev pub closed : PaperClose
closed = record {
  plan_id = "plan-1";
  plan_hash = hash;
  closed_at = at 130;
  exit_debit = hundredths 3500;
  exit_commission = hundredths 130;
  realized_pnl = hundredths 6240;
  exit_evaluation_sha256 = hash;
  close_sha256 = hash;
  environment = "paper";
}

plan_closed : closing ≡ ok closed
unfolding close_paper_trade number_eq number_lt number_mul number_sub number_div number_neg
plan_closed = refl

-- A hash that is the same for every text, and leaves that are not written.
abbrev sha : String → String
sha s = hash

abbrev unwritten : Field → String
unwritten leaf = ""

-- Two plans whose joined texts are the same, although the underlying and the spread differ.
abbrev named : String → String → PaperTradePlan
named spread_id underlying = record plan {
  spread = record calculated { spread_id = spread_id; underlying = underlying };
}

same_text :
    joined unwritten (plan_payload (named "a|b" "c"))
    ≡ joined unwritten (plan_payload (named "a" "b|c"))
unfolding joined join written plan_payload
same_text = refl

close_binds_example :
    Closed digest approved_plan approved_plan
      (aware (at 100))
      (aware (at 130))
      opened
      closed
      (leg "P100" 100 40 45)
      (leg "P95" 95 10 12)
      (number (hundredths 65))
      false
      default_exit_policy
    × (digest (plan_payload approved_plan) ≡ digest (plan_payload approved_plan))
    × (joined unwritten (plan_payload approved_plan) ≢ joined unwritten (plan_payload approved_plan)
        → TextCollision sha)
close_binds_example =
    close_binds digest approved_plan approved_plan (aware (at 100)) (aware (at 130)) opened closed
      (leg "P100" 100 40 45) (leg "P95" 95 10 12) (number (hundredths 65)) false default_exit_policy
      sha unwritten (λ x. refl) plan_opened plan_closed
