-- ===== src/Examples/Runs.antt =====
-- The theorems on the scheduler, the release gate and the execution gate, at concrete inputs.
use hedge_desk.Prelude.{
  ◌≤◌, ◌≡◌, ◌↔◌, refl, String, true, false, Option, none, some, List, [], ◌∷◌, any, map, keep,
  length, has, Result, ok, is_ok, from_ok, from_ok-eq, valid_sha256, subst,
}
use hedge_desk.Decimal.{number, hundredths, number_div, decimal_gt}
use hedge_desk.Time.{datetime_eq}
use hedge_desk.Risk.{default_policy}
use hedge_desk.Scheduler.{
  ScheduledRunRequest, ScheduledRunReceipt, complete, failed_closed, validate_scheduled_run_receipt,
}
use hedge_desk.Scheduler.Run.{Reporting, is_invalid, execute_scheduled_run, run_all}
use hedge_desk.Scheduler.Run.Once.{completes, complete_at_most_once}
use hedge_desk.Scheduler.Run.Kept.{
  execute_keeps_valid, empty_recovery_poisons, is_accepted, refusals,
}
use hedge_desk.Release.{
  ReleaseEvidence, ReleaseReadiness, ready_for_separate_authorization, required_release_evidence,
  evaluate_live_release_readiness,
}
use hedge_desk.Release.Ready.{Certified, release_ready_exact}
use hedge_desk.ExecutionGate.{KillSwitch, ExecutionDecision, evaluate_execution}
use hedge_desk.ExecutionGate.Allow.{Allowed, allow_paper_exact}
use hedge_desk.Examples.Desk.{hash, digest, at, now, account, candidate}

-- A builder whose reports are texts, all publishable.
abbrev reporting : Reporting String
reporting = record {
  builder = λ t. ok hash;
  validate_report = λ r. ok (record { publishable = true; reason_codes = [] });
  report_sha256 = λ r. some hash;
}

abbrev request : String → Option String → ScheduledRunRequest
request key source = record {
  idempotency_key = key;
  scheduled_for = now;
  environment = "paper";
  recovery_of = source;
}

abbrev requests : List ScheduledRunRequest
requests = request "k1" none ∷ request "k1" none ∷ request "k2" (some "k1") ∷ []

-- The run of `k1` completes, and its second request is suppressed.
abbrev journal : List ScheduledRunReceipt
journal = run_all digest reporting requests []

one_completion : length (keep (completes "k1") journal) ≡ 1
unfolding run_all validate_scheduled_run_receipt valid_sha256 datetime_eq
one_completion = refl

complete_at_most_once_example :
    length (keep (completes "k1") (run_all digest reporting requests [])) ≤ 1
complete_at_most_once_example = complete_at_most_once digest reporting requests "k1"

abbrev first_run : Result (List ScheduledRunReceipt)
first_run = execute_scheduled_run digest reporting (request "k1" none) []

abbrev first_receipt : ScheduledRunReceipt
first_receipt = record {
  idempotency_key = "k1";
  scheduled_for = now;
  status = complete;
  reason_codes = [];
  report_sha256 = some hash;
  receipt_sha256 = hash;
  scheduler_version = "paper-scheduler-1.0.0";
  recovery_of = none;
}

first_returns : first_run ≡ ok (first_receipt ∷ [])
unfolding execute_scheduled_run
first_returns = refl

hash_valid : valid_sha256 hash ≡ true
unfolding valid_sha256
hash_valid = refl

some_injective : (a b : String) → some a ≡ some b → a ≡ b
some_injective a b h = cc

execute_keeps_valid_example : any (is_invalid digest) (first_receipt ∷ []) ≡ false
execute_keeps_valid_example =
    execute_keeps_valid digest reporting (λ fields. hash_valid)
      (λ report h e. subst (λ x. valid_sha256 x ≡ true) (some_injective hash h e) hash_valid)
      (request "k1" none) [] (first_receipt ∷ []) refl refl first_returns

abbrev bad_receipt : ScheduledRunReceipt
bad_receipt = record {
  idempotency_key = "k1";
  scheduled_for = now;
  status = failed_closed;
  reason_codes = "INVALID_RECOVERY_REQUEST" ∷ [];
  report_sha256 = none;
  receipt_sha256 = hash;
  scheduler_version = "paper-scheduler-1.0.0";
  recovery_of = some "";
}

bad_returns :
    execute_scheduled_run digest reporting (request "k1" (some "")) [] ≡ ok (bad_receipt ∷ [])
unfolding execute_scheduled_run
bad_returns = refl

-- Requests after it: of another key, of one more key with a recovery, and of a blank key.
abbrev after_bad : List ScheduledRunRequest
after_bad = request "k2" none ∷ request "k3" (some "k1") ∷ request "" none ∷ []

two_refusals : length (refusals digest after_bad) ≡ 2
unfolding refusals is_accepted
two_refusals = refl

empty_recovery_poisons_example :
    run_all digest reporting after_bad (bad_receipt ∷ []) ≡ bad_receipt ∷ refusals digest after_bad
empty_recovery_poisons_example =
    empty_recovery_poisons digest reporting (request "k1" (some "")) [] (bad_receipt ∷ []) after_bad
      refl bad_returns

abbrev full : List ReleaseEvidence
full =
    map (λ key. record { requirement_id = key; satisfied = true; evidence_sha256 = hash })
      required_release_evidence

full_evaluated : is_ok (evaluate_live_release_readiness digest full) ≡ true
unfolding evaluate_live_release_readiness
full_evaluated = refl

abbrev full_release : ReleaseReadiness
full_release = from_ok (evaluate_live_release_readiness digest full) full_evaluated

full_is_ready : full_release.status ≡ ready_for_separate_authorization
unfolding from_ok evaluate_live_release_readiness
full_is_ready = refl

release_ready_exact_example :
    ((full_release.status ≡ ready_for_separate_authorization)
      ↔ ((key : String) → has key required_release_evidence ≡ true → Certified full key))
    × (full_release.live_transition_authorized ≡ false)
    × (full_release.human_override_allowed ≡ false)
release_ready_exact_example =
    release_ready_exact digest full full_release
      (from_ok-eq (evaluate_live_release_readiness digest full) full_evaluated)

abbrev switch : KillSwitch
switch = record { armed = true; source = "manual" }

abbrev execution : Result ExecutionDecision
execution =
    evaluate_execution digest candidate account now (some (number (hundredths 2))) default_policy
      switch (some full)

execution_evaluated : is_ok execution ≡ true
unfolding evaluate_execution number_div decimal_gt
execution_evaluated = refl

allow_paper_exact_example :
    (((from_ok execution execution_evaluated).decision ≡ "ALLOW_PAPER")
      ↔ Allowed digest candidate account
          (at 60)
          (some (number (hundredths 2)))
          default_policy
          switch
          (some full))
    × ((from_ok execution execution_evaluated).trade_authorized ≡ false)
allow_paper_exact_example =
    allow_paper_exact digest candidate account (at 60) (some (number (hundredths 2))) default_policy
      switch (some full) (from_ok execution execution_evaluated)
      (from_ok-eq execution execution_evaluated)
