-- ===== src/Examples/Ledgers.antt =====
-- The theorems on the audit chain, its journal and the reconciliation of ledgers, at concrete inputs.
use hedge_desk.Prelude.{
  ◌≡◌, ◌≢◌, ◌↔◌, refl, ap, String, Bool, true, false, Option, none, some, List, [], ◌∷◌, ◌++◌,
  Result, ok, is_ok, from_ok, from_ok-eq, valid_sha256, str_eq, if◌then◌else◌, checks,
}
use hedge_desk.Decimal.{pos, number, hundredths, number_eq, finite_or}
use hedge_desk.Time.{aware, aware_or}
use hedge_desk.Digest.{Digest, Collision, Field, text}
use hedge_desk.Json.{Json, str, Codec, KeepsTexts, json_eq, items_of, field, field_count}
use hedge_desk.Audit.{
  AuditEvent, genesis_hash, verify_audit_chain, append_audit_event, hashed_event, next_event,
  head_hash,
}
use hedge_desk.Audit.Append.{append_verifies}
use hedge_desk.Audit.Tamper.{tamper_evident_chain}
use hedge_desk.Audit.Store.{
  missing, written, initialize_audit_journal, read_audit_journal, line_of, stored_event,
  stored_fields,
}
use hedge_desk.Audit.Store.Lines.{ReadsBack}
use hedge_desk.Audit.Store.Journal.{append_all, accept_all, journal_refines}
use hedge_desk.BackOffice.Compliance.{pass}
use hedge_desk.BackOffice.Reconciliation.{
  Ledgers, PaperReconciliation, evaluate_paper_reconciliation, count_checks,
}
use hedge_desk.BackOffice.Reconciliation.Reconciled.{Reconciled, reconciliation_exact}
use hedge_desk.Examples.Desk.{hash, digest, at, now}

abbrev event : String → AuditEvent
event artifact = record {
  sequence = pos 1;
  run_id = "run-1";
  stage = "RISK";
  occurred_at = aware (at 10);
  artifact_id = artifact;
  candidate_id = "candidate-1";
  input_sha256 = genesis_hash;
  output_sha256 = hash;
  component_version = "1";
  policy_version = "1";
  reason_codes = [];
  previous_hash = genesis_hash;
  event_hash = hash;
}

valid_digest : (fields : List Field) → valid_sha256 (digest fields) ≡ true
unfolding valid_sha256
valid_digest fields = refl

abbrev appended : Result (List AuditEvent)
appended = append_audit_event digest [] (event "artifact-1")

appended_returns : is_ok appended ≡ true
unfolding append_audit_event
appended_returns = refl

append_verifies_example :
    (verify_audit_chain digest (from_ok appended appended_returns) ≡ [])
    × (from_ok appended appended_returns
        ≡ [] ++ hashed_event digest (next_event [] (event "artifact-1")) ∷ [])
append_verifies_example =
    append_verifies digest [] (event "artifact-1") (from_ok appended appended_returns) valid_digest
      (from_ok-eq appended appended_returns)

first_verifies : verify_audit_chain digest (event "artifact-1" ∷ []) ≡ []
unfolding verify_audit_chain
first_verifies = refl

other_verifies : verify_audit_chain digest (event "artifact-2" ∷ []) ≡ []
unfolding verify_audit_chain
other_verifies = refl

same_head : head_hash (event "artifact-1" ∷ []) ≡ head_hash (event "artifact-2" ∷ [])
unfolding head_hash
same_head = refl

is_first : List AuditEvent → Bool
is_first [] = false
is_first (e ∷ later) = str_eq e.artifact_id "artifact-1"

chains_differ : event "artifact-1" ∷ [] ≢ event "artifact-2" ∷ []
unfolding is_first
chains_differ h = absurd (true_not_false (ap is_first h))
  where
    true_not_false : true ≡ false → ⊥
    true_not_false h = cc

tamper_evident_chain_example : Collision digest
tamper_evident_chain_example =
    tamper_evident_chain digest (event "artifact-1" ∷ []) (event "artifact-2" ∷ []) first_verifies
      other_verifies same_head chains_differ

text_of : Json → String
text_of (str s) = s
text_of _ = ""

abbrev other_hash : String
other_hash = "bbbbbbbbbbbbbbbbbbbbbbbbbbbbbbbbbbbbbbbbbbbbbbbbbbbbbbbbbbbbbbbb"

-- A digest that tells two artifacts apart.
two_hashes : Digest
two_hashes (text s ∷ _) = if str_eq s "artifact-1" then hash else other_hash
two_hashes _ = other_hash

abbrev second : AuditEvent
second = record (event "artifact-2") {
  sequence = pos 2;
  input_sha256 = hash;
  previous_hash = hash;
  event_hash = other_hash;
}

-- What writes: two lines are enough for the two events.
abbrev writer : (Json → String) → Codec
writer dumps = record {
  loads = λ s. none;
  dumps = dumps;
  str_of = text_of;
  isoformat = λ t. "now";
  fromisoformat = λ s. some (aware (at 10));
  decimal_text = λ n. "0";
  decimal_of = λ s. none;
}

abbrev first_payload : Json
first_payload = stored_event (writer (λ j. "")) (event "artifact-1")

abbrev second_payload : Json
second_payload = stored_event (writer (λ j. "")) second

abbrev two_lines : String → Option Json
two_lines s =
    if str_eq s "" then none else if str_eq s "1" then some first_payload else some second_payload

abbrev codec : Codec
codec = record (writer (λ j. if json_eq j first_payload then "1" else "2")) { loads = two_lines }

codec-KeepsTexts : KeepsTexts codec
unfolding text_of
codec-KeepsTexts = record { str_of_str = λ s. refl; loads_empty = refl }

first-ReadsBack : ReadsBack codec (event "artifact-1")
unfolding line_of stored_event stored_fields json_eq items_of field_count field number_eq
first-ReadsBack = record { line = refl; time = refl }

second-ReadsBack : ReadsBack codec second
unfolding line_of stored_event stored_fields json_eq items_of field_count field
second-ReadsBack = record { line = refl; time = refl }

first_accepted : verify_audit_chain two_hashes (event "artifact-1" ∷ []) ≡ []
unfolding verify_audit_chain two_hashes
first_accepted = refl

journal_refines_example :
    read_audit_journal codec two_hashes (
      append_all codec codec-KeepsTexts two_hashes
        (initialize_audit_journal codec two_hashes written missing (event "artifact-1" ∷ [])).0
        (second ∷ second ∷ []))
    ≡ ok (
        accept_all codec codec-KeepsTexts two_hashes
          (event "artifact-1" ∷ [])
          (second ∷ second ∷ []))
journal_refines_example =
    journal_refines codec codec-KeepsTexts two_hashes (event "artifact-1" ∷ [])
      (second ∷ second ∷ []) (first-ReadsBack, tt) (second-ReadsBack, (second-ReadsBack, tt)) refl
      first_accepted

abbrev ledgers : Ledgers
ledgers = record {
  plan_sha256 = hash;
  internal_positions_sha256 = hash;
  broker_positions_sha256 = hash;
  internal_cash = number (hundredths 5000);
  broker_cash = number (hundredths 5000);
  unresolved_fill_count = pos 0;
  unresolved_lifecycle_count = pos 0;
  reconciled_at = now;
  environment = "paper";
  lifecycle_artifact_sha256 = "";
}

abbrev reconciliation : Result PaperReconciliation
reconciliation = evaluate_paper_reconciliation digest ledgers

reconciliation_returns : is_ok reconciliation ≡ true
unfolding evaluate_paper_reconciliation aware_or checks count_checks finite_or
reconciliation_returns = refl

reconciliation_exact_example :
    (((from_ok reconciliation reconciliation_returns).status ≡ pass) ↔ Reconciled ledgers)
    × ((from_ok reconciliation reconciliation_returns).live_release_evidence_eligible ≡ false)
reconciliation_exact_example =
    reconciliation_exact digest ledgers (from_ok reconciliation reconciliation_returns)
      (from_ok-eq reconciliation reconciliation_returns)
