-- ===== src/Audit/Store.antt =====
-- audit_store.py: the file in which an audit chain is kept, one event on a line. A file is the list of
-- its lines, each of them ended by a newline.
pub mod Lines
pub mod Journal
use hedge_desk.Prelude.{
  String, Bool, true, false, not, ◌&&◌, Option, none, some, List, [], ◌∷◌, ◌++◌, map, length, Error,
  value_error, Result, ok, err, ◌>>=◌, is_blank, is_empty, canonical, same_codes, str_eq,
  if◌then◌else◌, ℕ, ◌>>◌,
}
use hedge_desk.Decimal.{ℤ}
use hedge_desk.Time.{DateTime}
use hedge_desk.Digest.{Digest}
use hedge_desk.Json.{
  Json, null, boolean, int, float, str, list, dict, Items, Fields, none_left, entry, field, keys,
  Codec, text_at, texts_of, items_of,
}
use hedge_desk.Audit.{AuditEvent, genesis_hash, verify_audit_chain, head_hash, last_of}

pub record AuditJournalResult : Type 0 where
  pub status : String
  pub event_count : ℕ
  pub head_hash : String
  pub reason_codes : List String

-- `fields` of `_parse_event`, sorted.
abbrev pub event_fields : List String
event_fields =
    "artifact_id" ∷ "candidate_id" ∷ "component_version" ∷ "event_hash" ∷ "input_sha256"
    ∷ "occurred_at" ∷ "output_sha256" ∷ "policy_version" ∷ "previous_hash" ∷ "reason_codes"
    ∷ "run_id" ∷ "sequence" ∷ "stage" ∷ []

abbrev types_invalid : Error
types_invalid = value_error "audit journal event types invalid"

-- type(value["sequence"]) is int
unfoldable pub sequence_at : Fields → Result ℤ
unfolding field
sequence_at fields = elim (field "sequence" fields) [ some (int n) ↦ ok n | _ ↦ err types_invalid ]

-- isinstance(value["reason_codes"], list)
unfoldable pub codes_at : Fields → Result Items
unfolding field
codes_at fields = elim (field "reason_codes" fields) [
  | some (list items) ↦ ok items
  | _ ↦ err types_invalid
]

module _ (codec : Codec) where
  -- The payload of an event, with its keys sorted as json.dumps writes them.
  unfoldable pub stored_fields : AuditEvent → Fields
  unfolding items_of
  stored_fields e =
      (entry "artifact_id" (str e.artifact_id) (
        entry "candidate_id" (str e.candidate_id) (
          entry "component_version" (str e.component_version) (
            entry "event_hash" (str e.event_hash) (
              entry "input_sha256" (str e.input_sha256) (
                entry "occurred_at" (str (codec.isoformat e.occurred_at)) (
                  entry "output_sha256" (str e.output_sha256) (
                    entry "policy_version" (str e.policy_version) (
                      entry "previous_hash" (str e.previous_hash) (
                        entry "reason_codes" (list (items_of e.reason_codes)) (
                          entry "run_id" (str e.run_id) (
                            entry "sequence" (int e.sequence)
                              (entry "stage" (str e.stage) none_left)))))))))))))

  -- _event_payload(event)
  unfoldable pub stored_event : AuditEvent → Json
  unfolding stored_fields
  stored_event e = dict (stored_fields e)

  -- The event of a dict with the right keys, the right two types and a time.
  unfoldable pub event_of : Fields → ℤ → DateTime → Items → AuditEvent
  unfolding text_at texts_of
  event_of fields sequence occurred_at codes = record {
    sequence = sequence;
    run_id = text_at codec "run_id" fields;
    stage = text_at codec "stage" fields;
    occurred_at = occurred_at;
    artifact_id = text_at codec "artifact_id" fields;
    candidate_id = text_at codec "candidate_id" fields;
    input_sha256 = text_at codec "input_sha256" fields;
    output_sha256 = text_at codec "output_sha256" fields;
    component_version = text_at codec "component_version" fields;
    policy_version = text_at codec "policy_version" fields;
    reason_codes = texts_of codec codes;
    previous_hash = text_at codec "previous_hash" fields;
    event_hash = text_at codec "event_hash" fields;
  }

  -- datetime.fromisoformat(str(value["occurred_at"]))
  unfoldable pub time_at : Fields → Result DateTime
  unfolding text_at
  time_at fields = elim (codec.fromisoformat (text_at codec "occurred_at" fields)) [
    | some t ↦ ok t
    | none ↦ err (value_error "Invalid isoformat string")
  ]

  unfoldable pub parse_event : Json → Result AuditEvent
  parse_event (dict fields) =
      if same_codes (canonical (keys fields)) event_fields
      then (do
        sequence ← sequence_at fields
        codes ← codes_at fields
        t ← time_at fields
        ok (event_of fields sequence t codes))
      else err (value_error "audit journal event schema invalid")
  parse_event _ = err (value_error "audit journal event schema invalid")

  -- _parse_event(json.loads(line))
  unfoldable pub parse_line : String → Result AuditEvent
  parse_line line = elim (codec.loads line) [
    | some j ↦ parse_event j
    | none ↦ err (value_error "JSONDecodeError")
  ]

  -- tuple(_parse_event(json.loads(line)) for line in lines if line)
  unfoldable pub parse_lines : List String → Result (List AuditEvent)
  parse_lines [] = ok []
  parse_lines (line ∷ rest) =
      let events = (do e ← parse_line line; later ← parse_lines rest; ok (e ∷ later)) in
      if is_blank line then parse_lines rest else events

  -- json.dumps(_event_payload(event), sort_keys=True, separators=(",", ":"))
  unfoldable pub line_of : AuditEvent → String
  unfolding stored_event
  line_of e = codec.dumps (stored_event e)

-- The file of a journal. An `unreadable` one exists, but reading it raises OSError or UnicodeError.
pub data File : Type 0 where
  missing unreadable : File
  holds : List String → File

-- How a write ends: as asked, or with an OSError that leaves some file behind.
pub data Write : Type 0 where
  written : Write
  os_error : File → Write

abbrev corrupt : Error
corrupt = value_error "AUDIT_JOURNAL_CORRUPT"

-- `except (...) as exc: raise ValueError("AUDIT_JOURNAL_CORRUPT") from exc`
abbrev pub or_corrupt {ℓ} : {A : Type ℓ} → Result A → Result A
or_corrupt (ok a) = ok a
or_corrupt (err e) = err corrupt

-- The message of the last error goes on with the reasons.
unfoldable pub checked_events : Digest → List AuditEvent → Result (List AuditEvent)
checked_events digest events =
    if is_empty events
    then err (value_error "AUDIT_JOURNAL_EMPTY")
    else if not (is_empty (verify_audit_chain digest events))
    then err corrupt
    else ok events

unfoldable pub read_audit_journal : Codec → Digest → File → Result (List AuditEvent)
read_audit_journal codec digest missing = err corrupt
read_audit_journal codec digest unreadable = err corrupt
read_audit_journal codec digest (holds lines) = do
  events ← or_corrupt (parse_lines codec lines)
  checked_events digest events

abbrev pub journal_result : String → ℕ → String → List String → AuditJournalResult
journal_result status n head reasons = record {
  status = status;
  event_count = n;
  head_hash = head;
  reason_codes = reasons;
}

-- path.open("x"), the lines, and what the caller is told
unfoldable pub create_file : Codec → Write → File → List AuditEvent → File × AuditJournalResult
create_file codec written missing chain = (
  holds (map (line_of codec) chain),
  journal_result "INITIALIZED" (length chain) (head_hash chain) [],
)
create_file codec (os_error left) missing chain =
    (left, journal_result "BLOCKED" 0 "" ("AUDIT_JOURNAL_WRITE_FAILED" ∷ []))
create_file codec write file chain =
    (file, journal_result "BLOCKED" 0 "" ("AUDIT_JOURNAL_ALREADY_EXISTS" ∷ []))

unfoldable pub initialize_audit_journal :
    Codec → Digest → Write → File → List AuditEvent → File × AuditJournalResult
initialize_audit_journal codec digest write file chain =
    let reasons = verify_audit_chain digest chain in
    if is_empty chain
    then (file, journal_result "BLOCKED" 0 "" ("AUDIT_JOURNAL_EMPTY" ∷ []))
    else if not (is_empty reasons)
    then (file, journal_result "BLOCKED" (length chain) "" reasons)
    else create_file codec write file chain

-- path.open("a"), the line, and what the caller is told. The file was read, so it holds lines.
unfoldable pub extend_file :
    Codec → Write → File → List AuditEvent → AuditEvent → File × AuditJournalResult
extend_file codec written (holds lines) chain event = (
  holds (lines ++ line_of codec event ∷ []),
  journal_result "APPENDED" (length (chain ++ event ∷ [])) event.event_hash [],
)
extend_file codec written file chain event = (
  holds (line_of codec event ∷ []),
  journal_result "APPENDED" (length (chain ++ event ∷ [])) event.event_hash [],
)
extend_file codec (os_error left) file chain event = (
  left,
  journal_result "BLOCKED" (length chain) (head_hash chain) ("AUDIT_JOURNAL_WRITE_FAILED" ∷ []),
)

-- What follows the reading of the chain.
unfoldable pub append_to :
    Codec
    → Digest
    → Write
    → File
    → AuditEvent
    → Result (List AuditEvent)
    → File × AuditJournalResult
append_to codec digest write file event (err e) =
    (file, journal_result "BLOCKED" 0 "" ("AUDIT_JOURNAL_CORRUPT" ∷ []))
append_to codec digest write file event (ok chain) =
    let reasons = verify_audit_chain digest (chain ++ event ∷ []) in
    if not (is_empty chain) && str_eq event.event_hash (head_hash chain)
    then (file, journal_result "DUPLICATE_SUPPRESSED" (length chain) (head_hash chain) [])
    else if not (is_empty reasons)
    then (file, journal_result "BLOCKED" (length chain) (head_hash chain) reasons)
    else extend_file codec write file chain event

unfoldable pub append_audit_journal :
    Codec → Digest → Write → File → AuditEvent → File × AuditJournalResult
append_audit_journal codec digest write file event =
    append_to codec digest write file event (read_audit_journal codec digest file)
