-- ===== src/Paper/Settler/Run.antt =====
-- paper/settler.py: settling the plans of a state (_settle_closed_plan, _settle_open_plan,
-- settle_paper_outcomes).
use hedge_desk.Prelude.{
  String, not, ◌⊎◌, inl, inr, Option, none, some, List, [], ◌∷◌, ◌++◌, Error, value_error, Result,
  ok, err, ◌>>=◌, str_eq, text_lt, if◌then◌else◌, ltb,
}
use hedge_desk.Decimal.{Decimal}
use hedge_desk.Time.{Moment, DateTime, aware, aware_or, date}
use hedge_desk.Json.{Codec}
use hedge_desk.Digest.{Digest}
use hedge_desk.Dict.{Dict}
use hedge_desk.Paper.Plan.{PaperTradePlan}
use hedge_desk.Paper.Log.{Outcome, LogEntry}
use hedge_desk.Paper.Runner.{Entry, RunnerState, status_open, status_closed, load_state}
use hedge_desk.Paper.Settler.{
  CloseRecord, DecisionRecord, Artifact, artifact_missing, artifact_unreadable, artifact,
  StoredPlan, MarketData, Surroundings, SettleNote, skipped, Observation, outcome_for_realized_pnl,
  observe_expiration_outcome, load_plan, entered_at, entered_codes, premium_of, record_once,
  close_provenance, expiration_provenance,
}

-- The outcome that a close gives.
abbrev pub close_outcome :
    Codec
    → String
    → Entry
    → CloseRecord
    → DecisionRecord
    → Moment
    → PaperTradePlan
    → String
    → Outcome
close_outcome codec plan_id e close decision now plan outcome = record {
  candidate_id = plan_id;
  symbol = plan.spread.underlying;
  strategy = "CREDIT_SPREAD";
  outcome = outcome;
  entered_at = entered_at e.open_record;
  exit_price = close.exit_debit;
  premium_received = premium_of codec e.open_record;
  recorded_at = aware now;
  provenance = close_provenance plan_id e close decision now;
}

abbrev pub expiration_outcome :
    Codec → String → Entry → Moment → PaperTradePlan → Observation → Outcome
expiration_outcome codec plan_id e now plan x = record {
  candidate_id = plan_id;
  symbol = plan.spread.underlying;
  strategy = "CREDIT_SPREAD";
  outcome = x.outcome;
  entered_at = entered_at e.open_record;
  exit_price = none;
  premium_received = premium_of codec e.open_record;
  recorded_at = aware now;
  provenance = expiration_provenance plan_id plan x now;
}

-- What settling one plan does: it passes the plan over, it raises, or it records an outcome once.
pub data Settling : Type 0 where
  pass_over : String → Settling
  raises : Error → Settling
  records : Outcome → List String → Settling

unfoldable pub settle_pnl :
    Codec
    → String
    → Entry
    → CloseRecord
    → DecisionRecord
    → Moment
    → Result (PaperTradePlan ⊎ String)
    → Decimal
    → Settling
settle_pnl codec plan_id e close decision now (err error) pnl = raises error
settle_pnl codec plan_id e close decision now (ok (inr failure)) pnl = pass_over failure
settle_pnl codec plan_id e close decision now (ok (inl plan)) pnl =
    elim (outcome_for_realized_pnl pnl) [
      | err error ↦ raises error
      | ok (outcome, codes) ↦
          records (close_outcome codec plan_id e close decision now plan outcome)
            (codes ++ entered_codes e.open_record)
    ]

unfoldable pub settle_close :
    Codec → String → Entry → CloseRecord → DecisionRecord → Moment → StoredPlan → Settling
settle_close codec plan_id e close decision now file =
    if not (str_eq close.plan_id plan_id)
    then pass_over "CLOSE_ARTIFACT_PLAN_MISMATCH"
    else elim close.realized_pnl [
      | none ↦ pass_over "CLOSE_PNL_UNPARSEABLE"
      | some pnl ↦ settle_pnl codec plan_id e close decision now (load_plan file e) pnl
    ]

unfoldable pub settle_closed_plan :
    Codec → String → Entry → Moment → Artifact → StoredPlan → Settling
settle_closed_plan codec plan_id e now artifact_missing file = pass_over "CLOSE_ARTIFACT_MISSING"
settle_closed_plan codec plan_id e now artifact_unreadable file =
    pass_over "CLOSE_ARTIFACT_UNREADABLE"
settle_closed_plan codec plan_id e now (artifact environment (some close) (some decision)) file =
    if not (str_eq environment "paper")
    then pass_over "NON_PAPER_CLOSE_ARTIFACT"
    else settle_close codec plan_id e close decision now file
settle_closed_plan codec plan_id e now (artifact environment close decision) file =
    if not (str_eq environment "paper")
    then pass_over "NON_PAPER_CLOSE_ARTIFACT"
    else pass_over "CLOSE_ARTIFACT_MALFORMED"

unfoldable pub settle_open_plan :
    Codec
    → String
    → Entry
    → Moment
    → (PaperTradePlan → MarketData)
    → Result (PaperTradePlan ⊎ String)
    → Settling
settle_open_plan codec plan_id e now provider (err error) = raises error
settle_open_plan codec plan_id e now provider (ok (inr failure)) = pass_over failure
settle_open_plan codec plan_id e now provider (ok (inl plan)) =
    if ltb (date now) plan.spread.expiration_date
    then pass_over "NOT_AT_EXPIRATION"
    else let x = observe_expiration_outcome (provider plan) in
      records (expiration_outcome codec plan_id e now plan x)
        (x.codes ++ entered_codes e.open_record)

unfoldable pub settling_of : Codec → Surroundings → Moment → String → Entry → Settling
settling_of codec around now plan_id e =
    if str_eq e.status status_closed
    then settle_closed_plan codec plan_id e now (around.closes plan_id) (around.plans plan_id)
    else if str_eq e.status status_open
    then settle_open_plan codec plan_id e now around.provider (load_plan (around.plans plan_id) e)
    else pass_over "PLAN_NOT_OPEN_OR_CLOSED"

unfoldable pub do_settling : Digest → List LogEntry → Settling → Result (List LogEntry × SettleNote)
do_settling digest log (pass_over code) = ok (log, skipped (code ∷ []))
do_settling digest log (raises error) = err error
do_settling digest log (records o codes) = record_once digest log o codes

unfoldable pub insert_entry : String × Entry → Dict Entry → Dict Entry
insert_entry (k, e) [] = (k, e) ∷ []
insert_entry (k, e) ((j, x) ∷ rest) =
    if text_lt j k then (j, x) ∷ insert_entry (k, e) rest else (k, e) ∷ (j, x) ∷ rest

-- The entries in the order of sorted(plans).
unfoldable pub sort_entries : Dict Entry → Dict Entry
sort_entries [] = []
sort_entries (x ∷ rest) = insert_entry x (sort_entries rest)

abbrev pub add_settle_note :
    String → SettleNote → Result (List (String × SettleNote)) → Result (List (String × SettleNote))
add_settle_note key note (ok report) = ok ((key, note) ∷ report)
add_settle_note key note (err error) = err error

-- What follows the settling of one plan, whose error ends the loop.
abbrev pub then_rest :
    String
    → List LogEntry
    → (List LogEntry → List LogEntry × Result (List (String × SettleNote)))
    → Result (List LogEntry × SettleNote)
    → List LogEntry × Result (List (String × SettleNote))
then_rest key log later (err error) = (log, err error)
then_rest key log later (ok (longer, note)) =
    ((later longer).0, add_settle_note key note (later longer).1)

-- The log and the report, in the order of the plans. What was appended before an error stays in the log.
unfoldable pub settle_entries :
    Codec
    → Digest
    → Surroundings
    → Moment
    → Dict Entry
    → List LogEntry
    → List LogEntry × Result (List (String × SettleNote))
settle_entries codec digest around now [] log = (log, ok [])
settle_entries codec digest around now ((key, e) ∷ rest) log =
    then_rest key log (λ longer. settle_entries codec digest around now rest longer)
      (do_settling digest log (settling_of codec around now key e))

-- The state, once the time and the file were checked.
unfoldable pub settlement_state : Option RunnerState → DateTime → Result (RunnerState × Moment)
settlement_state none now = do
  _ ← aware_or now (value_error "settlement timestamp must be timezone-aware")
  err (value_error "runner state file not found")
settlement_state (some file) now = do
  m ← aware_or now (value_error "settlement timestamp must be timezone-aware")
  state ← load_state (some file)
  ok (state, m)

abbrev pub with_state :
    Codec
    → Digest
    → Surroundings
    → List LogEntry
    → Result (RunnerState × Moment)
    → List LogEntry × Result (List (String × SettleNote))
with_state codec digest around log (err error) = (log, err error)
with_state codec digest around log (ok (state, m)) =
    settle_entries codec digest around m (sort_entries state.plans) log

unfoldable pub settle_paper_outcomes :
    Codec
    → Digest
    → Surroundings
    → Option RunnerState
    → DateTime
    → List LogEntry
    → List LogEntry × Result (List (String × SettleNote))
settle_paper_outcomes codec digest around file now log =
    with_state codec digest around log (settlement_state file now)
