-- ===== src/Paper/Runner/Tick.antt =====
-- paper/runner.py: a tick of the runner (advance_paper_lifecycle, _tick_pending_open, _tick_open).
use hedge_desk.Prelude.{
  String, Bool, true, false, not, ◌||◌, Option, none, some, List, [], ◌∷◌, ◌++◌, has, Error,
  value_error, permission_error, type_error, arithmetic_error, Result, ok, err, ◌>>=◌, is_empty,
  str_eq, if◌then◌else◌,
}
use hedge_desk.Decimal.{ℤ, Decimal}
use hedge_desk.Time.{Moment, DateTime, aware, aware_or, earlier}
use hedge_desk.Digest.{Digest}
use hedge_desk.Dict.{Dict, get, put}
use hedge_desk.Paper.Plan.{PaperTradePlan, is_approved}
use hedge_desk.Paper.Authorize.{PaperOpen, execute_paper_open, PaperFillCheck, evaluate_paper_fill}
use hedge_desk.Paper.Lifecycle.{PaperLifecycleCheck, evaluate_plan_lifecycle}
use hedge_desk.Paper.Runner.{
  Entry, RunnerState, Escalation, PlanFile, Loading, plan_loaded, load_refused, load_raised,
  status_pending_open, status_open, status_closed, entry_or, load_state,
}

-- What the quotes provider gave: it raised, it had no credit, a value had the wrong type, or a size and
-- a credit.
pub data Quotes : Type 0 where
  provider_failed no_credit wrong_type : Quotes
  quoted : ℤ → Decimal → Quotes

pub record LifecycleInputs : Type 0 where
  pub short_leg_in_the_money : Bool
  pub ex_dividend_before_expiration : Bool
  pub assignment_notice_received : Bool
  pub contract_adjustment_pending : Bool
  pub settlement_terms_confirmed : Bool

-- A lifecycle provider that raised gives none.
pub record Providers : Type 0 where
  pub quotes : PaperTradePlan → Quotes
  pub lifecycle : PaperTradePlan → Option LifecycleInputs

-- The default inputs, with an adjustment pending.
abbrev pub failed_inputs : LifecycleInputs
failed_inputs = record {
  short_leg_in_the_money = false;
  ex_dividend_before_expiration = false;
  assignment_notice_received = false;
  contract_adjustment_pending = true;
  settlement_terms_confirmed = false;
}

abbrev pub inputs_or_failed : Option LifecycleInputs → LifecycleInputs
inputs_or_failed none = failed_inputs
inputs_or_failed (some inputs) = inputs

-- What a tick reports of a plan, or of a plan file that did not load: one item of report["opened"],
-- report["still_pending"], report["monitoring"], report["escalated"] or report["skipped"].
pub data Note : Type 0 where
  opened : PaperOpen → Note
  still_pending : List String → Note
  monitoring : Moment → Note
  escalated : Escalation → Note
  skipped : List String → Note

abbrev pub Report : Type 0
Report = List (String × Note)

-- entry["escalations"].append(escalation)
abbrev pub escalate : String → List String → Moment → Entry → Entry × Note
escalate action codes now e =
    let escalation : Escalation = record {
      action = action;
      reason_codes = codes;
      checked_at = now;
      status = "PENDING_HUMAN";
    } in
    (record e { escalations = e.escalations ++ escalation ∷ [] }, escalated escalation)

-- `except (PermissionError, ValueError)`
abbrev pub is_refusal : Error → Bool
is_refusal (value_error m) = true
is_refusal (permission_error m) = true
is_refusal type_error = false
is_refusal arithmetic_error = false

-- What the call of execute_paper_open ends in.
unfoldable pub opened_or_refused : Entry → Result PaperOpen → Result (Entry × Note)
opened_or_refused e (ok o) = ok (record e { status = status_open; open_record = some o }, opened o)
opened_or_refused e (err error) =
    if is_refusal error then ok (e, still_pending ("OPEN_REFUSED" ∷ [])) else err error

unfoldable pub open_if_ready :
    Digest → PaperTradePlan → Entry → Moment → PaperFillCheck → Result (Entry × Note)
open_if_ready digest plan e now fill =
    if fill.ready
    then opened_or_refused e (execute_paper_open digest plan (aware now))
    else ok (e, still_pending fill.reason_codes)

-- The fill check and the open, on what the provider gave.
unfoldable pub tick_quotes :
    Digest → PaperTradePlan → Entry → Moment → Quotes → Result (Entry × Note)
tick_quotes digest plan e now provider_failed =
    ok (e, still_pending ("QUOTES_PROVIDER_FAILED" ∷ []))
tick_quotes digest plan e now no_credit =
    ok (e, still_pending ("QUOTE_UNAVAILABLE" ∷ "INSUFFICIENT_COMBO_SIZE" ∷ []))
tick_quotes digest plan e now wrong_type = ok (e, still_pending ("QUOTE_PROVIDER_TYPE_ERROR" ∷ []))
tick_quotes digest plan e now (quoted size credit) = do
  fill ← evaluate_paper_fill digest plan size credit (aware now) false
  open_if_ready digest plan e now fill

unfoldable pub tick_pending_open :
    Digest → Providers → PaperTradePlan → Entry → Moment → Result (Entry × Note)
tick_pending_open digest providers plan e now =
    if earlier plan.approval_expires_at now
    then ok (e, still_pending ("APPROVAL_EXPIRED" ∷ []))
    else tick_quotes digest plan e now (providers.quotes plan)

abbrev pub escalation_actions : List String
escalation_actions =
    "CLOSE_REVIEW_REQUIRED" ∷ "BLOCK_AND_ESCALATE" ∷ "ASSIGNMENT_RECONCILIATION_REQUIRED"
    ∷ "EXPIRATION_RECONCILIATION_REQUIRED" ∷ []

unfoldable pub record_check : Entry → PaperLifecycleCheck → Entry × Note
record_check e check =
    if str_eq check.action "MONITOR"
    then (e, monitoring check.checked_at)
    else if has check.action escalation_actions
    then escalate check.action check.reason_codes check.checked_at e
    else escalate "BLOCK_AND_ESCALATE" ("UNKNOWN_LIFECYCLE_ACTION" ∷ check.reason_codes)
        check.checked_at e

unfoldable pub check_lifecycle :
    Digest → PaperTradePlan → Entry → Moment → LifecycleInputs → Result (Entry × Note)
check_lifecycle digest plan e now i = do
  check ←
      evaluate_plan_lifecycle digest plan (aware now) i.short_leg_in_the_money
        i.ex_dividend_before_expiration i.assignment_notice_received i.contract_adjustment_pending
        i.settlement_terms_confirmed
  ok (record_check e check)

unfoldable pub tick_opened :
    Digest → Providers → PaperTradePlan → Entry → Moment → Option PaperOpen → Result (Entry × Note)
tick_opened digest providers plan e now none =
    ok (escalate "BLOCK_AND_ESCALATE" ("OPEN_RECORD_CORRUPT" ∷ []) now e)
tick_opened digest providers plan e now (some o) =
    if not (str_eq o.plan_hash plan.plan_hash)
    then ok (escalate "BLOCK_AND_ESCALATE" ("OPEN_PLAN_HASH_MISMATCH" ∷ []) now e)
    else check_lifecycle digest plan e now (inputs_or_failed (providers.lifecycle plan))

unfoldable pub tick_open :
    Digest → Providers → PaperTradePlan → Entry → Moment → Result (Entry × Note)
tick_open digest providers plan e now = tick_opened digest providers plan e now e.open_record

-- The report of a closed plan has no item.
abbrev pub with_note : Result (Entry × Note) → Result (Entry × Option Note)
with_note (ok (e, n)) = ok (e, some n)
with_note (err error) = err error

-- What a tick does to the entry of an approved plan.
unfoldable pub tick_entry :
    Digest → Providers → PaperTradePlan → Entry → Moment → Result (Entry × Option Note)
tick_entry digest providers plan e now =
    if not (str_eq e.plan_hash plan.plan_hash)
    then with_note (ok (escalate "BLOCK_AND_ESCALATE" ("PLAN_HASH_MISMATCH" ∷ []) now e))
    else if str_eq e.status status_pending_open
    then with_note (tick_pending_open digest providers plan e now)
    else if str_eq e.status status_open
    then with_note (tick_open digest providers plan e now)
    else if str_eq e.status status_closed
    then ok (e, none)
    else ok (e, some (skipped ("UNKNOWN_PLAN_STATUS" ∷ [])))

abbrev pub add_note : String → Option Note → Report → Report
add_note key none report = report
add_note key (some n) report = (key, n) ∷ report

-- The loop over the plan files: the entries, the report in the order of the files, and `ticked`.
pub record Ticked : Type 0 where
  pub plans : Dict Entry
  pub report : Report
  pub ticked : Bool

abbrev pub note_first : String → Option Note → Bool → Ticked → Ticked
note_first key note is_tick t = record {
  plans = t.plans;
  report = add_note key note t.report;
  ticked = is_tick || t.ticked;
}

-- One approved plan; any other is passed over.
unfoldable pub tick_plan :
    Digest
    → Providers
    → Moment
    → PaperTradePlan
    → Dict Entry
    → Result (Dict Entry × Option Note × Bool)
tick_plan digest providers now plan plans =
    let advanced = (do
      step ← tick_entry digest providers plan (entry_or (get plan.plan_id plans) plan) now
      ok (put plan.plan_id step.0 plans, step.1, true)) in
    if is_approved plan.authorization.status then advanced else ok (plans, none, false)

unfoldable pub tick_file :
    Digest → Providers → Moment → Loading → Dict Entry → Result (Dict Entry × Option Note × Bool)
tick_file digest providers now load_refused plans =
    ok (plans, some (skipped ("PLAN_FILE_LOAD_FAILED" ∷ [])), false)
tick_file digest providers now (load_raised error) plans = err error
tick_file digest providers now (plan_loaded plan) plans = tick_plan digest providers now plan plans

-- What the report names: the plan, or the file that did not load.
abbrev pub report_key : String → Loading → String
report_key path load_refused = path
report_key path (load_raised error) = path
report_key path (plan_loaded plan) = plan.plan_id

unfoldable pub tick_files : Digest → Providers → Moment → List PlanFile → Dict Entry → Result Ticked
tick_files digest providers now [] plans =
    ok (record { plans = plans; report = []; ticked = false })
tick_files digest providers now (file ∷ files) plans = do
  step ← tick_file digest providers now file.loaded plans
  rest ← tick_files digest providers now files step.0
  ok (note_first (report_key file.path file.loaded) step.1 step.2 rest)

-- if ticked: write the state
abbrev pub written_state : Option RunnerState → RunnerState → Ticked → Option RunnerState
written_state file state t = if t.ticked then some (record state { plans = t.plans }) else file

-- A directory that is not there has no files. A call that raises writes nothing.
unfoldable pub advance_paper_lifecycle :
    Digest
    → Providers
    → List PlanFile
    → Option RunnerState
    → DateTime
    → Result (Option RunnerState × Report)
advance_paper_lifecycle digest providers files state_file now = do
  tick ← aware_or now (value_error "tick timestamp must be timezone-aware")
  let advanced = (do
    state ← load_state state_file
    t ← tick_files digest providers tick files state.plans
    ok (written_state state_file state t, t.report))
  if is_empty files then ok (state_file, []) else advanced
