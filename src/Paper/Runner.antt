-- ===== src/Paper/Runner.antt =====
-- paper/runner.py: the state of the runner that drives approved paper plans on a cadence. Its state file
-- is read as it was written, a plan file is what loading it gave, and a provider what calling it gave.
pub mod Tick
pub mod Close
pub mod Forward
pub mod Changes
pub mod History
pub mod Sound
pub mod Returns
pub mod Opens
use hedge_desk.Prelude.{
  ℕ, String, Bool, true, false, not, ◌||◌, ◌&&◌, Option, none, some, List, [], ◌∷◌, ◌++◌, any, has,
  Error, value_error, permission_error, type_error, arithmetic_error, Result, ok, err, checks,
  ◌>>=◌, ◌>>◌, is_only_space, is_empty, str_eq, strip, if◌then◌else◌,
}
use hedge_desk.Decimal.{ℤ, Number, Decimal}
use hedge_desk.Time.{Moment, DateTime, aware, aware_or, earlier}
use hedge_desk.Digest.{Digest}
use hedge_desk.Dict.{Dict, get, put}
use hedge_desk.Options.Quotes.{OptionQuote}
use hedge_desk.Options.Exit.{default_exit_policy}
use hedge_desk.Paper.Plan.{PaperTradePlan, is_approved}
use hedge_desk.Paper.Authorize.{PaperOpen, execute_paper_open, PaperFillCheck, evaluate_paper_fill}
use hedge_desk.Paper.Lifecycle.{PaperLifecycleCheck, evaluate_plan_lifecycle}
use hedge_desk.Paper.Close.{PaperClose, close_paper_trade}

abbrev pub status_pending_open : String
status_pending_open = "PENDING_OPEN"

abbrev pub status_open : String
status_open = "OPEN"

abbrev pub status_closed : String
status_closed = "CLOSED"

pub record Escalation : Type 0 where
  pub action : String
  pub reason_codes : List String
  pub checked_at : Moment
  pub status : String

pub record CloseDecision : Type 0 where
  pub human_id : String
  pub decided_at : Moment
  pub reason_codes : List String

-- The entry of a plan in the state. An `open` that does not read back as a PaperOpen is none.
pub record Entry : Type 0 where
  pub status : String
  pub plan_hash : String
  pub open_record : Option PaperOpen
  pub close_record : Option PaperClose
  pub close_decision : Option CloseDecision
  pub escalations : List Escalation

pub record RunnerState : Type 0 where
  pub schema_version : String
  pub environment : String
  pub plans : Dict Entry

abbrev pub state_schema_version : String
state_schema_version = "paper-runner-state-1.0.0"

abbrev pub default_state : RunnerState
default_state = record { schema_version = state_schema_version; environment = "paper"; plans = [] }

-- The messages go on with what the file says.
unfoldable pub load_state : Option RunnerState → Result RunnerState
load_state none = ok default_state
load_state (some raw) = do
  checks (
      (
        not (str_eq raw.schema_version state_schema_version),
        value_error "unsupported runner state schema",
      )
      ∷ (not (str_eq raw.environment "paper"), value_error "refusing non-paper runner state")
      ∷ [])
  ok raw

-- What loading a plan file gave: a plan, one of the errors that the callers catch (ValueError, KeyError
-- and JSONDecodeError), or another error, which they do not.
pub data Loading : Type 0 where
  plan_loaded : PaperTradePlan → Loading
  load_refused : Loading
  load_raised : Error → Loading

-- A file of the plans' directory, in the order of their names.
pub record PlanFile : Type 0 where
  pub path : String
  pub loaded : Loading

abbrev pub new_entry : PaperTradePlan → Entry
new_entry plan = record {
  status = status_pending_open;
  plan_hash = plan.plan_hash;
  open_record = none;
  close_record = none;
  close_decision = none;
  escalations = [];
}

-- state["plans"].get(plan_id), or else a new entry
abbrev pub entry_or : Option Entry → PaperTradePlan → Entry
entry_or none plan = new_entry plan
entry_or (some e) plan = e
