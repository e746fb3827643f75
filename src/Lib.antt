-- ===== src/Lib.antt =====
-- A model of the decision core of hedge-desk, a trading research desk that only trades on
-- paper, and the theorems that make it correct. Everything here is translated from
-- hedge_desk/, the Python package at the repository's root.
--
-- How the parts interact. A trade candidate and an account (domain/models.py) go through the
-- account gate (compliance/account_gate.py) and the risk gate (risk/ruin.py); core/decision.py
-- combines the two with content-addressed risk inputs (risk/inputs.py) into a risk decision.
-- The Back Office (backoffice/portfolio.py, backoffice/compliance.py,
-- compliance/traceability.py) makes its own decision on the same candidate. options/spreads.py
-- computes the economics of a credit spread from executable quotes, and options/events.py
-- keeps it away from corporate events. paper/workflow.py binds a spread, a risk decision and a
-- Back Office decision into a hashed plan, takes one human decision on it, opens it, checks
-- its fill, follows it and closes it through options/exit_policy.py. execution_gate.py asks
-- the risk gate and the release gate (release.py) before an order. paper/runner.py drives
-- approved plans through that workflow on a cadence and keeps their entries in a state file,
-- paper/settler.py derives the outcomes of closed and expired plans and writes them to the log
-- of paper_log.py, and backoffice/reconciliation.py compares the paper ledger with the
-- broker's. audit.py chains the events of a run by their hashes, audit_store.py keeps such a
-- chain in a file, and replay.py checks the order of a decision's timeline. models/ holds the
-- gates on research models, jobs.py that on research jobs, and freshness.py says which trading
-- day a batch is about. scheduler.py keeps the journal of scheduled evaluations, and
-- rate_limit.py the limits of the authentication surface.
--
-- Files and the code that they model:
-- - Domain: domain/models.py. A constructor of a frozen dataclass is the record, and
--   make_account, make_candidate and make_decision run the checks of __post_init__ on raw
--   values.
-- - AccountGate: compliance/account_gate.py (account_gate); Eligible holds what eligibility
--   means.
-- - Risk: risk/ruin.py (RiskPolicy, risk_gate); Gate holds the limits. Risk.Inputs:
--   risk/inputs.py (build_validated_risk_inputs, validate_risk_inputs); Tamper is about its
--   digest.
-- - Decide: core/decision.py (evaluate_candidate); Sound is about its decisions.
-- - BackOffice.Portfolio, BackOffice.Compliance, BackOffice.Traceability: the files of these
--   names in backoffice/ and compliance/.
-- - Options.Quotes and Options.Spread: options/spreads.py; Options.Exit:
--   options/exit_policy.py; Options.Events: options/events.py.
-- - Paper.Plan: the records and the hash of paper/workflow.py. Paper.Create:
--   create_paper_trade_plan. Paper.Authorize: approve_paper_trade, reject_paper_trade,
--   execute_paper_open, evaluate_paper_fill; Once is about sequences of human decisions,
--   Reachable about the plans that creation and decisions lead to, Fill and Ready about what
--   is filled and opened. Paper.Lifecycle: evaluate_paper_lifecycle, evaluate_plan_lifecycle.
--   Paper.Close: close_paper_trade.
-- - Paper.Runner: the state of paper/runner.py; Tick has advance_paper_lifecycle,
--   _tick_pending_open and _tick_open, Close has close_paper_position and
--   list_pending_escalations. Forward is about one entry in one tick, Changes about sequences
--   of ticks and human closes, History and Sound about what holds of the entries over them,
--   Returns about what a tick does not raise at, and Opens about the tick of a plan that can
--   be filled.
-- - Paper.Log: paper_log.py. Paper.Settler: paper/settler.py, whose Run has
--   _settle_closed_plan, _settle_open_plan and settle_paper_outcomes; Settled is about
--   sequences of settlements.
-- - BackOffice.Reconciliation: backoffice/reconciliation.py; Reconciled is about the
--   evaluation, Serialized about what is written out and read back.
-- - Audit: audit.py (append_audit_event, verify_audit_chain); Chain is about accepted chains,
--   Append and Tamper about what makes and what changes one. Audit.Store: audit_store.py;
--   Lines is about one line of the file, Journal about sequences of appends.
-- - Models, Models.Quorum, Models.Splits, Models.Training: registry.py, quorum.py, splits.py
--   and training_run.py of models/.
-- - Jobs: jobs.py. Replay: replay.py (validate_replay). Freshness: freshness.py.
-- - Scheduler: the receipts of scheduler.py; Scheduler.Run: execute_scheduled_run, and run_all
--   for a sequence of requests.
-- - Release: release.py. ExecutionGate: execution_gate.py.
-- - RateLimit: rate_limit.py (SlidingWindowLimiter, AuthRateLimits). Refines relates the map
--   of a limiter to a log of all attempts, Bounded is about its size, Auth about the two
--   limits together.
-- - Dict: Python's dict as an association list. Json: what json.loads returns. Decimal:
--   decimal.Decimal. Time: datetime. Digest: what is hashed. Prelude: results of code that
--   raises, lists of checks and of reason codes, texts. Examples: a concrete desk on which the
--   theorems are applied.
--
-- How code becomes definitions. Code that raises returns a Result, whose errors are the
-- exceptions with their messages; where a message goes on with a list of codes, the model has
-- its fixed part. A run of "if test: raise error" is a list of checks, a run of "if test:
-- reasons.append(code)" a list of flags, and tuple(sorted(set(reasons))) is canonical. The
-- checks of Python types (isinstance, type(x) is bool) hold by the types of the model. State
-- is passed explicitly: a frozen record that is replaced is a new record, and the journal and
-- the limiter are arguments and results. The lock of a limiter makes each call one step; its
-- clock counts ticks.
--
-- Parameters. A digest is the parameter Digest, a function from the leaves of a payload to a
-- text: it stands for the rendering of the payload (isoformat, str, json.dumps, joining by a
-- separator) followed by sha256. The boundaries of the leaves are the model's: the plan hash
-- of paper/workflow.py and the artifact hash of backoffice/compliance.py join their leaves by
-- '|' and ',' without escaping them, so that the text does not keep them apart. joined of
-- Digest writes that text, and where a theorem is about what a plan hash binds, it speaks of
-- the joined text. Nothing is assumed of a digest but where a theorem says so. The report
-- builder is an argument of a scheduled run, as in the code; the report type and
-- validate_report of reporting.py, which is not modelled, stand beside it. json.loads,
-- json.dumps, str, isoformat, fromisoformat and the text of a Decimal are the fields of the
-- parameter Codec, and what the library documents of them (KeepsTexts, IsCodec) or what reads
-- back (ReadsBack) is a hypothesis where it is used. The providers of the runner are functions
-- of the plan; one that raises is a value of its result. How a write to the journal ends is an
-- argument, Write, and the file is the list of its lines, each of which ends in a newline. The
-- runner's state file reads back as it was written, a plan file or the file of a close is what
-- reading it gave, the log of outcomes is the list of its entries, whose contents may have
-- been changed, and writing the escalation manifest and the close artifact beside the state is
-- left out.
--
-- Numbers. Decimal keeps 28 significant digits and rounds half to even as the default context
-- does; the bounds on the exponent are left out. int is ℤ where the code admits a negative
-- one, and the native ℕ once it was checked. int(value, 16) reads the decimal digits of
-- Unicode 14. Times are microseconds, and an aware datetime carries its UTC time and the time
-- that its own clock shows, whose offset later_by keeps, as a fixed offset does. A date is the
-- number of days since the first of January of the year 1. lower_eq is what comparing
-- str.lower with a word of small ASCII letters gives. No definition runs on fuel but
-- trading_loop, which has three rounds because a weekend has two days (any more give the same
-- day), count_digits, whose fuel is the number itself and which divides it by ten at each
-- step, and strip_zeros, whose fuel is the number of zeros that were added.
--
-- Not modelled: estimate_risk_of_ruin of risk/ruin.py, which the gates never call; the checks
-- of serialized receipts, readiness, replays and audits, and the reference objects of
-- replay.py and audit.py; build_candidate_from_structure; the JSON of the runner's state and
-- of plan files (paper/review.py); and all of the desks, feeds, broker clients, servers,
-- reports and drivers, which are input and output around this core.
pub mod Prelude
pub mod Decimal
pub mod Time
pub mod Digest
pub mod Domain
pub mod AccountGate
pub mod Risk
pub mod Decide
pub mod Dict
pub mod RateLimit
pub mod BackOffice
pub mod Options
pub mod Paper
pub mod Scheduler
pub mod Release
pub mod ExecutionGate
pub mod Json
pub mod Audit
pub mod Models
pub mod Jobs
pub mod Freshness
pub mod Replay
pub mod Examples
