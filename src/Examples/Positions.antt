-- ===== src/Examples/Positions.antt =====
-- The theorems on the runner of paper plans, on a plan that is opened by a tick and closed by a human.
use hedge_desk.Prelude.{
  flags, canonical, length, ◌++◌, ok, arith, false, ◌≡◌, refl, none, some, List, [], ◌∷◌,
  is_only_space, checks, strip, strip_right,
}
use hedge_desk.Decimal.{
  decimal_lt, decimal_gt, pos, number, hundredths, number_lt, number_eq, number_mul, number_sub,
  number_div, number_neg,
}
use hedge_desk.Time.{aware, aware_or}
use hedge_desk.Dict.{Dict, get, put}
use hedge_desk.Paper.Plan.{PaperTradePlan}
use hedge_desk.Paper.Authorize.{PaperOpen, execute_paper_open, evaluate_paper_fill}
use hedge_desk.Paper.Close.{close_paper_trade}
use hedge_desk.Paper.Runner.{
  Entry, RunnerState, PlanFile, plan_loaded, load_refused, default_state, load_state,
}
use hedge_desk.Paper.Runner.Tick.{
  Providers, Report, quoted, advance_paper_lifecycle, tick_files, tick_file, tick_plan, tick_entry,
  tick_pending_open, tick_quotes, open_if_ready, opened_or_refused,
}
use hedge_desk.Paper.Runner.Close.{
  CloseRequest, close_paper_position, decision_checks, code_checks, find_plan, entry_checks,
}
use hedge_desk.Paper.Runner.Tick
use hedge_desk.Paper.Runner.Opens.{opened_entry, entry_for, Notes, fillable_opens}
use hedge_desk.Paper.Authorize.Fill.{Fillable}
use hedge_desk.Paper.Authorize.Ready.{Openable}
use hedge_desk.Json.{Codec}
use hedge_desk.Paper.Log.{
  LogEntry, read_log, append_outcome, validate_entry, outcome_flags, hash_entry, entry_body,
}
use hedge_desk.Paper.Settler.{
  Surroundings, artifact, stored_plan, provider_failed, load_plan, outcome_for_realized_pnl,
  record_once, already_settled, is_recorded,
}
use hedge_desk.Paper.Settler.Run.{
  settle_paper_outcomes, settlement_state, settle_entries, sort_entries, insert_entry, do_settling,
  settling_of, settle_closed_plan, settle_close, settle_pnl,
}
use hedge_desk.Paper.Settler.Settled.{Settlement, settle_all, OnceEach, settled_once}
use hedge_desk.Paper.Runner.Changes.{RunnerEvent, tick, close, run_event, run_events, entries_of}
use hedge_desk.Paper.Runner.History.{Remains, history_stands}
use hedge_desk.Paper.Runner.Sound.{SoundEntry, history_sound}
use hedge_desk.Examples.Desk.{hash, digest, at, leg}
use hedge_desk.Examples.Plans.{approved_plan, opened, closed}

abbrev files : List PlanFile
files = record { path = "plan-1.json"; loaded = plan_loaded approved_plan } ∷ []

abbrev providers : Providers
providers = record {
  quotes = λ p. quoted (pos 3) (number (hundredths 9900));
  lifecycle = λ p. none;
}

abbrev opening_tick : RunnerEvent
opening_tick = tick providers files (aware (at 100))

abbrev request : CloseRequest
request = record {
  plan_id = "plan-1";
  human_id = "mentor";
  decided_at = aware (at 130);
  reason_codes = "PROFIT_TARGET" ∷ [];
  short_quote = leg "P100" 100 40 45;
  long_quote = leg "P95" 95 10 12;
  exit_commission_per_contract = number (hundredths 65);
}

abbrev later_events : List RunnerEvent
later_events = close files request ∷ tick providers files (aware (at 140)) ∷ []

abbrev open_entry : Entry
open_entry = record {
  status = "OPEN";
  plan_hash = hash;
  open_record = some opened;
  close_record = none;
  close_decision = none;
  escalations = [];
}

abbrev open_state : RunnerState
open_state = record default_state { plans = ("plan-1", open_entry) ∷ [] }

abbrev entry_closed : Entry
entry_closed = record {
  status = "CLOSED";
  plan_hash = hash;
  open_record = some opened;
  close_record = some closed;
  close_decision =
      some
        (record { human_id = "mentor"; decided_at = at 130; reason_codes = "PROFIT_TARGET" ∷ [] });
  escalations = [];
}

abbrev closed_state : RunnerState
closed_state = record default_state { plans = ("plan-1", entry_closed) ∷ [] }

tick_opens : run_event digest opening_tick none ≡ some open_state
unfolding run_event advance_paper_lifecycle aware_or load_state tick_files tick_file tick_plan
    tick_entry get tick_pending_open tick_quotes evaluate_paper_fill open_if_ready number_lt
    opened_or_refused execute_paper_open put
tick_opens = refl

human_closes : run_event digest (close files request) (some open_state) ≡ some closed_state
unfolding run_event close_paper_position checks decision_checks is_only_space aware_or code_checks
    find_plan load_state get entry_checks close_paper_trade number_eq number_lt number_mul
    number_sub number_div number_neg put strip strip_right
human_closes = refl

open_is_there : get "plan-1" (entries_of (some open_state)) ≡ some open_entry
unfolding get
open_is_there = refl

history_stands_example :
    Remains (entries_of (run_events digest later_events (some open_state))) "plan-1" open_entry
history_stands_example =
    history_stands digest later_events (some open_state) "plan-1" open_entry open_is_there

closed_found :
    get "plan-1" (entries_of (run_events digest (opening_tick ∷ close files request ∷ []) none))
    ≡ some entry_closed
unfolding run_events get
closed_found = rw (tick_opens, human_closes) refl

history_sound_example : SoundEntry digest entry_closed
history_sound_example =
    history_sound digest (opening_tick ∷ close files request ∷ []) "plan-1" entry_closed
      closed_found

load_default : load_state none ≡ ok default_state
unfolding load_state
load_default = refl

plan-Openable : Openable digest approved_plan (at 100)
plan-Openable = record { intact = refl; bound = refl; unexpired = omega arith }

plan-Fillable : Fillable approved_plan (pos 3) (number (hundredths 9900)) (at 100) false
unfolding decimal_lt number_lt
plan-Fillable = record {
  human = refl;
  machine = refl;
  compliance = refl;
  enough = omega arith;
  credit_kept = refl;
  unadjusted = refl;
  after_quotes = omega arith;
  quotes_fresh = omega arith;
}

-- Beside the plan there are a file that does not load, and one of another plan.
abbrev other_plan : PaperTradePlan
other_plan = record approved_plan { plan_id = "plan-2" }

abbrev bad_file : PlanFile
bad_file = record { path = "a.json"; loaded = load_refused }

abbrev other_file : PlanFile
other_file = record { path = "plan-2.json"; loaded = plan_loaded other_plan }

fillable_opens_example :
    (o : PaperOpen) × (plans : Dict Entry) × (report : Report) × (execute_paper_open digest
        approved_plan
        (aware (at 100))
      ≡ ok o)
    × (advance_paper_lifecycle digest providers
          (bad_file
            ∷ record { path = "plan-1.json"; loaded = plan_loaded approved_plan }
            ∷ other_file
            ∷ [])
          none
          (aware (at 100))
        ≡ ok (some (record default_state { plans = plans }), report))
    × (get "plan-1" plans ≡ some (opened_entry (entry_for default_state approved_plan) o))
    × Notes "plan-1" (Tick.opened o) report
unfolding get
fillable_opens_example =
    fillable_opens digest providers (bad_file ∷ []) (other_file ∷ []) "plan-1.json" approved_plan
      none default_state (at 100) (pos 3) (number (hundredths 9900)) load_default (tt, tt)
      (record { intact = refl; comparable = refl }, tt) refl refl refl refl refl plan-Openable
      plan-Fillable

-- A codec that is enough to settle.
abbrev codec : Codec
codec = record {
  loads = λ s. none;
  dumps = λ j. "";
  str_of = λ j. "";
  isoformat = λ t. "";
  fromisoformat = λ s. none;
  decimal_text = λ n. "98.70";
  decimal_of = λ s. none;
}

abbrev surroundings : Surroundings
surroundings = record {
  closes = λ id.
      artifact "paper"
        (some (record {
          plan_id = "plan-1";
          realized_pnl = some (number (hundredths 6240));
          exit_debit = some "35.00";
          close_sha256 = some hash;
          exit_evaluation_sha256 = some hash;
        }))
        (some (record {
          human_id = some "mentor";
          decided_at = none;
          reason_codes = "PROFIT_TARGET" ∷ [];
        }));
  plans = λ id. stored_plan approved_plan;
  provider = λ p. provider_failed;
}

abbrev settlement : Settlement
settlement = record { around = surroundings; file = some closed_state; now = aware (at 200) }

-- The second settlement finds the outcome of the first one.
one_entry : length (settle_all codec digest (settlement ∷ settlement ∷ []) []) ≡ 1
unfolding settle_all settle_paper_outcomes settlement_state aware_or load_state checks
    settle_entries sort_entries insert_entry do_settling settling_of settle_closed_plan settle_close
    settle_pnl load_plan outcome_for_realized_pnl decimal_gt decimal_lt number_lt record_once
    already_settled read_log is_recorded append_outcome validate_entry outcome_flags flags canonical
    hash_entry entry_body
one_entry = refl

settled_once_example :
    OnceEach (settle_all codec digest (settlement ∷ settlement ∷ []) [])
    × (added : List LogEntry) × (settle_all codec digest (settlement ∷ settlement ∷ []) []
        ≡ [] ++ added)
settled_once_example = settled_once codec digest (settlement ∷ settlement ∷ []) [] tt
