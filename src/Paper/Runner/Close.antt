-- ===== src/Paper/Runner/Close.antt =====
-- paper/runner.py: a human close (close_paper_position), and the escalations that wait for a human.
use hedge_desk.Prelude.{
  String, Bool, false, not, ◌||◌, Option, none, some, List, [], ◌∷◌, ◌++◌, any, Error, value_error,
  permission_error, type_error, Result, ok, err, checks, ◌>>=◌, ◌>>◌, is_only_space, is_empty,
  str_eq, strip, if◌then◌else◌,
}
use hedge_desk.Decimal.{Decimal}
use hedge_desk.Time.{Moment, DateTime, aware, aware_or}
use hedge_desk.Digest.{Digest}
use hedge_desk.Dict.{Dict, get, put}
use hedge_desk.Options.Quotes.{OptionQuote}
use hedge_desk.Options.Exit.{default_exit_policy}
use hedge_desk.Paper.Plan.{PaperTradePlan}
use hedge_desk.Paper.Authorize.{PaperOpen}
use hedge_desk.Paper.Close.{PaperClose, close_paper_trade}
use hedge_desk.Paper.Runner.{
  Entry, RunnerState, Escalation, CloseDecision, PlanFile, plan_loaded, load_refused, load_raised,
  status_open, status_closed, load_state,
}

-- _find_plan_file and the loading of the file that it found
unfoldable pub find_plan : String → List PlanFile → Result PaperTradePlan
find_plan plan_id [] = err (value_error "no paper plan file found for plan_id")
find_plan plan_id (file ∷ files) = elim file.loaded [
  | plan_loaded plan ↦
      let rest = find_plan plan_id files in if str_eq plan.plan_id plan_id then ok plan else rest
  | load_refused ↦ find_plan plan_id files
  | load_raised error ↦ err error
]

unfoldable pub entry_checks : PaperTradePlan → Entry → List (Bool × Error)
entry_checks plan e =
    (
      not (str_eq e.status status_open),
      permission_error "only an OPEN paper position can be closed",
    )
    ∷ (
      not (str_eq e.plan_hash plan.plan_hash),
      permission_error "state entry is not bound to the approved plan",
    )
    ∷ []

abbrev pub entry_found : Option Entry → Result Entry
entry_found none = err (permission_error "plan has no lifecycle state")
entry_found (some e) = ok e

-- _open_from_dict(entry["open"])
abbrev pub open_found : Option PaperOpen → Result PaperOpen
open_found none = err type_error
open_found (some o) = ok o

unfoldable pub decision_checks : String → List (Bool × Error)
decision_checks human_id = (is_only_space human_id, value_error "human identity is required") ∷ []

unfoldable pub code_checks : List String → List (Bool × Error)
code_checks codes =
    (
      is_empty codes || any is_only_space codes,
      value_error "close requires at least one reason code",
    )
    ∷ []

-- The arguments of a human close.
pub record CloseRequest : Type 0 where
  pub plan_id : String
  pub human_id : String
  pub decided_at : DateTime
  pub reason_codes : List String
  pub short_quote : OptionQuote
  pub long_quote : OptionQuote
  pub exit_commission_per_contract : Decimal

abbrev pub closed_entry : Entry → PaperClose → CloseDecision → Entry
closed_entry e c d = record e {
  status = status_closed;
  close_record = some c;
  close_decision = some d;
}

abbrev pub decision_of : CloseRequest → Moment → CloseDecision
decision_of r decided = record {
  human_id = strip r.human_id;
  decided_at = decided;
  reason_codes = r.reason_codes;
}

-- The new state and the close; writing the close beside the state is left out.
unfoldable pub close_paper_position :
    Digest → List PlanFile → Option RunnerState → CloseRequest → Result (RunnerState × PaperClose)
close_paper_position digest files state_file r = do
  checks (decision_checks r.human_id)
  decided ← aware_or r.decided_at (value_error "close decision timestamp must be timezone-aware")
  checks (code_checks r.reason_codes)
  plan ← find_plan r.plan_id files
  state ← load_state state_file
  e ← entry_found (get r.plan_id state.plans)
  checks (entry_checks plan e)
  o ← open_found e.open_record
  c ←
      close_paper_trade digest o plan r.short_quote r.long_quote r.exit_commission_per_contract
        (aware decided) false default_exit_policy
  ok (
    record state { plans = put r.plan_id (closed_entry e c (decision_of r decided)) state.plans },
    c,
  )

-- The escalations of an entry that wait for a human.
unfoldable pub pending_of : List Escalation → List Escalation
pending_of [] = []
pending_of (x ∷ xs) = if str_eq x.status "PENDING_HUMAN" then x ∷ pending_of xs else pending_of xs

unfoldable pub named_escalations : String → List Escalation → List (String × Escalation)
named_escalations plan_id [] = []
named_escalations plan_id (x ∷ xs) = (plan_id, x) ∷ named_escalations plan_id xs

unfoldable pub pending_escalations : Dict Entry → List (String × Escalation)
pending_escalations [] = []
pending_escalations ((plan_id, e) ∷ rest) =
    named_escalations plan_id (pending_of e.escalations) ++ pending_escalations rest

unfoldable pub list_pending_escalations : Option RunnerState → Result (List (String × Escalation))
list_pending_escalations state_file = do
  state ← load_state state_file
  ok (pending_escalations state.plans)
