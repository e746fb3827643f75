-- ===== src/Paper/Settler.antt =====
-- paper/settler.py: the outcomes of paper positions, from human closes and from data at expiration. The
-- files of closes and plans are what reading them gave.
pub mod Run
pub mod Settled
use hedge_desk.Prelude.{
  String, Bool, true, false, not, ◌⊎◌, inl, inr, ◌||◌, Option, none, some, List, [], ◌∷◌, ◌++◌, any,
  Error, value_error, Result, ok, err, ◌>>=◌, str_eq, text_lt, if◌then◌else◌, ltb, ◌&&◌,
}
use hedge_desk.Decimal.{
  ℤ, Number, Decimal, whole, number, infinity, nan, number_lt, number_eq, decimal_gt, decimal_lt,
}
use hedge_desk.Time.{Moment, DateTime, aware, aware_or, date}
use hedge_desk.Json.{Codec, of_int}
use hedge_desk.Digest.{Digest, Field, text, texts, moment, day}
use hedge_desk.Dict.{Dict}
use hedge_desk.Paper.Plan.{PaperTradePlan}
use hedge_desk.Paper.Authorize.{PaperOpen}
use hedge_desk.Paper.Log.{Outcome, LogEntry, read_log, append_outcome, text_or_null}
use hedge_desk.Paper.Runner.{Entry, RunnerState, status_open, status_closed, load_state}

abbrev pub settler_version : String
settler_version = "paper-settler-1.0.0"

-- What the settler reads of a close; realized_pnl is none where it is missing or no Decimal.
pub record CloseRecord : Type 0 where
  pub plan_id : String
  pub realized_pnl : Option Decimal
  pub exit_debit : Option String
  pub close_sha256 : Option String
  pub exit_evaluation_sha256 : Option String

pub record DecisionRecord : Type 0 where
  pub human_id : Option String
  pub decided_at : Option String
  pub reason_codes : List String

-- The file of a close; `close` and `decision` are none where they are no dicts.
pub data Artifact : Type 0 where
  artifact_missing artifact_unreadable : Artifact
  artifact : String → Option CloseRecord → Option DecisionRecord → Artifact

-- The file of a plan; loading it may raise an error that is not caught.
pub data StoredPlan : Type 0 where
  plan_missing plan_unreadable : StoredPlan
  plan_raises : Error → StoredPlan
  stored_plan : PaperTradePlan → StoredPlan

-- A value of the market data: None, a Decimal, an int, a float by the Decimal of its text, or else.
pub data Observed : Type 0 where
  unobserved other_value : Observed
  observed_decimal observed_float : Decimal → Observed
  observed_int : ℤ → Observed

-- What calling the provider gave: it raised, it gave no mapping, or one with these two values.
pub data MarketData : Type 0 where
  provider_failed provider_invalid : MarketData
  market_data : Observed → Observed → MarketData

-- What is in the directory of the state, beside it, and the provider.
pub record Surroundings : Type 0 where
  pub closes : String → Artifact
  pub plans : String → StoredPlan
  pub provider : PaperTradePlan → MarketData

pub data SettleNote : Type 0 where
  settled unknown : String → List String → LogEntry → SettleNote
  skipped : List String → SettleNote

unfoldable pub outcome_for_realized_pnl : Decimal → Result (String × List String)
outcome_for_realized_pnl pnl = do
  gain ← decimal_gt pnl (whole 0)
  loss ← decimal_lt pnl (whole 0)
  ok (
      if gain
      then ("CLOSED_GAIN", "REALIZED_PNL_GAIN" ∷ [])
      else if loss
      then ("CLOSED_LOSS", "REALIZED_PNL_LOSS" ∷ [])
      else ("STOPPED", "ZERO_PNL_CLOSE" ∷ []))

abbrev pub finite_value : Decimal → Option Number
finite_value (number n) = some n
finite_value (infinity negative) = none
finite_value nan = none

abbrev pub observed_value : Observed → Option Number
observed_value unobserved = none
observed_value other_value = none
observed_value (observed_decimal d) = finite_value d
observed_value (observed_float d) = finite_value d
observed_value (observed_int n) = some (of_int n)

-- The outcome, its codes and the leaves of `observed`: short_intrinsic and underlying_close.
pub record Observation : Type 0 where
  pub outcome : String
  pub codes : List String
  pub intrinsic : List Field
  pub close : List Field

abbrev pub unknown_because : String → Observation
unknown_because code = record { outcome = "UNKNOWN"; codes = code ∷ []; intrinsic = []; close = [] }

abbrev pub expired_as : String → String → Number → Number → Observation
expired_as outcome code close intrinsic = record {
  outcome = outcome;
  codes = code ∷ [];
  intrinsic = Field.number intrinsic ∷ [];
  close = Field.number close ∷ [];
}

unfoldable pub observe_values : Option Number → Option Number → Observation
observe_values (some close) (some intrinsic) =
    if number_lt intrinsic (whole 0)
    then unknown_because "NEGATIVE_SHORT_INTRINSIC"
    else if number_eq intrinsic (whole 0)
    then expired_as "EXPIRED_WORTHLESS" "SHORT_LEG_EXPIRED_OTM" close intrinsic
    else expired_as "ASSIGNED" "SHORT_LEG_EXPIRED_ITM" close intrinsic
observe_values _ _ = unknown_because "MARKET_DATA_UNAVAILABLE"

unfoldable pub observe_expiration_outcome : MarketData → Observation
observe_expiration_outcome provider_failed = unknown_because "MARKET_DATA_PROVIDER_FAILED"
observe_expiration_outcome provider_invalid = unknown_because "MARKET_DATA_PROVIDER_INVALID"
observe_expiration_outcome (market_data close intrinsic) =
    observe_values (observed_value close) (observed_value intrinsic)

-- The plan, or else the failure code.
unfoldable pub load_plan : StoredPlan → Entry → Result (PaperTradePlan ⊎ String)
load_plan plan_missing e = ok (inr "PLAN_FILE_NOT_FOUND")
load_plan plan_unreadable e = ok (inr "PLAN_FILE_LOAD_FAILED")
load_plan (plan_raises error) e = err error
load_plan (stored_plan plan) e =
    if str_eq plan.plan_hash e.plan_hash then ok (inl plan) else ok (inr "STATE_PLAN_HASH_MISMATCH")

-- An `open` that does not read back has no time.
abbrev pub entered_at : Option PaperOpen → Option DateTime
entered_at none = none
entered_at (some o) = some (aware o.opened_at)

abbrev pub entered_codes : Option PaperOpen → List String
entered_codes none = "OPENED_AT_UNPARSEABLE" ∷ []
entered_codes (some o) = []

abbrev pub premium_of : Codec → Option PaperOpen → Option String
premium_of codec none = none
premium_of codec (some o) = some (codec.decimal_text o.entry_credit)

-- The same outcome of the same plan is in the log.
unfoldable pub is_recorded : String → String → List LogEntry → Bool
is_recorded plan_id outcome log =
    any (λ e. str_eq e.content.candidate_id plan_id && str_eq e.content.outcome outcome) log

unfoldable pub already_settled : Digest → List LogEntry → String → String → Result Bool
already_settled digest log plan_id outcome = do
  entries ← read_log digest log
  ok (is_recorded plan_id outcome entries)

abbrev pub settle_note : List String → LogEntry → SettleNote
settle_note codes e =
    if str_eq e.content.outcome "UNKNOWN"
    then unknown e.content.outcome codes e
    else settled e.content.outcome codes e

unfoldable pub record_once :
    Digest → List LogEntry → Outcome → List String → Result (List LogEntry × SettleNote)
record_once digest log o codes =
    let appended = (do x ← append_outcome digest log o; ok (x.0, settle_note codes x.1)) in
    already_settled digest log o.candidate_id o.outcome >>= λ already.
    if already then ok (log, skipped ("ALREADY_SETTLED" ∷ [])) else appended

-- The leaves of `provenance` of a close, by their sorted names.
unfoldable pub close_provenance :
    String → Entry → CloseRecord → DecisionRecord → Moment → List Field
close_provenance plan_id e close decision now =
    text_or_null close.close_sha256
    ∷ text_or_null decision.decided_at
    ∷ text_or_null close.exit_evaluation_sha256
    ∷ text_or_null decision.human_id
    ∷ text e.plan_hash
    ∷ text plan_id
    ∷ texts decision.reason_codes
    ∷ moment (aware now)
    ∷ text settler_version
    ∷ text "recorded-human-paper-close"
    ∷ []

-- The leaves of `provenance` of an expiration, by their sorted names.
unfoldable pub expiration_provenance : String → PaperTradePlan → Observation → Moment → List Field
expiration_provenance plan_id plan x now =
    day plan.spread.expiration_date
    ∷ text plan.plan_hash
    ∷ text plan_id
    ∷ moment (aware now)
    ∷ text settler_version
    ∷ (x.intrinsic
        ++ text "observed-market-data-at-expiration" ∷ text plan.spread.underlying ∷ x.close)
