-- ===== src/Options/Events.antt =====
-- options/events.py: the gate on corporate events inside the holding window of a spread.
pub mod Admissible
use hedge_desk.Prelude.{
  ℕ, String, Bool, true, false, not, ◌||◌, ◌&&◌, List, [], ◌∷◌, ◌++◌, map, length, ltb, leb, Error,
  value_error, Result, ok, err, checks, ◌>>=◌, ◌>>◌, flags, canonical, has_double, is_blank,
  is_empty, str_eq, text_lt, valid_sha256_or_zero, if◌then◌else◌,
}
use hedge_desk.Decimal.{Number, number_lt}
use hedge_desk.Time.{Moment, DateTime, naive, aware, aware_or, earlier, date}
use hedge_desk.Digest.{Digest, Field, text, moment, day, count}
use hedge_desk.Options.Quotes.{OptionType, is_put}
use hedge_desk.Options.Spread.{VerticalSpreadCalculation}

pub data CorporateEventType : Type 0 where
  earnings ex_dividend : CorporateEventType

-- `event_date` counts days.
pub record ScheduledCorporateEvent : Type 0 where
  pub event_id : String
  pub symbol : String
  pub event_type : CorporateEventType
  pub event_date : ℕ
  pub published_at : DateTime
  pub source_artifact_sha256 : String

-- `complete_through` counts days.
pub record EventCalendarGate : Type 0 where
  pub admissible : Bool
  pub reason_codes : List String
  pub calendar_sha256 : String
  pub complete_through : ℕ

abbrev pub is_earnings : CorporateEventType → Bool
is_earnings earnings = true
is_earnings ex_dividend = false

-- event_type.value
abbrev pub event_type_text : CorporateEventType → String
event_type_text earnings = "EARNINGS"
event_type_text ex_dividend = "EX_DIVIDEND"

abbrev pub is_unzoned : DateTime → Bool
is_unzoned (naive t) = true
is_unzoned (aware m) = false

-- published_at > calendar_as_of, for an aware time
abbrev pub published_after : DateTime → Moment → Bool
published_after (naive t) as_of = false
published_after (aware m) as_of = earlier as_of m

-- The strike is that of the short quote, which is finite.
event_flags :
    String
    → Moment
    → VerticalSpreadCalculation
    → OptionType
    → Number
    → ScheduledCorporateEvent
    → List (Bool × String)
event_flags symbol as_of spread kind strike event =
    let inside =
      leb (date as_of) event.event_date && leb event.event_date spread.planned_exit_date in
    let in_the_money = not (is_put kind) && number_lt strike spread.underlying_ask in
    (is_blank event.event_id || not (str_eq event.symbol symbol), "EVENT_IDENTITY_MISMATCH")
    ∷ (is_unzoned event.published_at, "EVENT_TIMESTAMP_NOT_TIMEZONE_AWARE")
    ∷ (published_after event.published_at as_of, "EVENT_NOT_POINT_IN_TIME")
    ∷ (not (valid_sha256_or_zero event.source_artifact_sha256), "EVENT_SOURCE_HASH_INVALID")
    ∷ (is_earnings event.event_type && inside, "EARNINGS_INSIDE_PLANNED_HOLDING_WINDOW")
    ∷ (
      not (is_earnings event.event_type) && inside && in_the_money,
      "EX_DIVIDEND_EARLY_ASSIGNMENT_RISK",
    )
    ∷ []

all_event_flags :
    String
    → Moment
    → VerticalSpreadCalculation
    → OptionType
    → Number
    → List ScheduledCorporateEvent
    → List (Bool × String)
unfolding event_flags
all_event_flags symbol as_of spread kind strike [] = []
all_event_flags symbol as_of spread kind strike (event ∷ later) =
    event_flags symbol as_of spread kind strike event
    ++ all_event_flags symbol as_of spread kind strike later

calendar_flags :
    String
    → Moment
    → ℕ
    → List ScheduledCorporateEvent
    → VerticalSpreadCalculation
    → OptionType
    → Number
    → List (Bool × String)
unfolding all_event_flags
calendar_flags symbol as_of complete_through events spread kind strike =
    (ltb complete_through spread.expiration_date, "EVENT_CALENDAR_INCOMPLETE_THROUGH_EXPIRATION")
    ∷ all_event_flags symbol as_of spread kind strike events

insert_event : ScheduledCorporateEvent → List ScheduledCorporateEvent → List ScheduledCorporateEvent
insert_event x [] = x ∷ []
insert_event x (y ∷ ys) =
    let later = insert_event x ys in if text_lt y.event_id x.event_id then y ∷ later else x ∷ y ∷ ys

-- sorted(events, key=lambda item: item.event_id)
sort_events : List ScheduledCorporateEvent → List ScheduledCorporateEvent
unfolding insert_event
sort_events [] = []
sort_events (x ∷ xs) = insert_event x (sort_events xs)

event_rows : List ScheduledCorporateEvent → List Field
event_rows [] = []
event_rows (event ∷ later) =
    day event.event_date
    ∷ text event.event_id
    ∷ text (event_type_text event.event_type)
    ∷ moment event.published_at
    ∷ text event.source_artifact_sha256
    ∷ text event.symbol
    ∷ event_rows later

calendar_payload :
    String → Moment → ℕ → List ScheduledCorporateEvent → VerticalSpreadCalculation → List Field
unfolding sort_events event_rows
calendar_payload symbol as_of complete_through events spread =
    moment (aware as_of)
    ∷ day complete_through
    ∷ count (length events)
    ∷ (event_rows (sort_events events) ++ (text spread.spread_id ∷ text symbol ∷ []))

event_gate : List String → String → ℕ → EventCalendarGate
event_gate reasons hash complete_through = record {
  admissible = is_empty reasons;
  reason_codes = reasons;
  calendar_sha256 = hash;
  complete_through = complete_through;
}

unfoldable pub evaluate_event_calendar :
    Digest
    → String
    → DateTime
    → ℕ
    → List ScheduledCorporateEvent
    → VerticalSpreadCalculation
    → OptionType
    → Number
    → Result EventCalendarGate
unfolding checks aware_or has_double calendar_flags calendar_payload event_gate flags canonical
evaluate_event_calendar digest symbol calendar_as_of complete_through events spread kind strike = do
  let unidentified = value_error "calendar identity and timezone-aware as-of are required"
  checks ((is_blank symbol, unidentified) ∷ [])
  as_of ← aware_or calendar_as_of unidentified
  checks (
      (
        has_double (map (λ event. event.event_id) events),
        value_error "corporate event identities must be unique",
      )
      ∷ [])
  ok (
      event_gate
        (canonical (flags (calendar_flags symbol as_of complete_through events spread kind strike)))
        (digest (calendar_payload symbol as_of complete_through events spread)) complete_through)
