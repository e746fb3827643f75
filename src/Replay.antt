-- ===== src/Replay.antt =====
-- replay.py: the chronological replay gate on a paper decision timeline.
pub mod Ordered
use hedge_desk.Prelude.{
  ℕ, String, Bool, true, false, not, ◌||◌, ◌&&◌, List, [], ◌∷◌, ◌++◌, Option, none, some, any, map,
  flags, canonical, is_blank, is_empty, ◌==◌,
}
use hedge_desk.Time.{Moment, DateTime, naive, aware, earlier}

pub data ReplayEventKind : Type 0 where
  source_published system_received validation_complete candidate_created risk_complete
        compliance_complete human_pending human_approved paper_fill exit :
      ReplayEventKind

-- The place of a kind in the enumeration, by which two kinds are compared.
abbrev pub kind_code : ReplayEventKind → ℕ
kind_code source_published = 0
kind_code system_received = 1
kind_code validation_complete = 2
kind_code candidate_created = 3
kind_code risk_complete = 4
kind_code compliance_complete = 5
kind_code human_pending = 6
kind_code human_approved = 7
kind_code paper_fill = 8
kind_code exit = 9

abbrev pub same_kind : ReplayEventKind → ReplayEventKind → Bool
same_kind a b = kind_code a == kind_code b

abbrev pub pending_order : List ReplayEventKind
pending_order =
    source_published ∷ system_received ∷ validation_complete ∷ candidate_created ∷ risk_complete
    ∷ compliance_complete ∷ human_pending ∷ []

-- PENDING_ORDER[:-1] and the three kinds of an execution
abbrev pub executed_order : List ReplayEventKind
executed_order =
    source_published ∷ system_received ∷ validation_complete ∷ candidate_created ∷ risk_complete
    ∷ compliance_complete ∷ human_approved ∷ paper_fill ∷ exit ∷ []

pub record ReplayEvent : Type 0 where
  pub kind : ReplayEventKind
  pub event_time : DateTime
  pub received_time : DateTime
  pub artifact_id : String

pub record ReplayValidation : Type 0 where
  pub valid : Bool
  pub reason_codes : List String

-- a == b, on tuples of kinds
unfoldable pub same_kinds : List ReplayEventKind → List ReplayEventKind → Bool
same_kinds [] [] = true
same_kinds (a ∷ as') (b ∷ bs) = same_kind a b && same_kinds as' bs
same_kinds _ _ = false

-- len(set(kinds)) != len(kinds)
unfoldable pub repeats_kind : List ReplayEventKind → Bool
repeats_kind [] = false
repeats_kind (a ∷ rest) = any (same_kind a) rest || repeats_kind rest

-- The two times of an event, where both have a zone.
pub record Received : Type 0 where
  pub happened : Moment
  pub received : Moment

unfoldable pub zoned_event : DateTime → DateTime → Option Received
zoned_event (aware e) (aware r) = some (record { happened = e; received = r })
zoned_event _ _ = none

-- The times of all events, where each has a zone.
unfoldable pub prepend_times : Option Received → Option (List Received) → Option (List Received)
prepend_times (some x) (some xs) = some (x ∷ xs)
prepend_times _ _ = none

unfoldable pub zoned_events : List ReplayEvent → Option (List Received)
zoned_events [] = some []
zoned_events (e ∷ rest) =
    prepend_times (zoned_event e.event_time e.received_time) (zoned_events rest)

-- any(later.received_time < earlier.received_time for earlier, later in zip(events, events[1:]))
unfoldable pub out_of_order : List Received → Bool
out_of_order [] = false
out_of_order (x ∷ []) = false
out_of_order (x ∷ y ∷ rest) = earlier y.received x.received || out_of_order (y ∷ rest)

-- One flag where a time has no zone, and else the two comparisons.
unfoldable pub received_flags : Option (List Received) → List (Bool × String)
received_flags none = (true, "REPLAY_TIMESTAMP_NOT_TIMEZONE_AWARE") ∷ []
received_flags (some times) =
    (any (λ x. earlier x.received x.happened) times, "RECEIVED_BEFORE_EVENT")
    ∷ (out_of_order times, "REPLAY_RECEIVE_ORDER_INVALID")
    ∷ []

unfoldable pub stage_flags : List ReplayEvent → List (Bool × String)
stage_flags events =
    let kinds = map (λ e. e.kind) events in
    (
      not (same_kinds kinds pending_order || same_kinds kinds executed_order),
      "REPLAY_STAGE_ORDER_INVALID",
    )
    ∷ (repeats_kind kinds, "DUPLICATE_REPLAY_STAGE")
    ∷ (any (λ e. is_blank e.artifact_id) events, "REPLAY_ARTIFACT_MISSING")
    ∷ []

abbrev pub replay_validation : List String → ReplayValidation
replay_validation reasons = record { valid = is_empty reasons; reason_codes = reasons }

unfoldable pub validate_replay : List ReplayEvent → ReplayValidation
validate_replay events =
    replay_validation
      (canonical (flags (stage_flags events ++ received_flags (zoned_events events))))
