-- ===== src/Models/Splits.antt =====
-- models/splits.py: walk-forward evaluation splits that are kept apart by an embargo.
pub mod NoLeakage
use hedge_desk.Prelude.{
  ℕ, ◌+◌, ◌/◌, String, Bool, true, false, not, ◌||◌, ◌&&◌, List, [], ◌∷◌, ◌++◌, Option, none, some,
  any, all, map, length, Error, value_error, Result, ok, checks, ◌>>=◌, ◌>>◌, flags, canonical,
  is_empty, str_eq, ltb, leb, has_double, if◌then◌else◌, valid_sha256,
}
use hedge_desk.Decimal.{ℤ, pos, pos_part, is_negative, is_positive, int_lt}
use hedge_desk.Time.{
  Moment, DateTime, naive, aware, aware_or, earlier, not_later, later_by, midnight,
}
use hedge_desk.Digest.{Digest, Field, text, texts, moment, count, integer}
use hedge_desk.Models.{is_naive_time}

pub record EvaluationWindow : Type 0 where
  pub split_id : String
  pub started_at : DateTime
  pub ended_at : DateTime
  pub observation_count : ℤ
  pub dataset_sha256 : String

pub record EvaluationSplitGate : Type 0 where
  pub admissible : Bool
  pub reason_codes : List String
  pub artifact_sha256 : String
  pub authoritative_risk_input : Bool
  pub trade_authorized : Bool

abbrev pub split_gate_version : String
split_gate_version = "purged-walk-forward-split-1.0.0"

pub record Interval : Type 0 where
  pub start : Moment
  pub end : Moment

-- The times of a window, where both have a time zone.
unfoldable pub interval_of : DateTime → DateTime → Option Interval
interval_of (aware s) (aware e) = some (record { start = s; end = e })
interval_of _ _ = none

-- item.ended_at <= item.started_at
abbrev pub is_backward : Interval → Bool
is_backward i = not_later i.end i.start

-- The tests on the times: one flag where a time has no zone, and else the four comparisons.
unfoldable pub time_flags :
    Option Interval → Option Interval → Option Interval → ℕ → Moment → List (Bool × String)
time_flags (some train) (some validation) (some test) embargo evaluated_at =
    (
      is_backward train || is_backward validation || is_backward test,
      "MODEL_SPLIT_INTERVAL_INVALID",
    )
    ∷ (earlier validation.start (later_by train.end embargo), "TRAIN_VALIDATION_PURGE_VIOLATION")
    ∷ (earlier test.start (later_by validation.end embargo), "VALIDATION_TEST_PURGE_VIOLATION")
    ∷ (earlier evaluated_at test.end, "MODEL_SPLIT_POINT_IN_TIME_VIOLATION")
    ∷ []
time_flags _ _ _ embargo evaluated_at = (true, "MODEL_SPLIT_TIMESTAMP_INVALID") ∷ []

abbrev pub window_interval : EvaluationWindow → Option Interval
window_interval w = interval_of w.started_at w.ended_at

-- The windows, whose number is three.
pub record Windows : Type 0 where
  pub train : EvaluationWindow
  pub validation : EvaluationWindow
  pub test : EvaluationWindow

abbrev pub all_windows : Windows → List EvaluationWindow
all_windows w = w.train ∷ w.validation ∷ w.test ∷ []

-- if not all(valid): ... elif len(set(hashes)) != 3: ...
unfoldable pub hash_flags : List String → List (Bool × String)
hash_flags hashes =
    if all valid_sha256 hashes
    then (has_double hashes, "MODEL_SPLIT_HASH_COLLISION") ∷ []
    else (true, "MODEL_SPLIT_HASH_INVALID") ∷ []

unfoldable pub split_flags : Windows → ℕ → Moment → ℤ → List (Bool × String)
split_flags w embargo evaluated_at minimum =
    (
      not (
          str_eq w.train.split_id "train"
          && str_eq w.validation.split_id "validation"
          && str_eq w.test.split_id "test"),
      "MODEL_SPLIT_IDENTITIES_INVALID",
    )
    ∷ (
      any (λ x. int_lt x.observation_count minimum) (all_windows w),
      "MODEL_SPLIT_SAMPLE_INSUFFICIENT",
    )
    ∷ (time_flags (window_interval w.train) (window_interval w.validation) (window_interval w.test)
          embargo evaluated_at
        ++ hash_flags (map (λ x. x.dataset_sha256) (all_windows w)))

window_fields : List EvaluationWindow → List Field
window_fields [] = []
window_fields (w ∷ rest) =
    text w.dataset_sha256
    ∷ moment w.ended_at
    ∷ integer w.observation_count
    ∷ text w.split_id
    ∷ moment w.started_at
    ∷ window_fields rest

-- The leaves of the payload, by their sorted names.
split_payload : Windows → ℕ → Moment → ℤ → List String → List Field
unfolding window_fields
split_payload w embargo evaluated_at minimum reasons =
    count (embargo / 1000000)
    ∷ moment (aware evaluated_at)
    ∷ integer minimum
    ∷ texts reasons
    ∷ text split_gate_version
    ∷ window_fields (all_windows w)

unfoldable pub split_gate : Digest → Windows → ℕ → Moment → ℤ → List String → EvaluationSplitGate
unfolding split_payload
split_gate digest w embargo evaluated_at minimum reasons = record {
  admissible = is_empty reasons;
  reason_codes = reasons;
  artifact_sha256 = digest (split_payload w embargo evaluated_at minimum reasons);
  authoritative_risk_input = false;
  trade_authorized = false;
}

-- The embargo counts microseconds; once it is checked it is not negative.
unfoldable pub evaluate_purged_walk_forward_split :
    Digest → Windows → ℤ → DateTime → ℤ → Result EvaluationSplitGate
evaluate_purged_walk_forward_split digest w embargo evaluated_at minimum = do
  now ← aware_or evaluated_at (value_error "split evaluation timestamp must be timezone-aware")
  checks (
      (is_negative embargo, value_error "split embargo cannot be negative")
      ∷ (
        not (is_positive minimum),
        value_error "minimum split observations must be a positive integer",
      )
      ∷ [])
  let gap = pos_part embargo
  let reasons = canonical (flags (split_flags w gap now minimum))
  ok (split_gate digest w gap now minimum reasons)

abbrev synthetic_window : String → ℕ → ℕ → ℕ → String → EvaluationWindow
synthetic_window name start end observations hash = record {
  split_id = name;
  started_at = midnight start;
  ended_at = midnight end;
  observation_count = pos observations;
  dataset_sha256 = hash;
}

abbrev pub synthetic_windows : Windows
synthetic_windows = record {
  train =
      synthetic_window "train" 737424 738884 1000
        "aaaaaaaaaaaaaaaaaaaaaaaaaaaaaaaaaaaaaaaaaaaaaaaaaaaaaaaaaaaaaaaa";
  validation =
      synthetic_window "validation" 738892 739250 250
        "bbbbbbbbbbbbbbbbbbbbbbbbbbbbbbbbbbbbbbbbbbbbbbbbbbbbbbbbbbbbbbbb";
  test =
      synthetic_window "test" 739258 739615 250
        "cccccccccccccccccccccccccccccccccccccccccccccccccccccccccccccccc";
}

-- The embargo is seven days, and the least number of observations its default.
unfoldable pub build_synthetic_split_gate : Digest → DateTime → Result EvaluationSplitGate
build_synthetic_split_gate digest evaluated_at =
    evaluate_purged_walk_forward_split digest synthetic_windows (pos 604800000000) evaluated_at
      (pos 100)
