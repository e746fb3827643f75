-- ===== src/Freshness.antt =====
-- freshness.py: whether a batch runs on the close of the current trading day. A date is the number of
-- days since 0001-01-01, which was a Monday.
pub mod TradingDay
use hedge_desk.Prelude.{
  ℕ, zero, suc, ◌-◌, ◌%◌, String, Bool, true, false, not, List, [], ◌∷◌, Option, none, some, leb,
  keep, is_blank, str_eq, str_append, text_lt, if◌then◌else◌,
}

-- d.weekday() >= 5
abbrev pub is_weekend : ℕ → Bool
is_weekend d = leb 5 (d % 7)

-- The loop of `expected_trading_day`, with fuel.
unfoldable pub trading_loop : ℕ → ℕ → ℕ
trading_loop zero d = d
trading_loop (suc fuel) d =
    let earlier = trading_loop fuel (d - 1) in if is_weekend d then earlier else d

-- A weekend has two days, so three rounds are enough.
unfoldable pub expected_trading_day : ℕ → ℕ
unfolding trading_loop
expected_trading_day cutoff = trading_loop 3 cutoff

pub record FreshnessSummary : Type 0 where
  pub schema_version : String
  pub expected : String
  pub as_of : Option String
  pub is_current : Bool
  pub note : String

-- max(dates) of texts, which is the first of the greatest
unfoldable pub latest_from : String → List String → String
latest_from best [] = best
latest_from best (d ∷ rest) = latest_from (if text_lt best d then d else best) rest

-- max(dates) if dates else None, of those that are not empty
unfoldable pub latest_date : List String → Option String
latest_date [] = none
latest_date (d ∷ rest) = some (latest_from d rest)

abbrev pub is_date : Option String → String → Bool
is_date none expected = false
is_date (some d) expected = str_eq d expected

abbrev pub freshness_note : Option String → String → String
freshness_note none expected = "No EOD bars present; batch has no close data."
freshness_note (some d) expected =
    if str_eq d expected
    then str_append "Running on " (str_append d " close (current trading day).")
    else str_append "Running on " (
        str_append d (
          str_append " close; " (
            str_append expected
              " close not yet published by the source. Data is the prior trading day's close.")))

-- The isoformat of a date is a parameter.
unfoldable pub freshness_summary : (ℕ → String) → List String → ℕ → FreshnessSummary
unfolding expected_trading_day latest_date
freshness_summary isoformat last_bar_dates cutoff =
    let as_of = latest_date (keep (λ d. not (is_blank d)) last_bar_dates) in
    let expected = isoformat (expected_trading_day cutoff) in
    record {
      schema_version = "hedge-desk-data-freshness-1.0.0";
      expected = expected;
      as_of = as_of;
      is_current = is_date as_of expected;
      note = freshness_note as_of expected;
    }
