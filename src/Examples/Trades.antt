-- ===== src/Examples/Trades.antt =====
-- The theorems on the spread and its exit, on the concrete desk.
use hedge_desk.Prelude.{
  List, [], ◌∷◌, ◌↔◌, ◌≤◌, ◌≡◌, refl, true, false, is_ok, from_ok, from_ok-eq, valid_sha256_or_zero,
}
use hedge_desk.Decimal.{
  Number, whole, number, hundredths, number_lt, number_div, number_sub, number_mul, number_neg,
}
use hedge_desk.Options.Spread.{calculate_vertical_credit_spread}
use hedge_desk.Options.Spread.Sound.{SpreadSound, calculate_sound}
use hedge_desk.Options.Exit.{PremiumExitEvaluation, default_exit_policy, evaluate_premium_exit}
use hedge_desk.Options.Exit.Action.{ExitSound, exit_sound}
use hedge_desk.Options.Quotes.{put}
use hedge_desk.Options.Events.{
  ScheduledCorporateEvent, earnings, ex_dividend, EventCalendarGate, evaluate_event_calendar,
}
use hedge_desk.Options.Events.Admissible.{AllClear, calendar_exact}
use hedge_desk.Time.{aware}
use hedge_desk.Examples.Desk.{at, hash, digest, now, leg, spread, spread_calculated, calculated}

calculate_sound_example : SpreadSound spread calculated
calculate_sound_example = calculate_sound spread now calculated spread_calculated

exit_evaluated :
    is_ok (
      evaluate_premium_exit digest calculated
        (leg "P100" 100 40 45)
        (leg "P95" 95 10 12)
        now
        (number (hundredths 65))
        false
        default_exit_policy)
    ≡ true
unfolding evaluate_premium_exit from_ok number_lt calculate_vertical_credit_spread number_div
    number_sub number_mul number_neg
exit_evaluated = refl

abbrev evaluated : PremiumExitEvaluation
evaluated =
    from_ok
      (evaluate_premium_exit digest calculated (leg "P100" 100 40 45) (leg "P95" 95 10 12) now
        (number (hundredths 65)) false default_exit_policy)
      exit_evaluated

-- The spread costs 35 cents after it was sold for a dollar: the profit target is reached.
exit_called : evaluated.action ≡ "CLOSE_REVIEW_REQUIRED"
unfolding from_ok evaluate_premium_exit number_lt calculate_vertical_credit_spread number_div
    number_sub number_mul number_neg
exit_called = refl

exit_sound_example :
    (per_contract : Number) × (number (hundredths 65) ≡ number per_contract)
    × (number_lt per_contract (whole 0) ≡ false)
    × ExitSound calculated default_exit_policy false
        (leg "P100" 100 40 45)
        (leg "P95" 95 10 12)
        per_contract
        evaluated
exit_sound_example =
    exit_sound calculated default_exit_policy false digest (leg "P100" 100 40 45)
      (leg "P95" 95 10 12) now (number (hundredths 65)) evaluated
      (from_ok-eq
        (evaluate_premium_exit digest calculated (leg "P100" 100 40 45) (leg "P95" 95 10 12) now
          (number (hundredths 65)) false default_exit_policy)
        exit_evaluated)

-- Earnings in the holding window, and an ex-dividend date, which a put does not mind.
abbrev scheduled : List ScheduledCorporateEvent
scheduled =
    record {
      event_id = "e2";
      symbol = "XYZ";
      event_type = earnings;
      event_date = 739590;
      published_at = aware (at 1);
      source_artifact_sha256 = hash;
    }
    ∷ record {
      event_id = "e1";
      symbol = "XYZ";
      event_type = ex_dividend;
      event_date = 739591;
      published_at = aware (at 2);
      source_artifact_sha256 = hash;
    }
    ∷ []

calendar_evaluated :
    is_ok (evaluate_event_calendar digest "XYZ" now 739700 scheduled calculated put (whole 100))
    ≡ true
unfolding evaluate_event_calendar
calendar_evaluated = refl

abbrev gate : EventCalendarGate
gate =
    from_ok (evaluate_event_calendar digest "XYZ" now 739700 scheduled calculated put (whole 100))
      calendar_evaluated

earnings_block : gate.reason_codes ≡ "EARNINGS_INSIDE_PLANNED_HOLDING_WINDOW" ∷ []
unfolding from_ok evaluate_event_calendar valid_sha256_or_zero
earnings_block = refl

calendar_exact_example : (gate.admissible ≡ true) ↔ (
    (calculated.expiration_date ≤ 739700)
    × AllClear "XYZ" (at 60) calculated put (whole 100) scheduled)
calendar_exact_example =
    calendar_exact "XYZ" (at 60) calculated put (whole 100) digest 739700 scheduled gate (
      from_ok-eq
        (evaluate_event_calendar digest "XYZ" now 739700 scheduled calculated put (whole 100))
        calendar_evaluated)
