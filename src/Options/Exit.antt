-- ===== src/Options/Exit.antt =====
-- options/exit_policy.py: the executable close of an opened spread and the action it calls for.
pub mod Action
use hedge_desk.Prelude.{
  ℕ, ◌+◌, ◌-◌, ◌*◌, min, max, String, Bool, true, false, not, ◌||◌, ◌&&◌, List, [], ◌∷◌, ltb, leb,
  Error, value_error, Result, ok, err, checks, ◌>>=◌, ◌>>◌, flags, canonical, is_empty, str_eq,
  ◌==◌, if◌then◌else◌,
}
use hedge_desk.Decimal.{
  ℤ, sub_ℕ, pos_part, is_negative, Number, Decimal, finite_or, number_le, number_lt, number_add,
  number_sub, number_neg, number_mul, number_div, whole, hundredths, in_unit_positive,
}
use hedge_desk.Time.{Moment, DateTime, aware, aware_or, earlier, date}
use hedge_desk.Digest.{Digest, Field, text, texts, number, integer, count, flag, moment}
use hedge_desk.Options.Quotes.{types_differ, OptionQuote}
use hedge_desk.Options.Spread.{VerticalSpreadCalculation, number_max}

pub record PremiumExitPolicy : Type 0 where
  pub profit_capture_fraction : Number
  pub maximum_loss_fraction : Number
  pub maximum_quote_age_seconds : ℕ
  pub quote_tolerance_seconds : ℕ

abbrev pub default_exit_policy : PremiumExitPolicy
default_exit_policy = record {
  profit_capture_fraction = hundredths 50;
  maximum_loss_fraction = hundredths 50;
  maximum_quote_age_seconds = 120;
  quote_tolerance_seconds = 2;
}

unfoldable pub make_exit_policy : Decimal → Decimal → ℤ → ℤ → Result PremiumExitPolicy
unfolding checks finite_or
make_exit_policy profit loss age tolerance = do
  let range = value_error "exit fractions must be in (0, 1]"
  profit' ← finite_or profit (value_error "exit fractions must be finite Decimals")
  checks ((not (in_unit_positive profit'), range) ∷ [])
  loss' ← finite_or loss (value_error "exit fractions must be finite Decimals")
  checks (
      (not (in_unit_positive loss'), range)
      ∷ (is_negative age || is_negative tolerance, value_error "exit quote timing limits invalid")
      ∷ [])
  ok (record {
    profit_capture_fraction = profit';
    maximum_loss_fraction = loss';
    maximum_quote_age_seconds = pos_part age;
    quote_tolerance_seconds = pos_part tolerance;
  })

pub record PremiumExitEvaluation : Type 0 where
  pub spread_id : String
  pub evaluated_at : Moment
  pub action : String
  pub reason_codes : List String
  pub executable_close_debit : Number
  pub close_commission : Number
  pub marked_pnl : Number
  pub profit_capture_fraction : Number
  pub loss_fraction_of_maximum : Number
  pub days_to_expiration : ℤ
  pub policy_version : String
  pub artifact_sha256 : String
  pub trade_authorized : Bool

-- The quotes are those of the opened contracts, close together and fresh.
exit_checks :
    VerticalSpreadCalculation
    → OptionQuote
    → OptionQuote
    → Moment
    → PremiumExitPolicy
    → List (Bool × Error)
exit_checks opened short long now policy =
    let latest = max short.quoted_at.utc long.quoted_at.utc in
    let first = min short.quoted_at.utc long.quoted_at.utc in
    (
      not (str_eq short.contract_id opened.short_contract_id)
          || not (str_eq long.contract_id opened.long_contract_id),
      value_error "exit quotes do not match opened contracts",
    )
    ∷ (
      not (str_eq short.underlying long.underlying)
          || types_differ short.option_type long.option_type
          || not (short.expiration == long.expiration)
          || not (str_eq short.source_id long.source_id),
      value_error "exit quote legs are incompatible",
    )
    ∷ (
      not (str_eq short.underlying opened.underlying),
      value_error "exit underlying does not match opened spread",
    )
    ∷ (
      not (str_eq short.source_id opened.quote_source_id),
      value_error "exit quote source does not match opened spread",
    )
    ∷ (
      not (short.expiration == opened.expiration_date),
      value_error "exit expiration does not match opened spread",
    )
    ∷ (
      ltb (first + policy.quote_tolerance_seconds * 1000000) latest,
      value_error "exit quotes are not timestamp-compatible",
    )
    ∷ (ltb now.utc latest, value_error "exit quote cannot be from the future")
    ∷ (
      ltb (latest + policy.maximum_quote_age_seconds * 1000000) now.utc,
      value_error "exit quote is stale",
    )
    ∷ []

close_debit : VerticalSpreadCalculation → OptionQuote → OptionQuote → Number
close_debit opened short long =
    number_mul (number_mul (number_sub short.ask long.bid) (whole opened.contract_multiplier))
      (whole opened.quantity)

close_commission : VerticalSpreadCalculation → Number → Number
close_commission opened per_contract =
    number_mul (number_mul per_contract (whole 2)) (whole opened.quantity)

marked_pnl : VerticalSpreadCalculation → OptionQuote → OptionQuote → Number → Number
unfolding close_debit close_commission
marked_pnl opened short long per_contract =
    number_sub (number_sub opened.net_credit (close_debit opened short long))
      (close_commission opened per_contract)

exit_flags :
    VerticalSpreadCalculation
    → Moment
    → Bool
    → PremiumExitPolicy
    → Number
    → Number
    → List (Bool × String)
exit_flags opened now escalation policy capture loss =
    (escalation, "EVENT_ESCALATION_REQUIRED")
    ∷ (
      leb opened.expiration_date (date now + opened.planned_exit_days_before_expiration),
      "PLANNED_EXIT_WINDOW_REACHED",
    )
    ∷ (number_le policy.profit_capture_fraction capture, "PROFIT_CAPTURE_TARGET_REACHED")
    ∷ (number_le policy.maximum_loss_fraction loss, "LOSS_REVIEW_THRESHOLD_REACHED")
    ∷ []

-- The leaves of the payload that is hashed.
exit_payload : PremiumExitEvaluation → PremiumExitPolicy → List Field
exit_payload e policy =
    text e.action
    ∷ number e.close_commission
    ∷ integer e.days_to_expiration
    ∷ moment (aware e.evaluated_at)
    ∷ number e.executable_close_debit
    ∷ number e.loss_fraction_of_maximum
    ∷ number e.marked_pnl
    ∷ number policy.maximum_loss_fraction
    ∷ count policy.maximum_quote_age_seconds
    ∷ number policy.profit_capture_fraction
    ∷ count policy.quote_tolerance_seconds
    ∷ text "premium-exit-monitor-1.0.0"
    ∷ number e.profit_capture_fraction
    ∷ texts e.reason_codes
    ∷ text e.spread_id
    ∷ flag false
    ∷ []

commission_checks : Number → List (Bool × Error)
commission_checks per_contract =
    (
      number_lt per_contract (whole 0),
      value_error "close commission must be a finite nonnegative Decimal",
    )
    ∷ []

debit_checks : VerticalSpreadCalculation → OptionQuote → OptionQuote → List (Bool × Error)
unfolding close_debit
debit_checks opened short long =
    (
      number_lt (close_debit opened short long) (whole 0),
      value_error "executable close debit cannot be negative",
    )
    ∷ []

-- The evaluation before its hash is filled in.
evaluation :
    VerticalSpreadCalculation
    → OptionQuote
    → OptionQuote
    → Moment
    → Number
    → Number
    → Number
    → Number
    → List String
    → PremiumExitEvaluation
unfolding close_debit close_commission
evaluation opened short long now per_contract marked capture loss reasons = record {
  spread_id = opened.spread_id;
  evaluated_at = now;
  action = if is_empty reasons then "MONITOR" else "CLOSE_REVIEW_REQUIRED";
  reason_codes = reasons;
  executable_close_debit = close_debit opened short long;
  close_commission = close_commission opened per_contract;
  marked_pnl = marked;
  profit_capture_fraction = capture;
  loss_fraction_of_maximum = loss;
  days_to_expiration = sub_ℕ opened.expiration_date (date now);
  policy_version = "premium-exit-monitor-1.0.0";
  artifact_sha256 = "";
  trade_authorized = false;
}

sealed : Digest → PremiumExitPolicy → PremiumExitEvaluation → PremiumExitEvaluation
unfolding exit_payload
sealed digest policy e = record e { artifact_sha256 = digest (exit_payload e policy) }

unfoldable pub evaluate_premium_exit :
    Digest
    → VerticalSpreadCalculation
    → OptionQuote
    → OptionQuote
    → DateTime
    → Decimal
    → Bool
    → PremiumExitPolicy
    → Result PremiumExitEvaluation
unfolding checks finite_or aware_or exit_checks marked_pnl exit_flags commission_checks debit_checks
    evaluation sealed flags canonical
evaluate_premium_exit digest opened short long evaluated_at commission escalation policy = do
  let bad_commission = value_error "close commission must be a finite nonnegative Decimal"
  now ← aware_or evaluated_at (value_error "exit evaluation timestamp must be timezone-aware")
  per_contract ← finite_or commission bad_commission
  checks (commission_checks per_contract)
  checks (exit_checks opened short long now policy)
  checks (debit_checks opened short long)
  let marked = marked_pnl opened short long per_contract
  capture ← number_div marked opened.net_credit
  loss ← number_div (number_neg marked) opened.maximum_loss
  let loss_fraction = number_max (whole 0) loss
  ok (
      sealed digest policy (
        evaluation opened short long now per_contract marked capture (number_max (whole 0) loss) (
          canonical
            (flags (exit_flags opened now escalation policy capture (number_max (whole 0) loss))))))
