-- ===== src/Options/Spread.antt =====
-- options/spreads.py: the economics of a vertical credit spread at executable prices.
pub mod Sound
use hedge_desk.Prelude.{
  ℕ, ◌+◌, ◌-◌, ◌*◌, min, max, String, Bool, true, false, not, ◌||◌, ◌&&◌, List, [], ◌∷◌, ltb, leb,
  Error, value_error, Result, ok, err, checks, ◌>>=◌, ◌>>◌, str_eq, ◌==◌, if◌then◌else◌,
}
use hedge_desk.Decimal.{
  Number, number_le, number_lt, number_add, number_sub, number_mul, number_div, whole,
}
use hedge_desk.Time.{Moment, DateTime, aware_or, earlier, date}
use hedge_desk.Options.Quotes.{
  OptionType, is_put, types_differ, OptionQuote, UnderlyingQuote, VerticalCreditSpread,
}

pub record VerticalSpreadCalculation : Type 0 where
  pub spread_id : String
  pub underlying : String
  pub quote_source_id : String
  pub model_id : String
  pub model_version : String
  pub calculated_at : Moment
  pub short_contract_id : String
  pub long_contract_id : String
  pub short_quoted_at : Moment
  pub long_quoted_at : Moment
  pub underlying_quote_timestamp : Moment
  pub underlying_bid : Number
  pub underlying_ask : Number
  pub expiration_date : ℕ
  pub days_to_expiration : ℕ
  pub planned_exit_days_before_expiration : ℕ
  pub planned_exit_date : ℕ
  pub minimum_leg_open_interest : ℕ
  pub minimum_leg_volume : ℕ
  pub maximum_observed_leg_spread_fraction : Number
  pub quantity : ℕ
  pub contract_multiplier : ℕ
  pub width_per_share : Number
  pub short_sale_price_per_share : Number
  pub long_purchase_price_per_share : Number
  pub gross_credit : Number
  pub total_commission : Number
  pub net_credit : Number
  pub maximum_loss : Number
  pub break_even : Number
  pub return_on_risk : Number

-- max(a, b) on finite values: the first of two equal ones
abbrev pub number_max : Number → Number → Number
number_max a b = if number_lt a b then b else a

-- The legs and the underlying belong together.
leg_checks : VerticalCreditSpread → List (Bool × Error)
leg_checks s =
    let short = s.short_leg in
    let long = s.long_leg in
    let quote = s.underlying_quote in
    (
      not (str_eq short.underlying long.underlying),
      value_error "spread legs must share an underlying",
    )
    ∷ (
      types_differ short.option_type long.option_type,
      value_error "spread legs must share an option type",
    )
    ∷ (
      not (short.expiration == long.expiration),
      value_error "spread legs must share an expiration",
    )
    ∷ (
      not (str_eq short.source_id long.source_id),
      value_error "spread legs must share a validated quote source",
    )
    ∷ (
      not (str_eq quote.symbol short.underlying),
      value_error "underlying quote symbol must match option legs",
    )
    ∷ (
      not (str_eq quote.source_id short.source_id),
      value_error "underlying and option quotes must share a validated source",
    )
    ∷ []

-- The quotes are close together, and the calculation comes after them and before the planned exit.
time_checks : VerticalCreditSpread → Moment → List (Bool × Error)
time_checks s now =
    let short = s.short_leg.quoted_at in
    let long = s.long_leg.quoted_at in
    let quote = s.underlying_quote.quoted_at in
    let latest = max (max short.utc long.utc) quote.utc in
    let first = min (min short.utc long.utc) quote.utc in
    (
      ltb (first + s.quote_tolerance_seconds * 1000000) latest,
      value_error "spread leg quotes are not timestamp-compatible",
    )
    ∷ (
      earlier now short || earlier now long,
      value_error "calculation cannot precede quote availability",
    )
    ∷ (earlier now quote, value_error "calculation cannot precede underlying quote availability")
    ∷ (
      leb s.short_leg.expiration (date now + s.planned_exit_days_before_expiration),
      value_error "candidate has reached its planned pre-expiration exit window",
    )
    ∷ []

liquidity_checks : VerticalCreditSpread → List (Bool × Error)
liquidity_checks s =
    let short = s.short_leg in
    let long = s.long_leg in
    (
      ltb (min short.bid_size long.ask_size) s.quantity,
      value_error "spread quantity exceeds executable displayed size",
    )
    ∷ (
      ltb (min short.open_interest long.open_interest) s.minimum_open_interest,
      value_error "spread leg open interest is below policy",
    )
    ∷ (
      ltb (min short.volume long.volume) s.minimum_volume,
      value_error "spread leg volume is below policy",
    )
    ∷ []

-- short.strike - long.strike for puts, long.strike - short.strike for calls
width : VerticalCreditSpread → Number
width s =
    if is_put s.short_leg.option_type
    then number_sub s.short_leg.strike s.long_leg.strike
    else number_sub s.long_leg.strike s.short_leg.strike

strike_checks : VerticalCreditSpread → List (Bool × Error)
strike_checks s =
    let short = s.short_leg in
    let long = s.long_leg in
    (
      is_put short.option_type && number_le short.strike long.strike,
      value_error "put credit spread requires short strike above long",
    )
    ∷ (
      not (is_put short.option_type) && number_le long.strike short.strike,
      value_error "call credit spread requires short strike below long",
    )
    ∷ (
      number_le (number_sub short.bid long.ask) (whole 0),
      value_error "spread does not provide executable positive credit",
    )
    ∷ []

gross_credit : VerticalCreditSpread → Number
gross_credit s =
    number_mul (number_mul (number_sub s.short_leg.bid s.long_leg.ask) (whole 100))
      (whole s.quantity)

total_commission : VerticalCreditSpread → Number
total_commission s = number_mul (number_mul s.commission_per_contract (whole 2)) (whole s.quantity)

net_credit : VerticalCreditSpread → Number
unfolding gross_credit total_commission
net_credit s = number_sub (gross_credit s) (total_commission s)

maximum_loss : VerticalCreditSpread → Number
unfolding width net_credit
maximum_loss s =
    number_sub (number_mul (number_mul (width s) (whole 100)) (whole s.quantity)) (net_credit s)

-- (ask - bid) / ask
leg_fraction : OptionQuote → Result Number
leg_fraction q = number_div (number_sub q.ask q.bid) q.ask

fraction_checks : VerticalCreditSpread → Number → List (Bool × Error)
fraction_checks s observed =
    (
      number_lt s.maximum_leg_spread_fraction observed,
      value_error "option leg bid-ask spread exceeds liquidity policy",
    )
    ∷ []

economics_checks : VerticalCreditSpread → List (Bool × Error)
unfolding maximum_loss
economics_checks s =
    (
      number_le (net_credit s) (whole 0) || number_le (maximum_loss s) (whole 0),
      value_error "spread economics must have positive credit and max loss",
    )
    ∷ []

-- The calculation at a time, with the quotients computed.
calculation : VerticalCreditSpread → Moment → Number → Number → Number → VerticalSpreadCalculation
unfolding maximum_loss
calculation s now observed per_share return_on_risk = record {
  spread_id = s.spread_id;
  underlying = s.short_leg.underlying;
  quote_source_id = s.short_leg.source_id;
  model_id = "vertical-credit-spread-executable-side";
  model_version = "1.1.0";
  calculated_at = now;
  short_contract_id = s.short_leg.contract_id;
  long_contract_id = s.long_leg.contract_id;
  short_quoted_at = s.short_leg.quoted_at;
  long_quoted_at = s.long_leg.quoted_at;
  underlying_quote_timestamp = s.underlying_quote.quoted_at;
  underlying_bid = s.underlying_quote.bid;
  underlying_ask = s.underlying_quote.ask;
  expiration_date = s.short_leg.expiration;
  days_to_expiration = s.short_leg.expiration - date now;
  planned_exit_days_before_expiration = s.planned_exit_days_before_expiration;
  planned_exit_date = s.short_leg.expiration - s.planned_exit_days_before_expiration;
  minimum_leg_open_interest = min s.short_leg.open_interest s.long_leg.open_interest;
  minimum_leg_volume = min s.short_leg.volume s.long_leg.volume;
  maximum_observed_leg_spread_fraction = observed;
  quantity = s.quantity;
  contract_multiplier = 100;
  width_per_share = width s;
  short_sale_price_per_share = s.short_leg.bid;
  long_purchase_price_per_share = s.long_leg.ask;
  gross_credit = gross_credit s;
  total_commission = total_commission s;
  net_credit = net_credit s;
  maximum_loss = maximum_loss s;
  break_even =
      if is_put s.short_leg.option_type
      then number_sub s.short_leg.strike per_share
      else number_add s.short_leg.strike per_share;
  return_on_risk = return_on_risk;
}

unfoldable pub calculate_vertical_credit_spread :
    VerticalCreditSpread → DateTime → Result VerticalSpreadCalculation
unfolding checks aware_or calculation leg_checks time_checks liquidity_checks strike_checks
    leg_fraction fraction_checks economics_checks
calculate_vertical_credit_spread s calculated_at = do
  now ← aware_or calculated_at (value_error "calculation timestamp must be timezone-aware")
  checks (leg_checks s)
  checks (time_checks s now)
  checks (liquidity_checks s)
  short_fraction ← leg_fraction s.short_leg
  long_fraction ← leg_fraction s.long_leg
  let observed = number_max short_fraction long_fraction
  checks (fraction_checks s observed)
  checks (strike_checks s)
  checks (economics_checks s)
  per_share ← number_div (net_credit s) (number_mul (whole 100) (whole s.quantity))
  return_on_risk ← number_div (net_credit s) (maximum_loss s)
  ok (calculation s now observed per_share return_on_risk)
