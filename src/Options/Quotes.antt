-- ===== src/Options/Quotes.antt =====
-- options/spreads.py: the quotes and the spread that a calculation starts from. A constructor runs
-- the checks of `__post_init__` on raw values.
use hedge_desk.Prelude.{
  ℕ, String, Bool, true, false, not, ◌||◌, ◌&&◌, [], ◌∷◌, value_error, Result, ok, checks, ◌>>=◌,
  ◌>>◌, is_blank,
}
use hedge_desk.Decimal.{
  ℤ, pos_part, is_positive, is_negative, Number, Decimal, finite_or, number_le, number_lt, whole,
}
use hedge_desk.Time.{Moment, DateTime, aware_or}

pub data OptionType : Type 0 where
  call put : OptionType

abbrev pub is_put : OptionType → Bool
is_put put = true
is_put call = false

-- a is not b
abbrev pub types_differ : OptionType → OptionType → Bool
types_differ call call = false
types_differ put put = false
types_differ _ _ = true

-- `expiration` counts days.
pub record OptionQuote : Type 0 where
  pub contract_id : String
  pub underlying : String
  pub option_type : OptionType
  pub strike : Number
  pub expiration : ℕ
  pub bid : Number
  pub ask : Number
  pub bid_size : ℕ
  pub ask_size : ℕ
  pub quoted_at : Moment
  pub source_id : String
  pub open_interest : ℕ
  pub volume : ℕ

unfoldable pub make_option_quote :
    String
    → String
    → OptionType
    → Decimal
    → ℕ
    → Decimal
    → Decimal
    → ℤ
    → ℤ
    → DateTime
    → String
    → ℤ
    → ℤ
    → Result OptionQuote
unfolding checks finite_or aware_or
make_option_quote contract underlying kind strike expiration bid ask bid_size ask_size quoted source
      interest volume =
    do
      let not_finite = value_error "option quote values must be finite Decimals"
      checks (
          (
            is_blank contract || is_blank underlying || is_blank source,
            value_error "quote identity and source are required",
          )
          ∷ [])
      quoted' ← aware_or quoted (value_error "quote timestamp must be timezone-aware")
      strike' ← finite_or strike not_finite
      bid' ← finite_or bid not_finite
      ask' ← finite_or ask not_finite
      checks (
          (
            number_le strike' (whole 0) || number_lt bid' (whole 0) || number_le ask' (whole 0),
            value_error "strike and quote values must be valid",
          )
          ∷ (number_lt ask' bid', value_error "crossed option quote is prohibited")
          ∷ (
            not (is_positive bid_size) || not (is_positive ask_size),
            value_error "executable quote sizes must be positive",
          )
          ∷ (
            is_negative interest || is_negative volume,
            value_error "open interest and volume cannot be negative",
          )
          ∷ [])
      ok (record {
        contract_id = contract;
        underlying = underlying;
        option_type = kind;
        strike = strike';
        expiration = expiration;
        bid = bid';
        ask = ask';
        bid_size = pos_part bid_size;
        ask_size = pos_part ask_size;
        quoted_at = quoted';
        source_id = source;
        open_interest = pos_part interest;
        volume = pos_part volume;
      })

pub record UnderlyingQuote : Type 0 where
  pub symbol : String
  pub bid : Number
  pub ask : Number
  pub quoted_at : Moment
  pub source_id : String

unfoldable pub make_underlying_quote :
    String → Decimal → Decimal → DateTime → String → Result UnderlyingQuote
unfolding checks finite_or aware_or
make_underlying_quote symbol bid ask quoted source = do
  let not_finite = value_error "underlying quote values must be finite Decimals"
  checks (
      (
        is_blank symbol || is_blank source,
        value_error "underlying quote identity and source are required",
      )
      ∷ [])
  quoted' ← aware_or quoted (value_error "underlying quote timestamp must be timezone-aware")
  bid' ← finite_or bid not_finite
  ask' ← finite_or ask not_finite
  checks (
      (
        number_le bid' (whole 0) || number_le ask' (whole 0) || number_lt ask' bid',
        value_error "underlying quote must be positive and non-crossed",
      )
      ∷ [])
  ok (record { symbol = symbol; bid = bid'; ask = ask'; quoted_at = quoted'; source_id = source })

pub record VerticalCreditSpread : Type 0 where
  pub spread_id : String
  pub short_leg : OptionQuote
  pub long_leg : OptionQuote
  pub underlying_quote : UnderlyingQuote
  pub quantity : ℕ
  pub commission_per_contract : Number
  pub quote_tolerance_seconds : ℕ
  pub planned_exit_days_before_expiration : ℕ
  pub minimum_open_interest : ℕ
  pub minimum_volume : ℕ
  pub maximum_leg_spread_fraction : Number

unfoldable pub make_spread :
    String
    → OptionQuote
    → OptionQuote
    → UnderlyingQuote
    → ℤ
    → Decimal
    → ℤ
    → ℤ
    → ℤ
    → ℤ
    → Decimal
    → Result VerticalCreditSpread
unfolding checks finite_or
make_spread spread_id short long underlying quantity commission tolerance exit_days interest volume
      fraction =
    do
      let not_finite = value_error "spread policy values must be finite Decimals"
      checks (
          (
            is_blank spread_id || not (is_positive quantity),
            value_error "spread identity and positive quantity are required",
          )
          ∷ [])
      commission' ← finite_or commission not_finite
      fraction' ← finite_or fraction not_finite
      checks (
          (number_lt commission' (whole 0), value_error "commission cannot be negative")
          ∷ (is_negative tolerance, value_error "quote tolerance cannot be negative")
          ∷ (not (is_positive exit_days), value_error "planned exit offset must be positive")
          ∷ (
            is_negative interest || is_negative volume,
            value_error "liquidity thresholds cannot be negative",
          )
          ∷ (
            not (number_lt (whole 0) fraction' && number_lt fraction' (whole 1)),
            value_error "maximum leg spread fraction must be between zero and one",
          )
          ∷ [])
      ok (record {
        spread_id = spread_id;
        short_leg = short;
        long_leg = long;
        underlying_quote = underlying;
        quantity = pos_part quantity;
        commission_per_contract = commission';
        quote_tolerance_seconds = pos_part tolerance;
        planned_exit_days_before_expiration = pos_part exit_days;
        minimum_open_interest = pos_part interest;
        minimum_volume = pos_part volume;
        maximum_leg_spread_fraction = fraction';
      })
