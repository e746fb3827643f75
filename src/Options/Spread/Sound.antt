-- ===== src/Options/Spread/Sound.antt =====
-- What a calculated spread promises.
use hedge_desk.Prelude.{
  ℕ, ◌+◌, ◌*◌, ◌≤◌, ◌<◌, ◌≡◌, refl, subst, ◌⊎◌, inl, inr, ◌||◌, ◌&&◌, true, false, not, ok,
  NoneHolds, after_bind, after_checks, ok-injective, arith, eq_iff, if◌then◌else◌,
}
use hedge_desk.Decimal.{Number, number_lt, number_le, number_mul, number_div, number_sub, whole}
use hedge_desk.Time.{Moment, DateTime, aware_or, date}
use hedge_desk.Options.Quotes.{VerticalCreditSpread, OptionType, types_differ, is_put, put, call}
use hedge_desk.Options.Spread.{
  VerticalSpreadCalculation, calculate_vertical_credit_spread, leg_checks, time_checks,
  gross_credit, total_commission, width, liquidity_checks, strike_checks, leg_fraction, calculation,
  net_credit, maximum_loss, number_max, fraction_checks, economics_checks,
}

module _ (s : VerticalCreditSpread) (r : VerticalSpreadCalculation) where
  -- Two times are no further apart than the tolerance, in either order.
  abbrev Within : ℕ → ℕ → Type 0
  Within a b =
      (a ≤ b + s.quote_tolerance_seconds * 1000000) × (b ≤ a + s.quote_tolerance_seconds * 1000000)

  -- The calculation is about one market and one expiration, comes after its quotes, which are close
  -- together, and before the planned exit, is executable at the displayed sizes of liquid legs, prices
  -- the spread at the executable sides, and can win and lose money.
  pub record SpreadSound : Type 0 where
    pub one_underlying :
        (s.short_leg.underlying ≡ s.long_leg.underlying)
        × (s.underlying_quote.symbol ≡ s.short_leg.underlying)
        × (r.underlying ≡ s.short_leg.underlying)
    pub one_source :
        (s.short_leg.source_id ≡ s.long_leg.source_id)
        × (s.underlying_quote.source_id ≡ s.short_leg.source_id)
    pub one_type : types_differ s.short_leg.option_type s.long_leg.option_type ≡ false
    pub one_expiration :
        (s.short_leg.expiration ≡ s.long_leg.expiration)
        × (r.expiration_date ≡ s.short_leg.expiration)
    pub exit_planned :
        r.planned_exit_date + r.planned_exit_days_before_expiration ≡ r.expiration_date
    pub before_exit : date r.calculated_at < r.planned_exit_date
    pub short_quoted : s.short_leg.quoted_at.utc ≤ r.calculated_at.utc
    pub long_quoted : s.long_leg.quoted_at.utc ≤ r.calculated_at.utc
    pub underlying_quoted : s.underlying_quote.quoted_at.utc ≤ r.calculated_at.utc
    pub legs_close : Within s.short_leg.quoted_at.utc s.long_leg.quoted_at.utc
    pub short_close : Within s.short_leg.quoted_at.utc s.underlying_quote.quoted_at.utc
    pub long_close : Within s.long_leg.quoted_at.utc s.underlying_quote.quoted_at.utc
    pub executable : (r.quantity ≤ s.short_leg.bid_size) × (r.quantity ≤ s.long_leg.ask_size)
    pub interested :
        (s.minimum_open_interest ≤ s.short_leg.open_interest)
        × (s.minimum_open_interest ≤ s.long_leg.open_interest)
    pub traded : (s.minimum_volume ≤ s.short_leg.volume) × (s.minimum_volume ≤ s.long_leg.volume)
    pub tight :
        number_lt s.maximum_leg_spread_fraction r.maximum_observed_leg_spread_fraction ≡ false
    pub observed :
        (x : Number) × (y : Number) × (number_div
            (number_sub s.short_leg.ask s.short_leg.bid)
            s.short_leg.ask
          ≡ ok x)
        × (number_div (number_sub s.long_leg.ask s.long_leg.bid) s.long_leg.ask ≡ ok y)
        × (r.maximum_observed_leg_spread_fraction ≡ number_max x y)
    pub gross :
        r.gross_credit
        ≡ number_mul
            (number_mul (number_sub s.short_leg.bid s.long_leg.ask) (whole 100))
            (whole s.quantity)
    pub commission :
        r.total_commission
        ≡ number_mul (number_mul s.commission_per_contract (whole 2)) (whole s.quantity)
    pub net : r.net_credit ≡ number_sub r.gross_credit r.total_commission
    pub loss :
        r.maximum_loss
        ≡ number_sub
            (number_mul (number_mul r.width_per_share (whole 100)) (whole s.quantity))
            r.net_credit
    pub credit : number_lt (whole 0) r.net_credit ≡ true
    pub risk : number_lt (whole 0) r.maximum_loss ≡ true
    pub strikes :
        ((s.short_leg.option_type ≡ put)
          × (number_lt s.long_leg.strike s.short_leg.strike ≡ true)
          × (r.width_per_share ≡ number_sub s.short_leg.strike s.long_leg.strike))
        ⊎ ((s.short_leg.option_type ≡ call)
            × (number_lt s.short_leg.strike s.long_leg.strike ≡ true)
            × (r.width_per_share ≡ number_sub s.long_leg.strike s.short_leg.strike))

strikes_apart :
    (kind : OptionType) (short long : Number)
    → (is_put kind && number_le short long) ≡ false
    → (not (is_put kind) && number_le long short) ≡ false
    → ((kind ≡ put)
        × (number_lt long short ≡ true)
        × ((if is_put kind then number_sub short long else number_sub long short)
            ≡ number_sub short long))
      ⊎ ((kind ≡ call)
          × (number_lt short long ≡ true)
          × ((if is_put kind then number_sub short long else number_sub long short)
              ≡ number_sub long short))
strikes_apart put short long h k = inl (refl, ground arith, refl)
strikes_apart call short long h k = inr (refl, ground arith, refl)

module _ (s : VerticalCreditSpread) (now : Moment) (x y per_share back : Number) where
  sound_of_checks :
      NoneHolds (leg_checks s)
      → NoneHolds (time_checks s now)
      → NoneHolds (liquidity_checks s)
      → NoneHolds (fraction_checks s (number_max x y))
      → NoneHolds (strike_checks s)
      → (number_le (net_credit s) (whole 0) || number_le (maximum_loss s) (whole 0)) ≡ false
      → leg_fraction s.short_leg ≡ ok x
      → leg_fraction s.long_leg ≡ ok y
      → SpreadSound s (calculation s now (number_max x y) per_share back)
  unfolding leg_checks time_checks liquidity_checks fraction_checks strike_checks calculation
      gross_credit net_credit total_commission maximum_loss width leg_fraction
  sound_of_checks legs times liquid tight strike money short long = record {
    one_underlying = (
      ground (arith, legs, eq_iff s.short_leg.underlying s.long_leg.underlying),
      ground (arith, legs, eq_iff s.underlying_quote.symbol s.short_leg.underlying),
      refl,
    );
    one_source = (
      ground (arith, legs, eq_iff s.short_leg.source_id s.long_leg.source_id),
      ground (arith, legs, eq_iff s.underlying_quote.source_id s.short_leg.source_id),
    );
    one_type = legs.1.0;
    one_expiration = (ground (arith, legs), refl);
    exit_planned = ground (arith, times);
    before_exit = ground (arith, times);
    short_quoted = ground (arith, times);
    long_quoted = ground (arith, times);
    underlying_quoted = ground (arith, times);
    legs_close = (ground (arith, times), ground (arith, times));
    short_close = (ground (arith, times), ground (arith, times));
    long_close = (ground (arith, times), ground (arith, times));
    executable = (ground (arith, liquid), ground (arith, liquid));
    interested = (ground (arith, liquid), ground (arith, liquid));
    traded = (ground (arith, liquid), ground (arith, liquid));
    tight = tight.0;
    observed = (x, y, short, long, refl);
    gross = refl;
    commission = refl;
    net = refl;
    loss = refl;
    credit = ground (arith, money);
    risk = ground (arith, money);
    strikes =
        strikes_apart s.short_leg.option_type s.short_leg.strike s.long_leg.strike strike.0
          strike.1.0;
  }

module _ (s : VerticalCreditSpread) (t : DateTime) (r : VerticalSpreadCalculation) where
  -- A calculation that returned is about two legs of one kind and one expiration and a quote of their
  -- underlying, all of one source; it comes after these three quotes, any two of which are within the
  -- tolerance of each other, and before the planned exit date; it is executable at the displayed sizes,
  -- on legs with the open interest, the volume and the bid-ask spread that the policy asks for; it
  -- credits the short bid less the long ask, with commission taken off; the strikes are on the sides of
  -- the kind, and the credit and the maximum loss are positive.
  pub calculate_sound : calculate_vertical_credit_spread s t ≡ ok r → SpreadSound s r
  unfolding calculate_vertical_credit_spread
  calculate_sound h = after_bind (aware_or t _) _ h λ now _ h₁.
      after_checks (leg_checks s) _ h₁ λ legs h₂. after_checks (time_checks s now) _ h₂ λ times h₃.
        after_checks (liquidity_checks s) _ h₃ λ liquid h₄.
          after_bind (leg_fraction s.short_leg) _ h₄ λ x short h₅.
            after_bind (leg_fraction s.long_leg) _ h₅ λ y long h₆.
              after_checks (fraction_checks s (number_max x y)) _ h₆ λ tight h₇.
                after_checks (strike_checks s) _ h₇ λ strike h₈.
                  after_checks (economics_checks s) _ h₈ λ money h₉.
                    after_bind
                      (number_div (net_credit s) (number_mul (whole 100) (whole s.quantity))) _ h₉
                      λ per_share _ h₁₀.
                        after_bind (number_div (net_credit s) (maximum_loss s)) _ h₁₀ λ back _ h₁₁.
                          subst (SpreadSound s) (ok-injective _ r h₁₁) (
                            sound_of_checks s now x y per_share back legs times liquid tight strike
                              money.0 short long)
