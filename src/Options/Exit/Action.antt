-- ===== src/Options/Exit/Action.antt =====
-- When an exit evaluation calls for a close, and what it is about.
use hedge_desk.Prelude.{
  ◌+◌, ◌*◌, ◌≤◌, ◌<◌, ◌≡◌, ◌↔◌, refl, subst, String, Bool, true, false, List, [], ◌∷◌, is_empty,
  max, Error, NoneHolds, after_bind, after_checks, reasons-nil, canonical, flags, ok, ok-injective,
  arith, eq_iff, value_error, if◌then◌else◌,
}
use hedge_desk.Decimal.{
  Number, Decimal, finite_or, number_lt, number_sub, number_div, number_neg, number_mul, number,
  whole,
}
use hedge_desk.Time.{Moment, DateTime, aware_or, date}
use hedge_desk.Digest.{Digest}
use hedge_desk.Options.Quotes.{OptionQuote, types_differ}
use hedge_desk.Options.Spread.{VerticalSpreadCalculation, number_max}
use hedge_desk.Options.Exit.{
  PremiumExitPolicy, PremiumExitEvaluation, evaluate_premium_exit, exit_checks, exit_flags,
  evaluation, sealed, commission_checks, debit_checks, marked_pnl, close_debit, close_commission,
}

finite_or_lem : (d : Decimal) (e : Error) (n : Number) → finite_or d e ≡ ok n → d ≡ number n
unfolding finite_or
finite_or_lem d e n h = ground (arith, h)

commission_lem : (n : Number) → NoneHolds (commission_checks n) → number_lt n (whole 0) ≡ false
unfolding commission_checks
commission_lem n h = h.0

module _ (opened : VerticalSpreadCalculation) (policy : PremiumExitPolicy) (escalation : Bool) where
  -- Nothing calls for a close: no event, no date, no profit target and no loss threshold.
  pub record Quiet (e : PremiumExitEvaluation) : Type 0 where
    pub no_event : escalation ≡ false
    pub before_exit :
        date e.evaluated_at + opened.planned_exit_days_before_expiration < opened.expiration_date
    pub profit_open : number_lt e.profit_capture_fraction policy.profit_capture_fraction ≡ true
    pub loss_open : number_lt e.loss_fraction_of_maximum policy.maximum_loss_fraction ≡ true

  -- The evaluation is about the opened contracts, on fresh quotes, and authorizes no trade.
  pub record ExitSound (short long : OptionQuote) (per_contract : Number)
      (e : PremiumExitEvaluation) : Type 0 where
    pub monitors : (e.action ≡ "MONITOR") ↔ Quiet e
    pub same_contracts :
        (short.contract_id ≡ opened.short_contract_id)
        × (long.contract_id ≡ opened.long_contract_id)
    pub same_market :
        (short.underlying ≡ opened.underlying)
        × (long.underlying ≡ opened.underlying)
        × (short.source_id ≡ opened.quote_source_id)
        × (long.source_id ≡ opened.quote_source_id)
        × (short.expiration ≡ opened.expiration_date)
        × (long.expiration ≡ opened.expiration_date)
        × (types_differ short.option_type long.option_type ≡ false)
    pub quotes_together :
        (short.quoted_at.utc ≤ long.quoted_at.utc + policy.quote_tolerance_seconds * 1000000)
        × (long.quoted_at.utc ≤ short.quoted_at.utc + policy.quote_tolerance_seconds * 1000000)
    pub quotes_past :
        (short.quoted_at.utc ≤ e.evaluated_at.utc) × (long.quoted_at.utc ≤ e.evaluated_at.utc)
    pub quotes_fresh :
        e.evaluated_at.utc
        ≤ max short.quoted_at.utc long.quoted_at.utc + policy.maximum_quote_age_seconds * 1000000
    -- Buying the short leg back costs its ask, and selling the long leg gives its bid.
    pub bought_back :
        e.executable_close_debit
        ≡ number_mul
            (number_mul (number_sub short.ask long.bid) (whole opened.contract_multiplier))
            (whole opened.quantity)
    pub debit : number_lt e.executable_close_debit (whole 0) ≡ false
    pub two_commissions :
        e.close_commission ≡ number_mul (number_mul per_contract (whole 2)) (whole opened.quantity)
    pub marked :
        e.marked_pnl
        ≡ number_sub (number_sub opened.net_credit e.executable_close_debit) e.close_commission
    pub captured : number_div e.marked_pnl opened.net_credit ≡ ok e.profit_capture_fraction
    pub lost :
        (loss : Number) × (number_div (number_neg e.marked_pnl) opened.maximum_loss ≡ ok loss)
        × (e.loss_fraction_of_maximum ≡ number_max (whole 0) loss)
    pub unauthorized : e.trade_authorized ≡ false

  module _ (digest : Digest) (short long : OptionQuote) (now : Moment)
      (per_contract capture ratio : Number) where
    abbrev loss : Number
    loss = number_max (whole 0) ratio

    abbrev codes : List String
    codes = canonical (flags (exit_flags opened now escalation policy capture loss))

    abbrev result : PremiumExitEvaluation
    result = sealed digest policy (
        evaluation opened short long now per_contract (marked_pnl opened short long per_contract)
          capture loss codes)

    abbrev action_of : List String → String
    action_of cs = if is_empty cs then "MONITOR" else "CLOSE_REVIEW_REQUIRED"

    monitor_codes : (cs : List String) → (action_of cs ≡ "MONITOR") ↔ (cs ≡ [])
    monitor_codes [] = ((λ _. refl), (λ _. refl))
    monitor_codes (c ∷ cs) = ((λ h. cc ((eq_iff "CLOSE_REVIEW_REQUIRED" "MONITOR").1 h)), (λ h. cc))

    quiet : NoneHolds (exit_flags opened now escalation policy capture loss) ↔ Quiet result
    unfolding exit_flags sealed evaluation
    quiet = (
      (λ h. record {
        no_event = ground (arith, h);
        before_exit = ground (arith, h);
        profit_open = ground (arith, h);
        loss_open = ground (arith, h);
      }),
      (λ k. (
        k.no_event,
        (
          ground (arith, k.before_exit),
          (ground (arith, k.profit_open), (ground (arith, k.loss_open), tt)),
        ),
      )),
    )

    sound_result :
        NoneHolds (exit_checks opened short long now policy)
        → NoneHolds (debit_checks opened short long)
        → number_div (marked_pnl opened short long per_contract) opened.net_credit ≡ ok capture
        → number_div (number_neg (marked_pnl opened short long per_contract)) opened.maximum_loss
          ≡ ok ratio
        → ExitSound short long per_contract result
    unfolding sealed evaluation exit_checks debit_checks marked_pnl close_debit close_commission
    sound_result fit debit captured lost =
        let nil = reasons-nil (exit_flags opened now escalation policy capture loss) in
        let action = monitor_codes codes in
        record {
          monitors = ((λ h. quiet.0 (nil.0 (action.0 h))), (λ k. action.1 (nil.1 (quiet.1 k))));
          same_contracts = (
            ground (arith, fit, eq_iff short.contract_id opened.short_contract_id),
            ground (arith, fit, eq_iff long.contract_id opened.long_contract_id),
          );
          same_market = (
            ground (arith, fit, eq_iff short.underlying opened.underlying),
            ground (
              arith,
              fit,
              eq_iff short.underlying long.underlying,
              eq_iff short.underlying opened.underlying,
            ),
            ground (arith, fit, eq_iff short.source_id opened.quote_source_id),
            ground (
              arith,
              fit,
              eq_iff short.source_id long.source_id,
              eq_iff short.source_id opened.quote_source_id,
            ),
            ground (arith, fit),
            ground (arith, fit),
            ground (arith, fit),
          );
          quotes_together = (ground (arith, fit), ground (arith, fit));
          quotes_past = (ground (arith, fit), ground (arith, fit));
          quotes_fresh = ground (arith, fit);
          bought_back = refl;
          debit = debit.0;
          two_commissions = refl;
          marked = refl;
          captured = captured;
          lost = (ratio, lost, refl);
          unauthorized = refl;
        }

  -- An exit evaluation that returned was given a finite commission that is not negative. It is of the
  -- opened contracts, of their underlying, source and expiration, on quotes that are past, within the
  -- tolerance of each other, and the later of which is not stale. It marks the position at a debit of
  -- the short ask less the long bid and two commissions a contract, taken off the credit, captures that
  -- share of the credit and loses that share of the maximum loss, if any. It monitors exactly where
  -- neither an event, nor the planned exit date, nor the profit target, nor the loss threshold calls
  -- for a close, and authorizes no trade.
  pub exit_sound :
      (digest : Digest) (short long : OptionQuote) (t : DateTime) (commission : Decimal)
      (e : PremiumExitEvaluation)
      → evaluate_premium_exit digest opened short long t commission escalation policy ≡ ok e
      → (per_contract : Number) × (commission ≡ number per_contract)
        × (number_lt per_contract (whole 0) ≡ false)
        × ExitSound short long per_contract e
  unfolding evaluate_premium_exit
  exit_sound digest short long t commission e h =
      after_bind (aware_or t (value_error "exit evaluation timestamp must be timezone-aware")) _ h
        λ now _ h₁.
          after_bind
            (finite_or commission
              (value_error "close commission must be a finite nonnegative Decimal"))
            _ h₁
            λ per finite h₂. after_checks (commission_checks per) _ h₂ λ nonnegative h₃.
              after_checks (exit_checks opened short long now policy) _ h₃ λ fit h₄.
                after_checks (debit_checks opened short long) _ h₄ λ debit h₅.
                  after_bind (number_div (marked_pnl opened short long per) opened.net_credit) _ h₅
                    λ capture captured h₆.
                      after_bind
                        (number_div (number_neg (marked_pnl opened short long per))
                          opened.maximum_loss)
                        _ h₆
                        λ ratio lost h₇. (
                          per,
                          finite_or_lem commission _ per finite,
                          commission_lem per nonnegative,
                          subst (ExitSound short long per) (ok-injective _ e h₇) (
                              sound_result digest short long now per capture ratio fit debit
                                captured lost),
                        )
