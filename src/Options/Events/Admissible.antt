-- ===== src/Options/Events/Admissible.antt =====
-- When an event calendar admits a spread.
use hedge_desk.Prelude.{
  ℕ, ◌≤◌, ◌<◌, ◌≡◌, ◌↔◌, refl, sym, ap, ◌∙◌, String, Bool, true, false, not, ◌&&◌, List, [], ◌∷◌,
  ◌++◌, map, NoneHolds, after_checks, reasons-nil, canonical, flags, ok, ok-injective, arith,
  eq_iff, is_blank, is_empty, is_empty_iff, has_double, value_error, valid_sha256_or_zero, leb,
}
use hedge_desk.Decimal.{Number, number_lt}
use hedge_desk.Time.{Moment, DateTime, naive, aware, date}
use hedge_desk.Digest.{Digest}
use hedge_desk.Options.Quotes.{OptionType, put, call, is_put}
use hedge_desk.Options.Spread.{VerticalSpreadCalculation}
use hedge_desk.Options.Events.{
  ScheduledCorporateEvent, CorporateEventType, earnings, ex_dividend, EventCalendarGate,
  is_earnings, is_unzoned, published_after, event_flags, all_event_flags, calendar_flags,
  event_gate, evaluate_event_calendar,
}

NoneHolds-append :
    {A : Type 0} (xs ys : List (Bool × A)) → NoneHolds (xs ++ ys) ↔ (NoneHolds xs × NoneHolds ys)
NoneHolds-append [] ys = ((λ h. (tt, h)), (λ h. h.1))
NoneHolds-append ((t, c) ∷ xs) ys =
    let later = NoneHolds-append xs ys in
    ((λ h. ((h.0, (later.0 h.1).0), (later.0 h.1).1)), (λ h. (h.0.0, later.1 (h.0.1, h.1))))

published_by :
    (p : DateTime) (as_of : Moment)
    → is_unzoned p ≡ false
    → published_after p as_of ≡ false
    → (m : Moment) × (p ≡ aware m) × (m.utc ≤ as_of.utc)
published_by (naive t) as_of h k = cc
published_by (aware m) as_of h k = (m, refl, ground (arith, k))

earnings_clear :
    (t : CorporateEventType) (first last on : ℕ)
    → (t ≡ earnings → first ≤ on → last < on)
    → (is_earnings t && (leb first on && leb on last)) ≡ false
earnings_clear earnings first last on h = ground (arith, h refl)
earnings_clear ex_dividend first last on h = refl

dividend_clear :
    (t : CorporateEventType) (k : OptionType) (first last on : ℕ) (money : Bool)
    → (t ≡ ex_dividend → k ≡ call → first ≤ on → on ≤ last → money ≡ false)
    → ((not (is_earnings t) && (leb first on && leb on last)) && (not (is_put k) && money)) ≡ false
dividend_clear earnings k first last on money h = refl
dividend_clear ex_dividend call first last on money h = ground (arith, h refl refl)
dividend_clear ex_dividend put first last on money h = ground arith

module _ (symbol : String) (as_of : Moment) (spread : VerticalSpreadCalculation) (kind : OptionType)
    (strike : Number) where
  -- An event that is published, sourced and about the symbol, and that does no harm to the spread:
  -- earnings do not fall into the holding window, and neither does an ex-dividend date where the short
  -- leg is a call in the money.
  pub record EventClear (e : ScheduledCorporateEvent) : Type 0 where
    pub named : is_blank e.event_id ≡ false
    pub same_symbol : e.symbol ≡ symbol
    pub published : Moment
    pub aware_time : e.published_at ≡ aware published
    pub point_in_time : published.utc ≤ as_of.utc
    pub sourced : valid_sha256_or_zero e.source_artifact_sha256 ≡ true
    pub no_earnings :
        e.event_type ≡ earnings
        → date as_of ≤ e.event_date
        → spread.planned_exit_date < e.event_date
    pub no_assignment :
        e.event_type ≡ ex_dividend
        → kind ≡ call
        → date as_of ≤ e.event_date
        → e.event_date ≤ spread.planned_exit_date
        → number_lt strike spread.underlying_ask ≡ false

  abbrev pub AllClear : List ScheduledCorporateEvent → Type 0
  AllClear [] = Unit {0}
  AllClear (e ∷ es) = EventClear e × AllClear es

  event_iff :
      (e : ScheduledCorporateEvent)
      → NoneHolds (event_flags symbol as_of spread kind strike e) ↔ EventClear e
  unfolding event_flags
  event_iff e = (
    (λ h.
        let by = published_by e.published_at as_of h.1.0 h.1.1.0 in
        record {
          named = ground (arith, h);
          same_symbol = ground (arith, h, eq_iff e.symbol symbol);
          published = by.0;
          aware_time = by.1;
          point_in_time = by.2;
          sourced = ground (arith, h);
          no_earnings = λ t a. ground (arith, h, t, a);
          no_assignment = λ t k a b. ground (arith, h, t, k, a, b);
        }),
    (λ k. (
      ground (arith, k.named, k.same_symbol, eq_iff e.symbol symbol),
      (
        rw k.aware_time refl,
        (
          rw k.aware_time (ground (arith, k.point_in_time)),
          (
            ap not k.sourced,
            (
              earnings_clear e.event_type (date as_of) spread.planned_exit_date e.event_date
                  k.no_earnings,
              (
                dividend_clear e.event_type kind (date as_of) spread.planned_exit_date e.event_date
                    (number_lt strike spread.underlying_ask) k.no_assignment,
                tt,
              ),
            ),
          ),
        ),
      ),
    )),
  )

  all_events_iff :
      (es : List ScheduledCorporateEvent)
      → NoneHolds (all_event_flags symbol as_of spread kind strike es) ↔ AllClear es
  unfolding all_event_flags
  all_events_iff [] = ((λ h. tt), (λ h. tt))
  all_events_iff (e ∷ es) =
      let parts =
        NoneHolds-append (event_flags symbol as_of spread kind strike e)
          (all_event_flags symbol as_of spread kind strike es) in
      let first = event_iff e in
      let later = all_events_iff es in
      (
        (λ h. (first.0 (parts.0 h).0, later.0 (parts.0 h).1)),
        (λ h. parts.1 (first.1 h.0, later.1 h.1)),
      )

  -- A calendar gate that was evaluated at an aware time admits the spread exactly where the calendar is
  -- complete through the expiration and each of its events is clear: named, about the symbol, published
  -- by then and sourced, no earnings inside the planned holding window, and no ex-dividend date inside
  -- it while the short leg is a call in the money.
  pub calendar_exact :
      (digest : Digest) (complete_through : ℕ) (es : List ScheduledCorporateEvent)
      (g : EventCalendarGate)
      → evaluate_event_calendar digest symbol (aware as_of) complete_through es spread kind strike
        ≡ ok g
      → (g.admissible ≡ true) ↔ ((spread.expiration_date ≤ complete_through) × AllClear es)
  unfolding evaluate_event_calendar calendar_flags event_gate
  calendar_exact digest complete_through es g h =
      after_checks
        ((is_blank symbol, value_error "calendar identity and timezone-aware as-of are required")
          ∷ [])
        _ h
        λ _ h₁.
          after_checks
            ((
              has_double (map (λ event. event.event_id) es),
              value_error "corporate event identities must be unique",
            )
              ∷ [])
            _ h₁
            λ _ h₂.
              let fs = calendar_flags symbol as_of complete_through es spread kind strike in
              let same : is_empty (canonical (flags fs)) ≡ g.admissible =
                ap (λ x. x.admissible) (ok-injective _ g h₂) in
              let empty = is_empty_iff (canonical (flags fs)) in
              let nil = reasons-nil fs in
              let all = all_events_iff es in
              (
                (λ a.
                    let holds = nil.0 (empty.0 (same ∙ a)) in
                    (ground (arith, holds.0), all.0 holds.1)),
                (λ (enough, clear).
                    sym same ∙ empty.1 (nil.1 (ground (arith, enough), all.1 clear))),
              )
