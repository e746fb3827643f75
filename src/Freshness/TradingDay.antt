-- ===== src/Freshness/TradingDay.antt =====
-- The expected trading day is the last weekday up to the cutoff, and the search for it ends.
use hedge_desk.Prelude.{
  ℕ, suc, ◌+◌, ◌-◌, ◌%◌, ◌≤◌, ◌<◌, ◌≡◌, true, false, leb, arith, ◌⊎◌, refl, sym, subst, Bool-cases,
  inl, inr,
}
use hedge_desk.Freshness.{is_weekend, trading_loop, expected_trading_day}

-- The day is a weekday up to the cutoff, and all days after it up to the cutoff are of a weekend.
pub record LastWeekday (day cutoff : ℕ) : Type 0 where
  pub weekday : is_weekend day ≡ false
  pub not_after : day ≤ cutoff
  pub near : cutoff ≤ day + 2
  pub weekend_between : (d : ℕ) → day < d → d ≤ cutoff → is_weekend d ≡ true

-- Friday to Monday is three days of the loop.
data DayKind (d : ℕ) : Type 0 where
  weekday : is_weekend d ≡ false → DayKind d
  saturday : is_weekend d ≡ true → is_weekend (d - 1) ≡ false → 1 ≤ d → DayKind d
  sunday :
      is_weekend d ≡ true
      → is_weekend (d - 1) ≡ true
      → is_weekend (d - 1 - 1) ≡ false
      → 2 ≤ d
      → DayKind d

weekend_value : (n : ℕ) → leb 5 n ≡ true → n < 7 → (n ≡ 5) ⊎ (n ≡ 6)
weekend_value n h k = ground arith

day_kind : (d : ℕ) → DayKind d
day_kind d = elim (Bool-cases (is_weekend d)) [
  | inr h ↦ weekday h
  | inl h ↦ elim (weekend_value (d % 7) h (omega arith)) [
    | inl five ↦ saturday h (not_weekend (d - 1) (omega (arith, five))) (omega (arith, five))
    | inr six ↦
        sunday h (rw (six_before d six) refl) (not_weekend (d - 1 - 1) (omega (arith, six)))
          (omega (arith, six))
  ]
]
  where
    not_weekend : (d : ℕ) → d % 7 ≡ 4 → is_weekend d ≡ false
    not_weekend d h = rw h refl

    six_before : (d : ℕ) → d % 7 ≡ 6 → (d - 1) % 7 ≡ 5
    six_before d h = omega (arith, h)

between : (a b d : ℕ) → a < d → d ≤ b → b ≤ a + 2 → (d ≡ b) ⊎ (d ≡ b - 1)
between a b d h k l = ground arith

last_weekday :
    (fuel d : ℕ)
    → DayKind d
    → (trading_loop (suc (suc (suc fuel))) d ≡ trading_loop 3 d) × LastWeekday (trading_loop 3 d) d
unfolding trading_loop
last_weekday fuel d (weekday h) = rw h (
  refl,
  record {
    weekday = h;
    not_after = omega arith;
    near = omega arith;
    weekend_between = λ x a b. absurd (omega (arith, a, b));
  },
)
last_weekday fuel d (saturday h k l) =
    rw (h, k)
      (
        refl,
        record {
          weekday = k;
          not_after = omega arith;
          near = omega arith;
          weekend_between = λ x a b.
              let e : x ≡ d = omega (arith, a, b) in subst (λ y. is_weekend y ≡ true) (sym e) h;
        },
      )
last_weekday fuel d (sunday h k m l) =
    rw (h, k, m)
      (
        refl,
        record {
          weekday = m;
          not_after = omega arith;
          near = omega arith;
          weekend_between = λ x a b. elim (between (d - 1 - 1) d x a b (omega arith)) [
            | inl e ↦ subst (λ y. is_weekend y ≡ true) (sym e) h
            | inr e ↦ subst (λ y. is_weekend y ≡ true) (sym e) k
          ];
        },
      )

-- The search for the expected trading day ends: any fuel above two gives the same day, and it is the
-- last weekday up to the cutoff, two days before it at most.
pub expected_trading_day_last :
    (fuel cutoff : ℕ)
    → (trading_loop (suc (suc (suc fuel))) cutoff ≡ expected_trading_day cutoff)
      × LastWeekday (expected_trading_day cutoff) cutoff
unfolding expected_trading_day
expected_trading_day_last fuel cutoff = last_weekday fuel cutoff (day_kind cutoff)
