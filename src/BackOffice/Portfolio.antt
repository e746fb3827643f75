-- ===== src/BackOffice/Portfolio.antt =====
-- backoffice/portfolio.py: the exposure limits of a portfolio and its drawdown circuit breaker.
pub mod Limits
use hedge_desk.Prelude.{
  ℕ, suc, ◌+◌, String, Bool, true, false, not, ◌||◌, ◌&&◌, List, [], ◌∷◌, ◌++◌, map, keep, length,
  ltb, Error, value_error, Result, ok, err, checks, ◌>>=◌, ◌>>◌, flags, canonical, has_double,
  is_blank, text_lt, str_eq, valid_sha256_or_zero, if◌then◌else◌,
}
use hedge_desk.Decimal.{
  ℤ, pos_part, is_positive, Number, Decimal, finite_or, number_le, number_lt, number_add,
  number_div, whole, hundredths, in_unit_positive,
}
use hedge_desk.Digest.{Digest, Field, text, number, count, flag, texts}
use hedge_desk.Domain.{Account, TradeCandidate}

pub record PositionExposure : Type 0 where
  pub position_id : String
  pub symbol : String
  pub maximum_loss : Number

unfoldable pub make_position : String → String → Decimal → Result PositionExposure
unfolding checks finite_or
make_position position_id symbol loss = do
  let invalid = value_error "position identity, symbol, and nonnegative loss are required"
  checks ((is_blank position_id || is_blank symbol, invalid) ∷ [])
  loss' ← finite_or loss invalid
  checks ((number_lt loss' (whole 0), invalid) ∷ [])
  ok (record { position_id = position_id; symbol = symbol; maximum_loss = loss' })

pub record PortfolioPolicy : Type 0 where
  pub maximum_aggregate_loss_fraction : Number
  pub maximum_symbol_loss_fraction : Number
  pub maximum_open_positions : ℕ

abbrev pub default_portfolio_policy : PortfolioPolicy
default_portfolio_policy = record {
  maximum_aggregate_loss_fraction = hundredths 5;
  maximum_symbol_loss_fraction = hundredths 2;
  maximum_open_positions = 10;
}

unfoldable pub make_portfolio_policy : Decimal → Decimal → ℤ → Result PortfolioPolicy
unfolding checks finite_or
make_portfolio_policy aggregate symbol positions = do
  let not_finite = value_error "portfolio policy fractions must be finite Decimals"
  aggregate' ← finite_or aggregate not_finite
  symbol' ← finite_or symbol not_finite
  checks (
      (
        not (in_unit_positive aggregate') || not (in_unit_positive symbol'),
        value_error "portfolio policy fractions must be in (0, 1]",
      )
      ∷ (
        not (is_positive positions),
        value_error "maximum open positions must be a positive integer",
      )
      ∷ [])
  ok (record {
    maximum_aggregate_loss_fraction = aggregate';
    maximum_symbol_loss_fraction = symbol';
    maximum_open_positions = pos_part positions;
  })

pub record PortfolioGateResult : Type 0 where
  pub reason_codes : List String
  pub snapshot_sha256 : String
  pub aggregate_maximum_loss_after : Number
  pub symbol_maximum_loss_after : Number

pub record CircuitBreakerResult : Type 0 where
  pub new_risk_frozen : Bool
  pub reason_codes : List String
  pub artifact_sha256 : String

unfoldable pub evaluate_drawdown_circuit_breaker :
    Digest → Decimal → Decimal → String → Result CircuitBreakerResult
unfolding checks finite_or
evaluate_drawdown_circuit_breaker digest current maximum source = do
  let not_finite = value_error "drawdown inputs must be finite Decimals"
  current' ← finite_or current not_finite
  maximum' ← finite_or maximum not_finite
  checks (
      (
        number_lt current' (whole 0) || number_le maximum' (whole 0),
        value_error "drawdown inputs must be nonnegative with a positive limit",
      )
      ∷ (
        not (valid_sha256_or_zero source),
        value_error "circuit-breaker source report hash must be valid",
      )
      ∷ [])
  let frozen = number_lt maximum' current'
  let reasons = if frozen then "PORTFOLIO_DRAWDOWN_CIRCUIT_BREAKER" ∷ [] else []
  ok (record {
    new_risk_frozen = frozen;
    reason_codes = reasons;
    artifact_sha256 =
        digest (number current' ∷ number maximum' ∷ flag frozen ∷ texts reasons ∷ text source ∷ []);
  })

-- sorted(positions, key=lambda item: item.position_id), which is stable
unfoldable pub insert_position : PositionExposure → List PositionExposure → List PositionExposure
insert_position p [] = p ∷ []
insert_position p (q ∷ qs) =
    if text_lt q.position_id p.position_id then q ∷ insert_position p qs else p ∷ q ∷ qs

unfoldable pub sort_positions : List PositionExposure → List PositionExposure
unfolding insert_position
sort_positions [] = []
sort_positions (p ∷ ps) = insert_position p (sort_positions ps)

unfoldable pub position_rows : List PositionExposure → List Field
position_rows [] = []
position_rows (p ∷ ps) =
    number p.maximum_loss ∷ text p.position_id ∷ text p.symbol ∷ position_rows ps

unfoldable pub snapshot : List PositionExposure → List Field
unfolding sort_positions position_rows
snapshot positions = count (length positions) ∷ position_rows (sort_positions positions)

-- sum((position.maximum_loss for position in positions), total)
unfoldable pub sum_losses : Number → List PositionExposure → Number
sum_losses total [] = total
sum_losses total (p ∷ ps) = sum_losses (number_add total p.maximum_loss) ps

pub aggregate_after : TradeCandidate → List PositionExposure → Number
unfolding sum_losses
aggregate_after candidate positions = number_add (sum_losses (whole 0) positions) candidate.max_loss

pub symbol_after : TradeCandidate → List PositionExposure → Number
unfolding sum_losses
symbol_after candidate positions =
    number_add (sum_losses (whole 0) (keep (λ p. str_eq p.symbol candidate.symbol) positions))
      candidate.max_loss

portfolio_flags : List PositionExposure → PortfolioPolicy → Number → Number → List (Bool × String)
portfolio_flags positions policy aggregate symbol =
    (ltb policy.maximum_open_positions (length positions + 1), "MAXIMUM_OPEN_POSITIONS")
    ∷ (number_lt policy.maximum_aggregate_loss_fraction aggregate, "PORTFOLIO_AGGREGATE_LOSS_LIMIT")
    ∷ (number_lt policy.maximum_symbol_loss_fraction symbol, "SYMBOL_CONCENTRATION_LIMIT")
    ∷ []

-- The three codes differ, so that sorting them drops none.
unfoldable pub evaluate_portfolio_gate :
    Digest
    → Account
    → TradeCandidate
    → List PositionExposure
    → PortfolioPolicy
    → Result PortfolioGateResult
unfolding checks has_double snapshot aggregate_after symbol_after portfolio_flags flags canonical
evaluate_portfolio_gate digest account candidate positions policy = do
  checks (
      (
        has_double (map (λ p. p.position_id) positions),
        value_error "portfolio position identities must be unique",
      )
      ∷ [])
  aggregate ← number_div (aggregate_after candidate positions) account.equity
  symbol ← number_div (symbol_after candidate positions) account.equity
  ok (record {
    reason_codes = canonical (flags (portfolio_flags positions policy aggregate symbol));
    snapshot_sha256 = digest (snapshot positions);
    aggregate_maximum_loss_after = aggregate_after candidate positions;
    symbol_maximum_loss_after = symbol_after candidate positions;
  })
