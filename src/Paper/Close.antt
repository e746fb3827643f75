-- ===== src/Paper/Close.antt =====
-- paper/workflow.py: the paper close of an opened plan.
pub mod Bound
use hedge_desk.Prelude.{
  ℕ, String, Bool, true, false, not, ◌||◌, ◌&&◌, List, [], ◌∷◌, Error, value_error,
  permission_error, Result, ok, err, checks, ◌>>=◌, ◌>>◌, str_eq, ◌==◌,
}
use hedge_desk.Decimal.{Number, Decimal, number_eq}
use hedge_desk.Time.{Moment, DateTime, aware, aware_or, not_later}
use hedge_desk.Digest.{Digest, Field, text, number, moment}
use hedge_desk.Options.Quotes.{OptionQuote}
use hedge_desk.Options.Exit.{PremiumExitPolicy, PremiumExitEvaluation, evaluate_premium_exit}
use hedge_desk.Paper.Plan.{PaperTradePlan, assert_plan_integrity, is_approved}
use hedge_desk.Paper.Authorize.{PaperOpen}

pub record PaperClose : Type 0 where
  pub plan_id : String
  pub plan_hash : String
  pub closed_at : Moment
  pub exit_debit : Number
  pub exit_commission : Number
  pub realized_pnl : Number
  pub exit_evaluation_sha256 : String
  pub close_sha256 : String
  pub environment : String

close_checks : PaperOpen → PaperTradePlan → Moment → List (Bool × Error)
close_checks o p closed =
    (not_later closed o.opened_at, value_error "paper close must follow paper open")
    ∷ (
      not (is_approved p.authorization.status),
      permission_error "paper close requires the exact approved plan",
    )
    ∷ (
      not (str_eq o.plan_id p.plan_id)
          || not (str_eq o.plan_hash p.plan_hash)
          || not (str_eq o.spread_id p.spread.spread_id)
          || not (o.quantity == p.spread.quantity)
          || not (number_eq o.entry_credit p.spread.net_credit)
          || not (str_eq o.environment "paper"),
      value_error "paper open does not match approved plan",
    )
    ∷ []

close_payload : PaperOpen → Moment → PremiumExitEvaluation → List Field
close_payload o closed e =
    text o.plan_id
    ∷ text o.plan_hash
    ∷ moment (aware closed)
    ∷ number e.executable_close_debit
    ∷ number e.close_commission
    ∷ number e.marked_pnl
    ∷ text e.artifact_sha256
    ∷ text "paper"
    ∷ []

closing : Digest → PaperOpen → Moment → PremiumExitEvaluation → PaperClose
unfolding close_payload
closing digest o closed e = record {
  plan_id = o.plan_id;
  plan_hash = o.plan_hash;
  closed_at = closed;
  exit_debit = e.executable_close_debit;
  exit_commission = e.close_commission;
  realized_pnl = e.marked_pnl;
  exit_evaluation_sha256 = e.artifact_sha256;
  close_sha256 = digest (close_payload o closed e);
  environment = "paper";
}

unfoldable pub close_paper_trade :
    Digest
    → PaperOpen
    → PaperTradePlan
    → OptionQuote
    → OptionQuote
    → Decimal
    → DateTime
    → Bool
    → PremiumExitPolicy
    → Result PaperClose
unfolding assert_plan_integrity checks aware_or close_checks closing evaluate_premium_exit
close_paper_trade digest o p short long commission closed_at escalation policy = do
  assert_plan_integrity digest p
  closed ← aware_or closed_at (value_error "paper-close timestamp must be timezone-aware")
  checks (close_checks o p closed)
  evaluation ←
      evaluate_premium_exit digest p.spread short long (aware closed) commission escalation policy
  ok (closing digest o closed evaluation)
