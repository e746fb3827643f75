-- ===== src/Paper/Authorize.antt =====
-- paper/workflow.py: the human decision on a plan, the paper open and the fill check.
pub mod Once
pub mod Reachable
pub mod Fill
pub mod Opened
pub mod Ready
use hedge_desk.Prelude.{
  ℕ, ◌+◌, ◌*◌, max, String, Bool, true, false, not, ◌||◌, ◌&&◌, Option, none, some, List, [], ◌∷◌,
  any, ltb, Error, value_error, permission_error, Result, ok, err, checks, ◌>>=◌, ◌>>◌,
  is_only_space, is_empty, canonical, flags, str_eq, if◌then◌else◌,
}
use hedge_desk.Decimal.{ℤ, Number, Decimal, decimal_lt, sub_ℕ, is_negative, pos, ◌-ℤ◌}
use hedge_desk.Time.{Moment, DateTime, aware_or, earlier}
use hedge_desk.Digest.{Digest}
use hedge_desk.Options.Spread.{VerticalSpreadCalculation}
use hedge_desk.BackOffice.Compliance.{is_pass}
use hedge_desk.Paper.Plan.{
  PaperTradePlan, HumanAuthorization, HumanAuthorizationStatus, pending, approved, rejected,
  is_pending, is_approved, is_machine_pass, assert_plan_integrity,
}

pub record PaperOpen : Type 0 where
  pub plan_id : String
  pub plan_hash : String
  pub spread_id : String
  pub opened_at : Moment
  pub entry_credit : Number
  pub quantity : ℕ
  pub environment : String

approval_checks : PaperTradePlan → Moment → List (Bool × Error)
approval_checks p decided =
    (
      not (is_machine_pass p.machine_risk_status),
      permission_error "human cannot override a machine risk rejection",
    )
    ∷ (
      not (is_pass p.compliance_decision.status),
      permission_error "human cannot override a Back Office compliance block",
    )
    ∷ (
      earlier p.approval_expires_at decided,
      permission_error "paper-trade approval window has expired",
    )
    ∷ (
      not (is_pending p.authorization.status),
      permission_error "plan has already received a human decision",
    )
    ∷ []

-- replace(plan, authorization=...)
unfoldable pub authorized :
    HumanAuthorizationStatus → PaperTradePlan → String → Moment → List String → PaperTradePlan
authorized status p human decided codes = record p {
  authorization = record {
    status = status;
    human_id = some human;
    decided_at = some decided;
    plan_hash = some p.plan_hash;
    reason_codes = codes;
  };
}

human_checks : String → List (Bool × Error)
human_checks human = (is_only_space human, value_error "human identity is required") ∷ []

unfoldable pub approve_paper_trade :
    Digest → PaperTradePlan → String → DateTime → Result PaperTradePlan
unfolding assert_plan_integrity checks aware_or approval_checks authorized human_checks
approve_paper_trade digest p human decided_at = do
  assert_plan_integrity digest p
  checks (human_checks human)
  decided ← aware_or decided_at (value_error "authorization timestamp must be timezone-aware")
  checks (approval_checks p decided)
  ok (authorized approved p human decided [])

rejection_checks : PaperTradePlan → Moment → List String → List (Bool × Error)
rejection_checks p decided codes =
    (
      earlier p.approval_expires_at decided,
      permission_error "paper-trade rejection window has expired",
    )
    ∷ (
      not (is_pending p.authorization.status),
      permission_error "plan has already received a human decision",
    )
    ∷ (
      is_empty codes || any is_only_space codes,
      value_error "rejection requires at least one reason code",
    )
    ∷ []

unfoldable pub reject_paper_trade :
    Digest → PaperTradePlan → String → DateTime → List String → Result PaperTradePlan
unfolding assert_plan_integrity checks aware_or rejection_checks authorized human_checks
    is_only_space
reject_paper_trade digest p human decided_at codes = do
  assert_plan_integrity digest p
  checks (human_checks human)
  decided ← aware_or decided_at (value_error "authorization timestamp must be timezone-aware")
  checks (rejection_checks p decided codes)
  ok (authorized rejected p human decided codes)

-- authorization.plan_hash == hash
abbrev pub is_bound : Option String → String → Bool
is_bound none hash = false
is_bound (some h) hash = str_eq h hash

-- max(plan.spread.quote_timestamps), as UTC
abbrev pub latest_quote : PaperTradePlan → ℕ
latest_quote p = max p.spread.short_quoted_at.utc p.spread.long_quoted_at.utc

open_checks : PaperTradePlan → Moment → List (Bool × Error)
open_checks p opened =
    (
      not (is_approved p.authorization.status),
      permission_error "paper execution requires human authorization",
    )
    ∷ (
      not (is_pass p.compliance_decision.status),
      permission_error "paper execution requires Back Office compliance pass",
    )
    ∷ (
      not (is_bound p.authorization.plan_hash p.plan_hash),
      permission_error "authorization is not bound to this plan",
    )
    ∷ (
      earlier p.approval_expires_at opened,
      permission_error "paper execution approval has expired",
    )
    ∷ (
      ltb opened.utc (latest_quote p),
      permission_error "paper execution cannot precede its quotes",
    )
    ∷ (
      ltb (latest_quote p + p.execution_quote_max_age_seconds * 1000000) opened.utc,
      permission_error "paper execution quotes are stale",
    )
    ∷ []

opening : PaperTradePlan → Moment → PaperOpen
opening p opened = record {
  plan_id = p.plan_id;
  plan_hash = p.plan_hash;
  spread_id = p.spread.spread_id;
  opened_at = opened;
  entry_credit = p.spread.net_credit;
  quantity = p.spread.quantity;
  environment = "paper";
}

unfoldable pub execute_paper_open : Digest → PaperTradePlan → DateTime → Result PaperOpen
unfolding assert_plan_integrity checks aware_or open_checks opening
execute_paper_open digest p opened_at = do
  assert_plan_integrity digest p
  opened ← aware_or opened_at (value_error "paper-open timestamp must be timezone-aware")
  checks (open_checks p opened)
  ok (opening p opened)

pub record PaperFillCheck : Type 0 where
  pub ready : Bool
  pub reason_codes : List String
  pub available_combo_size : ℤ
  pub current_net_credit : Decimal
  pub checked_at : Moment

-- The last two are an if and its elif, and an age that is not over the limit gives no code.
fill_flags : PaperTradePlan → ℤ → Bool → Moment → Bool → List (Bool × String)
unfolding ◌-ℤ◌
fill_flags p size below checked adjustment =
    let early = ltb checked.utc (latest_quote p) in
    (not (is_approved p.authorization.status), "HUMAN_AUTHORIZATION_REQUIRED")
    ∷ (not (is_machine_pass p.machine_risk_status), "RISK_PASS_REQUIRED")
    ∷ (not (is_pass p.compliance_decision.status), "BACK_OFFICE_PASS_REQUIRED")
    ∷ (is_negative (size -ℤ pos p.spread.quantity), "INSUFFICIENT_COMBO_SIZE")
    ∷ (below, "APPROVED_CREDIT_NOT_AVAILABLE")
    ∷ (adjustment, "CONTRACT_ADJUSTMENT_PENDING")
    ∷ (early, "CHECK_PRECEDES_QUOTE")
    ∷ (
      not early && ltb (latest_quote p + p.execution_quote_max_age_seconds * 1000000) checked.utc,
      "STALE_QUOTE",
    )
    ∷ []

unfoldable pub evaluate_paper_fill :
    Digest → PaperTradePlan → ℤ → Decimal → DateTime → Bool → Result PaperFillCheck
unfolding decimal_lt assert_plan_integrity aware_or fill_flags flags canonical
evaluate_paper_fill digest p size credit checked_at adjustment = do
  assert_plan_integrity digest p
  checked ← aware_or checked_at (value_error "fill-check timestamp must be timezone-aware")
  below ← decimal_lt credit p.spread.net_credit
  let reasons = canonical (flags (fill_flags p size below checked adjustment))
  ok (record {
    ready = is_empty reasons;
    reason_codes = reasons;
    available_combo_size = size;
    current_net_credit = credit;
    checked_at = checked;
  })
