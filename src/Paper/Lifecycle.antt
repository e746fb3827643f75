-- ===== src/Paper/Lifecycle.antt =====
-- paper/workflow.py: the operational action on an open position.
pub mod Urgency
use hedge_desk.Prelude.{
  ℕ, String, Bool, true, false, not, ◌||◌, ◌&&◌, List, [], ◌∷◌, leb, Error, value_error, Result, ok,
  err, ◌>>=◌, ◌>>◌, canonical, flags, if◌then◌else◌, is_empty,
}
use hedge_desk.Time.{Moment, DateTime, aware, aware_or, date}
use hedge_desk.Digest.{Digest}
use hedge_desk.Paper.Plan.{PaperTradePlan, assert_plan_integrity}

pub record PaperLifecycleCheck : Type 0 where
  pub action : String
  pub reason_codes : List String
  pub checked_at : Moment

-- `tuple(sorted(blocking))`: the two codes stand in their order.
blocking : Bool → Bool → List String
unfolding flags
blocking adjustment settled = flags (
    (adjustment, "CONTRACT_ADJUSTMENT_PENDING")
    ∷ (not settled, "SETTLEMENT_TERMS_UNCONFIRMED")
    ∷ [])

lifecycle_action : Bool → Bool → Bool → Bool → Bool → Bool → Bool → Moment → PaperLifecycleCheck
unfolding blocking canonical
lifecycle_action planned_exit expired in_the_money ex_dividend notice adjustment settled now =
    let check : String → List String → PaperLifecycleCheck =
      λ action codes. record { action = action; reason_codes = codes; checked_at = now } in
    if not (is_empty (blocking adjustment settled))
    then check "BLOCK_AND_ESCALATE" (canonical (blocking adjustment settled))
    else if notice
    then check "ASSIGNMENT_RECONCILIATION_REQUIRED" ("ASSIGNMENT_NOTICE_RECEIVED" ∷ [])
    else if expired
    then check "EXPIRATION_RECONCILIATION_REQUIRED" ("EXPIRATION_REACHED" ∷ [])
    else if in_the_money && ex_dividend
    then check "CLOSE_REVIEW_REQUIRED" ("EARLY_ASSIGNMENT_RISK" ∷ [])
    else if planned_exit
    then check "CLOSE_REVIEW_REQUIRED" ("PLANNED_EXIT_REACHED" ∷ [])
    else check "MONITOR" []

unfoldable pub evaluate_paper_lifecycle :
    DateTime → Bool → Bool → Bool → Bool → Bool → Bool → Bool → Result PaperLifecycleCheck
unfolding aware_or lifecycle_action
evaluate_paper_lifecycle checked_at planned_exit expired in_the_money ex_dividend notice adjustment
      settled =
    do
      now ← aware_or checked_at (value_error "lifecycle timestamp must be timezone-aware")
      ok (
          lifecycle_action planned_exit expired in_the_money ex_dividend notice adjustment settled
            now)

unfoldable pub evaluate_plan_lifecycle :
    Digest
    → PaperTradePlan
    → DateTime
    → Bool
    → Bool
    → Bool
    → Bool
    → Bool
    → Result PaperLifecycleCheck
unfolding assert_plan_integrity aware_or evaluate_paper_lifecycle
evaluate_plan_lifecycle digest p checked_at in_the_money ex_dividend notice adjustment settled = do
  assert_plan_integrity digest p
  now ← aware_or checked_at (value_error "lifecycle timestamp must be timezone-aware")
  evaluate_paper_lifecycle (aware now) (leb p.spread.planned_exit_date (date now))
      (leb p.spread.expiration_date (date now)) in_the_money ex_dividend notice adjustment settled
