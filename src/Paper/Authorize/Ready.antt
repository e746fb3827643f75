-- ===== src/Paper/Authorize/Ready.antt =====
-- An approved plan whose terms are still executable does open.
use hedge_desk.Prelude.{
  ◌≤◌, ◌≡◌, refl, some, true, false, ok, arith, NoneHolds, checks_pass, eq_iff, canonical, flags,
  is_empty, String, Bool, List, [], ◌∷◌, all, Error, value_error, permission_error, type_error,
  arithmetic_error, err, checks, ◌⊎◌, inl, inr,
}
use hedge_desk.Decimal.{ℤ, Decimal, decimal_lt}
use hedge_desk.Time.{Moment, aware}
use hedge_desk.Digest.{Digest}
use hedge_desk.Paper.Plan.{PaperTradePlan, plan_payload, assert_plan_integrity, calculate_plan_hash}
use hedge_desk.Paper.Authorize.{
  PaperOpen, PaperFillCheck, execute_paper_open, evaluate_paper_fill, open_checks, opening,
  fill_flags,
}
use hedge_desk.Paper.Authorize.Fill.{Fillable, fill_ready_exact}

-- The plan is the one that was approved, and its approval has not expired.
pub record Openable (digest : Digest) (p : PaperTradePlan) (m : Moment) : Type 0 where
  pub intact : digest (plan_payload p) ≡ p.plan_hash
  pub bound : p.authorization.plan_hash ≡ some p.plan_hash
  pub unexpired : m.utc ≤ p.approval_expires_at.utc

is_permission : Error → Bool
is_permission (permission_error m) = true
is_permission (value_error m) = false
is_permission type_error = false
is_permission arithmetic_error = false

checks_end :
    (cs : List (Bool × Error))
    → all (λ c. is_permission c.1) cs ≡ true
    → (checks cs ≡ ok tt) ⊎ ((m : String) × (checks cs ≡ err (permission_error m)))
unfolding checks is_permission
checks_end [] h = inl refl
checks_end ((true, permission_error m) ∷ cs) h = inr (m, refl)
checks_end ((true, value_error m) ∷ cs) h = cc
checks_end ((true, type_error) ∷ cs) h = cc
checks_end ((true, arithmetic_error) ∷ cs) h = cc
checks_end ((false, error) ∷ cs) h = checks_end cs (ground (arith, h))

-- The open of an intact plan returns, or refuses with a PermissionError.
pub open_ends :
    (digest : Digest) (p : PaperTradePlan) (m : Moment)
    → digest (plan_payload p) ≡ p.plan_hash
    → ((o : PaperOpen) × (execute_paper_open digest p (aware m) ≡ ok o))
      ⊎ ((why : String) × (execute_paper_open digest p (aware m) ≡ err (permission_error why)))
unfolding execute_paper_open assert_plan_integrity calculate_plan_hash open_checks is_permission
open_ends digest p m intact =
    let same = (eq_iff (digest (plan_payload p)) p.plan_hash).1 intact in
    elim (checks_end (open_checks p m) refl) [
      | inl clear ↦ inl (opening p m, rw (same, clear) refl)
      | inr (why, refused) ↦ inr (why, rw (same, refused) refl)
    ]

module _ (digest : Digest) (p : PaperTradePlan) (size : ℤ) (credit : Decimal) (m : Moment) where
  integrity_returns : Openable digest p m → assert_plan_integrity digest p ≡ ok tt
  unfolding assert_plan_integrity calculate_plan_hash
  integrity_returns k = rw ((eq_iff (digest (plan_payload p)) p.plan_hash).1 k.intact) refl

  open_clear : Openable digest p m → Fillable p size credit m false → NoneHolds (open_checks p m)
  unfolding open_checks
  open_clear k f = (
    rw f.human refl,
    (
      rw f.compliance refl,
      (
        rw (k.bound, (eq_iff p.plan_hash p.plan_hash).1 refl) refl,
        (
          ground (arith, k.unexpired),
          (ground (arith, f.after_quotes), (ground (arith, f.quotes_fresh), tt)),
        ),
      ),
    ),
  )

  pub open_returns :
      Openable digest p m
      → Fillable p size credit m false
      → (o : PaperOpen) × (execute_paper_open digest p (aware m) ≡ ok o)
  unfolding execute_paper_open opening
  open_returns k f =
      (opening p m, rw (integrity_returns k, checks_pass (open_checks p m) (open_clear k f)) refl)

  checked :
      Openable digest p m
      → decimal_lt credit p.spread.net_credit ≡ ok false
      → (c : PaperFillCheck) × (evaluate_paper_fill digest p size credit (aware m) false ≡ ok c)
  unfolding evaluate_paper_fill
  checked k kept =
      let reasons = canonical (flags (fill_flags p size false m false)) in
      (
        record {
          ready = is_empty reasons;
          reason_codes = reasons;
          available_combo_size = size;
          current_net_credit = credit;
          checked_at = m;
        },
        rw (integrity_returns k, kept) refl,
      )

  pub fill_returns :
      Openable digest p m
      → Fillable p size credit m false
      → (c : PaperFillCheck) × (evaluate_paper_fill digest p size credit (aware m) false ≡ ok c)
        × (c.ready ≡ true)
  fill_returns k f =
      let (c, e) = checked k f.credit_kept in
      (c, e, (fill_ready_exact digest p size credit m false c e).1 f)
