-- ===== src/BackOffice/Reconciliation/Reconciled.antt =====
-- When a paper ledger is reconciled.
use hedge_desk.Prelude.{
  ◌≡◌, ◌↔◌, ◌⊎◌, inl, inr, ◌&&◌, Bool-cases, subst₂, refl, sym, ap, ◌∙◌, String, Bool, true, false,
  not, List, [], ◌∷◌, NoneHolds, flags, canonical, reasons-nil, is_blank, ok, ok-injective, arith,
  eq_iff, valid_sha256, checks-bind, >>=-eq-ok,
}
use hedge_desk.Decimal.{ℤ, pos, int_eq, int_eq-eq, Number, Decimal, number, finite_or, number_eq}
use hedge_desk.Time.{aware_or}
use hedge_desk.Digest.{Digest}
use hedge_desk.BackOffice.Compliance.{pass}
use hedge_desk.BackOffice.Reconciliation.{
  Ledgers, PaperReconciliation, position_flags, ledger_flags, reconciliation_status,
  unsealed_reconciliation, seal_reconciliation, count_checks, finite_cash,
  evaluate_paper_reconciliation,
}

-- The two ledgers say the same, and nothing is left open.
pub record Reconciled (l : Ledgers) : Type 0 where
  pub plan_hash : valid_sha256 l.plan_sha256 ≡ true
  pub lifecycle_hash :
      is_blank l.lifecycle_artifact_sha256 ≡ false → valid_sha256 l.lifecycle_artifact_sha256 ≡ true
  pub internal_cash : Number
  pub broker_cash : Number
  pub internal_is : l.internal_cash ≡ number internal_cash
  pub broker_is : l.broker_cash ≡ number broker_cash
  pub cash : number_eq internal_cash broker_cash ≡ true
  pub position_hash : valid_sha256 l.internal_positions_sha256 ≡ true
  pub positions : l.internal_positions_sha256 ≡ l.broker_positions_sha256
  pub no_open_fill : l.unresolved_fill_count ≡ pos 0
  pub no_open_lifecycle : l.unresolved_lifecycle_count ≡ pos 0
  pub paper : l.environment ≡ "paper"

position_iff : (a b : String) → NoneHolds (position_flags a b) ↔ ((valid_sha256 a ≡ true) × (a ≡ b))
unfolding position_flags
position_iff a b = (
  (λ h. (ground (arith, h), ground (arith, h, eq_iff a b))),
  (λ h. rw (sym h.1, h.0) (rw ((eq_iff a a).1 refl) (refl, tt))),
)

pub finite_or-eq-ok : (d : Decimal) (e : _) (n : Number) → finite_or d e ≡ ok n → d ≡ number n
unfolding finite_or
finite_or-eq-ok d e n h = ground (arith, h)

int_zero : (n : ℤ) → n ≡ pos 0 → int_eq n (pos 0) ≡ true
unfolding int_eq
int_zero n h = rw h refl

number_injective : (a b : Number) → number a ≡ number b → a ≡ b
number_injective a b h = cc

lifecycle :
    {blank valid : Bool}
    → (blank ≡ true) ⊎ (blank ≡ false)
    → (blank ≡ false → valid ≡ true)
    → (not blank && not valid) ≡ false
lifecycle (inl e) h = rw e refl
lifecycle (inr e) h = rw (e, h e) refl

module _ (l : Ledgers) (a b : Number) where
  to_reconciled :
      l.internal_cash ≡ number a
      → l.broker_cash ≡ number b
      → NoneHolds (ledger_flags l a b)
      → Reconciled l
  unfolding ledger_flags
  to_reconciled p q h =
      let positions =
        (position_iff l.internal_positions_sha256 l.broker_positions_sha256).0 h.1.1.1.1.1.1 in
      record {
        plan_hash = ground (arith, h.0);
        lifecycle_hash = λ k. ground (arith, h.1.0);
        internal_cash = a;
        broker_cash = b;
        internal_is = p;
        broker_is = q;
        cash = ground (arith, h.1.1.0);
        position_hash = positions.0;
        positions = positions.1;
        no_open_fill = int_eq-eq l.unresolved_fill_count (pos 0) (ground (arith, h.1.1.1.0));
        no_open_lifecycle =
            int_eq-eq l.unresolved_lifecycle_count (pos 0) (ground (arith, h.1.1.1.1.0));
        paper = (eq_iff l.environment "paper").0 (ground (arith, h.1.1.1.1.1.0));
      }

  from_reconciled :
      (k : Reconciled l)
      → l.internal_cash ≡ number a
      → l.broker_cash ≡ number b
      → NoneHolds (ledger_flags l a b)
  unfolding ledger_flags
  from_reconciled k p q =
      let same_a : k.internal_cash ≡ a = number_injective _ _ (sym k.internal_is ∙ p) in
      let same_b : k.broker_cash ≡ b = number_injective _ _ (sym k.broker_is ∙ q) in
      let cash : number_eq a b ≡ true = subst₂ (λ x y. number_eq x y ≡ true) same_a same_b k.cash in
      (
        rw k.plan_hash refl,
        (
          lifecycle (Bool-cases (is_blank l.lifecycle_artifact_sha256)) k.lifecycle_hash,
          (
            rw cash refl,
            (
              rw (int_zero l.unresolved_fill_count k.no_open_fill) refl,
              (
                rw (int_zero l.unresolved_lifecycle_count k.no_open_lifecycle) refl,
                (
                  rw ((eq_iff l.environment "paper").1 k.paper) refl,
                  (position_iff l.internal_positions_sha256 l.broker_positions_sha256).1
                      (k.position_hash, k.positions),
                ),
              ),
            ),
          ),
        ),
      )

status_iff : (codes : List String) → (reconciliation_status codes ≡ pass) ↔ (codes ≡ [])
status_iff [] = ((λ h. refl), (λ h. refl))
status_iff (c ∷ cs) = ((λ h. cc), (λ h. cc))

-- A reconciliation that returned passes exactly where the plan's hash is valid, as is that of a
-- lifecycle artifact if there is one, both ledgers have the same finite cash and the same valid hash of
-- positions, no fill and no lifecycle exception is open, and the environment is paper; in no case is it
-- evidence for a live release.
pub reconciliation_exact :
    (digest : Digest) (l : Ledgers) (r : PaperReconciliation)
    → evaluate_paper_reconciliation digest l ≡ ok r
    → ((r.status ≡ pass) ↔ Reconciled l) × (r.live_release_evidence_eligible ≡ false)
unfolding evaluate_paper_reconciliation seal_reconciliation unsealed_reconciliation
reconciliation_exact digest l r h =
    let (t, zoned, h₁) = >>=-eq-ok (aware_or l.reconciled_at _) _ h in
    let (_, h₂) = checks-bind (count_checks l) _ r h₁ in
    let (a, p, h₃) = >>=-eq-ok (finite_or l.internal_cash finite_cash) _ h₂ in
    let (b, q, h₄) = >>=-eq-ok (finite_or l.broker_cash finite_cash) _ h₃ in
    let same = ok-injective _ r h₄ in
    let internal = finite_or-eq-ok l.internal_cash finite_cash a p in
    let broker = finite_or-eq-ok l.broker_cash finite_cash b q in
    let codes = canonical (flags (ledger_flags l a b)) in
    (
      (
        (λ e. to_reconciled l a b internal broker (
            (reasons-nil (ledger_flags l a b)).0
              ((status_iff codes).0 (ap (λ x. x.status) same ∙ e)))),
        (λ k.
            sym (ap (λ x. x.status) same)
            ∙ (status_iff codes).1
                ((reasons-nil (ledger_flags l a b)).1 (from_reconciled l a b k internal broker))),
      ),
      sym (ap (λ x. x.live_release_evidence_eligible) same),
    )
