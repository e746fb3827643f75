-- ===== src/Paper/Runner/Forward.antt =====
-- How one step of the runner moves the entry of a plan.
use hedge_desk.Prelude.{
  ◌≡◌, inl, inr, refl, ap, subst, false, Option, none, some, Result, ok, err, >>=-eq-ok,
  ok-injective, str_eq, eq_iff, Bool-cases, has,
}
use hedge_desk.Time.{Moment, DateTime, aware, earlier}
use hedge_desk.Digest.{Digest}
use hedge_desk.Options.Exit.{default_exit_policy}
use hedge_desk.Paper.Plan.{PaperTradePlan}
use hedge_desk.Paper.Authorize.{PaperOpen, PaperFillCheck, execute_paper_open, evaluate_paper_fill}
use hedge_desk.Paper.Lifecycle.{evaluate_plan_lifecycle, PaperLifecycleCheck}
use hedge_desk.Paper.Close.{PaperClose, close_paper_trade}
use hedge_desk.Paper.Runner.{Entry, status_pending_open, status_open, status_closed}
use hedge_desk.Paper.Runner.Tick.{
  Providers, Quotes, provider_failed, no_credit, wrong_type, quoted, Note, opened_or_refused,
  open_if_ready, tick_quotes, tick_pending_open, record_check, check_lifecycle, tick_opened,
  tick_open, with_note, tick_entry, inputs_or_failed, is_refusal, escalation_actions,
}
use hedge_desk.Paper.Runner.Close.{CloseRequest}

-- An entry only ever opens, by an open of a plan with its hash, or closes, by a close of what it opened;
-- whatever else happens leaves its status and its records.
pub data Progress (digest : Digest) (e e' : Entry) : Type 0 where
  stays :
      e'.status ≡ e.status
      → e'.open_record ≡ e.open_record
      → e'.close_record ≡ e.close_record
      → Progress digest e e'
  opens :
      (plan : PaperTradePlan) (now : Moment) (o : PaperOpen)
      → e.status ≡ status_pending_open
      → e.plan_hash ≡ plan.plan_hash
      → execute_paper_open digest plan (aware now) ≡ ok o
      → e'.status ≡ status_open
      → e'.open_record ≡ some o
      → e'.close_record ≡ e.close_record
      → Progress digest e e'
  closes :
      (plan : PaperTradePlan) (o : PaperOpen) (r : CloseRequest) (t : DateTime) (c : PaperClose)
      → e.status ≡ status_open
      → e.open_record ≡ some o
      → close_paper_trade digest o plan r.short_quote r.long_quote r.exit_commission_per_contract t
          false default_exit_policy
        ≡ ok c
      → e'.status ≡ status_closed
      → e'.open_record ≡ e.open_record
      → e'.close_record ≡ some c
      → Progress digest e e'

module _ (digest : Digest) (plan : PaperTradePlan) (e : Entry) (now : Moment) where
  opened_step :
      (x : Result PaperOpen) (r : Entry × Note)
      → e.status ≡ status_pending_open
      → e.plan_hash ≡ plan.plan_hash
      → execute_paper_open digest plan (aware now) ≡ x
      → opened_or_refused e x ≡ ok r
      → Progress digest e r.0
  unfolding opened_or_refused
  opened_step (ok o) r p q x h =
      subst (λ (y : Entry × Note). Progress digest e y.0) (ok-injective _ r h)
        (opens plan now o p q x refl refl refl)
  opened_step (err error) r p q x h = elim (Bool-cases (is_refusal error)) [
    | inl refused ↦
        subst (λ (y : Entry × Note). Progress digest e y.0) (ok-injective _ r (rw refused at h))
          (stays refl refl refl)
    | inr raised ↦ absurd (cc (rw raised at h))
  ]

  -- A step that gives the entry back.
  unchanged :
      (n : Note) (r : Entry × Note)
      → ◌≡◌ {A = Result (Entry × Note)} (ok (e, n)) (ok r)
      → Progress digest e r.0
  unchanged n r h =
      subst (λ (y : Entry × Note). Progress digest e y.0) (ok-injective _ r h)
        (stays refl refl refl)

  ready_step :
      (fill : PaperFillCheck) (r : Entry × Note)
      → e.status ≡ status_pending_open
      → e.plan_hash ≡ plan.plan_hash
      → open_if_ready digest plan e now fill ≡ ok r
      → Progress digest e r.0
  unfolding open_if_ready
  ready_step fill r p q h = elim (Bool-cases fill.ready) [
    | inl ready ↦
        opened_step (execute_paper_open digest plan (aware now)) r p q refl (rw ready at h)
    | inr unready ↦ unchanged _ r (rw unready at h)
  ]

  quotes_step :
      (given : Quotes) (r : Entry × Note)
      → e.status ≡ status_pending_open
      → e.plan_hash ≡ plan.plan_hash
      → tick_quotes digest plan e now given ≡ ok r
      → Progress digest e r.0
  unfolding tick_quotes
  quotes_step provider_failed r p q h = unchanged _ r h
  quotes_step no_credit r p q h = unchanged _ r h
  quotes_step wrong_type r p q h = unchanged _ r h
  quotes_step (quoted size credit) r p q h =
      let (fill, _, h₁) =
        >>=-eq-ok (evaluate_paper_fill digest plan size credit (aware now) false) _ h in
      ready_step fill r p q h₁

  pending_step :
      (providers : Providers) (r : Entry × Note)
      → e.status ≡ status_pending_open
      → e.plan_hash ≡ plan.plan_hash
      → tick_pending_open digest providers plan e now ≡ ok r
      → Progress digest e r.0
  unfolding tick_pending_open
  pending_step providers r p q h = elim (Bool-cases (earlier plan.approval_expires_at now)) [
    | inl expired ↦ unchanged _ r (rw expired at h)
    | inr timely ↦ quotes_step (providers.quotes plan) r p q (rw timely at h)
  ]

  check_step : (check : PaperLifecycleCheck) → Progress digest e (record_check e check).0
  unfolding record_check
  check_step check = elim (Bool-cases (str_eq check.action "MONITOR")) [
    | inl quiet ↦ rw quiet (stays refl refl refl)
    | inr loud ↦ elim (Bool-cases (has check.action escalation_actions)) [
      | inl known ↦ rw (loud, known) (stays refl refl refl)
      | inr unknown ↦ rw (loud, unknown) (stays refl refl refl)
    ]
  ]

  open_step :
      (providers : Providers) (o : Option PaperOpen) (r : Entry × Note)
      → tick_opened digest providers plan e now o ≡ ok r
      → Progress digest e r.0
  unfolding tick_opened check_lifecycle
  open_step providers none r h =
      subst (λ (y : Entry × Note). Progress digest e y.0) (ok-injective _ r h)
        (stays refl refl refl)
  open_step providers (some o) r h = elim (Bool-cases (str_eq o.plan_hash plan.plan_hash)) [
    | inr other ↦
        subst (λ (y : Entry × Note). Progress digest e y.0) (ok-injective _ r (rw other at h))
          (stays refl refl refl)
    | inl own ↦
        let i = inputs_or_failed (providers.lifecycle plan) in
        let (check, _, h₁) =
          >>=-eq-ok
            (evaluate_plan_lifecycle digest plan (aware now) i.short_leg_in_the_money
              i.ex_dividend_before_expiration i.assignment_notice_received
              i.contract_adjustment_pending i.settlement_terms_confirmed)
            _ (rw own at h) in
        subst (λ (y : Entry × Note). Progress digest e y.0) (ok-injective _ r h₁) (check_step check)
  ]

  with_note_step :
      (x : Result (Entry × Note)) (r : Entry × Option Note)
      → with_note x ≡ ok r
      → (n : Note) × (x ≡ ok (r.0, n))
  with_note_step (ok (e', n)) r h =
      (n, ap (λ (y : Entry × Option Note). ok (y.0, n)) (ok-injective (e', some n) r h))
  with_note_step (err error) r h = cc

  -- A tick of an approved plan only ever opens the entry.
  pub tick_entry-Progress :
      (providers : Providers) (r : Entry × Option Note)
      → tick_entry digest providers plan e now ≡ ok r
      → Progress digest e r.0
  unfolding tick_entry tick_open
  tick_entry-Progress providers r h = elim (Bool-cases (str_eq e.plan_hash plan.plan_hash)) [
    | inr other ↦
        subst (λ (y : Entry × Option Note). Progress digest e y.0)
          (ok-injective _ r (rw other at h)) (stays refl refl refl)
    | inl own ↦ elim (Bool-cases (str_eq e.status status_pending_open)) [
      | inl waiting ↦
          let (n, k) = with_note_step _ r (rw (own, waiting) at h) in
          pending_step providers (r.0, n) ((eq_iff e.status status_pending_open).0 waiting)
            ((eq_iff e.plan_hash plan.plan_hash).0 own) k
      | inr begun ↦ elim (Bool-cases (str_eq e.status status_open)) [
        | inl opened ↦
            let (n, k) = with_note_step _ r (rw (own, begun, opened) at h) in
            open_step providers e.open_record (r.0, n) k
        | inr over ↦ elim (Bool-cases (str_eq e.status status_closed)) [
          | inl closed ↦
              subst (λ (y : Entry × Option Note). Progress digest e y.0)
                (ok-injective _ r (rw (own, begun, over, closed) at h)) (stays refl refl refl)
          | inr unknown ↦
              subst (λ (y : Entry × Option Note). Progress digest e y.0)
                (ok-injective _ r (rw (own, begun, over, unknown) at h)) (stays refl refl refl)
        ]
      ]
    ]
  ]
