-- ===== src/Scheduler/Run/Kept.antt =====
-- Which runs leave a valid journal, and what an invalid receipt does to it.
use mathlib.Core.List.{append-nil, append_assoc}
use hedge_desk.Prelude.{
  ◌≡◌, ◌↔◌, refl, sym, ap, ◌∙◌, subst, inl, inr, String, Bool, true, false, not, ◌||◌, Option, some,
  none, List, [], ◌∷◌, ◌++◌, any, Bool-cases, NoneHolds, ok, arith, eq_refl, str_eq, is_blank,
  is_empty_iff, any-append, canonical, is_canonical-canonical, canonical-canonical, reasons-nil,
  flags, valid_sha256, if◌then◌else◌, ◌&&◌, checks, value_error, ◌>>=◌, ◌>>◌,
}
use hedge_desk.Time.{Moment, DateTime, naive, aware, aware_or}
use hedge_desk.Digest.{Digest, Field}
use hedge_desk.Scheduler.{
  ScheduledRunRequest, ScheduledRunReceipt, failed_closed, is_text, bad_recovery, is_naive,
  make_receipt, blank_receipt, receipt_payload, receipt_flags, validate_scheduled_run_receipt,
}
use hedge_desk.Scheduler.Run.{
  Reporting, is_invalid, receipt, failed, receipt_by, is_run_of, blocks_recovery,
  execute_scheduled_run, run_all, or_kept,
}
use hedge_desk.Scheduler.Run.Once.{
  execute_appends, Made, completed, stopped, receipt-Made, Made-recovery,
}

not-eq-false : (b : Bool) → not b ≡ false → b ≡ true
not-eq-false true h = refl
not-eq-false false h = cc

recovery_fits :
    (source : Option String) (key : String)
    → is_text source "" ≡ false
    → is_text source key ≡ false
    → bad_recovery source key ≡ false
recovery_fits none key h k = refl
recovery_fits (some s) key h k = ground (arith, h, k)

no_invalid : (a b : Bool) → a ≡ false → b ≡ false → (a || (b || false)) ≡ false
no_invalid a b h k = ground (arith, h, k)

-- The requests that a run does not raise at: with a key and a zone, and not their own recovery.
unfoldable pub is_accepted : ScheduledRunRequest → Bool
is_accepted r =
    not (is_blank r.idempotency_key)
    && not (is_naive r.scheduled_for)
    && not (is_text r.recovery_of r.idempotency_key)

-- The receipt that a request gets on a journal with an invalid receipt, and those of a sequence.
unfoldable pub refusal : Digest → ScheduledRunRequest → ScheduledRunReceipt
refusal digest r = make_receipt digest r failed_closed ("PRIOR_RECEIPT_INVALID" ∷ []) none

unfoldable pub refusals : Digest → List ScheduledRunRequest → List ScheduledRunReceipt
refusals digest [] = []
refusals digest (r ∷ later) =
    if is_accepted r then refusal digest r ∷ refusals digest later else refusals digest later

module _ {Report : Type 0} (digest : Digest) (reporting : Reporting Report) where
  valid_iff :
      (r : ScheduledRunReceipt) → (is_invalid digest r ≡ false) ↔ NoneHolds (receipt_flags digest r)
  unfolding validate_scheduled_run_receipt
  valid_iff r =
      let empty = is_empty_iff (canonical (flags (receipt_flags digest r))) in
      let nil = reasons-nil (receipt_flags digest r) in
      ((λ h. nil.0 (empty.0 (not-eq-false _ h))), (λ h. ap not (empty.1 (nil.1 h))))

  recovery_named :
      (r : ScheduledRunReceipt)
      → NoneHolds (receipt_flags digest r)
      → bad_recovery r.recovery_of r.idempotency_key ≡ false
  unfolding receipt_flags
  recovery_named r h = h.1.1.0

  empty_recovery_invalid :
      (r : ScheduledRunReceipt) → r.recovery_of ≡ some "" → is_invalid digest r ≡ true
  empty_recovery_invalid r e = elim (Bool-cases (is_invalid digest r)) [
    | inl h ↦ h
    | inr h ↦
        let named = recovery_named r ((valid_iff r).0 h) in
        cc (subst (λ w. bad_recovery w r.idempotency_key ≡ false) e named)
  ]

  -- An invalid receipt in the journal makes the receipt of any request a failed one.
  invalid_fails :
      (request : ScheduledRunRequest) (priors : List ScheduledRunReceipt)
      → any (is_invalid digest) priors ≡ true
      → receipt digest reporting request priors ≡ refusal digest request
  unfolding receipt receipt_by failed refusal
  invalid_fails request priors bad =
      ap
        (λ b.
          receipt_by digest reporting request b (any (is_run_of request.idempotency_key) priors)
            (blocks_recovery request priors) (not (str_eq request.environment "paper")))
        bad

  run_kept :
      (request : ScheduledRunRequest) (journal : List ScheduledRunReceipt)
      → or_kept digest reporting journal (execute_scheduled_run digest reporting request journal)
        ≡ (if is_accepted request
            then journal ++ receipt digest reporting request journal ∷ []
            else journal)
  unfolding execute_scheduled_run or_kept is_accepted checks aware_or
  run_kept request journal =
      by_tests (is_blank request.idempotency_key) request.scheduled_for
        (is_text request.recovery_of request.idempotency_key)
        (journal ++ receipt digest reporting request journal ∷ [])
    where
      by_tests :
          (blank : Bool) (t : DateTime) (own : Bool) (next : List ScheduledRunReceipt)
          → or_kept digest reporting journal (do
            checks ((blank, value_error "scheduled run idempotency key is required") ∷ [])
            _ ← aware_or t (value_error "scheduled run timestamp must be timezone-aware")
            checks ((own, value_error "a recovery run requires a distinct idempotency key") ∷ [])
            ok next)
            ≡ (if not blank && not (is_naive t) && not own then next else journal)
      by_tests true t own next = refl
      by_tests false (aware m) true next = refl
      by_tests false (aware m) false next = refl
      by_tests false (naive u) own next = refl

  invalid_stays :
      (later : List ScheduledRunRequest) (journal : List ScheduledRunReceipt)
      → any (is_invalid digest) journal ≡ true
      → run_all digest reporting later journal ≡ journal ++ refusals digest later
  unfolding run_all refusals
  invalid_stays [] journal bad = sym (append-nil journal)
  invalid_stays (request ∷ later) journal bad = elim (Bool-cases (is_accepted request)) [
    | inl taken ↦
        let fails = invalid_fails request journal bad in
        let grown = any-append (is_invalid digest) journal (refusal digest request ∷ []) in
        rw (run_kept request journal, taken, fails)
          (invalid_stays later (journal ++ refusal digest request ∷ []) (ground (arith, grown, bad))
            ∙ append_assoc journal (refusal digest request ∷ []) (refusals digest later))
    | inr other ↦ rw (run_kept request journal, other) (invalid_stays later journal bad)
  ]

  -- A run whose request names the empty text as the run to recover leaves a journal on which no later
  -- run goes through, whatever is requested and however often: a request with a key and a zone that is
  -- not its own recovery appends a receipt that fails closed for an invalid prior receipt, and any other
  -- request leaves the journal.
  pub empty_recovery_poisons :
      (request : ScheduledRunRequest) (priors journal : List ScheduledRunReceipt)
      (later : List ScheduledRunRequest)
      → request.recovery_of ≡ some ""
      → execute_scheduled_run digest reporting request priors ≡ ok journal
      → run_all digest reporting later journal ≡ journal ++ refusals digest later
  empty_recovery_poisons request priors journal later e h =
      let x = receipt digest reporting request priors in
      let bad = empty_recovery_invalid x (
        Made-recovery digest reporting request x (receipt-Made digest reporting request priors)
        ∙ e) in
      let grown = execute_appends digest reporting request priors journal h in
      invalid_stays later journal (
        subst (λ j. any (is_invalid digest) j ≡ true) grown.3
          (any-append (is_invalid digest) priors (x ∷ []) ∙ ground (arith, bad)))

  module _ (hashes : (fs : List Field) → valid_sha256 (digest fs) ≡ true)
      (reports : (report : Report) (h : String)
        → reporting.report_sha256 report ≡ some h
        → valid_sha256 h ≡ true) where
    Made-clear :
        (request : ScheduledRunRequest) (m : Moment) (x : ScheduledRunReceipt)
        → is_blank request.idempotency_key ≡ false
        → request.scheduled_for ≡ aware m
        → bad_recovery request.recovery_of request.idempotency_key ≡ false
        → Made digest reporting request x
        → NoneHolds (receipt_flags digest x)
    unfolding receipt_flags make_receipt blank_receipt receipt_payload
    Made-clear request m _ named dated recovery (completed report h e) = (
      named,
      (
        ap is_naive dated,
        (
          recovery,
          (
            ap not (hashes _),
            (refl, (refl, (ap not (eq_refl _), (ap not (reports report h e), (refl, tt))))),
          ),
        ),
      ),
    )
    Made-clear request m _ named dated recovery (stopped status codes e) = (
      named,
      (
        ap is_naive dated,
        (
          recovery,
          (
            ap not (hashes _),
            (
              refl,
              (
                ap not (is_canonical-canonical codes),
                (rw (canonical-canonical codes) (ap not (eq_refl _)), (rw e refl, (rw e refl, tt))),
              ),
            ),
          ),
        ),
      ),
    )

    -- Where the digest yields hashes and the builder's reports have them, a run on a valid journal
    -- whose request does not name the empty text as the run to recover leaves a valid journal.
    pub execute_keeps_valid :
        (request : ScheduledRunRequest) (priors next : List ScheduledRunReceipt)
        → any (is_invalid digest) priors ≡ false
        → is_text request.recovery_of "" ≡ false
        → execute_scheduled_run digest reporting request priors ≡ ok next
        → any (is_invalid digest) next ≡ false
    execute_keeps_valid request priors next valid named h =
        let (key, (m, dated), distinct, grown) =
          execute_appends digest reporting request priors next h in
        let x = receipt digest reporting request priors in
        let clear =
          Made-clear request m x key dated
            (recovery_fits request.recovery_of request.idempotency_key named distinct)
            (receipt-Made digest reporting request priors) in
        subst (λ j. any (is_invalid digest) j ≡ false) grown
          (any-append (is_invalid digest) priors (x ∷ [])
            ∙ no_invalid _ _ valid ((valid_iff x).1 clear))
