-- ===== src/Scheduler/Run/Once.antt =====
-- A key completes at most once, and a journal only grows.
use hedge_desk.Prelude.{
  ◌≤◌, ◌≡◌, refl, sym, ap, ◌∙◌, subst, inl, inr, String, Bool, true, false, not, ◌&&◌, Option, some,
  none, List, [], ◌∷◌, ◌++◌, any, keep, keep-append, length, length-append, Bool-cases, after_bind,
  after_checks, Result, ok, err, ok-injective, arith, eq_iff, str_eq, value_error, ◌>>=◌, is_blank,
}
use hedge_desk.Time.{Moment, aware, aware_or, aware_or-eq-ok}
use hedge_desk.Digest.{Digest}
use hedge_desk.Scheduler.{
  ScheduledRunRequest, ScheduledRunReceipt, ScheduledRunStatus, complete, failed_closed,
  duplicate_suppressed, is_complete, is_text, make_receipt, blank_receipt,
}
use hedge_desk.Scheduler.Run.{
  Reporting, is_run_of, is_invalid, failed, evaluated, or_exception, receipt, execute_scheduled_run,
  run_all, or_kept, hash_or, blocks_recovery, receipt_by,
}

-- A receipt of a completed run of a key.
abbrev pub completes : String → ScheduledRunReceipt → Bool
completes key r = str_eq r.idempotency_key key && is_complete r.status

module _ {Report : Type 0} (digest : Digest) (reporting : Reporting Report) where
  -- How a receipt was made for a request.
  pub data Made (request : ScheduledRunRequest) : ScheduledRunReceipt → Type 0 where
    completed :
        (report : Report) (hash : String)
        → reporting.report_sha256 report ≡ some hash
        → Made request (make_receipt digest request complete [] (some hash))
    stopped :
        (status : ScheduledRunStatus) (codes : List String)
        → is_complete status ≡ false
        → Made request (make_receipt digest request status codes none)

  hashed-Made :
      (request : ScheduledRunRequest) (report : Report) (hash : Option String)
      (x : ScheduledRunReceipt)
      → reporting.report_sha256 report ≡ hash
      → (hash_or hash >>= λ h. ok (make_receipt digest request complete [] (some h))) ≡ ok x
      → Made request x
  unfolding hash_or
  hashed-Made request report none x e h = cc
  hashed-Made request report (some v) x e h =
      subst (Made request) (ok-injective _ x h) (completed report v e)

  evaluated-Made :
      (request : ScheduledRunRequest) (x : ScheduledRunReceipt)
      → evaluated digest reporting request ≡ ok x
      → Made request x
  unfolding evaluated failed
  evaluated-Made request x h =
      after_bind (reporting.builder request.scheduled_for) _ h λ report _ h₁.
        after_bind (reporting.validate_report report) _ h₁ λ publication _ h₂.
          elim (Bool-cases publication.publishable) [
            | inl e ↦
                hashed-Made request report (reporting.report_sha256 report) x refl
                  (ground (arith, h₂, e))
            | inr e ↦
                subst (Made request) (ground (arith, h₂, e))
                  (stopped failed_closed publication.reason_codes refl)
          ]

  or_exception-Made :
      (request : ScheduledRunRequest) (r : Result ScheduledRunReceipt)
      → ((x : ScheduledRunReceipt) → r ≡ ok x → Made request x)
      → Made request (or_exception digest reporting request r)
  unfolding or_exception failed
  or_exception-Made request (ok x) h = h x refl
  or_exception-Made request (err e) h = stopped failed_closed ("EVALUATION_EXCEPTION" ∷ []) refl

  receipt_by-Made :
      (request : ScheduledRunRequest) (invalid duplicate blocked not_paper : Bool)
      → Made request (receipt_by digest reporting request invalid duplicate blocked not_paper)
  unfolding receipt_by failed
  receipt_by-Made request true d b p = stopped failed_closed ("PRIOR_RECEIPT_INVALID" ∷ []) refl
  receipt_by-Made request false true b p =
      stopped duplicate_suppressed ("DUPLICATE_RUN_SUPPRESSED" ∷ []) refl
  receipt_by-Made request false false true p =
      stopped failed_closed ("INVALID_RECOVERY_REQUEST" ∷ []) refl
  receipt_by-Made request false false false true =
      stopped failed_closed ("PAPER_ONLY_VIOLATION" ∷ []) refl
  receipt_by-Made request false false false false =
      or_exception-Made request (evaluated digest reporting request) (evaluated-Made request)

  pub receipt-Made :
      (request : ScheduledRunRequest) (priors : List ScheduledRunReceipt)
      → Made request (receipt digest reporting request priors)
  unfolding receipt
  receipt-Made request priors =
      receipt_by-Made request (any (is_invalid digest) priors)
        (any (is_run_of request.idempotency_key) priors) (blocks_recovery request priors)
        (not (str_eq request.environment "paper"))

  Made-key :
      (request : ScheduledRunRequest) (x : ScheduledRunReceipt)
      → Made request x
      → x.idempotency_key ≡ request.idempotency_key
  unfolding make_receipt blank_receipt
  Made-key request _ (completed r h e) = refl
  Made-key request _ (stopped s c e) = refl

  pub Made-recovery :
      (request : ScheduledRunRequest) (x : ScheduledRunReceipt)
      → Made request x
      → x.recovery_of ≡ request.recovery_of
  unfolding make_receipt blank_receipt
  Made-recovery request _ (completed r h e) = refl
  Made-recovery request _ (stopped s c e) = refl

  receipt_by_complete :
      (request : ScheduledRunRequest) (invalid duplicate blocked not_paper : Bool)
      → is_complete (receipt_by digest reporting request invalid duplicate blocked not_paper).status
        ≡ true
      → (invalid ≡ false) × (duplicate ≡ false) × (blocked ≡ false) × (not_paper ≡ false)
  unfolding receipt_by failed make_receipt blank_receipt
  receipt_by_complete request true d b p h = cc
  receipt_by_complete request false true b p h = cc
  receipt_by_complete request false false true p h = cc
  receipt_by_complete request false false false true h = cc
  receipt_by_complete request false false false false h = (refl, refl, refl, refl)

  -- A run completes only where every earlier receipt is valid, none is a run of the key, the recovery
  -- it names is valid, and it is a paper run.
  complete_needs :
      (request : ScheduledRunRequest) (priors : List ScheduledRunReceipt)
      → is_complete (receipt digest reporting request priors).status ≡ true
      → (any (is_invalid digest) priors ≡ false)
        × (any (is_run_of request.idempotency_key) priors ≡ false)
        × (blocks_recovery request priors ≡ false)
        × (not (str_eq request.environment "paper") ≡ false)
  unfolding receipt
  complete_needs request priors h =
      receipt_by_complete request (any (is_invalid digest) priors)
        (any (is_run_of request.idempotency_key) priors) (blocks_recovery request priors)
        (not (str_eq request.environment "paper")) h

  no_run_no_completion :
      (key : String) (priors : List ScheduledRunReceipt)
      → any (is_run_of key) priors ≡ false
      → keep (completes key) priors ≡ []
  no_run_no_completion key [] h = refl
  no_run_no_completion key (r ∷ rs) h = ground (arith, no_run_no_completion key rs, h)

  -- One more receipt, which a run of the request appends.
  completions_after :
      (request : ScheduledRunRequest) (key : String) (priors : List ScheduledRunReceipt)
      → length (keep (completes key) priors) ≤ 1
      → length (keep (completes key) (priors ++ receipt digest reporting request priors ∷ [])) ≤ 1
  completions_after request key priors h =
      let x = receipt digest reporting request priors in
      let own = Made-key request x (receipt-Made request priors) in
      let split =
        ap length (keep-append (completes key) priors (x ∷ []))
        ∙ length-append (keep (completes key) priors) (keep (completes key) (x ∷ [])) in
      elim (Bool-cases (completes key x)) [
        | inl e ↦
            let same : request.idempotency_key ≡ key =
              sym own ∙ (eq_iff x.idempotency_key key).0 (ground (arith, e)) in
            let nothing = no_run_no_completion key priors (
              subst (λ k. any (is_run_of k) priors ≡ false) same
                (complete_needs request priors (ground (arith, e))).1) in
            ground (arith, split, ap length nothing)
        | inr e ↦ ground (arith, split, e, h)
      ]

  -- A run that returned found a named key, an aware time and a recovery of another key, and appended
  -- one receipt to the journal.
  pub execute_appends :
      (request : ScheduledRunRequest) (priors next : List ScheduledRunReceipt)
      → execute_scheduled_run digest reporting request priors ≡ ok next
      → (is_blank request.idempotency_key ≡ false)
        × ((m : Moment) × (request.scheduled_for ≡ aware m))
        × (is_text request.recovery_of request.idempotency_key ≡ false)
        × (priors ++ receipt digest reporting request priors ∷ [] ≡ next)
  unfolding execute_scheduled_run
  execute_appends request priors next h =
      after_checks
        ((is_blank request.idempotency_key, value_error "scheduled run idempotency key is required")
          ∷ [])
        _ h
        λ named h₁.
          after_bind
            (aware_or request.scheduled_for
              (value_error "scheduled run timestamp must be timezone-aware"))
            _ h₁
            λ m dated h₂.
              after_checks
                ((
                  is_text request.recovery_of request.idempotency_key,
                  value_error "a recovery run requires a distinct idempotency key",
                )
                  ∷ [])
                _ h₂
                λ distinct h₃. (
                  named.0,
                  (m, aware_or-eq-ok request.scheduled_for _ m dated),
                  distinct.0,
                  ok-injective _ next h₃,
                )

  kept_completions :
      (key : String) (priors : List ScheduledRunReceipt) (r : Result (List ScheduledRunReceipt))
      → length (keep (completes key) priors) ≤ 1
      → ((next : List ScheduledRunReceipt) → r ≡ ok next → length (keep (completes key) next) ≤ 1)
      → length (keep (completes key) (or_kept digest reporting priors r)) ≤ 1
  unfolding or_kept
  kept_completions key priors (ok next) h k = k next refl
  kept_completions key priors (err e) h k = h

  runs_completions :
      (requests : List ScheduledRunRequest) (key : String) (journal : List ScheduledRunReceipt)
      → length (keep (completes key) journal) ≤ 1
      → length (keep (completes key) (run_all digest reporting requests journal)) ≤ 1
  unfolding run_all
  runs_completions [] key journal h = h
  runs_completions (request ∷ later) key journal h = runs_completions later key _ (
      kept_completions key journal (execute_scheduled_run digest reporting request journal) h
        (λ next e.
          subst (λ x. length (keep (completes key) x) ≤ 1)
            (execute_appends request journal next e).3 (completions_after request key journal h)))

  -- Whatever runs are requested from an empty journal on, and whatever the report builder does, a
  -- key completes at most once.
  pub complete_at_most_once :
      (requests : List ScheduledRunRequest) (key : String)
      → length (keep (completes key) (run_all digest reporting requests [])) ≤ 1
  complete_at_most_once requests key = runs_completions requests key [] (omega arith)
