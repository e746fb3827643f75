-- ===== src/BackOffice/Reconciliation/Serialized.antt =====
-- A reconciliation that is written out passes the check of what is read back.
use hedge_desk.Prelude.{
  ◌≡◌, refl, sym, subst, String, true, false, [], ◌∷◌, some, ok, ok-injective, arith, eq_refl,
  checks_pass, value_error, checks-bind, >>=-eq-ok, if◌then◌else◌,
}
use hedge_desk.Decimal.{ℤ, Number, number_eq, number, whole, finite_or}
use hedge_desk.Time.{DateTime, aware, aware_or, aware_or-eq-ok}
use hedge_desk.Digest.{Digest}
use hedge_desk.Json.{
  Fields, str, int, dict, field, field_count, json_eq, fields_in, items_eq_refl, of_int, Codec,
  IsCodec,
}
use hedge_desk.BackOffice.Compliance.{status_text}
use hedge_desk.BackOffice.Reconciliation.{
  Ledgers, PaperReconciliation, unsealed_reconciliation, seal_reconciliation, count_checks,
  finite_cash, evaluate_paper_reconciliation, serialize_paper_reconciliation, required_text,
  required_int, required_decimal, required_time, read_ledgers, wrong_version, expected_fields,
  compare_fields, validate_serialized_paper_reconciliation,
}
use hedge_desk.BackOffice.Reconciliation.Reconciled.{finite_or-eq-ok}

-- The arguments that a reconciliation holds.
abbrev ledgers_of : PaperReconciliation → Ledgers
ledgers_of r = record {
  plan_sha256 = r.plan_sha256;
  internal_positions_sha256 = r.internal_positions_sha256;
  broker_positions_sha256 = r.broker_positions_sha256;
  internal_cash = number r.internal_cash;
  broker_cash = number r.broker_cash;
  unresolved_fill_count = r.unresolved_fill_count;
  unresolved_lifecycle_count = r.unresolved_lifecycle_count;
  reconciled_at = aware r.reconciled_at;
  environment = r.environment;
  lifecycle_artifact_sha256 = r.lifecycle_artifact_sha256;
}

ledgers_of-evaluate :
    (digest : Digest) (l : Ledgers) (r : PaperReconciliation)
    → evaluate_paper_reconciliation digest l ≡ ok r
    → ledgers_of r ≡ l
unfolding evaluate_paper_reconciliation seal_reconciliation unsealed_reconciliation
ledgers_of-evaluate digest l r h =
    let (t, zoned, h₁) = >>=-eq-ok (aware_or l.reconciled_at _) _ h in
    let (_, h₂) = checks-bind (count_checks l) _ r h₁ in
    let (a, p, h₃) = >>=-eq-ok (finite_or l.internal_cash finite_cash) _ h₂ in
    let (b, q, h₄) = >>=-eq-ok (finite_or l.broker_cash finite_cash) _ h₃ in
    let same = ok-injective _ r h₄ in
    let time = aware_or-eq-ok l.reconciled_at _ t zoned in
    let internal = finite_or-eq-ok l.internal_cash finite_cash a p in
    let broker = finite_or-eq-ok l.broker_cash finite_cash b q in
    subst (λ x. ledgers_of x ≡ l) same (ground (arith, time, internal, broker))

number_eq_refl : (n : Number) → number_eq n n ≡ true
unfolding number_eq
number_eq_refl n = ground arith

module _ (codec : Codec) where
  same-serialized :
      (r : PaperReconciliation)
      → json_eq
          (dict (serialize_paper_reconciliation codec r))
          (dict (serialize_paper_reconciliation codec r))
        ≡ true
  unfolding json_eq fields_in field field_count serialize_paper_reconciliation
  same-serialized r = rw (
    eq_refl r.plan_sha256,
    eq_refl r.internal_positions_sha256,
    eq_refl r.broker_positions_sha256,
    eq_refl (codec.decimal_text r.internal_cash),
    eq_refl (codec.decimal_text r.broker_cash),
    number_eq_refl (of_int r.unresolved_fill_count),
    number_eq_refl (of_int r.unresolved_lifecycle_count),
    eq_refl (codec.isoformat (aware r.reconciled_at)),
    eq_refl r.lifecycle_artifact_sha256,
    eq_refl r.environment,
    eq_refl (status_text r.status),
    items_eq_refl r.reason_codes,
    eq_refl r.artifact_sha256,
    number_eq_refl (if r.live_release_evidence_eligible then whole 1 else whole 0),
  )

  module _ (law : IsCodec codec) where
    decimal-serialized :
        (key : String) (fields : Fields) (n : Number)
        → field key fields ≡ some (str (codec.decimal_text n))
        → required_decimal codec key fields ≡ ok (number n)
    unfolding required_decimal required_text
    decimal-serialized key fields n h =
        ground (arith, h, law.texts.str_of_str (codec.decimal_text n), law.decimal_round_trip n)

    time-serialized :
        (key : String) (fields : Fields) (t : DateTime)
        → field key fields ≡ some (str (codec.isoformat t))
        → required_time codec key fields ≡ ok t
    unfolding required_time required_text
    time-serialized key fields t h =
        ground (arith, h, law.texts.str_of_str (codec.isoformat t), law.iso_round_trip t)

    text-serialized :
        (key : String) (fields : Fields) (s : String)
        → field key fields ≡ some (str s)
        → required_text codec key fields ≡ ok s
    unfolding required_text
    text-serialized key fields s h = ground (arith, h, law.texts.str_of_str s)

    int-serialized :
        (key : String) (fields : Fields) (n : ℤ)
        → field key fields ≡ some (int n)
        → required_int codec key fields ≡ ok n
    unfolding required_int
    int-serialized key fields n h = ground (arith, h)

    read-serialized :
        (r : PaperReconciliation)
        → read_ledgers codec (serialize_paper_reconciliation codec r) ≡ ok (ledgers_of r)
    unfolding read_ledgers field serialize_paper_reconciliation
    read-serialized r =
        let fields = serialize_paper_reconciliation codec r in
        rw (
          text-serialized "plan_sha256" fields r.plan_sha256 refl,
          text-serialized "internal_positions_sha256" fields r.internal_positions_sha256 refl,
          text-serialized "broker_positions_sha256" fields r.broker_positions_sha256 refl,
          decimal-serialized "internal_cash" fields r.internal_cash refl,
          decimal-serialized "broker_cash" fields r.broker_cash refl,
          int-serialized "unresolved_fill_count" fields r.unresolved_fill_count refl,
          int-serialized "unresolved_lifecycle_count" fields r.unresolved_lifecycle_count refl,
          time-serialized "reconciled_at" fields (aware r.reconciled_at) refl,
          text-serialized "environment" fields r.environment refl,
          text-serialized "lifecycle_artifact_sha256" fields r.lifecycle_artifact_sha256 refl,
        )

    version-serialized :
        (r : PaperReconciliation)
        → wrong_version codec (serialize_paper_reconciliation codec r) ≡ false
    unfolding wrong_version field json_eq serialize_paper_reconciliation
    version-serialized r = refl

    -- A reconciliation that was evaluated and written out passes the validation of what is read back,
    -- where str keeps a text, and the texts of a time and of a finite Decimal read back as they were.
    pub reconciliation_round_trip :
        (digest : Digest) (l : Ledgers) (r : PaperReconciliation)
        → evaluate_paper_reconciliation digest l ≡ ok r
        → validate_serialized_paper_reconciliation codec digest
            (serialize_paper_reconciliation codec r)
          ≡ []
    unfolding validate_serialized_paper_reconciliation expected_fields compare_fields
    reconciliation_round_trip digest l r h =
        let again : evaluate_paper_reconciliation digest (ledgers_of r) ≡ ok r =
          subst (λ x. evaluate_paper_reconciliation digest x ≡ ok r)
            (sym (ledgers_of-evaluate digest l r h)) h in
        rw (
          checks_pass
              ((wrong_version codec (serialize_paper_reconciliation codec r), value_error "version")
                ∷ [])
              (version-serialized r, tt),
          read-serialized r,
          again,
          same-serialized r,
        )
