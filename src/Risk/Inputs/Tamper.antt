-- ===== src/Risk/Inputs/Tamper.antt =====
-- The digest of validated risk inputs covers every one of them.
use hedge_desk.Prelude.{
  ◌≡◌, ◌≢◌, sym, ap, ◌∙◌, subst, String, ok, checks-bind, >>=-eq-ok, arith, eq_iff, eq_refl,
  ok-injective, [], ◌∷◌,
}
use hedge_desk.Decimal.{number}
use hedge_desk.Time.{Moment, DateTime, aware, aware_or}
use hedge_desk.Digest.{Digest, Collision}
use hedge_desk.Risk.Inputs.{
  RiskInputs, ValidatedRiskInputs, RiskNumbers, payload, finite_numbers, is_unnamed, range_checks,
  build_validated_risk_inputs, validate_risk_inputs,
}

-- The raw inputs are those that stand in a payload.
record Covers (v : RiskInputs) (m : Moment) (n : RiskNumbers) : Type 0 where
  time : v.as_of ≡ aware m
  loss : v.maximum_loss ≡ number n.maximum_loss
  win : v.expected_win ≡ number n.expected_win
  probability : v.win_probability ≡ number n.win_probability
  before : v.risk_of_ruin_before ≡ number n.risk_of_ruin_before
  after : v.risk_of_ruin_after ≡ number n.risk_of_ruin_after

numbers_cover :
    (v : RiskInputs) (m : Moment) (n : RiskNumbers)
    → v.as_of ≡ aware m
    → finite_numbers v ≡ ok n
    → Covers v m n
unfolding finite_numbers
numbers_cover v m n e h = ground arith

aware_or-ok : (t : DateTime) (e : _) (m : Moment) → aware_or t e ≡ ok m → t ≡ aware m
unfolding aware_or
aware_or-ok t e m h = ground arith

payload_injective :
    (v w : RiskInputs) (m k : Moment) (n o : RiskNumbers)
    → Covers v m n
    → Covers w k o
    → payload v m n ≡ payload w k o
    → v ≡ w
unfolding payload
payload_injective v w m k n o h i e = ground arith

module _ (digest : Digest) where
  record Sealed (v : RiskInputs) (hash : String) : Type 0 where
    time : Moment
    numbers : RiskNumbers
    covered : Covers v time numbers
    hashed : digest (payload v time numbers) ≡ hash

  build_seals :
      (v : RiskInputs) (x : ValidatedRiskInputs)
      → build_validated_risk_inputs digest v ≡ ok x
      → Sealed v x.artifact_sha256
  unfolding build_validated_risk_inputs
  build_seals v x h =
      let (_, h₁) = checks-bind ((is_unnamed v, _) ∷ []) _ x h in
      let (m, e, h₂) = >>=-eq-ok (aware_or v.as_of _) _ h₁ in
      let (n, f, h₃) = >>=-eq-ok (finite_numbers v) _ h₂ in
      let (_, h₄) = checks-bind (range_checks v n) _ x h₃ in
      record {
        time = m;
        numbers = n;
        covered = numbers_cover v m n (aware_or-ok v.as_of _ m e) f;
        hashed = ap (λ y. y.artifact_sha256) (ok-injective _ x h₄);
      }

  build_keeps :
      (v : RiskInputs) (x : ValidatedRiskInputs)
      → build_validated_risk_inputs digest v ≡ ok x
      → x.inputs ≡ v
  unfolding build_validated_risk_inputs
  build_keeps v x h =
      let (_, h₁) = checks-bind ((is_unnamed v, _) ∷ []) _ x h in
      let (m, e, h₂) = >>=-eq-ok (aware_or v.as_of _) _ h₁ in
      let (n, f, h₃) = >>=-eq-ok (finite_numbers v) _ h₂ in
      let (_, h₄) = checks-bind (range_checks v n) _ x h₃ in
      ap (λ y. y.inputs) (sym (ok-injective _ x h₄))

  -- Inputs that `build_validated_risk_inputs` returned pass `validate_risk_inputs`.
  pub validate-build :
      (v : RiskInputs) (x : ValidatedRiskInputs)
      → build_validated_risk_inputs digest v ≡ ok x
      → validate_risk_inputs digest x ≡ ok tt
  unfolding validate_risk_inputs
  validate-build v x h = rw (build_keeps v x h, h) (ground (arith, eq_refl x.artifact_sha256))

  validate_seals :
      (x : ValidatedRiskInputs)
      → validate_risk_inputs digest x ≡ ok tt
      → Sealed x.inputs x.artifact_sha256
  unfolding validate_risk_inputs
  validate_seals x h =
      let (y, built, h₁) = >>=-eq-ok (build_validated_risk_inputs digest x.inputs) _ h in
      subst (Sealed x.inputs) (ground (arith, h₁, eq_iff y.artifact_sha256 x.artifact_sha256))
        (build_seals x.inputs y built)

  -- Of two validated inputs with one artifact hash that are not the same inputs, in any of their
  -- fourteen values, two payloads with one digest can be read off.
  pub tamper_evident :
      (x y : ValidatedRiskInputs)
      → validate_risk_inputs digest x ≡ ok tt
      → validate_risk_inputs digest y ≡ ok tt
      → x.artifact_sha256 ≡ y.artifact_sha256
      → x.inputs ≢ y.inputs
      → Collision digest
  tamper_evident x y h k same differ =
      let s = validate_seals x h in
      let t = validate_seals y k in
      record {
        left = payload x.inputs s.time s.numbers;
        right = payload y.inputs t.time t.numbers;
        differ = λ e. differ (payload_injective _ _ _ _ _ _ s.covered t.covered e);
        collide = s.hashed ∙ same ∙ sym t.hashed;
      }
