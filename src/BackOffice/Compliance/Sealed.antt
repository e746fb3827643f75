-- ===== src/BackOffice/Compliance/Sealed.antt =====
-- The artifact of `evaluate_compliance_policy` against `validate_compliance_policy_artifact`.
use hedge_desk.Prelude.{
  ◌≡◌, refl, ap, subst, String, true, false, not, List, [], ◌∷◌, ok, >>=-eq-ok, ok-injective,
  reasons-nil, NoneHolds, is_canonical, is_canonical-canonical, eq_refl,
}
use hedge_desk.Time.{Moment, DateTime, aware, aware_or}
use hedge_desk.Digest.{Digest}
use hedge_desk.Domain.{Account, TradeCandidate}
use hedge_desk.BackOffice.Traceability.{traceability_sha256, reference_requirements}
use hedge_desk.BackOffice.Compliance.{
  CompliancePolicyDecision, artifact_payload, artifact_flags, unsealed, seal, status_of,
  status_differs, policy_reasons, policy_codes, evaluate_compliance_policy,
  validate_compliance_policy_artifact,
}

status_consistent : (rs : List String) → status_differs (status_of rs) (status_of rs) ≡ false
status_consistent [] = refl
status_consistent (x ∷ xs) = refl

module _ (digest : Digest) (a : Account) (c : TradeCandidate) where
  policy_reasons-canonical : (env : String) → is_canonical (policy_reasons a c env) ≡ true
  unfolding policy_reasons
  policy_reasons-canonical env = is_canonical-canonical (policy_codes a c env)

  seal_clear :
      (m : Moment) (env trace : String)
      → NoneHolds (artifact_flags digest trace (seal digest (unsealed a c (aware m) env trace)))
  unfolding artifact_flags seal unsealed policy_reasons
  seal_clear m env trace = (
    refl,
    (
      refl,
      (
        ap not (policy_reasons-canonical env),
        (
          status_consistent (policy_reasons a c env),
          (
            ap not (eq_refl trace),
            (ap not (eq_refl (digest (artifact_payload (unsealed a c (aware m) env trace)))), tt),
          ),
        ),
      ),
    ),
  )

  sealed_valid :
      (m : Moment) (env trace : String)
      → traceability_sha256 digest reference_requirements ≡ ok trace
      → validate_compliance_policy_artifact digest (seal digest (unsealed a c (aware m) env trace))
        ≡ ok []
  unfolding validate_compliance_policy_artifact
  sealed_valid m env trace f = rw f (
      ap ok (
        (reasons-nil
            (artifact_flags digest trace (seal digest (unsealed a c (aware m) env trace)))).1
          (seal_clear m env trace)))

  -- Whatever the account, the candidate and the environment, an artifact that
  -- `evaluate_compliance_policy` returned passes every check of `validate_compliance_policy_artifact`.
  pub validate-evaluate :
      (t : DateTime) (environment : String) (d : CompliancePolicyDecision)
      → evaluate_compliance_policy digest a c t environment ≡ ok d
      → validate_compliance_policy_artifact digest d ≡ ok []
  unfolding evaluate_compliance_policy
  validate-evaluate t env d h =
      let (m, e, h₁) = >>=-eq-ok (aware_or t _) _ h in
      let (trace, f, h₂) = >>=-eq-ok (traceability_sha256 digest reference_requirements) _ h₁ in
      subst (λ x. validate_compliance_policy_artifact digest x ≡ ok []) (ok-injective _ d h₂)
        (sealed_valid m env trace f)
