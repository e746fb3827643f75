-- ===== src/Release/Ready.antt =====
-- When the release gate is ready.
use hedge_desk.Prelude.{
  ◌≡◌, ◌↔◌, refl, sym, ap, ◌∙◌, subst, String, true, false, Option, some, none, List, [], ◌∷◌, has,
  inl, inr, Bool-cases, after_checks, canonical, canonical-nil, append-eq-nil, ok, ok-injective,
  arith, eq_iff, eq_refl, str_eq, valid_sha256,
}
use hedge_desk.Digest.{Digest}
use hedge_desk.Release.{
  ReleaseEvidence, ReleaseReadiness, ready_for_separate_authorization, required_release_evidence,
  evidence_of, reason_for, release_reasons, release_status_of, readiness, released, evidence_checks,
  evaluate_live_release_readiness,
}

-- The evidence for a requirement is there, satisfied, and has a hash.
abbrev pub Certified : List ReleaseEvidence → String → Type 0
Certified evidence key =
    (item : ReleaseEvidence) × (evidence_of key evidence ≡ some item)
    × (item.satisfied ≡ true)
    × (valid_sha256 item.evidence_sha256 ≡ true)

Certified-iff :
    (evidence : List ReleaseEvidence) (key : String) (found : Option ReleaseEvidence)
    → evidence_of key evidence ≡ found
    → (reason_for key found ≡ []) ↔ Certified evidence key
unfolding reason_for
Certified-iff evidence key none e = ((λ h. cc), (λ (item, f, s, v). cc (sym e ∙ f)))
Certified-iff evidence key (some x) e = (
  (λ h. (x, e, ground (arith, h), ground (arith, h))),
  (λ (item, f, s, v).
      subst (λ y. reason_for key (some y) ≡ []) (some_injective item x (sym f ∙ e))
        (ground (arith, s, v))),
)
  where
    some_injective : (a b : ReleaseEvidence) → some a ≡ some b → a ≡ b
    some_injective a b h = cc

Certified-all :
    (evidence : List ReleaseEvidence) (keys : List String)
    → (release_reasons evidence keys ≡ [])
      ↔ ((key : String) → has key keys ≡ true → Certified evidence key)
unfolding release_reasons
Certified-all evidence [] = ((λ h key m. cc), (λ h. refl))
Certified-all evidence (k ∷ ks) =
    let first = Certified-iff evidence k (evidence_of k evidence) refl in
    let later = Certified-all evidence ks in
    (
      (λ h key m.
          let parts =
            append-eq-nil (reason_for k (evidence_of k evidence)) (release_reasons evidence ks) h in
          elim (Bool-cases (str_eq key k)) [
            | inl e ↦ subst (Certified evidence) (sym ((eq_iff key k).0 e)) (first.0 parts.0)
            | inr e ↦ later.0 parts.1 key (ground (arith, m, e))
          ]),
      (λ h.
          rw (first.1 (h k (ground (arith, eq_refl k))))
            (later.1 (λ key m. h key (ground (arith, m))))),
    )

status_iff :
    (codes : List String)
    → (release_status_of codes ≡ ready_for_separate_authorization) ↔ (codes ≡ [])
status_iff [] = ((λ _. refl), (λ _. refl))
status_iff (c ∷ cs) = ((λ h. cc), (λ h. cc))

-- A readiness that was evaluated is ready for a separate live authorization exactly where each
-- required evidence is there, satisfied, and has a hash; it never authorizes the live transition and
-- never allows a human override.
pub release_ready_exact :
    (digest : Digest) (evidence : List ReleaseEvidence) (r : ReleaseReadiness)
    → evaluate_live_release_readiness digest evidence ≡ ok r
    → ((r.status ≡ ready_for_separate_authorization)
        ↔ ((key : String) → has key required_release_evidence ≡ true → Certified evidence key))
      × (r.live_transition_authorized ≡ false)
      × (r.human_override_allowed ≡ false)
unfolding evaluate_live_release_readiness readiness released
release_ready_exact digest evidence r h = after_checks (evidence_checks evidence) _ h λ _ h₁.
    let e = ok-injective _ r h₁ in
    let codes = release_reasons evidence required_release_evidence in
    let status = status_iff (canonical codes) in
    let nil = canonical-nil codes in
    let all = Certified-all evidence required_release_evidence in
    let same : release_status_of (canonical codes) ≡ r.status = ap (λ x. x.status) e in
    (
      (
        (λ ready. all.0 (nil.0 (status.0 (same ∙ ready)))),
        (λ k. sym same ∙ status.1 (nil.1 (all.1 k))),
      ),
      sym (ap (λ x. x.live_transition_authorized) e),
      sym (ap (λ x. x.human_override_allowed) e),
    )
