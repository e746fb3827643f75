-- ===== src/Models/Quorum/Agreed.antt =====
-- When two research teams agree, and what their agreement is worth.
use hedge_desk.Prelude.{
  ◌≡◌, ◌≢◌, ◌↔◌, refl, sym, ap, ◌∙◌, subst, String, true, false, List, [], ◌∷◌, ◌++◌, has,
  starts_with, NoneHolds, flags, flags-nil, canonical, canonical-nil, reasons-nil, append-eq-nil,
  append-nil_iff, checks-bind, >>=-eq-ok, ok, err, type_error, ok-injective, is_blank, eq_iff,
  arith, valid_hex64, valid_sha256_or_zero, checks_pass, ℕ,
}
use hedge_desk.Time.{Moment, aware, naive, datetime_gt}
use hedge_desk.Models.{
  ModelTeam, ModelArtifact, open_licenses, is_naive_time, open_model_flags,
  validate_open_model_artifact,
}
use hedge_desk.Models.Quorum.{
  ResearchLabel, positive, negative, abstain, is_abstain, same_label, ResearchVote,
  ResearchQuorumResult, artifact_of, vote_flags, vote_checks, vote_reasons, all_vote_reasons,
  label_reasons, labels_differ, quorum_result, first_label, evaluate_research_quorum,
}

-- A model that anyone can reproduce.
pub record OpenModel (a : ModelArtifact) : Type 0 where
  pub artifact_named : is_blank a.artifact_id ≡ false
  pub model_named : is_blank a.model_id ≡ false
  pub version_named : is_blank a.model_version ≡ false
  pub public_source : starts_with a.source_repository "https://" ≡ true
  pub open_license : has a.license_spdx open_licenses ≡ true
  pub no_proprietary_runtime : a.proprietary_runtime_required ≡ false
  pub zoned_cutoff : is_naive_time a.training_cutoff ≡ false
  pub weights : valid_hex64 a.weights_sha256 ≡ true
  pub dataset : valid_hex64 a.evaluation_dataset_sha256 ≡ true
  pub report : valid_hex64 a.evaluation_report_sha256 ≡ true
  pub commit : is_blank a.code_commit ≡ false

open_flags_iff : (a : ModelArtifact) → NoneHolds (open_model_flags a) ↔ OpenModel a
unfolding open_model_flags
open_flags_iff a = ((λ h. ground arith), (λ h. ground arith))

pub OpenModel-exact : (a : ModelArtifact) → (validate_open_model_artifact a ≡ []) ↔ OpenModel a
unfolding validate_open_model_artifact
OpenModel-exact a = (
  (λ h. (open_flags_iff a).0 ((reasons-nil (open_model_flags a)).0 h)),
  (λ h. (reasons-nil (open_model_flags a)).1 ((open_flags_iff a).1 h)),
)

-- A vote that its team's model stands behind.
pub record Backed (v : ResearchVote) (a : ModelArtifact) : Type 0 where
  pub open_model : OpenModel a
  pub bound : v.model_artifact_id ≡ a.artifact_id
  pub evidence : valid_sha256_or_zero v.evidence_sha256 ≡ true
  pub after_cutoff : datetime_gt v.observed_at a.training_cutoff ≡ ok true

Backed_iff :
    (v : ResearchVote) (a : ModelArtifact) (codes : List String)
    → vote_reasons v a ≡ ok codes
    → (codes ≡ []) ↔ Backed v a
unfolding vote_reasons vote_flags
Backed_iff v a codes h =
    let (late, compared, h₁) = >>=-eq-ok (datetime_gt v.observed_at a.training_cutoff) _ h in
    let same = ok-injective _ codes h₁ in
    (
      (λ e.
          let parts = append-eq-nil (validate_open_model_artifact a) _ (same ∙ e) in
          let tests = (flags-nil (vote_flags v a late)).0 parts.1 in
          record {
            open_model = (OpenModel-exact a).0 parts.0;
            bound = ground (arith, tests.0, eq_iff v.model_artifact_id a.artifact_id);
            evidence = ground (arith, tests.1.0);
            after_cutoff = compared ∙ ap ok (ground (arith, tests.1.1.0));
          }),
      (λ b.
          sym same
          ∙ (append-nil_iff (validate_open_model_artifact a) (flags (vote_flags v a late))).1 (
            (OpenModel-exact a).1 b.open_model,
            (flags-nil (vote_flags v a late)).1 (
              ground (arith, b.bound, eq_iff v.model_artifact_id a.artifact_id),
              (
                ground (arith, b.evidence),
                (ground (arith, ok-injective late true (sym compared ∙ b.after_cutoff)), tt),
              ),
            ),
          )),
    )

-- The artifact of a team, of two.
abbrev pub of_team : ModelTeam → ModelArtifact → ModelArtifact → ModelArtifact
of_team team a b = artifact_of team a (a ∷ b ∷ [])

-- Both teams' models stand behind their votes, and the votes say one thing.
pub record Agreed (v w : ResearchVote) (a b : ModelArtifact) : Type 0 where
  pub first : Backed v (of_team v.team a b)
  pub second : Backed w (of_team w.team a b)
  pub same : w.label ≡ v.label
  pub spoken : v.label ≢ abstain

-- No label is `abstain`, and the second is the first.
SpokenAs : ResearchLabel → ResearchLabel → Type 0
SpokenAs x y = (is_abstain x ≡ false) × (is_abstain y ≡ false) × (same_label y x ≡ true)

one_label : (x y : ResearchLabel) → SpokenAs x y → (y ≡ x) × (x ≢ abstain)
unfolding SpokenAs
one_label positive positive h = (refl, λ e. cc)
one_label negative negative h = (refl, λ e. cc)
one_label abstain _ h = cc (h.0)
one_label positive negative h = cc (h.2)
one_label positive abstain h = cc (h.1)
one_label negative positive h = cc (h.2)
one_label negative abstain h = cc (h.1)

spoken_label : (x : ResearchLabel) → x ≢ abstain → SpokenAs x x
unfolding SpokenAs
spoken_label positive h = (refl, refl, refl)
spoken_label negative h = (refl, refl, refl)
spoken_label abstain h = absurd (h refl)

labels_iff :
    (v w : ResearchVote)
    → (label_reasons (v ∷ w ∷ []) ≡ []) ↔ ((w.label ≡ v.label) × (v.label ≢ abstain))
unfolding label_reasons labels_differ SpokenAs
labels_iff v w = (
  (λ h. one_label v.label w.label (ground arith, ground arith, ground arith)),
  (λ h.
      let s = spoken_label v.label h.1 in
      let t : SpokenAs v.label w.label = subst (SpokenAs v.label) (sym h.0) s in ground (arith, t)),
)

-- What a quorum of two votes and two models returned.
pub record QuorumOutcome (v w : ResearchVote) (a b : ModelArtifact) (r : ResearchQuorumResult)
    : Type 0 where
  pub hypothesis_iff : (r.disposition ≡ "RESEARCH_HYPOTHESIS_ONLY") ↔ Agreed v w a b
  pub agreed_label : Agreed v w a b → r.label ≡ v.label
  pub blocked_label : r.disposition ≢ "RESEARCH_HYPOTHESIS_ONLY" → r.label ≡ abstain
  pub no_authority : r.authoritative_risk_input ≡ false

pair_reasons :
    (v w : ResearchVote) (a b : ModelArtifact) (codes : List String)
    → all_vote_reasons (v ∷ w ∷ []) (a ∷ b ∷ []) ≡ ok codes
    → (codes ≡ []) ↔ (Backed v (of_team v.team a b) × Backed w (of_team w.team a b))
unfolding all_vote_reasons
pair_reasons v w a b codes h =
    let (here, first, h₁) = >>=-eq-ok (vote_reasons v (of_team v.team a b)) _ h in
    let (rest, later, h₂) = >>=-eq-ok (all_vote_reasons (w ∷ []) (a ∷ b ∷ [])) _ h₁ in
    let (there, second, h₃) = >>=-eq-ok (vote_reasons w (of_team w.team a b)) _ later in
    let same = ok-injective (here ++ rest) codes h₂ in
    let tail = ok-injective (there ++ []) rest h₃ in
    (
      (λ e.
          let parts = append-eq-nil here rest (same ∙ e) in
          (
            (Backed_iff v _ here first).0 parts.0,
            (Backed_iff w _ there second).0 (append-eq-nil there [] (tail ∙ parts.1)).0,
          )),
      (λ k.
          sym same
          ∙ (append-nil_iff here rest).1 (
            (Backed_iff v _ here first).1 k.0,
            sym tail ∙ (append-nil_iff there []).1 ((Backed_iff w _ there second).1 k.1, refl),
          )),
    )

reasons_iff :
    (v w : ResearchVote) (a b : ModelArtifact) (codes : List String)
    → all_vote_reasons (v ∷ w ∷ []) (a ∷ b ∷ []) ≡ ok codes
    → (canonical (codes ++ label_reasons (v ∷ w ∷ [])) ≡ []) ↔ Agreed v w a b
reasons_iff v w a b codes h =
    let labels = label_reasons (v ∷ w ∷ []) in
    (
      (λ e.
          let parts = append-eq-nil codes labels ((canonical-nil (codes ++ labels)).0 e) in
          let backed = (pair_reasons v w a b codes h).0 parts.0 in
          let one = (labels_iff v w).0 parts.1 in
          record { first = backed.0; second = backed.1; same = one.0; spoken = one.1 }),
      (λ k. (canonical-nil (codes ++ labels)).1 (
          (append-nil_iff codes labels).1 (
            (pair_reasons v w a b codes h).1 (k.first, k.second),
            (labels_iff v w).1 (k.same, k.spoken),
          ))),
    )

outcome :
    (v w : ResearchVote) (a b : ModelArtifact) (codes : List String)
    → (codes ≡ []) ↔ Agreed v w a b
    → QuorumOutcome v w a b (quorum_result (v ∷ w ∷ []) (a ∷ b ∷ []) codes)
unfolding quorum_result first_label
outcome v w a b [] h = record {
  hypothesis_iff = ((λ e. h.0 refl), (λ k. refl));
  agreed_label = λ k. refl;
  blocked_label = λ n. absurd (n refl);
  no_authority = refl;
}
outcome v w a b (c ∷ cs) h = record {
  hypothesis_iff =
      ((λ e. cc ((eq_iff "NO_TRADE" "RESEARCH_HYPOTHESIS_ONLY").1 e)), (λ k. cc (h.1 k)));
  agreed_label = λ k. cc (h.1 k);
  blocked_label = λ n. refl;
  no_authority = refl;
}

-- A quorum of two votes that returned is a research hypothesis exactly where each vote is backed by its
-- team's artifact (a reproducibly open model of which it is, valid evidence, an observation after the
-- training cutoff) and both give one label that is not an abstention; its label is then that label,
-- and else an abstention, and it is never an authoritative risk input.
pub quorum_exact :
    (v w : ResearchVote) (a b : ModelArtifact) (r : ResearchQuorumResult)
    → evaluate_research_quorum (v ∷ w ∷ []) (a ∷ b ∷ []) ≡ ok r
    → QuorumOutcome v w a b r
unfolding evaluate_research_quorum
quorum_exact v w a b r h =
    let (_, h₁) = checks-bind (vote_checks (v ∷ w ∷ []) (a ∷ b ∷ [])) _ r h in
    let (codes, e, h₂) = >>=-eq-ok (all_vote_reasons (v ∷ w ∷ []) (a ∷ b ∷ [])) _ h₁ in
    subst (QuorumOutcome v w a b) (ok-injective _ r h₂)
      (outcome v w a b _ (reasons_iff v w a b codes e))

-- A model whose training cutoff has no time zone, of the first vote's team, makes the quorum raise
-- TypeError, whatever else holds of two votes and two models that pass its checks: the reason code that
-- the registry has for such a cutoff is never reported.
pub unzoned_cutoff_raises :
    (v w : ResearchVote) (a b : ModelArtifact) (observed : Moment) (t : ℕ)
    → NoneHolds (vote_checks (v ∷ w ∷ []) (a ∷ b ∷ []))
    → v.observed_at ≡ aware observed
    → (of_team v.team a b).training_cutoff ≡ naive t
    → evaluate_research_quorum (v ∷ w ∷ []) (a ∷ b ∷ []) ≡ err type_error
unfolding evaluate_research_quorum all_vote_reasons vote_reasons datetime_gt
unzoned_cutoff_raises v w a b observed t passed zoned unzoned =
    rw (checks_pass (vote_checks (v ∷ w ∷ []) (a ∷ b ∷ [])) passed, zoned, unzoned)
