-- ===== src/Models/Quorum.antt =====
-- models/quorum.py: two independent research teams on one candidate.
pub mod Agreed
use hedge_desk.Prelude.{
  String, Bool, true, false, not, ◌||◌, ◌&&◌, List, [], ◌∷◌, ◌++◌, Option, none, some, any, map,
  length, ◌==◌, Error, value_error, Result, ok, err, checks, ◌>>=◌, ◌>>◌, flags, canonical,
  is_empty, str_eq, text_lt, if◌then◌else◌, valid_sha256_or_zero,
}
use hedge_desk.Time.{DateTime, midnight, aware_or, datetime_gt}
use hedge_desk.Models.{
  ModelTeam, quant, ai, is_quant, same_team, ModelArtifact, is_naive_time,
  validate_open_model_artifact,
}

pub data ResearchLabel : Type 0 where
  positive negative abstain : ResearchLabel

abbrev pub is_abstain : ResearchLabel → Bool
is_abstain positive = false
is_abstain negative = false
is_abstain abstain = true

abbrev pub same_label : ResearchLabel → ResearchLabel → Bool
same_label positive positive = true
same_label negative negative = true
same_label abstain abstain = true
same_label _ _ = false

pub record ResearchVote : Type 0 where
  pub candidate_id : String
  pub team : ModelTeam
  pub model_artifact_id : String
  pub label : ResearchLabel
  pub observed_at : DateTime
  pub evidence_sha256 : String

pub record ResearchQuorumResult : Type 0 where
  pub candidate_id : String
  pub disposition : String
  pub label : ResearchLabel
  pub reason_codes : List String
  pub model_artifact_ids : List String
  pub authoritative_risk_input : Bool
  pub compliance_status : String
  pub human_authorization_status : String

-- {item.team for item in items} == {ModelTeam.QUANT, ModelTeam.AI}
unfoldable pub both_teams : List ModelTeam → Bool
both_teams teams = any is_quant teams && any (λ t. not (is_quant t)) teams

-- len({value for ...}) != 1, on values that are there
unfoldable pub not_one : List String → Bool
not_one [] = true
not_one (x ∷ xs) = any (λ y. not (str_eq y x)) xs

abbrev teams_invalid : Error
teams_invalid = value_error "one QUANT and one AI artifact are required"

unfoldable pub vote_checks : List ResearchVote → List ModelArtifact → List (Bool × Error)
vote_checks votes artifacts =
    (
      not (length votes == 2) || not (length artifacts == 2),
      value_error "exactly two independent research teams are required",
    )
    ∷ (
      not (both_teams (map (λ v. v.team) votes)),
      value_error "one QUANT and one AI vote are required",
    )
    ∷ (
      not_one (map (λ v. v.candidate_id) votes),
      value_error "research votes must address the same candidate",
    )
    ∷ (
      any (λ v. is_naive_time v.observed_at) votes,
      value_error "research vote timestamps must be timezone-aware",
    )
    ∷ (not (both_teams (map (λ a. a.team) artifacts)), teams_invalid)
    ∷ []

-- by_team[team]: the last artifact of the team. The teams are there by the check before.
unfoldable pub artifact_of : ModelTeam → ModelArtifact → List ModelArtifact → ModelArtifact
artifact_of team found [] = found
artifact_of team found (a ∷ rest) =
    artifact_of team (if same_team a.team team then a else found) rest

-- The tests on a vote and its artifact; `late` is vote.observed_at > artifact.training_cutoff.
unfoldable pub vote_flags : ResearchVote → ModelArtifact → Bool → List (Bool × String)
vote_flags v a late =
    (not (str_eq v.model_artifact_id a.artifact_id), "MODEL_ARTIFACT_BINDING_INVALID")
    ∷ (not (valid_sha256_or_zero v.evidence_sha256), "RESEARCH_EVIDENCE_HASH_INVALID")
    ∷ (not late, "OBSERVATION_NOT_AFTER_TRAINING_CUTOFF")
    ∷ []

-- One round of the loop over the votes. The comparison of the times raises TypeError where only one
-- of them has a time zone.
unfoldable pub vote_reasons : ResearchVote → ModelArtifact → Result (List String)
vote_reasons v a = do
  late ← datetime_gt v.observed_at a.training_cutoff
  ok (validate_open_model_artifact a ++ flags (vote_flags v a late))

unfoldable pub all_vote_reasons : List ResearchVote → List ModelArtifact → Result (List String)
all_vote_reasons [] artifacts = ok []
all_vote_reasons (v ∷ votes) [] = err teams_invalid
all_vote_reasons (v ∷ votes) (a ∷ artifacts) = do
  here ← vote_reasons v (artifact_of v.team a (a ∷ artifacts))
  later ← all_vote_reasons votes (a ∷ artifacts)
  ok (here ++ later)

-- len({vote.label for vote in votes}) != 1
unfoldable pub labels_differ : List ResearchVote → Bool
labels_differ [] = true
labels_differ (v ∷ votes) = any (λ w. not (same_label w.label v.label)) votes

unfoldable pub label_reasons : List ResearchVote → List String
label_reasons votes =
    if any (λ v. is_abstain v.label) votes
    then "RESEARCH_TEAM_ABSTAINED" ∷ []
    else if labels_differ votes
    then "RESEARCH_TEAMS_DISAGREE" ∷ []
    else []

unfoldable pub insert_text : String → List String → List String
insert_text x [] = x ∷ []
insert_text x (y ∷ ys) = if text_lt y x then y ∷ insert_text x ys else x ∷ y ∷ ys

-- tuple(sorted(values))
unfoldable pub sort_texts : List String → List String
sort_texts [] = []
sort_texts (x ∷ xs) = insert_text x (sort_texts xs)

-- votes[0].candidate_id and votes[0].label
unfoldable pub first_candidate : List ResearchVote → String
first_candidate [] = ""
first_candidate (v ∷ votes) = v.candidate_id

unfoldable pub first_label : List ResearchVote → ResearchLabel
first_label [] = abstain
first_label (v ∷ votes) = v.label

unfoldable pub quorum_result :
    List ResearchVote → List ModelArtifact → List String → ResearchQuorumResult
quorum_result votes artifacts reasons = record {
  candidate_id = first_candidate votes;
  disposition = if is_empty reasons then "RESEARCH_HYPOTHESIS_ONLY" else "NO_TRADE";
  label = if is_empty reasons then first_label votes else abstain;
  reason_codes = reasons;
  model_artifact_ids = sort_texts (map (λ a. a.artifact_id) artifacts);
  authoritative_risk_input = false;
  compliance_status = "NOT_EVALUATED";
  human_authorization_status = "NOT_EVALUATED";
}

unfoldable pub evaluate_research_quorum :
    List ResearchVote → List ModelArtifact → Result ResearchQuorumResult
evaluate_research_quorum votes artifacts = do
  checks (vote_checks votes artifacts)
  reasons ← all_vote_reasons votes artifacts
  ok (quorum_result votes artifacts (canonical (reasons ++ label_reasons votes)))

-- datetime(2026, 1, 1, tzinfo=timezone.utc)
abbrev pub synthetic_cutoff : DateTime
synthetic_cutoff = midnight 739616

-- f"{team.value.lower()}-synthetic-model-v1"
abbrev synthetic_id : ModelTeam → String
synthetic_id quant = "quant-synthetic-model-v1"
synthetic_id ai = "ai-synthetic-model-v1"

abbrev pub synthetic_artifact : ModelTeam → ModelArtifact
synthetic_artifact team = record {
  artifact_id = synthetic_id team;
  team = team;
  model_id = "open-synthetic-research-model";
  model_version = "1.0.0";
  source_repository = "https://huggingface.co/example/open-synthetic-research-model";
  license_spdx = "Apache-2.0";
  weights_sha256 = "aaaaaaaaaaaaaaaaaaaaaaaaaaaaaaaaaaaaaaaaaaaaaaaaaaaaaaaaaaaaaaaa";
  code_commit = "deadbeef";
  training_cutoff = synthetic_cutoff;
  evaluation_dataset_sha256 = "bbbbbbbbbbbbbbbbbbbbbbbbbbbbbbbbbbbbbbbbbbbbbbbbbbbbbbbbbbbbbbbb";
  evaluation_report_sha256 = "cccccccccccccccccccccccccccccccccccccccccccccccccccccccccccccccc";
  proprietary_runtime_required = false;
}

abbrev pub synthetic_vote : DateTime → ModelTeam → ResearchVote
synthetic_vote observed_at team = record {
  candidate_id = "synthetic-research-candidate";
  team = team;
  model_artifact_id = synthetic_id team;
  label = positive;
  observed_at = observed_at;
  evidence_sha256 = "dddddddddddddddddddddddddddddddddddddddddddddddddddddddddddddddd";
}

unfoldable pub build_synthetic_reference_quorum : DateTime → Result ResearchQuorumResult
build_synthetic_reference_quorum observed_at = do
  _ ← aware_or observed_at (value_error "reference observation must be timezone-aware")
  evaluate_research_quorum (synthetic_vote observed_at quant ∷ synthetic_vote observed_at ai ∷ [])
      (synthetic_artifact quant ∷ synthetic_artifact ai ∷ [])
