-- ===== src/Models/Training.antt =====
-- models/training_run.py: the governance of a training run against the model that it made.
pub mod Reproducible
use hedge_desk.Prelude.{
  String, Bool, true, false, not, ◌||◌, ◌&&◌, List, [], ◌∷◌, ◌++◌, Option, none, some, all, flags,
  canonical, is_empty, is_blank, str_eq, has_double, valid_sha256,
}
use hedge_desk.Decimal.{ℤ, pos, is_negative}
use hedge_desk.Time.{Moment, DateTime, naive, aware, earlier, datetime_eq, midnight}
use hedge_desk.Models.{
  ModelTeam, quant, ai, same_team, ModelArtifact, is_naive_time, validate_open_model_artifact,
}

pub record TrainingRunManifest : Type 0 where
  pub run_id : String
  pub team : ModelTeam
  pub model_artifact_id : String
  pub code_commit : String
  pub environment_lock_sha256 : String
  pub training_dataset_sha256 : String
  pub validation_dataset_sha256 : String
  pub test_dataset_sha256 : String
  pub evaluation_report_sha256 : String
  pub data_cutoff : DateTime
  pub started_at : DateTime
  pub completed_at : DateTime
  pub random_seed : ℤ
  pub split_method : String
  pub research_only : Bool

pub record TrainingRunGate : Type 0 where
  pub admissible : Bool
  pub reason_codes : List String
  pub authoritative_risk_input : Bool
  pub trade_authorized : Bool

-- The tests on the three times: one flag where one has no zone, and else the two comparisons.
unfoldable pub run_time_flags : DateTime → DateTime → DateTime → List (Bool × String)
run_time_flags (aware cutoff) (aware started) (aware completed) =
    (earlier completed started, "TRAINING_INTERVAL_INVALID")
    ∷ (earlier started cutoff, "TRAINING_DATA_LOOKAHEAD")
    ∷ []
run_time_flags _ _ _ = (true, "TRAINING_TIMESTAMP_NOT_TIMEZONE_AWARE") ∷ []

-- hashes
abbrev pub run_hashes : TrainingRunManifest → List String
run_hashes run =
    run.environment_lock_sha256 ∷ run.training_dataset_sha256 ∷ run.validation_dataset_sha256
    ∷ run.test_dataset_sha256 ∷ run.evaluation_report_sha256 ∷ []

-- hashes[1:4]
abbrev pub dataset_hashes : TrainingRunManifest → List String
dataset_hashes run =
    run.training_dataset_sha256 ∷ run.validation_dataset_sha256 ∷ run.test_dataset_sha256 ∷ []

unfoldable pub identity_flags : TrainingRunManifest → List (Bool × String)
identity_flags run =
    (is_blank run.run_id || is_blank run.split_method, "TRAINING_RUN_IDENTITY_MISSING")
    ∷ (is_negative run.random_seed, "TRAINING_SEED_INVALID")
    ∷ (not (all valid_sha256 (run_hashes run)), "TRAINING_REPRODUCIBILITY_HASH_INVALID")
    ∷ (has_double (dataset_hashes run), "TRAINING_SPLIT_HASH_COLLISION")
    ∷ []

unfoldable pub binding_flags : TrainingRunManifest → ModelArtifact → List (Bool × String)
binding_flags run a =
    (not run.research_only, "TRAINING_RUN_CONTROL_AUTHORITY_FORBIDDEN")
    ∷ (
      not (same_team run.team a.team) || not (str_eq run.model_artifact_id a.artifact_id),
      "TRAINING_MODEL_BINDING_INVALID",
    )
    ∷ (not (str_eq run.code_commit a.code_commit), "TRAINING_CODE_COMMIT_MISMATCH")
    ∷ (not (datetime_eq run.data_cutoff a.training_cutoff), "TRAINING_CUTOFF_MISMATCH")
    ∷ (
      not (str_eq run.test_dataset_sha256 a.evaluation_dataset_sha256),
      "TRAINING_TEST_DATASET_MISMATCH",
    )
    ∷ (
      not (str_eq run.evaluation_report_sha256 a.evaluation_report_sha256),
      "TRAINING_EVALUATION_REPORT_MISMATCH",
    )
    ∷ []

abbrev pub training_gate : List String → TrainingRunGate
training_gate reasons = record {
  admissible = is_empty reasons;
  reason_codes = reasons;
  authoritative_risk_input = false;
  trade_authorized = false;
}

unfoldable pub validate_training_run : TrainingRunManifest → ModelArtifact → TrainingRunGate
validate_training_run run a = training_gate (
    canonical (
      validate_open_model_artifact a
      ++ flags (
          identity_flags run
          ++ (run_time_flags run.data_cutoff run.started_at run.completed_at
              ++ binding_flags run a))))

abbrev synthetic_id : ModelTeam → String
synthetic_id quant = "quant-synthetic-model-v1"
synthetic_id ai = "ai-synthetic-model-v1"

abbrev synthetic_run_id : ModelTeam → String
synthetic_run_id quant = "quant-synthetic-run-v1"
synthetic_run_id ai = "ai-synthetic-run-v1"

abbrev pub trained_artifact : ModelTeam → ModelArtifact
trained_artifact team = record {
  artifact_id = synthetic_id team;
  team = team;
  model_id = "open-synthetic-research-model";
  model_version = "1.0.0";
  source_repository = "https://huggingface.co/example/open-synthetic-research-model";
  license_spdx = "Apache-2.0";
  weights_sha256 = "aaaaaaaaaaaaaaaaaaaaaaaaaaaaaaaaaaaaaaaaaaaaaaaaaaaaaaaaaaaaaaaa";
  code_commit = "deadbeef";
  training_cutoff = midnight 739616;
  evaluation_dataset_sha256 = "dddddddddddddddddddddddddddddddddddddddddddddddddddddddddddddddd";
  evaluation_report_sha256 = "eeeeeeeeeeeeeeeeeeeeeeeeeeeeeeeeeeeeeeeeeeeeeeeeeeeeeeeeeeeeeeee";
  proprietary_runtime_required = false;
}

abbrev pub training_run : ModelTeam → TrainingRunManifest
training_run team = record {
  run_id = synthetic_run_id team;
  team = team;
  model_artifact_id = synthetic_id team;
  code_commit = "deadbeef";
  environment_lock_sha256 = "ffffffffffffffffffffffffffffffffffffffffffffffffffffffffffffffff";
  training_dataset_sha256 = "bbbbbbbbbbbbbbbbbbbbbbbbbbbbbbbbbbbbbbbbbbbbbbbbbbbbbbbbbbbbbbbb";
  validation_dataset_sha256 = "cccccccccccccccccccccccccccccccccccccccccccccccccccccccccccccccc";
  test_dataset_sha256 = "dddddddddddddddddddddddddddddddddddddddddddddddddddddddddddddddd";
  evaluation_report_sha256 = "eeeeeeeeeeeeeeeeeeeeeeeeeeeeeeeeeeeeeeeeeeeeeeeeeeeeeeeeeeeeeeee";
  data_cutoff = midnight 739616;
  started_at = midnight 739617;
  completed_at = midnight 739618;
  random_seed = pos 2600;
  split_method = "point-in-time-purged-walk-forward";
  research_only = true;
}

unfoldable pub build_synthetic_training_gate : ModelTeam → TrainingRunGate
build_synthetic_training_gate team =
    validate_training_run (training_run team) (trained_artifact team)
