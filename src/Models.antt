-- ===== src/Models.antt =====
-- models/registry.py: which research models are reproducibly open.
pub mod Quorum
pub mod Splits
pub mod Training
use hedge_desk.Prelude.{
  String, Bool, true, false, not, ◌||◌, ◌&&◌, List, [], ◌∷◌, has, is_blank, canonical, flags,
  starts_with, valid_hex64,
}
use hedge_desk.Time.{DateTime, naive, aware}

pub data ModelTeam : Type 0 where
  quant ai : ModelTeam

abbrev pub is_quant : ModelTeam → Bool
is_quant quant = true
is_quant ai = false

abbrev pub same_team : ModelTeam → ModelTeam → Bool
same_team quant quant = true
same_team ai ai = true
same_team _ _ = false

abbrev pub open_licenses : List String
open_licenses = "Apache-2.0" ∷ "MIT" ∷ "BSD-2-Clause" ∷ "BSD-3-Clause" ∷ "MPL-2.0" ∷ []

pub record ModelArtifact : Type 0 where
  pub artifact_id : String
  pub team : ModelTeam
  pub model_id : String
  pub model_version : String
  pub source_repository : String
  pub license_spdx : String
  pub weights_sha256 : String
  pub code_commit : String
  pub training_cutoff : DateTime
  pub evaluation_dataset_sha256 : String
  pub evaluation_report_sha256 : String
  pub proprietary_runtime_required : Bool

-- value.tzinfo is None
abbrev pub is_naive_time : DateTime → Bool
is_naive_time (naive t) = true
is_naive_time (aware m) = false

unfoldable pub open_model_flags : ModelArtifact → List (Bool × String)
open_model_flags a =
    (
      is_blank a.artifact_id || is_blank a.model_id || is_blank a.model_version,
      "MODEL_IDENTITY_MISSING",
    )
    ∷ (not (starts_with a.source_repository "https://"), "PUBLIC_SOURCE_REPOSITORY_REQUIRED")
    ∷ (not (has a.license_spdx open_licenses), "OPEN_LICENSE_REQUIRED")
    ∷ (a.proprietary_runtime_required, "PROPRIETARY_RUNTIME_REQUIRED")
    ∷ (is_naive_time a.training_cutoff, "TRAINING_CUTOFF_NOT_TIMEZONE_AWARE")
    ∷ (
      not (
          valid_hex64 a.weights_sha256
          && valid_hex64 a.evaluation_dataset_sha256
          && valid_hex64 a.evaluation_report_sha256),
      "REPRODUCIBILITY_HASH_INVALID",
    )
    ∷ (is_blank a.code_commit, "CODE_COMMIT_REQUIRED")
    ∷ []

unfoldable pub validate_open_model_artifact : ModelArtifact → List String
validate_open_model_artifact a = canonical (flags (open_model_flags a))
