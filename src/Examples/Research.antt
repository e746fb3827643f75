-- ===== src/Examples/Research.antt =====
-- The theorems on research models, jobs, replays and the trading day, at concrete inputs.
use hedge_desk.Prelude.{
  ℕ, ◌+◌, ◌≡◌, ◌↔◌, refl, true, false, none, some, List, [], ◌∷◌, Result, ok, is_ok, from_ok,
  from_ok-eq, valid_sha256, has_double, checks, flags, canonical,
}
use hedge_desk.Decimal.{pos, pos_part, int_lt}
use hedge_desk.Time.{Moment, aware, midnight, later_by, aware_or, datetime_gt}
use hedge_desk.Models.{ModelTeam, quant, ai}
use hedge_desk.Models.Quorum.{
  ResearchVote, ResearchQuorumResult, synthetic_artifact, synthetic_vote, evaluate_research_quorum,
  vote_checks, both_teams, not_one, all_vote_reasons, vote_reasons, artifact_of,
}
use hedge_desk.Models.Quorum.Agreed.{QuorumOutcome, quorum_exact}
use hedge_desk.Models.Splits.{
  EvaluationSplitGate, synthetic_windows, evaluate_purged_walk_forward_split, split_gate,
  split_flags, time_flags, hash_flags, interval_of,
}
use hedge_desk.Models.Splits.NoLeakage.{Apart, split_no_leakage}
use hedge_desk.Models.Training.{TrainingRunManifest, validate_training_run}
use hedge_desk.Models.Training.Reproducible.{Reproducible, training_exact}
use hedge_desk.Jobs.{ResearchJob, failed, validate_research_job}
use hedge_desk.Jobs.Sound.{SoundJob, research_job_exact}
use hedge_desk.Replay.{
  ReplayEvent, ReplayEventKind, source_published, system_received, validation_complete,
  candidate_created, risk_complete, compliance_complete, human_pending, validate_replay,
}
use hedge_desk.Replay.Ordered.{ValidReplay, replay_exact}
use hedge_desk.Freshness.{trading_loop, expected_trading_day}
use hedge_desk.Freshness.TradingDay.{LastWeekday, expected_trading_day_last}
use hedge_desk.Examples.Desk.{hash, digest, at}

abbrev vote : ModelTeam → ResearchVote
vote team = synthetic_vote (midnight 739650) team

abbrev quorum : Result ResearchQuorumResult
quorum =
    evaluate_research_quorum (vote quant ∷ vote ai ∷ [])
      (synthetic_artifact quant ∷ synthetic_artifact ai ∷ [])

quorum_returns : is_ok quorum ≡ true
unfolding evaluate_research_quorum datetime_gt checks vote_checks both_teams not_one
    all_vote_reasons vote_reasons artifact_of
quorum_returns = refl

quorum_exact_example :
    QuorumOutcome
      (vote quant)
      (vote ai)
      (synthetic_artifact quant)
      (synthetic_artifact ai)
      (from_ok quorum quorum_returns)
quorum_exact_example =
    quorum_exact (vote quant) (vote ai) (synthetic_artifact quant) (synthetic_artifact ai)
      (from_ok quorum quorum_returns) (from_ok-eq quorum quorum_returns)

abbrev split : Result EvaluationSplitGate
split =
    evaluate_purged_walk_forward_split digest synthetic_windows (pos 604800000000) (midnight 739650)
      (pos 100)

split_returns : is_ok split ≡ true
unfolding evaluate_purged_walk_forward_split aware_or checks
split_returns = refl

split_admissible : (from_ok split split_returns).admissible ≡ true
unfolding from_ok evaluate_purged_walk_forward_split split_gate aware_or checks canonical flags
    split_flags time_flags hash_flags has_double valid_sha256 later_by int_lt interval_of
split_admissible = refl

split_no_leakage_example :
    (m : Moment) × (midnight 739650 ≡ aware m)
    × Apart synthetic_windows (pos_part (pos 604800000000)) m
split_no_leakage_example =
    split_no_leakage digest synthetic_windows (pos 604800000000) (midnight 739650) (pos 100)
      (from_ok split split_returns) (from_ok-eq split split_returns) split_admissible

abbrev training : TrainingRunManifest
training = record {
  run_id = "run-1";
  team = quant;
  model_artifact_id = "quant-synthetic-model-v1";
  code_commit = "deadbeef";
  environment_lock_sha256 = hash;
  training_dataset_sha256 = "cccccccccccccccccccccccccccccccccccccccccccccccccccccccccccccccc";
  validation_dataset_sha256 = "dddddddddddddddddddddddddddddddddddddddddddddddddddddddddddddddd";
  test_dataset_sha256 = "bbbbbbbbbbbbbbbbbbbbbbbbbbbbbbbbbbbbbbbbbbbbbbbbbbbbbbbbbbbbbbbb";
  evaluation_report_sha256 = "cccccccccccccccccccccccccccccccccccccccccccccccccccccccccccccccc";
  data_cutoff = midnight 739616;
  started_at = midnight 739617;
  completed_at = midnight 739618;
  random_seed = pos 7;
  split_method = "PURGED_WALK_FORWARD";
  research_only = true;
}

training_exact_example :
    (((validate_training_run training (synthetic_artifact quant)).admissible ≡ true)
      ↔ Reproducible training (synthetic_artifact quant))
    × ((validate_training_run training (synthetic_artifact quant)).authoritative_risk_input ≡ false)
    × ((validate_training_run training (synthetic_artifact quant)).trade_authorized ≡ false)
training_exact_example = training_exact training (synthetic_artifact quant)

abbrev job : ResearchJob
job = record {
  job_id = "job-1";
  job_type = "backtest";
  requested_by = "mentor";
  created_at = aware (at 10);
  started_at = some (aware (at 20));
  completed_at = some (aware (at 30));
  status = failed;
  input_dataset_ids = "bars" ∷ [];
  input_parameters = [];
  code_version = "1";
  model_version = none;
  output_dataset_ids = [];
  logs = [];
  error_state = some "no data";
}

research_job_exact_example : (validate_research_job job ≡ ok []) ↔ SoundJob job
research_job_exact_example = research_job_exact job

abbrev stage : ReplayEventKind → ℕ → ReplayEvent
stage kind seconds = record {
  kind = kind;
  event_time = aware (at seconds);
  received_time = aware (at (seconds + 1));
  artifact_id = "artifact";
}

abbrev timeline : List ReplayEvent
timeline =
    stage source_published 1
    ∷ stage system_received 2
    ∷ stage validation_complete 3
    ∷ stage candidate_created 4
    ∷ stage risk_complete 5
    ∷ stage compliance_complete 6
    ∷ stage human_pending 7
    ∷ []

replay_exact_example : ((validate_replay timeline).valid ≡ true) ↔ ValidReplay timeline
replay_exact_example = replay_exact timeline

-- 739616 is the first of January of 2026, a Thursday, and 739618 a Saturday.
expected_trading_day_last_example :
    (trading_loop 3 739618 ≡ expected_trading_day 739618)
    × LastWeekday (expected_trading_day 739618) 739618
expected_trading_day_last_example = expected_trading_day_last 0 739618
