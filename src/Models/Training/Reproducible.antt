-- ===== src/Models/Training/Reproducible.antt =====
-- When a training run is admissible.
use hedge_desk.Prelude.{
  ◌≤◌, ◌≡◌, ◌↔◌, refl, true, false, ◌++◌, all, has_double, NoneHolds, NoneHolds-append, flags,
  flags-nil, canonical, canonical-nil, append-nil_iff, is_empty_iff, is_blank, arith, eq_iff,
  valid_sha256,
}
use hedge_desk.Decimal.{is_negative}
use hedge_desk.Time.{Moment, DateTime, naive, aware, datetime_eq}
use hedge_desk.Models.{ModelTeam, quant, ai, ModelArtifact, same_team, validate_open_model_artifact}
use hedge_desk.Models.Quorum.Agreed.{OpenModel, OpenModel-exact}
use hedge_desk.Models.Training.{
  TrainingRunManifest, run_time_flags, run_hashes, dataset_hashes, identity_flags, binding_flags,
  validate_training_run,
}

-- A run that no one has to trust: of an open model, reproducible, on data from before it started, and
-- bound to the model in its team, code, cutoff, test data and report.
pub record Reproducible (run : TrainingRunManifest) (a : ModelArtifact) : Type 0 where
  pub open_model : OpenModel a
  pub named : is_blank run.run_id ≡ false
  pub method_named : is_blank run.split_method ≡ false
  pub seed : is_negative run.random_seed ≡ false
  pub hashes : all valid_sha256 (run_hashes run) ≡ true
  pub datasets_differ : has_double (dataset_hashes run) ≡ false
  pub cutoff : Moment
  pub start : Moment
  pub completion : Moment
  pub cutoff_time : run.data_cutoff ≡ aware cutoff
  pub start_time : run.started_at ≡ aware start
  pub completion_time : run.completed_at ≡ aware completion
  pub no_lookahead : cutoff.utc ≤ start.utc
  pub forward : start.utc ≤ completion.utc
  pub research : run.research_only ≡ true
  pub team : run.team ≡ a.team
  pub model : run.model_artifact_id ≡ a.artifact_id
  pub code : run.code_commit ≡ a.code_commit
  pub same_cutoff : datetime_eq run.data_cutoff a.training_cutoff ≡ true
  pub test_data : run.test_dataset_sha256 ≡ a.evaluation_dataset_sha256
  pub report : run.evaluation_report_sha256 ≡ a.evaluation_report_sha256

-- The three times of a run, in order.
record Ordered (c s d : DateTime) : Type 0 where
  first : Moment
  second : Moment
  third : Moment
  is_first : c ≡ aware first
  is_second : s ≡ aware second
  is_third : d ≡ aware third
  started : first.utc ≤ second.utc
  completed : second.utc ≤ third.utc

ordered_lem : (c s d : DateTime) → NoneHolds (run_time_flags c s d) → Ordered c s d
unfolding run_time_flags
ordered_lem (aware c) (aware s) (aware d) h = record {
  first = c;
  second = s;
  third = d;
  is_first = refl;
  is_second = refl;
  is_third = refl;
  started = ground (arith, h.1.0);
  completed = ground (arith, h.0);
}
ordered_lem (naive c) s d h = cc (h.0)
ordered_lem (aware c) (naive s) d h = cc (h.0)
ordered_lem (aware c) (aware s) (naive d) h = cc (h.0)

from_ordered :
    (c s d : DateTime) (x y z : Moment)
    → c ≡ aware x
    → s ≡ aware y
    → d ≡ aware z
    → x.utc ≤ y.utc
    → y.utc ≤ z.utc
    → NoneHolds (run_time_flags c s d)
unfolding run_time_flags
from_ordered c s d x y z p q r h k = rw (p, q, r) (ground arith, (ground arith, tt))

same_team_iff : (s t : ModelTeam) → (same_team s t ≡ true) ↔ (s ≡ t)
same_team_iff quant quant = ((λ h. refl), (λ h. refl))
same_team_iff ai ai = ((λ h. refl), (λ h. refl))
same_team_iff quant ai = ((λ h. cc), (λ h. cc))
same_team_iff ai quant = ((λ h. cc), (λ h. cc))

all_flags_iff :
    (run : TrainingRunManifest) (a : ModelArtifact)
    → NoneHolds (
        identity_flags run
        ++ (run_time_flags run.data_cutoff run.started_at run.completed_at ++ binding_flags run a))
      ↔ (NoneHolds (identity_flags run)
          × NoneHolds (run_time_flags run.data_cutoff run.started_at run.completed_at)
          × NoneHolds (binding_flags run a))
all_flags_iff run a =
    let times = run_time_flags run.data_cutoff run.started_at run.completed_at in
    let outer = NoneHolds-append (identity_flags run) (times ++ binding_flags run a) in
    let inner = NoneHolds-append times (binding_flags run a) in
    (
      (λ h. let (x, y) = outer.0 h in let (z, u) = inner.0 y in (x, z, u)),
      (λ h. outer.1 (h.0, inner.1 (h.1, h.2))),
    )

to_reproducible :
    (run : TrainingRunManifest) (a : ModelArtifact)
    → OpenModel a
    → NoneHolds (identity_flags run)
    → Ordered run.data_cutoff run.started_at run.completed_at
    → NoneHolds (binding_flags run a)
    → Reproducible run a
unfolding identity_flags binding_flags
to_reproducible run a open_model i o b = record {
  open_model = open_model;
  named = ground (arith, i.0);
  method_named = ground (arith, i.0);
  seed = i.1.0;
  hashes = ground (arith, i.1.1.0);
  datasets_differ = i.1.1.1.0;
  cutoff = o.first;
  start = o.second;
  completion = o.third;
  cutoff_time = o.is_first;
  start_time = o.is_second;
  completion_time = o.is_third;
  no_lookahead = o.started;
  forward = o.completed;
  research = ground (arith, b.0);
  team = (same_team_iff run.team a.team).0 (ground (arith, b.1.0));
  model = (eq_iff run.model_artifact_id a.artifact_id).0 (ground (arith, b.1.0));
  code = (eq_iff run.code_commit a.code_commit).0 (ground (arith, b.1.1.0));
  same_cutoff = ground (arith, b.1.1.1.0);
  test_data =
      (eq_iff run.test_dataset_sha256 a.evaluation_dataset_sha256).0 (ground (arith, b.1.1.1.1.0));
  report =
      (eq_iff run.evaluation_report_sha256 a.evaluation_report_sha256).0
        (ground (arith, b.1.1.1.1.1.0));
}

identity_passes :
    (run : TrainingRunManifest) (a : ModelArtifact)
    → Reproducible run a
    → NoneHolds (identity_flags run)
unfolding identity_flags
identity_passes run a k = (
  ground (arith, k.named, k.method_named),
  (k.seed, (ground (arith, k.hashes), (k.datasets_differ, tt))),
)

binding_passes :
    (run : TrainingRunManifest) (a : ModelArtifact)
    → Reproducible run a
    → NoneHolds (binding_flags run a)
unfolding binding_flags
binding_passes run a k =
    let team = (same_team_iff run.team a.team).1 k.team in
    let model = (eq_iff run.model_artifact_id a.artifact_id).1 k.model in
    let code = (eq_iff run.code_commit a.code_commit).1 k.code in
    let tests = (eq_iff run.test_dataset_sha256 a.evaluation_dataset_sha256).1 k.test_data in
    let report = (eq_iff run.evaluation_report_sha256 a.evaluation_report_sha256).1 k.report in
    (
      rw k.research refl,
      (
        rw (team, model) refl,
        (rw code refl, (rw k.same_cutoff refl, (rw tests refl, (rw report refl, tt)))),
      ),
    )

-- A training run is admissible exactly where it is reproducible: of an open model, named, seeded, with
-- five valid hashes of which the three data sets' differ, on data from before its start, for research
-- only, and of its artifact's team, code, cutoff, test data and report. Admissible or not, it is no
-- risk input and authorizes no trade.
pub training_exact :
    (run : TrainingRunManifest) (a : ModelArtifact)
    → (((validate_training_run run a).admissible ≡ true) ↔ Reproducible run a)
      × ((validate_training_run run a).authoritative_risk_input ≡ false)
      × ((validate_training_run run a).trade_authorized ≡ false)
unfolding validate_training_run
training_exact run a =
    let all =
      identity_flags run
      ++ (run_time_flags run.data_cutoff run.started_at run.completed_at ++ binding_flags run a) in
    let codes = validate_open_model_artifact a ++ flags all in
    (
      (
        (λ h.
            let parts =
              (append-nil_iff (validate_open_model_artifact a) (flags all)).0
                ((canonical-nil codes).0 ((is_empty_iff (canonical codes)).0 h)) in
            let (i, t, b) = (all_flags_iff run a).0 ((flags-nil all).0 parts.1) in
            to_reproducible run a ((OpenModel-exact a).0 parts.0) i
              (ordered_lem run.data_cutoff run.started_at run.completed_at t) b),
        (λ k. (is_empty_iff (canonical codes)).1 (
            (canonical-nil codes).1 (
              (append-nil_iff (validate_open_model_artifact a) (flags all)).1 (
                (OpenModel-exact a).1 k.open_model,
                (flags-nil all).1 (
                    (all_flags_iff run a).1 (
                      identity_passes run a k,
                      from_ordered run.data_cutoff run.started_at run.completed_at k.cutoff k.start
                          k.completion k.cutoff_time k.start_time k.completion_time k.no_lookahead
                          k.forward,
                      binding_passes run a k,
                    )),
              )))),
      ),
      refl,
      refl,
    )
