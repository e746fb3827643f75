-- ===== src/Jobs/Sound.antt =====
-- When a research job is well formed: its metadata, its timeline, and what its status asks of both.
use hedge_desk.Prelude.{
  ℕ, ◌≤◌, ◌≡◌, ◌↔◌, refl, ap, ◌∙◌, subst₂, String, Bool, true, false, List, [], ◌++◌, Option, none,
  some, any, has_double, NoneHolds, NoneHolds-append, reasons-nil, is_blank, is_empty, arith, ok,
  err, type_error, >>=-eq-ok, ok-injective,
}
use hedge_desk.Time.{Moment, DateTime, naive, aware, datetime_gt}
use hedge_desk.Jobs.{
  JobStatus, queued, running, completed, failed, cancelled, blocked, ResearchJob, present_before,
  both_backward, is_secret_key, metadata_flags, job_time_flags, status_flags, validate_research_job,
  is_absent_text, is_absent_time, job_flags,
}

-- Created, started and completed, in this order, as far as the job has got.
pub data Timeline : DateTime → Option DateTime → Option DateTime → Type 0 where
  waiting : (c : Moment) → Timeline (aware c) none none
  begun : (c s : Moment) → c.utc ≤ s.utc → Timeline (aware c) (some (aware s)) none
  ended :
      (c s e : Moment)
      → c.utc ≤ s.utc
      → s.utc ≤ e.utc
      → Timeline (aware c) (some (aware s)) (some (aware e))

-- What a status asks of the times, the outputs and the error of a job.
abbrev pub Standing :
    JobStatus → Option DateTime → Option DateTime → List String → Option String → Type 0
Standing queued s e outputs error = (is_absent_time s ≡ true) × (is_absent_time e ≡ true)
Standing running s e outputs error = is_absent_time s ≡ false
Standing completed s e outputs error = (is_absent_time e ≡ false) × (is_empty outputs ≡ false)
Standing failed s e outputs error = (is_absent_time e ≡ false) × (is_absent_text error ≡ false)
Standing cancelled s e outputs error = is_absent_time e ≡ false
Standing blocked s e outputs error = (is_absent_time e ≡ false) × (is_absent_text error ≡ false)

pub record SoundJob (job : ResearchJob) : Type 0 where
  pub identified : is_blank job.job_id ≡ false
  pub typed : is_blank job.job_type ≡ false
  pub requested : is_blank job.requested_by ≡ false
  pub inputs_once : has_double job.input_dataset_ids ≡ false
  pub outputs_once : has_double job.output_dataset_ids ≡ false
  pub datasets_named : any is_blank (job.input_dataset_ids ++ job.output_dataset_ids) ≡ false
  pub versioned : is_blank job.code_version ≡ false
  pub no_secret : any (λ (key, value). is_secret_key key) job.input_parameters ≡ false
  pub timeline : Timeline job.created_at job.started_at job.completed_at
  pub standing :
      Standing job.status job.started_at job.completed_at job.output_dataset_ids job.error_state

to_timeline :
    (c : DateTime) (s e : Option DateTime)
    → present_before s c ≡ ok false
    → both_backward s e ≡ ok false
    → NoneHolds (job_time_flags c s e false false)
    → Timeline c s e
unfolding job_time_flags present_before both_backward datetime_gt
to_timeline (naive c) s e p q h = cc (h.0)
to_timeline (aware c) none none p q h = waiting c
to_timeline (aware c) none (some (naive e)) p q h = cc (h.1.1.0)
to_timeline (aware c) none (some (aware e)) p q h = cc (h.1.1.1.1.0)
to_timeline (aware c) (some (naive s)) e p q h = cc (h.1.0)
to_timeline (aware c) (some (aware s)) none p q h = begun c s (ground (arith, p))
to_timeline (aware c) (some (aware s)) (some (naive e)) p q h = cc (h.1.1.0)
to_timeline (aware c) (some (aware s)) (some (aware e)) p q h =
    ended c s e (ground (arith, p)) (ground (arith, q))

-- The tests on the times pass on a timeline.
record TimesPass (c : DateTime) (s e : Option DateTime) : Type 0 where
  not_early : present_before s c ≡ ok false
  not_backward : both_backward s e ≡ ok false
  flags_pass : NoneHolds (job_time_flags c s e false false)

from_timeline : (c : DateTime) (s e : Option DateTime) → Timeline c s e → TimesPass c s e
unfolding job_time_flags present_before both_backward datetime_gt
from_timeline _ _ _ (waiting c) = ground arith
from_timeline _ _ _ (begun c s h) = ground arith
from_timeline _ _ _ (ended c s e h k) = ground arith

to_standing :
    (status : JobStatus) (s e : Option DateTime) (outputs : List String) (error : Option String)
    → NoneHolds (status_flags status s e outputs error)
    → Standing status s e outputs error
unfolding status_flags
to_standing queued s e outputs error h = ground arith
to_standing running s e outputs error h = ground arith
to_standing completed s e outputs error h = ground arith
to_standing failed s e outputs error h = ground arith
to_standing cancelled s e outputs error h = ground arith
to_standing blocked s e outputs error h = ground arith

ended_began :
    (c : DateTime) (s e : Option DateTime)
    → Timeline c s e
    → is_absent_time e ≡ false
    → is_absent_time s ≡ false
ended_began _ _ _ (waiting c) h = cc
ended_began _ _ _ (begun c s k) h = refl
ended_began _ _ _ (ended c s e k l) h = refl

from_standing :
    (status : JobStatus) (c : DateTime) (s e : Option DateTime) (outputs : List String)
    (error : Option String)
    → Timeline c s e
    → Standing status s e outputs error
    → NoneHolds (status_flags status s e outputs error)
unfolding status_flags
from_standing queued c s e outputs error t h = ground arith
from_standing running c s e outputs error t h = ground arith
from_standing completed c s e outputs error t h = ground (arith, ended_began c s e t)
from_standing failed c s e outputs error t h = ground arith
from_standing cancelled c s e outputs error t h = ground arith
from_standing blocked c s e outputs error t h = ground arith

-- The comparisons found nothing.
in_order :
    (c : DateTime) (s e : Option DateTime) (early backward : Bool)
    → NoneHolds (job_time_flags c s e early backward)
    → (early ≡ false) × (backward ≡ false)
unfolding job_time_flags
in_order c s e early backward h = (h.1.1.1.0, h.1.1.1.1.1.0)

parts_iff :
    (job : ResearchJob) (early backward : Bool)
    → NoneHolds (job_flags job early backward) ↔ (
        NoneHolds (metadata_flags job)
        × NoneHolds (job_time_flags job.created_at job.started_at job.completed_at early backward)
        × NoneHolds (
            status_flags job.status job.started_at job.completed_at job.output_dataset_ids
              job.error_state))
unfolding job_flags
parts_iff job early backward =
    let times = job_time_flags job.created_at job.started_at job.completed_at early backward in
    let status =
      status_flags job.status job.started_at job.completed_at job.output_dataset_ids
        job.error_state in
    let outer = NoneHolds-append (metadata_flags job) (times ++ status) in
    let inner = NoneHolds-append times status in
    (
      (λ h. let (x, y) = outer.0 h in let (z, u) = inner.0 y in (x, z, u)),
      (λ h. outer.1 (h.0, inner.1 (h.1, h.2))),
    )

to_sound :
    (job : ResearchJob)
    → NoneHolds (metadata_flags job)
    → Timeline job.created_at job.started_at job.completed_at
    → Standing job.status job.started_at job.completed_at job.output_dataset_ids job.error_state
    → SoundJob job
unfolding metadata_flags
to_sound job h t k = record {
  identified = ground (arith, h.0);
  typed = ground (arith, h.0);
  requested = ground (arith, h.0);
  inputs_once = h.1.0;
  outputs_once = h.1.1.0;
  datasets_named = h.1.1.1.0;
  versioned = h.1.1.1.1.0;
  no_secret = h.1.1.1.1.1.0;
  timeline = t;
  standing = k;
}

metadata_passes : (job : ResearchJob) → SoundJob job → NoneHolds (metadata_flags job)
unfolding metadata_flags
metadata_passes job k = (
  rw (k.identified, k.typed, k.requested) refl,
  (k.inputs_once, (k.outputs_once, (k.datasets_named, (k.versioned, (k.no_secret, tt))))),
)

sound_of :
    (job : ResearchJob) (early backward : Bool)
    → present_before job.started_at job.created_at ≡ ok early
    → both_backward job.started_at job.completed_at ≡ ok backward
    → NoneHolds (job_flags job early backward)
    → SoundJob job
sound_of job early backward p q h =
    let (metadata, times, status) = (parts_iff job early backward).0 h in
    let (x, y) = in_order job.created_at job.started_at job.completed_at early backward times in
    to_sound job metadata
      (to_timeline job.created_at job.started_at job.completed_at (p ∙ ap ok x) (q ∙ ap ok y) (
        subst₂
          (λ a b. NoneHolds (job_time_flags job.created_at job.started_at job.completed_at a b)) x y
          times))
      (to_standing job.status job.started_at job.completed_at job.output_dataset_ids job.error_state
        status)

-- A job has no fault exactly where it is sound: identified, its data sets named and none twice, its
-- code version there, no parameter named like a secret, created, started and completed in this order at
-- times with a zone, and with what its status asks for: no times yet while queued, a start while
-- running, an end and outputs when completed, an end and an error when failed or blocked, an end when
-- cancelled.
pub research_job_exact : (job : ResearchJob) → (validate_research_job job ≡ ok []) ↔ SoundJob job
unfolding validate_research_job
research_job_exact job = (
  (λ h.
      let (early, p, h₁) = >>=-eq-ok (present_before job.started_at job.created_at) _ h in
      let (backward, q, h₂) = >>=-eq-ok (both_backward job.started_at job.completed_at) _ h₁ in
      sound_of job early backward p q
        ((reasons-nil (job_flags job early backward)).0 (ok-injective _ [] h₂))),
  (λ k.
      let t = from_timeline job.created_at job.started_at job.completed_at k.timeline in
      rw (t.not_early, t.not_backward)
        (ap ok (
          (reasons-nil (job_flags job false false)).1 (
            (parts_iff job false false).1 (
              metadata_passes job k,
              t.flags_pass,
              from_standing job.status job.created_at job.started_at job.completed_at
                  job.output_dataset_ids job.error_state k.timeline k.standing,
            ))))),
)

-- A start time with no zone on a job whose creation time has one raises TypeError: the code that
-- reports such a start time is never reached.
unzoned_start_raises :
    (job : ResearchJob) (c : Moment) (t : ℕ)
    → job.created_at ≡ aware c
    → job.started_at ≡ some (naive t)
    → validate_research_job job ≡ err type_error
unfolding validate_research_job present_before datetime_gt
unzoned_start_raises job c t p q = rw (p, q)
