-- ===== src/Models/Splits/NoLeakage.antt =====
-- What keeps the windows of an admissible split apart.
use hedge_desk.Prelude.{
  ℕ, ◌+◌, ◌≤◌, ◌<◌, ◌≡◌, refl, ap, ◌∙◌, subst, true, false, Option, none, some, [], ◌∷◌, any, map,
  NoneHolds, NoneHolds-append, reasons-nil, is_empty_iff, flags, canonical, checks-bind, >>=-eq-ok,
  ok, ok-injective, arith,
}
use hedge_desk.Decimal.{ℤ, pos_part, int_lt, is_negative}
use hedge_desk.Time.{Moment, DateTime, aware, aware_or, aware_or-eq-ok}
use hedge_desk.Digest.{Digest}
use hedge_desk.Models.Splits.{
  EvaluationWindow, EvaluationSplitGate, Interval, Windows, window_interval, all_windows,
  time_flags, hash_flags, split_flags, split_gate, evaluate_purged_walk_forward_split,
}

-- The times of three windows, kept apart by the embargo and before the evaluation.
pub record Purged (w : Windows) (embargo : ℕ) (now : Moment) : Type 0 where
  pub train : Interval
  pub validation : Interval
  pub test : Interval
  pub train_times : window_interval w.train ≡ some train
  pub validation_times : window_interval w.validation ≡ some validation
  pub test_times : window_interval w.test ≡ some test
  pub train_forward : train.start.utc < train.end.utc
  pub validation_forward : validation.start.utc < validation.end.utc
  pub test_forward : test.start.utc < test.end.utc
  pub train_apart : train.end.utc + embargo ≤ validation.start.utc
  pub validation_apart : validation.end.utc + embargo ≤ test.start.utc
  pub known : test.end.utc ≤ now.utc

purged_lem :
    (w : Windows) (embargo : ℕ) (now : Moment) (a b c : Option Interval)
    → window_interval w.train ≡ a
    → window_interval w.validation ≡ b
    → window_interval w.test ≡ c
    → NoneHolds (time_flags a b c embargo now)
    → Purged w embargo now
unfolding time_flags
purged_lem w embargo now (some a) (some b) (some c) p q r h = record {
  train = a;
  validation = b;
  test = c;
  train_times = p;
  validation_times = q;
  test_times = r;
  train_forward = ground (arith, h.0);
  validation_forward = ground (arith, h.0);
  test_forward = ground (arith, h.0);
  train_apart = ground (arith, h.1.0);
  validation_apart = ground (arith, h.1.1.0);
  known = ground (arith, h.1.1.1.0);
}
purged_lem w embargo now none b c p q r h = cc (h.0)
purged_lem w embargo now (some a) none c p q r h = cc (h.0)
purged_lem w embargo now (some a) (some b) none p q r h = cc (h.0)

-- What an admissible split is.
pub record AdmissibleSplit (w : Windows) (embargo : ℕ) (now : Moment) (minimum : ℤ) : Type 0 where
  pub purged : Purged w embargo now
  pub enough : any (λ x. int_lt x.observation_count minimum) (all_windows w) ≡ false
  pub hashes : NoneHolds (hash_flags (map (λ x. x.dataset_sha256) (all_windows w)))

admissible_lem :
    (w : Windows) (embargo : ℕ) (now : Moment) (minimum : ℤ)
    → NoneHolds (split_flags w embargo now minimum)
    → AdmissibleSplit w embargo now minimum
unfolding split_flags
admissible_lem w embargo now minimum h =
    let parts =
      (NoneHolds-append
          (time_flags (window_interval w.train) (window_interval w.validation)
            (window_interval w.test) embargo now)
          (hash_flags (map (λ x. x.dataset_sha256) (all_windows w)))).0
        h.1.1 in
    record {
      purged =
          purged_lem w embargo now (window_interval w.train) (window_interval w.validation)
            (window_interval w.test) refl refl refl parts.0;
      enough = h.1.0;
      hashes = parts.1;
    }

gate_admissible :
    (digest : Digest) (w : Windows) (gap : ℕ) (now : Moment) (minimum : ℤ) (g : EvaluationSplitGate)
    → split_gate digest w gap now minimum (canonical (flags (split_flags w gap now minimum))) ≡ g
    → g.admissible ≡ true
    → AdmissibleSplit w gap now minimum
unfolding split_gate
gate_admissible digest w gap now minimum g e h = admissible_lem w gap now minimum (
    (reasons-nil (split_flags w gap now minimum)).0 (
      (is_empty_iff (canonical (flags (split_flags w gap now minimum)))).0
        (ap (λ x. x.admissible) e ∙ h)))

pub admissible_split :
    (digest : Digest) (w : Windows) (embargo : ℤ) (evaluated_at : DateTime) (minimum : ℤ)
    (g : EvaluationSplitGate)
    → evaluate_purged_walk_forward_split digest w embargo evaluated_at minimum ≡ ok g
    → g.admissible ≡ true
    → (now : Moment) × (evaluated_at ≡ aware now) × AdmissibleSplit w (pos_part embargo) now minimum
unfolding evaluate_purged_walk_forward_split
admissible_split digest w embargo evaluated_at minimum g h adm =
    let (now, zoned, h₁) = >>=-eq-ok (aware_or evaluated_at _) _ h in
    let (_, h₂) = checks-bind ((is_negative embargo, _) ∷ (_, _) ∷ []) _ g h₁ in
    (
      now,
      aware_or-eq-ok evaluated_at _ now zoned,
      gate_admissible digest w (pos_part embargo) now minimum g (ok-injective _ g h₂) adm,
    )

-- A time that the window covers.
pub record Inside (w : EvaluationWindow) (t : Moment) : Type 0 where
  pub interval : Interval
  pub times : window_interval w ≡ some interval
  pub started : interval.start.utc ≤ t.utc
  pub not_ended : t.utc ≤ interval.end.utc

-- The times inside two windows are the gap or more apart, and the last window ends by now.
pub record Apart (w : Windows) (gap : ℕ) (now : Moment) : Type 0 where
  pub train_validation :
      (t u : Moment) → Inside w.train t → Inside w.validation u → t.utc + gap ≤ u.utc
  pub train_test : (t u : Moment) → Inside w.train t → Inside w.test u → t.utc + gap ≤ u.utc
  pub validation_test :
      (t u : Moment) → Inside w.validation t → Inside w.test u → t.utc + gap ≤ u.utc
  pub none_later : (u : Moment) → Inside w.test u → u.utc ≤ now.utc

same_interval : (a b : Interval) (o : Option Interval) → o ≡ some a → o ≡ some b → a ≡ b
same_interval a b o p q = cc

bounds :
    (w : EvaluationWindow) (i : Interval) (t : Moment)
    → window_interval w ≡ some i
    → Inside w t
    → (i.start.utc ≤ t.utc) × (t.utc ≤ i.end.utc)
bounds w i t e k =
    subst (λ v. (v.start.utc ≤ t.utc) × (t.utc ≤ v.end.utc))
      (same_interval k.interval i (window_interval w) k.times e) (k.started, k.not_ended)

Purged-Apart : (w : Windows) (gap : ℕ) (now : Moment) → Purged w gap now → Apart w gap now
Purged-Apart w gap now p = record {
  train_validation = λ t u h k.
      let (_, x) = bounds w.train p.train t p.train_times h in
      let (y, _) = bounds w.validation p.validation u p.validation_times k in
      omega (arith, x, y, p.train_apart);
  train_test = λ t u h k.
      let (_, x) = bounds w.train p.train t p.train_times h in
      let (y, _) = bounds w.test p.test u p.test_times k in
      omega (arith, x, y, p.train_apart, p.validation_forward, p.validation_apart);
  validation_test = λ t u h k.
      let (_, x) = bounds w.validation p.validation t p.validation_times h in
      let (y, _) = bounds w.test p.test u p.test_times k in omega (arith, x, y, p.validation_apart);
  none_later =
      λ u k. let (_, x) = bounds w.test p.test u p.test_times k in omega (arith, x, p.known);
}

-- No leakage: of a split that is admissible when it is evaluated, every time inside the training
-- window is the embargo or more before every time inside the validation window and inside the test
-- window, every time inside the validation window is so before every time inside the test window, and
-- the test window covers no time after the evaluation.
pub split_no_leakage :
    (digest : Digest) (w : Windows) (embargo : ℤ) (evaluated_at : DateTime) (minimum : ℤ)
    (g : EvaluationSplitGate)
    → evaluate_purged_walk_forward_split digest w embargo evaluated_at minimum ≡ ok g
    → g.admissible ≡ true
    → (now : Moment) × (evaluated_at ≡ aware now) × Apart w (pos_part embargo) now
split_no_leakage digest w embargo evaluated_at minimum g h adm =
    let (now, zoned, split) = admissible_split digest w embargo evaluated_at minimum g h adm in
    (now, zoned, Purged-Apart w (pos_part embargo) now split.purged)
