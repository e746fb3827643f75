-- ===== src/Paper/Settler/Settled.antt =====
-- What holds of the log of outcomes over any sequence of settlements.
use hedge_desk.Prelude.{
  ◌≡◌, refl, sym, ap, ◌∙◌, subst, String, false, ◌||◌, ◌&&◌, Option, List, [], ◌∷◌, ◌++◌, Result,
  ok, err, arith, str_eq, eq_iff, Bool-cases, inl, inr, >>=-eq-ok, ok-injective, checks-bind,
}
use hedge_desk.Time.{Moment, DateTime}
use hedge_desk.Json.{Codec}
use hedge_desk.Digest.{Digest}
use hedge_desk.Dict.{Dict}
use hedge_desk.Paper.Runner.{Entry, RunnerState}
use hedge_desk.Paper.Log.{Outcome, LogEntry, append_outcome, read_log}
use hedge_desk.Paper.Settler.{Surroundings, SettleNote, is_recorded, already_settled, record_once}
use hedge_desk.Paper.Settler.Run.{
  Settling, pass_over, raises, records, do_settling, settling_of, settle_entries,
  settle_paper_outcomes, settlement_state, sort_entries, then_rest, with_state,
}

-- No outcome of a plan is in the log twice.
abbrev pub OnceEach : List LogEntry → Type 0
OnceEach [] = Unit {0}
OnceEach (e ∷ later) =
    (is_recorded e.content.candidate_id e.content.outcome later ≡ false) × OnceEach later

-- The log is a longer one: its entries are kept, in their order and ahead of the new ones.
pub record Longer (log longer : List LogEntry) : Type 0 where
  pub added : List LogEntry
  pub is : longer ≡ log ++ added
  pub once : OnceEach log → OnceEach longer

append-nil : (log : List LogEntry) → log ≡ log ++ []
append-nil [] = refl
append-nil (e ∷ log) = ap (λ l. e ∷ l) (append-nil log)

append-append : (a b c : List LogEntry) → (a ++ b) ++ c ≡ a ++ (b ++ c)
append-append [] b c = refl
append-append (e ∷ a) b c = ap (λ l. e ∷ l) (append-append a b c)

Longer-refl : (log : List LogEntry) → Longer log log
Longer-refl log = record { added = []; is = append-nil log; once = λ h. h }

Longer-trans : (a b c : List LogEntry) → Longer a b → Longer b c → Longer a c
Longer-trans a b c h k = record {
  added = h.added ++ k.added;
  is = k.is ∙ ap (λ l. l ++ k.added) h.is ∙ append-append a h.added k.added;
  once = λ o. k.once (h.once o);
}

str_eq_sym : (a b : String) → str_eq a b ≡ str_eq b a
str_eq_sym a b = elim (Bool-cases (str_eq a b)) [
  | inl same ↦ subst (λ x. str_eq a x ≡ str_eq x a) ((eq_iff a b).0 same) refl
  | inr differ ↦ elim (Bool-cases (str_eq b a)) [
    | inl same ↦ cc (differ, (eq_iff a b).1 (sym ((eq_iff b a).0 same)))
    | inr other ↦ differ ∙ sym other
  ]
]

recorded-append :
    (id outcome : String) (log : List LogEntry) (e : LogEntry)
    → is_recorded id outcome (log ++ e ∷ []) ≡ (
        is_recorded id outcome log
        || (str_eq e.content.candidate_id id && str_eq e.content.outcome outcome))
unfolding is_recorded
recorded-append id outcome [] e = ground arith
recorded-append id outcome (x ∷ log) e = ground (arith, recorded-append id outcome log e)

append-OnceEach :
    (log : List LogEntry) (e : LogEntry)
    → is_recorded e.content.candidate_id e.content.outcome log ≡ false
    → OnceEach log
    → OnceEach (log ++ e ∷ [])
unfolding is_recorded
append-OnceEach [] e h o = (refl, tt)
append-OnceEach (x ∷ log) e h o = (
  ground (
    arith,
    recorded-append x.content.candidate_id x.content.outcome log e,
    o.0,
    h,
    str_eq_sym e.content.candidate_id x.content.candidate_id,
    str_eq_sym e.content.outcome x.content.outcome,
  ),
  append-OnceEach log e (ground (arith, h)) o.1,
)

then_rest-Longer :
    (key : String) (log : List LogEntry)
    (later : List LogEntry → List LogEntry × Result (List (String × SettleNote)))
    (x : Result (List LogEntry × SettleNote))
    → ((r : List LogEntry × SettleNote) → x ≡ ok r → Longer log r.0)
    → ((longer : List LogEntry) → Longer longer (later longer).0)
    → Longer log (then_rest key log later x).0
then_rest-Longer key log later (err error) h k = Longer-refl log
then_rest-Longer key log later (ok (longer, note)) h k =
    Longer-trans log longer (later longer).0 (h (longer, note) refl) (k longer)

module _ (digest : Digest) where
  read_log-eq-ok : (log entries : List LogEntry) → read_log digest log ≡ ok entries → log ≡ entries
  unfolding read_log
  read_log-eq-ok log entries h = ground (arith, h)

  append_outcome-Longer :
      (log : List LogEntry) (o : Outcome) (r : List LogEntry × LogEntry)
      → is_recorded o.candidate_id o.outcome log ≡ false
      → append_outcome digest log o ≡ ok r
      → Longer log r.0
  unfolding append_outcome
  append_outcome-Longer log o r new h =
      let (_, k) = checks-bind (_ ∷ []) _ r h in
      subst (λ (y : List LogEntry × LogEntry). Longer log y.0) (ok-injective _ r k)
        (record { added = _; is = refl; once = append-OnceEach log _ new })

  record_once-Longer :
      (log : List LogEntry) (o : Outcome) (codes : List String) (r : List LogEntry × SettleNote)
      → record_once digest log o codes ≡ ok r
      → Longer log r.0
  unfolding record_once already_settled
  record_once-Longer log o codes r h =
      let (already, p, h₁) = >>=-eq-ok (already_settled digest log o.candidate_id o.outcome) _ h in
      let (entries, q, p₁) = >>=-eq-ok (read_log digest log) _ p in
      elim (Bool-cases already) [
        | inl done ↦
            subst (λ (y : List LogEntry × SettleNote). Longer log y.0)
              (ok-injective _ r (rw done at h₁)) (Longer-refl log)
        | inr fresh ↦
            let (x, a, h₂) = >>=-eq-ok (append_outcome digest log o) _ (rw fresh at h₁) in
            let new : is_recorded o.candidate_id o.outcome log ≡ false =
              ap (is_recorded o.candidate_id o.outcome) (read_log-eq-ok log entries q)
              ∙ ok-injective _ already p₁
              ∙ fresh in
            subst (λ (y : List LogEntry × SettleNote). Longer log y.0) (ok-injective _ r h₂)
              (append_outcome-Longer log o x new a)
      ]

  settling-Longer :
      (log : List LogEntry) (s : Settling) (r : List LogEntry × SettleNote)
      → do_settling digest log s ≡ ok r
      → Longer log r.0
  unfolding do_settling
  settling-Longer log (pass_over code) r h =
      subst (λ (y : List LogEntry × SettleNote). Longer log y.0) (ok-injective _ r h)
        (Longer-refl log)
  settling-Longer log (raises error) r h = cc
  settling-Longer log (records o codes) r h = record_once-Longer log o codes r h

  entries-Longer :
      (codec : Codec) (around : Surroundings) (now : Moment) (d : Dict Entry) (log : List LogEntry)
      → Longer log (settle_entries codec digest around now d log).0
  unfolding settle_entries
  entries-Longer codec around now [] log = Longer-refl log
  entries-Longer codec around now ((key, e) ∷ rest) log =
      then_rest-Longer key log (λ longer. settle_entries codec digest around now rest longer)
        (do_settling digest log (settling_of codec around now key e))
        (λ r h. settling-Longer log (settling_of codec around now key e) r h)
        (λ longer. entries-Longer codec around now rest longer)

  -- A settlement leaves a longer log, whether it returns or raises.
  settle-Longer :
      (codec : Codec) (around : Surroundings) (file : Option RunnerState) (now : DateTime)
      (log : List LogEntry)
      → Longer log (settle_paper_outcomes codec digest around file now log).0
  unfolding settle_paper_outcomes
  settle-Longer codec around file now log = after_state (settlement_state file now)
    where
      after_state :
          (x : Result (RunnerState × Moment)) → Longer log (with_state codec digest around log x).0
      after_state (err error) = Longer-refl log
      after_state (ok (state, m)) = entries-Longer codec around m (sort_entries state.plans) log

-- What a settlement is run on, besides the log.
pub record Settlement : Type 0 where
  pub around : Surroundings
  pub file : Option RunnerState
  pub now : DateTime

-- A sequence of settlements, each of which may raise.
unfoldable pub settle_all : Codec → Digest → List Settlement → List LogEntry → List LogEntry
settle_all codec digest [] log = log
settle_all codec digest (s ∷ later) log =
    settle_all codec digest later (settle_paper_outcomes codec digest s.around s.file s.now log).0

settle_all-Longer :
    (codec : Codec) (digest : Digest) (settlements : List Settlement) (log : List LogEntry)
    → Longer log (settle_all codec digest settlements log)
unfolding settle_all
settle_all-Longer codec digest [] log = Longer-refl log
settle_all-Longer codec digest (s ∷ later) log =
    let first = (settle_paper_outcomes codec digest s.around s.file s.now log).0 in
    Longer-trans log first (settle_all codec digest later first)
      (settle-Longer digest codec s.around s.file s.now log)
      (settle_all-Longer codec digest later first)

-- Where no outcome of a plan is in a log twice, none is after any sequence of settlements, whatever is
-- in the files and whether each returns or raises; and the entries of the log are kept, ahead of the
-- new ones.
pub settled_once :
    (codec : Codec) (digest : Digest) (settlements : List Settlement) (log : List LogEntry)
    → OnceEach log
    → OnceEach (settle_all codec digest settlements log)
      × (added : List LogEntry) × (settle_all codec digest settlements log ≡ log ++ added)
settled_once codec digest settlements log h =
    let k = settle_all-Longer codec digest settlements log in (k.once h, k.added, k.is)
