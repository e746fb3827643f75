-- ===== src/Paper/Runner/Changes.antt =====
-- A sequence of ticks and human closes changes the entries one at a time.
use hedge_desk.Prelude.{
  ◌≡◌, inl, inr, refl, sym, ap, subst, String, Bool, false, Option, none, some, List, [], ◌∷◌,
  Result, ok, err, checks-bind, >>=-eq-ok, ok-injective, arith, eq_iff, is_empty, Bool-cases,
  NoneHolds,
}
use hedge_desk.Time.{Moment, DateTime, aware, aware_or}
use hedge_desk.Digest.{Digest}
use hedge_desk.Dict.{Dict, get, put}
use hedge_desk.Options.Exit.{default_exit_policy}
use hedge_desk.Paper.Plan.{PaperTradePlan, is_approved}
use hedge_desk.Paper.Authorize.{PaperOpen}
use hedge_desk.Paper.Close.{PaperClose, close_paper_trade}
use hedge_desk.Paper.Runner.{
  Entry, RunnerState, PlanFile, Loading, plan_loaded, load_refused, load_raised, status_open,
  entry_or, load_state,
}
use hedge_desk.Paper.Runner.Tick.{
  Providers, Note, Ticked, Report, tick_entry, tick_plan, tick_file, tick_files, written_state,
  advance_paper_lifecycle,
}
use hedge_desk.Paper.Runner.Close.{
  CloseRequest, closed_entry, decision_of, find_plan, entry_checks, entry_found, open_found,
  decision_checks, code_checks, close_paper_position,
}
use hedge_desk.Paper.Runner.Forward.{Progress, closes, tick_entry-Progress}

-- What happens to a state file: a tick, or a human close. A call that raises writes nothing.
pub data RunnerEvent : Type 0 where
  tick : Providers → List PlanFile → DateTime → RunnerEvent
  close : List PlanFile → CloseRequest → RunnerEvent

abbrev pub tick_result :
    Option RunnerState → Result (Option RunnerState × Report) → Option RunnerState
tick_result file (ok (written, report)) = written
tick_result file (err error) = file

abbrev pub close_result :
    Option RunnerState → Result (RunnerState × PaperClose) → Option RunnerState
close_result file (ok (state, closed)) = some state
close_result file (err error) = file

unfoldable pub run_event : Digest → RunnerEvent → Option RunnerState → Option RunnerState
run_event digest (tick providers files now) file =
    tick_result file (advance_paper_lifecycle digest providers files file now)
run_event digest (close files request) file =
    close_result file (close_paper_position digest files file request)

unfoldable pub run_events : Digest → List RunnerEvent → Option RunnerState → Option RunnerState
run_events digest [] file = file
run_events digest (event ∷ later) file = run_events digest later (run_event digest event file)

-- The entries of a state file; one that is missing has none.
abbrev pub entries_of : Option RunnerState → Dict Entry
entries_of none = []
entries_of (some state) = state.plans

-- Entries that change one after the other, each by a step of its plan.
pub data Changes (digest : Digest) (d : Dict Entry) : Dict Entry → Type 0 where
  none_yet : Changes digest d d
  step :
      {d' : Dict Entry} (key : String) (plan : PaperTradePlan) (e' : Entry)
      → Changes digest d d'
      → Progress digest (entry_or (get key d') plan) e'
      → Changes digest d (put key e' d')

changes_after :
    (digest : Digest) (d d' d'' : Dict Entry)
    → Changes digest d d'
    → Changes digest d' d''
    → Changes digest d d''
changes_after digest d d' _ c none_yet = c
changes_after digest d d' _ c (step key plan e' c' p) =
    step key plan e' (changes_after digest d d' _ c c') p

module _ (digest : Digest) where
  tick_plan_lem :
      (providers : Providers) (now : Moment) (plan : PaperTradePlan) (d : Dict Entry)
      (r : Dict Entry × Option Note × Bool)
      → tick_plan digest providers now plan d ≡ ok r
      → Changes digest d r.0
  unfolding tick_plan
  tick_plan_lem providers now plan d r h =
      elim (Bool-cases (is_approved plan.authorization.status)) [
        | inl approved ↦
            let (x, p, h₁) =
              >>=-eq-ok (tick_entry digest providers plan (entry_or (get plan.plan_id d) plan) now)
                _ (rw approved at h) in
            subst (λ (y : Dict Entry × Option Note × Bool). Changes digest d y.0)
              (ok-injective _ r h₁)
              (step plan.plan_id plan x.0 none_yet (
                tick_entry-Progress digest plan (entry_or (get plan.plan_id d) plan) now providers x
                  p))
        | inr other ↦
            subst (λ (y : Dict Entry × Option Note × Bool). Changes digest d y.0)
              (ok-injective _ r (rw other at h)) none_yet
      ]

  tick_file_lem :
      (providers : Providers) (now : Moment) (o : Loading) (d : Dict Entry)
      (r : Dict Entry × Option Note × Bool)
      → tick_file digest providers now o d ≡ ok r
      → Changes digest d r.0
  unfolding tick_file
  tick_file_lem providers now (load_raised error) d r h = cc
  tick_file_lem providers now load_refused d r h =
      subst (λ (y : Dict Entry × Option Note × Bool). Changes digest d y.0) (ok-injective _ r h)
        none_yet
  tick_file_lem providers now (plan_loaded plan) d r h = tick_plan_lem providers now plan d r h

  tick_files_lem :
      (providers : Providers) (now : Moment) (files : List PlanFile) (d : Dict Entry) (t : Ticked)
      → tick_files digest providers now files d ≡ ok t
      → Changes digest d t.plans
  unfolding tick_files
  tick_files_lem providers now [] d t h =
      subst (λ (y : Ticked). Changes digest d y.plans) (ok-injective _ t h) none_yet
  tick_files_lem providers now (file ∷ files) d t h =
      let (r, p, h₁) = >>=-eq-ok (tick_file digest providers now file.loaded d) _ h in
      let (rest, q, h₂) = >>=-eq-ok (tick_files digest providers now files r.0) _ h₁ in
      subst (λ (y : Ticked). Changes digest d y.plans) (ok-injective _ t h₂)
        (changes_after digest d r.0 rest.plans (tick_file_lem providers now file.loaded d r p)
          (tick_files_lem providers now files r.0 rest q))

  load_state_lem :
      (file : Option RunnerState) (state : RunnerState)
      → load_state file ≡ ok state
      → state.plans ≡ entries_of file
  unfolding load_state
  load_state_lem none state h = sym (ap (λ s. s.plans) (ok-injective _ state h))
  load_state_lem (some raw) state h =
      let (_, k) = checks-bind (_ ∷ _ ∷ []) _ state h in
      sym (ap (λ s. s.plans) (ok-injective raw state k))

  written_lem :
      (file : Option RunnerState) (state : RunnerState) (t : Ticked)
      → Changes digest (entries_of file) t.plans
      → Changes digest (entries_of file) (entries_of (written_state file state t))
  written_lem file state t c = elim (Bool-cases t.ticked) [
    | inl ticked ↦ rw ticked c
    | inr idle ↦ rw idle none_yet
  ]

  found_lem :
      (o : Option Entry) (plan : PaperTradePlan) (e : Entry)
      → entry_found o ≡ ok e
      → e ≡ entry_or o plan
  found_lem none plan e h = cc
  found_lem (some x) plan e h = sym (ok-injective x e h)

  open_found_lem : (o : Option PaperOpen) (x : PaperOpen) → open_found o ≡ ok x → o ≡ some x
  open_found_lem none x h = cc
  open_found_lem (some y) x h = cc

  open_status :
      (plan : PaperTradePlan) (e : Entry) → NoneHolds (entry_checks plan e) → e.status ≡ status_open
  unfolding entry_checks
  open_status plan e h = (eq_iff e.status status_open).0 (ground (arith, h.0))

  advance_lem :
      (providers : Providers) (files : List PlanFile) (file : Option RunnerState) (now : DateTime)
      (r : Option RunnerState × Report)
      → advance_paper_lifecycle digest providers files file now ≡ ok r
      → Changes digest (entries_of file) (entries_of r.0)
  unfolding advance_paper_lifecycle
  advance_lem providers files file now r h =
      let (m, _, h₁) = >>=-eq-ok (aware_or now _) _ h in
      elim (Bool-cases (is_empty files)) [
        | inl empty ↦
            subst
              (λ (y : Option RunnerState × Report).
                Changes digest (entries_of file) (entries_of y.0))
              (ok-injective _ r (rw empty at h₁)) none_yet
        | inr some_files ↦
            let (state, p, h₂) = >>=-eq-ok (load_state file) _ (rw some_files at h₁) in
            let (t, q, h₃) = >>=-eq-ok (tick_files digest providers m files state.plans) _ h₂ in
            subst
              (λ (y : Option RunnerState × Report).
                Changes digest (entries_of file) (entries_of y.0))
              (ok-injective _ r h₃)
              (written_lem file state t (
                subst (λ d. Changes digest d t.plans) (load_state_lem file state p)
                  (tick_files_lem providers m files state.plans t q)))
      ]

  close_lem :
      (files : List PlanFile) (file : Option RunnerState) (r : CloseRequest)
      (x : RunnerState × PaperClose)
      → close_paper_position digest files file r ≡ ok x
      → Changes digest (entries_of file) x.0.plans
  unfolding close_paper_position
  close_lem files file r x h =
      let (_, h₁) = checks-bind (decision_checks r.human_id) _ x h in
      let (decided, _, h₂) = >>=-eq-ok (aware_or r.decided_at _) _ h₁ in
      let (_, h₃) = checks-bind (code_checks r.reason_codes) _ x h₂ in
      let (plan, _, h₄) = >>=-eq-ok (find_plan r.plan_id files) _ h₃ in
      let (state, p, h₅) = >>=-eq-ok (load_state file) _ h₄ in
      let (e, q, h₆) = >>=-eq-ok (entry_found (get r.plan_id state.plans)) _ h₅ in
      let (clear, h₇) = checks-bind (entry_checks plan e) _ x h₆ in
      let (o, u, h₈) = >>=-eq-ok (open_found e.open_record) _ h₇ in
      let (c, v, h₉) =
        >>=-eq-ok
          (close_paper_trade digest o plan r.short_quote r.long_quote r.exit_commission_per_contract
            (aware decided) false default_exit_policy)
          _ h₈ in
      subst (λ (y : RunnerState × PaperClose). Changes digest (entries_of file) y.0.plans)
        (ok-injective _ x h₉)
        (subst
          (λ d.
            Changes digest d (put r.plan_id (closed_entry e c (decision_of r decided)) state.plans))
          (load_state_lem file state p)
          (step r.plan_id plan (closed_entry e c (decision_of r decided)) none_yet (
            subst (λ a. Progress digest a (closed_entry e c (decision_of r decided)))
              (found_lem _ plan e q)
              (closes plan o r (aware decided) c (open_status plan e clear)
                (open_found_lem e.open_record o u) v refl refl refl))))

  event_lem :
      (event : RunnerEvent) (file : Option RunnerState)
      → Changes digest (entries_of file) (entries_of (run_event digest event file))
  unfolding run_event
  event_lem (tick providers files now) file =
      after_tick file _ (λ r. advance_lem providers files file now r)
    where
      after_tick :
          (file : Option RunnerState) (x : Result (Option RunnerState × Report))
          → ((r : Option RunnerState × Report)
              → x ≡ ok r
              → Changes digest (entries_of file) (entries_of r.0))
          → Changes digest (entries_of file) (entries_of (tick_result file x))
      after_tick file (ok r) h = h r refl
      after_tick file (err e) h = none_yet
  event_lem (close files request) file = after_close file _ (λ x. close_lem files file request x)
    where
      after_close :
          (file : Option RunnerState) (x : Result (RunnerState × PaperClose))
          → ((r : RunnerState × PaperClose) → x ≡ ok r → Changes digest (entries_of file) r.0.plans)
          → Changes digest (entries_of file) (entries_of (close_result file x))
      after_close file (ok r) h = h r refl
      after_close file (err e) h = none_yet

  pub events_lem :
      (events : List RunnerEvent) (file : Option RunnerState)
      → Changes digest (entries_of file) (entries_of (run_events digest events file))
  unfolding run_events
  events_lem [] file = none_yet
  events_lem (event ∷ later) file =
      changes_after digest (entries_of file) (entries_of (run_event digest event file)) _
        (event_lem event file) (events_lem later (run_event digest event file))
