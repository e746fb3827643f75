-- ===== src/Paper/Runner/Opens.antt =====
-- paper/runner.py: the tick of a pending plan whose approved terms are still executable.
use hedge_desk.Prelude.{
  ◌≡◌, refl, ◌∙◌, ap, String, true, false, Option, none, some, List, [], ◌∷◌, ◌++◌, is_empty, ok,
  arith, eq_iff, eq_refl,
}
use hedge_desk.Decimal.{ℤ, Decimal}
use hedge_desk.Time.{Moment, aware, aware_or, earlier}
use hedge_desk.Digest.{Digest}
use hedge_desk.Dict.{Dict, get, put, get-put}
use hedge_desk.Paper.Plan.{PaperTradePlan, is_approved}
use hedge_desk.Paper.Authorize.{PaperOpen, execute_paper_open}
use hedge_desk.Paper.Authorize.Fill.{Fillable}
use hedge_desk.Paper.Authorize.Ready.{Openable, open_returns, fill_returns}
use hedge_desk.Paper.Runner.{
  Entry, RunnerState, PlanFile, plan_loaded, entry_or, status_pending_open, status_open, load_state,
}
use hedge_desk.Paper.Runner.Tick.{
  Providers, Note, Report, Ticked, note_first, add_note, report_key, quoted, opened, tick_entry,
  tick_pending_open, tick_quotes, open_if_ready, opened_or_refused, tick_plan, tick_file,
  tick_files, advance_paper_lifecycle,
}
use hedge_desk.Paper.Runner.Returns.{AllReadable, are_other, other_file, other_files}

-- The entry of a plan that was opened.
abbrev pub opened_entry : Entry → PaperOpen → Entry
opened_entry e o = record e { status = status_open; open_record = some o }

entry_opens :
    (digest : Digest) (providers : Providers) (plan : PaperTradePlan) (e : Entry) (now : Moment)
    (size : ℤ) (credit : Decimal)
    → e.plan_hash ≡ plan.plan_hash
    → e.status ≡ status_pending_open
    → providers.quotes plan ≡ quoted size credit
    → Openable digest plan now
    → Fillable plan size credit now false
    → (o : PaperOpen) × (execute_paper_open digest plan (aware now) ≡ ok o)
      × (tick_entry digest providers plan e now ≡ ok (opened_entry e o, some (opened o)))
unfolding tick_entry tick_pending_open tick_quotes open_if_ready opened_or_refused
entry_opens digest providers plan e now size credit hash status quotes k f =
    let (o, opens) = open_returns digest plan size credit now k f in
    let (c, checked, ready) = fill_returns digest plan size credit now k f in
    let same = (eq_iff e.plan_hash plan.plan_hash).1 hash in
    let pending = (eq_iff e.status status_pending_open).1 status in
    let unexpired : earlier plan.approval_expires_at now ≡ false = ground (arith, k.unexpired) in
    (o, opens, rw (same, pending, unexpired, quotes, checked, ready, opens) refl)

-- The report has the note of the plan.
abbrev pub Notes : String → Note → Report → Type 0
Notes key n report = (front back : Report) × (report ≡ front ++ (key, n) ∷ back)

add_note-Notes :
    (other : String) (m : Option Note) (key : String) (n : Note) (report : Report)
    → Notes key n report
    → Notes key n (add_note other m report)
add_note-Notes other none key n report h = h
add_note-Notes other (some m) key n report (front, back, e) =
    ((other, m) ∷ front, back, ap (λ r. (other, m) ∷ r) e)

module _ (digest : Digest) (providers : Providers) (now : Moment) (plan : PaperTradePlan)
    (path : String) (after : List PlanFile) (g : Option Entry) (o : PaperOpen) where
  file_of : PlanFile
  file_of = record { path = path; loaded = plan_loaded plan }

  -- What the loop over the files ends in.
  record Opened (t : Ticked) : Type 0 where
    pub entry : get plan.plan_id t.plans ≡ some (opened_entry (entry_or g plan) o)
    pub reported : Notes plan.plan_id (opened o) t.report
    pub ticked : t.ticked ≡ true

  loop_opens :
      (before : List PlanFile) (d : Dict Entry)
      → get plan.plan_id d ≡ g
      → is_approved plan.authorization.status ≡ true
      → tick_entry digest providers plan (entry_or g plan) now
        ≡ ok (opened_entry (entry_or g plan) o, some (opened o))
      → AllReadable digest providers before
      → AllReadable digest providers after
      → are_other plan.plan_id before ≡ true
      → are_other plan.plan_id after ≡ true
      → (t : Ticked) × (tick_files digest providers now (before ++ file_of ∷ after) d ≡ ok t)
        × Opened t
  unfolding tick_files tick_file tick_plan file_of
  loop_opens [] d found approved steps us vs others later =
      let d' = put plan.plan_id (opened_entry (entry_or g plan) o) d in
      let (t, returns, kept) = other_files digest providers now plan.plan_id after d' vs later in
      (
        note_first plan.plan_id (some (opened o)) true t,
        rw (approved, found, steps, returns) refl,
        record {
          entry =
              kept
              ∙ get-put plan.plan_id plan.plan_id (opened_entry (entry_or g plan) o) d
              ∙ rw (eq_refl plan.plan_id) refl;
          reported = ([], t.report, refl);
          ticked = refl;
        },
      )
  loop_opens (file ∷ before) d found approved steps (u, us) vs others later =
      let (r, step, same) =
        other_file digest providers now plan.plan_id file.loaded d u (ground (arith, others)) in
      let (t, returns, opens) =
        loop_opens before r.0 (same ∙ found) approved steps us vs (ground (arith, others)) later in
      (
        note_first (report_key file.path file.loaded) r.1 r.2 t,
        rw (step, returns) refl,
        record {
          entry = opens.entry;
          reported =
              add_note-Notes (report_key file.path file.loaded) r.1 plan.plan_id (opened o) t.report
                opens.reported;
          ticked = ground (arith, opens.ticked);
        },
      )

-- state["plans"].get(plan_id), or else a new entry
abbrev pub entry_for : RunnerState → PaperTradePlan → Entry
entry_for state plan = entry_or (get plan.plan_id state.plans) plan

some_file : (before after : List PlanFile) (f : PlanFile) → is_empty (before ++ f ∷ after) ≡ false
some_file [] after f = refl
some_file (x ∷ before) after f = refl

-- A tick opens a plan that is among its files, where a human approved it and both gates passed it, its
-- approval is bound and has not expired, its entry is pending and of its hash, the quotes provider
-- gives a size and a credit, and at these the terms of the plan are fillable. It does so whatever the
-- other files hold, if they have no plan of that identity, none raises an error that is not caught,
-- their plans hold what their hashes say, and no credit quoted for them is NaN: the tick returns, it
-- writes a state in which the entry of the plan is open with the open of execute_paper_open, and it
-- reports that open.
pub fillable_opens :
    (digest : Digest) (providers : Providers) (before after : List PlanFile) (path : String)
    (plan : PaperTradePlan) (file : Option RunnerState) (state : RunnerState) (now : Moment)
    (size : ℤ) (credit : Decimal)
    → load_state file ≡ ok state
    → AllReadable digest providers before
    → AllReadable digest providers after
    → are_other plan.plan_id before ≡ true
    → are_other plan.plan_id after ≡ true
    → (entry_for state plan).plan_hash ≡ plan.plan_hash
    → (entry_for state plan).status ≡ status_pending_open
    → providers.quotes plan ≡ quoted size credit
    → Openable digest plan now
    → Fillable plan size credit now false
    → (o : PaperOpen) × (plans : Dict Entry) × (report : Report) × (execute_paper_open digest plan
          (aware now)
        ≡ ok o)
      × (advance_paper_lifecycle digest providers
            (before ++ record { path = path; loaded = plan_loaded plan } ∷ after)
            file
            (aware now)
          ≡ ok (some (record state { plans = plans }), report))
      × (get plan.plan_id plans ≡ some (opened_entry (entry_for state plan) o))
      × Notes plan.plan_id (opened o) report
unfolding advance_paper_lifecycle aware_or file_of
fillable_opens digest providers before after path plan file state now size credit loads us vs others
      later hash status quotes k f =
    let (o, opens, steps) =
      entry_opens digest providers plan (entry_for state plan) now size credit hash status quotes k
        f in
    let approved : is_approved plan.authorization.status ≡ true = rw f.human refl in
    let (t, returns, x) =
      loop_opens digest providers now plan path after (get plan.plan_id state.plans) o before
        state.plans refl approved steps us vs others later in
    let full = some_file before after (record { path = path; loaded = plan_loaded plan }) in
    (o, t.plans, t.report, opens, rw (full, loads, returns, x.ticked) refl, x.entry, x.reported)
