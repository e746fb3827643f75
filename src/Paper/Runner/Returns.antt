-- ===== src/Paper/Runner/Returns.antt =====
-- paper/runner.py: what the loop of a tick does not raise at. A step returns where the file is loaded or
-- skipped, its plan holds what its hash says, and the credit quoted for it is not NaN.
use hedge_desk.Prelude.{
  ◌≡◌, refl, ◌∙◌, inl, inr, String, Bool, true, false, not, Option, none, some, List, [], ◌∷◌, all,
  Result, ok, err, arith, str_eq, eq_iff, Bool-cases, if◌then◌else◌,
}
use hedge_desk.Decimal.{ℤ, Decimal, Number, decimal_lt, number, infinity, nan}
use hedge_desk.Time.{Moment, aware, aware_or, earlier}
use hedge_desk.Digest.{Digest}
use hedge_desk.Dict.{Dict, get, put, get-put}
use hedge_desk.Paper.Plan.{
  PaperTradePlan, plan_payload, assert_plan_integrity, calculate_plan_hash, is_approved,
}
use hedge_desk.Paper.Authorize.{PaperOpen, PaperFillCheck, execute_paper_open, evaluate_paper_fill}
use hedge_desk.Paper.Authorize.Ready.{open_ends}
use hedge_desk.Paper.Lifecycle.{evaluate_plan_lifecycle, evaluate_paper_lifecycle}
use hedge_desk.Paper.Runner.{
  Entry, PlanFile, Loading, plan_loaded, load_refused, load_raised, entry_or, status_pending_open,
  status_open, status_closed,
}
use hedge_desk.Paper.Runner.Tick.{
  Providers, Quotes, provider_failed, no_credit, wrong_type, quoted, Note, Ticked, note_first,
  report_key, opened_or_refused, open_if_ready, tick_quotes, tick_pending_open, check_lifecycle,
  tick_opened, tick_open, with_note, tick_entry, tick_plan, tick_file, tick_files,
}

-- The call returns a value.
abbrev pub Returns {ℓ} : {A : Type ℓ} → Result A → Type ℓ
Returns {A = A} r = (a : A) × (r ≡ ok a)

abbrev pub is_nan : Quotes → Bool
is_nan (quoted size nan) = true
is_nan (quoted size (number n)) = false
is_nan (quoted size (infinity negative)) = false
is_nan provider_failed = false
is_nan no_credit = false
is_nan wrong_type = false

-- A plan that holds what its hash says, and a file that holds one, or that the runner skips.
pub record Usable (digest : Digest) (providers : Providers) (plan : PaperTradePlan) : Type 0 where
  pub intact : digest (plan_payload plan) ≡ plan.plan_hash
  pub comparable : is_nan (providers.quotes plan) ≡ false

abbrev pub Readable : Digest → Providers → Loading → Type 0
Readable digest providers (plan_loaded plan) = Usable digest providers plan
Readable digest providers load_refused = Unit {0}
Readable digest providers (load_raised error) = ⊥

abbrev pub AllReadable : Digest → Providers → List PlanFile → Type 0
AllReadable digest providers [] = Unit {0}
AllReadable digest providers (file ∷ files) =
    Readable digest providers file.loaded × AllReadable digest providers files

-- No plan of the files has the identity.
abbrev pub is_other : String → Loading → Bool
is_other key (plan_loaded plan) = not (str_eq plan.plan_id key)
is_other key load_refused = true
is_other key (load_raised error) = true

abbrev pub are_other : String → List PlanFile → Bool
are_other key files = all (λ file. is_other key file.loaded) files

noted-Returns : (r : Result (Entry × Note)) → Returns r → Returns (with_note r)
noted-Returns (ok x) h = (_, refl)
noted-Returns (err error) h = cc (h.1)

module _ (digest : Digest) (providers : Providers) (plan : PaperTradePlan) (e : Entry)
    (now : Moment) (u : Usable digest providers plan) where
  integrity : assert_plan_integrity digest plan ≡ ok tt
  unfolding assert_plan_integrity calculate_plan_hash
  integrity = rw ((eq_iff (digest (plan_payload plan)) plan.plan_hash).1 u.intact) refl

  open-Returns : Returns (opened_or_refused e (execute_paper_open digest plan (aware now)))
  unfolding opened_or_refused
  open-Returns = elim (open_ends digest plan now u.intact) [
    | inl (o, opens) ↦ rw opens (_, refl)
    | inr (m, refused) ↦ rw refused (_, refl)
  ]

  ready-Returns : (fill : PaperFillCheck) → Returns (open_if_ready digest plan e now fill)
  unfolding open_if_ready
  ready-Returns fill = elim (Bool-cases fill.ready) [
    | inl ready ↦ rw ready open-Returns
    | inr waits ↦ rw waits (_, refl)
  ]

  compared :
      (size : ℤ) (credit : Decimal) (limit : Number)
      → is_nan (quoted size credit) ≡ false
      → Returns (decimal_lt credit limit)
  unfolding decimal_lt
  compared size (number n) limit h = (_, refl)
  compared size (infinity negative) limit h = (_, refl)
  compared size nan limit h = cc

  quotes_return : (q : Quotes) → is_nan q ≡ false → Returns (tick_quotes digest plan e now q)
  unfolding tick_quotes evaluate_paper_fill aware_or
  quotes_return provider_failed h = (_, refl)
  quotes_return no_credit h = (_, refl)
  quotes_return wrong_type h = (_, refl)
  quotes_return (quoted size credit) h =
      let (below, lt) = compared size credit plan.spread.net_credit h in
      rw (integrity, lt) (ready-Returns _)

  pending-Returns : Returns (tick_pending_open digest providers plan e now)
  unfolding tick_pending_open
  pending-Returns = elim (Bool-cases (earlier plan.approval_expires_at now)) [
    | inl late ↦ rw late (_, refl)
    | inr timely ↦ rw timely (quotes_return (providers.quotes plan) u.comparable)
  ]

  opened-Returns : (o : Option PaperOpen) → Returns (tick_opened digest providers plan e now o)
  unfolding tick_opened check_lifecycle evaluate_plan_lifecycle evaluate_paper_lifecycle aware_or
  opened-Returns none = (_, refl)
  opened-Returns (some o) = elim (Bool-cases (str_eq o.plan_hash plan.plan_hash)) [
    | inl same ↦ rw (same, integrity) (_, refl)
    | inr other ↦ rw other (_, refl)
  ]

  entry-Returns : Returns (tick_entry digest providers plan e now)
  unfolding tick_entry tick_open
  entry-Returns =
      by_tests _ _ (str_eq e.plan_hash plan.plan_hash) (str_eq e.status status_pending_open)
        (str_eq e.status status_open) (str_eq e.status status_closed)
    where
      by_tests :
          (x : Entry × Note) (n : Option Note) (same pending is_open closed : Bool)
          → Returns (
              if not same
              then with_note (ok x)
              else if pending
              then with_note (tick_pending_open digest providers plan e now)
              else if is_open
              then with_note (tick_opened digest providers plan e now e.open_record)
              else if closed
              then ok (e, none)
              else ok (e, n))
      by_tests x n false p o c = (_, refl)
      by_tests x n true true o c = noted-Returns _ pending-Returns
      by_tests x n true false true c = noted-Returns _ (opened-Returns e.open_record)
      by_tests x n true false false true = (_, refl)
      by_tests x n true false false false = (_, refl)

module _ (digest : Digest) (providers : Providers) (now : Moment) (key : String) where
  -- A file of another plan: the step returns, and the entry of the plan is as it was.
  pub other_file :
      (loaded : Loading) (d : Dict Entry)
      → Readable digest providers loaded
      → is_other key loaded ≡ true
      → (r : Dict Entry × Option Note × Bool) × (tick_file digest providers now loaded d ≡ ok r)
        × (get key r.0 ≡ get key d)
  unfolding tick_file tick_plan
  other_file load_refused d u other = (_, refl, refl)
  other_file (load_raised error) d u other = absurd u
  other_file (plan_loaded plan) d u other =
      elim (Bool-cases (is_approved plan.authorization.status)) [
        | inl approved ↦
            let (x, steps) =
              entry-Returns digest providers plan (entry_or (get plan.plan_id d) plan) now u in
            let elsewhere : str_eq plan.plan_id key ≡ false = ground (arith, other) in
            (
              (put plan.plan_id x.0 d, x.1, true),
              rw (approved, steps) refl,
              rw (get-put plan.plan_id key x.0 d, elsewhere) refl,
            )
        | inr waits ↦ ((d, none, false), rw waits refl, refl)
      ]

  pub other_files :
      (files : List PlanFile) (d : Dict Entry)
      → AllReadable digest providers files
      → are_other key files ≡ true
      → (t : Ticked) × (tick_files digest providers now files d ≡ ok t)
        × (get key t.plans ≡ get key d)
  unfolding tick_files
  other_files [] d u other = (_, refl, refl)
  other_files (file ∷ files) d (u, us) other =
      let (r, steps, same) = other_file file.loaded d u (ground (arith, other)) in
      let (t, returns, kept) = other_files files r.0 us (ground (arith, other)) in
      (
        note_first (report_key file.path file.loaded) r.1 r.2 t,
        rw (steps, returns) refl,
        kept ∙ same,
      )
