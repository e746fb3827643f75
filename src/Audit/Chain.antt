-- ===== src/Audit/Chain.antt =====
-- What a chain that `verify_audit_chain` accepts is made of, event by event.
use hedge_desk.Prelude.{
  ◌≡◌, ◌↔◌, refl, String, Bool, false, some, List, [], ◌∷◌, ◌++◌, length, ◌+◌, arith, NoneHolds,
  flags, flags-nil, canonical-nil, append-eq-nil, any, any-append, not, str_eq, eq_iff,
}
use hedge_desk.Time.{Moment, aware}
use hedge_desk.Digest.{Digest}
use hedge_desk.Audit.{
  AuditEvent, Cursor, genesis, advance, event_flags, verify_from, several_runs, verify_audit_chain,
  changes_run, last_of,
}

-- The variables of the loop behind a chain.
abbrev pub after : Cursor → List AuditEvent → Cursor
after c [] = c
after c (e ∷ later) = after (advance c e) later

module _ (digest : Digest) where
  -- No round of the loop finds anything.
  abbrev pub Verified : Cursor → List AuditEvent → Type 0
  Verified c [] = Unit {0}
  Verified c (e ∷ later) = NoneHolds (event_flags digest c e) × Verified (advance c e) later

  verify_from-nil :
      (c : Cursor) (chain : List AuditEvent) → (verify_from digest c chain ≡ []) ↔ Verified c chain
  unfolding verify_from
  verify_from-nil c [] = ((λ h. tt), (λ h. refl))
  verify_from-nil c (e ∷ later) = (
    (λ h.
        let parts = append-eq-nil (flags (event_flags digest c e)) _ h in
        (
          (flags-nil (event_flags digest c e)).0 parts.0,
          (verify_from-nil (advance c e) later).0 parts.1,
        )),
    (λ h.
        rw ((flags-nil (event_flags digest c e)).1 h.0)
          ((verify_from-nil (advance c e) later).1 h.1)),
  )

  -- A chain is accepted exactly when it is of one run and no round finds anything.
  pub verify_audit_chain-nil :
      (chain : List AuditEvent)
      → (verify_audit_chain digest chain ≡ [])
        ↔ ((several_runs chain ≡ false) × Verified genesis chain)
  unfolding verify_audit_chain
  verify_audit_chain-nil chain = (
    (λ h.
        let runs : List (Bool × String) = (several_runs chain, "AUDIT_RUN_ID_MISMATCH") ∷ [] in
        let parts = append-eq-nil (flags runs) _ ((canonical-nil _).0 h) in
        (((flags-nil runs).0 parts.0).0, (verify_from-nil genesis chain).0 parts.1)),
    (λ h.
        (canonical-nil (
            flags ((several_runs chain, "AUDIT_RUN_ID_MISMATCH") ∷ [])
            ++ verify_from digest genesis chain)).1
          (rw ((flags-nil ((several_runs chain, "AUDIT_RUN_ID_MISMATCH") ∷ [])).1 (h.0, tt))
            ((verify_from-nil genesis chain).1 h.1))),
  )

  pub Verified-snoc :
      (c : Cursor) (chain : List AuditEvent) (e : AuditEvent)
      → Verified c chain
      → NoneHolds (event_flags digest (after c chain) e)
      → Verified c (chain ++ e ∷ [])
  Verified-snoc c [] e h k = (k, tt)
  Verified-snoc c (x ∷ chain) e h k = (h.0, Verified-snoc (advance c x) chain e h.1 k)

pub sequence-after :
    (c : Cursor) (chain : List AuditEvent)
    → (after c chain).expected_sequence ≡ c.expected_sequence + length chain
unfolding advance
sequence-after c [] = omega arith
sequence-after c (e ∷ later) = omega (arith, sequence-after (advance c e) later)

-- Behind a chain that is not empty, the loop expects what its last event left.
pub record Follows (c : Cursor) (e : AuditEvent) : Type 0 where
  pub previous : c.expected_previous ≡ e.event_hash
  pub input : c.expected_input ≡ e.output_sha256
  pub time : (m : Moment) → e.occurred_at ≡ aware m → c.prior_time ≡ some m

advance-Follows : (c : Cursor) (e : AuditEvent) → Follows (advance c e) e
unfolding advance
advance-Follows c e = record { previous = refl; input = refl; time = λ m h. ground (arith, h) }

pub after-Follows :
    (c : Cursor) (e : AuditEvent) (later : List AuditEvent)
    → Follows (after (advance c e) later) (last_of e later)
after-Follows c e [] = advance-Follows c e
after-Follows c e (x ∷ later) = after-Follows (advance c e) x later

-- The last event of a chain that was accepted was accepted, at its place.
pub Verified-last :
    (digest : Digest) (c : Cursor) (e : AuditEvent) (later : List AuditEvent)
    → Verified digest c (e ∷ later)
    → (d : Cursor) × NoneHolds (event_flags digest d (last_of e later))
      × (d.expected_sequence ≡ c.expected_sequence + length later)
unfolding advance
Verified-last digest c e [] h = (c, h.0, omega arith)
Verified-last digest c e (x ∷ later) h =
    let (d, passed, place) = Verified-last digest (advance c e) x later h.1 in
    (d, passed, omega (arith, place))

last_run :
    (run_id : String) (e : AuditEvent) (later : List AuditEvent)
    → e.run_id ≡ run_id
    → any (λ x. not (str_eq x.run_id run_id)) later ≡ false
    → (last_of e later).run_id ≡ run_id
last_run run_id e [] h k = h
last_run run_id e (x ∷ later) h k =
    last_run run_id x later (ground (arith, eq_iff x.run_id run_id)) (ground arith)

-- An event of the run of the last event keeps a chain of one run.
pub several_runs-snoc :
    (chain : List AuditEvent) (e : AuditEvent)
    → several_runs chain ≡ false
    → changes_run e.run_id chain ≡ false
    → several_runs (chain ++ e ∷ []) ≡ false
unfolding several_runs changes_run
several_runs-snoc [] e h k = refl
several_runs-snoc (x ∷ later) e h k = ground (
  arith,
  any-append (λ y. not (str_eq y.run_id x.run_id)) later (e ∷ []),
  last_run x.run_id x later refl h,
  eq_iff e.run_id (last_of x later).run_id,
  eq_iff e.run_id x.run_id,
)
