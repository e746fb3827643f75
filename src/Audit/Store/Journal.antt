-- ===== src/Audit/Store/Journal.antt =====
-- What a journal holds over a sequence of appends.
use hedge_desk.Prelude.{
  ◌≡◌, refl, ap, ◌∙◌, String, false, List, [], ◌∷◌, ◌++◌, map, Result, ok, err, arith, is_empty,
  is_empty_iff, str_eq, Bool-cases, inl, inr, >>=-eq-ok, subst, if◌then◌else◌,
}
use hedge_desk.Digest.{Digest}
use hedge_desk.Json.{Codec, KeepsTexts}
use hedge_desk.Audit.{AuditEvent, verify_audit_chain, head_hash}
use hedge_desk.Audit.Store.{
  parse_lines, line_of, File, missing, unreadable, holds, written, or_corrupt, checked_events,
  read_audit_journal, initialize_audit_journal, create_file, append_audit_journal, append_to,
  extend_file,
}
use hedge_desk.Audit.Store.Lines.{ReadsBack, AllReadBack, parse-lines, parse-append}

module _ (codec : Codec) (law : KeepsTexts codec) where
  -- What a file that is read holds.
  record Holds (digest : Digest) (file : File) (chain : List AuditEvent) : Type 0 where
    lines : List String
    is : file ≡ holds lines
    parsed : parse_lines codec lines ≡ ok chain
    some_event : is_empty chain ≡ false
    intact : verify_audit_chain digest chain ≡ []

  module _ (digest : Digest) where
    or_corrupt-eq-ok :
        (r : Result (List AuditEvent)) (chain : List AuditEvent)
        → or_corrupt r ≡ ok chain
        → r ≡ ok chain
    or_corrupt-eq-ok (ok a) chain h = h
    or_corrupt-eq-ok (err e) chain h = cc

    checked-events :
        (events chain : List AuditEvent)
        → checked_events digest events ≡ ok chain
        → (events ≡ chain) × (is_empty events ≡ false) × (verify_audit_chain digest events ≡ [])
    unfolding checked_events
    checked-events events chain h = ground (arith, is_empty_iff (verify_audit_chain digest events))

    read-Holds :
        (file : File) (chain : List AuditEvent)
        → read_audit_journal codec digest file ≡ ok chain
        → Holds digest file chain
    unfolding read_audit_journal
    read-Holds missing chain h = cc
    read-Holds unreadable chain h = cc
    read-Holds (holds lines) chain h =
        let (events, parsed, h₁) = >>=-eq-ok (or_corrupt (parse_lines codec lines)) _ h in
        let (same, filled, intact) = checked-events events chain h₁ in
        record {
          lines = lines;
          is = refl;
          parsed = or_corrupt-eq-ok _ chain (parsed ∙ ap ok same);
          some_event = subst (λ l. is_empty l ≡ false) same filled;
          intact = subst (λ l. verify_audit_chain digest l ≡ []) same intact;
        }

    read-holds :
        (lines : List String) (chain : List AuditEvent)
        → parse_lines codec lines ≡ ok chain
        → is_empty chain ≡ false
        → verify_audit_chain digest chain ≡ []
        → read_audit_journal codec digest (holds lines) ≡ ok chain
    unfolding read_audit_journal checked_events
    read-holds lines chain p n v = rw (p, n, v)

    -- What a chain in memory becomes where an event is offered to it: an event that repeats the head,
    -- or with which the chain is not accepted, changes nothing.
    unfoldable pub accept : List AuditEvent → AuditEvent → List AuditEvent
    accept chain e =
        if str_eq e.event_hash (head_hash chain)
        then chain
        else if is_empty (verify_audit_chain digest (chain ++ e ∷ []))
        then chain ++ e ∷ []
        else chain

    is_empty-append :
        (chain : List AuditEvent) (e : AuditEvent) → is_empty (chain ++ e ∷ []) ≡ false
    is_empty-append [] e = refl
    is_empty-append (x ∷ chain) e = refl

    append_to-accept :
        (lines : List String) (chain : List AuditEvent) (e : AuditEvent)
        → ReadsBack codec e
        → parse_lines codec lines ≡ ok chain
        → is_empty chain ≡ false
        → verify_audit_chain digest chain ≡ []
        → read_audit_journal codec digest
            (append_to codec digest written (holds lines) e (ok chain)).0
          ≡ ok (accept chain e)
    unfolding append_to accept extend_file
    append_to-accept lines chain e r p n v =
        elim (Bool-cases (str_eq e.event_hash (head_hash chain))) [
          | inl repeated ↦ rw (n, repeated) (read-holds lines chain p n v)
          | inr new ↦ elim (Bool-cases (is_empty (verify_audit_chain digest (chain ++ e ∷ [])))) [
            | inl good ↦
                rw (n, new, good)
                  (read-holds (lines ++ line_of codec e ∷ []) (chain ++ e ∷ [])
                    (parse-append codec law lines chain e r p) (is_empty-append chain e)
                    ((is_empty_iff (verify_audit_chain digest (chain ++ e ∷ []))).0 good))
            | inr bad ↦ rw (n, new, bad) (read-holds lines chain p n v)
          ]
        ]

    append-accept :
        (file : File) (chain : List AuditEvent) (e : AuditEvent)
        → ReadsBack codec e
        → read_audit_journal codec digest file ≡ ok chain
        → read_audit_journal codec digest (append_audit_journal codec digest written file e).0
          ≡ ok (accept chain e)
    unfolding append_audit_journal
    append-accept file chain e r h =
        let k = read-Holds file chain h in
        rw (h, k.is) (append_to-accept k.lines chain e r k.parsed k.some_event k.intact)

    -- A sequence of appends, whose writes end as asked.
    unfoldable pub append_all : File → List AuditEvent → File
    append_all file [] = file
    append_all file (e ∷ later) =
        append_all (append_audit_journal codec digest written file e).0 later

    unfoldable pub accept_all : List AuditEvent → List AuditEvent → List AuditEvent
    accept_all chain [] = chain
    accept_all chain (e ∷ later) = accept_all (accept chain e) later

    append_all-accept_all :
        (file : File) (chain events : List AuditEvent)
        → AllReadBack codec events
        → read_audit_journal codec digest file ≡ ok chain
        → read_audit_journal codec digest (append_all file events) ≡ ok (accept_all chain events)
    unfolding append_all accept_all
    append_all-accept_all file chain [] rs h = h
    append_all-accept_all file chain (e ∷ later) rs h =
        append_all-accept_all (append_audit_journal codec digest written file e).0 (accept chain e)
          later rs.1 (append-accept file chain e rs.0 h)

    -- The file refines a chain in memory: after a journal was created from an accepted chain, and
    -- whatever events were then offered to it, reading it back gives what the same events make of the
    -- chain, where the writes end as asked and the lines and the times of these events read back.
    pub journal_refines :
        (chain events : List AuditEvent)
        → AllReadBack codec chain
        → AllReadBack codec events
        → is_empty chain ≡ false
        → verify_audit_chain digest chain ≡ []
        → read_audit_journal codec digest
            (append_all (initialize_audit_journal codec digest written missing chain).0 events)
          ≡ ok (accept_all chain events)
    unfolding initialize_audit_journal create_file
    journal_refines chain events rs qs n v = append_all-accept_all _ chain events qs (
        rw (n, v)
          (read-holds (map (line_of codec) chain) chain (parse-lines codec law chain rs) n v))
