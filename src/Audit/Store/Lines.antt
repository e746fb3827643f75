-- ===== src/Audit/Store/Lines.antt =====
-- The lines of a journal: an event that is written is the event that is read.
use hedge_desk.Prelude.{
  ◌≡◌, refl, ap, String, true, false, some, List, [], ◌∷◌, ◌++◌, map, ok, arith, is_blank, eq_iff,
  Bool-cases, inl, inr, >>=-eq-ok, ok-injective, subst, canonical, same_codes,
}
use hedge_desk.Json.{Codec, KeepsTexts, items_of, texts_of-items_of, text_at, field, keys}
use hedge_desk.Audit.{AuditEvent}
use hedge_desk.Audit.Store.{
  stored_fields, stored_event, parse_event, parse_line, parse_lines, line_of, event_of, sequence_at,
  codes_at, time_at, event_fields,
}

module _ (codec : Codec) (law : KeepsTexts codec) where
  time-stored :
      (e : AuditEvent)
      → codec.fromisoformat (codec.isoformat e.occurred_at) ≡ some e.occurred_at
      → time_at codec (stored_fields codec e) ≡ ok e.occurred_at
  unfolding time_at text_at stored_fields field
  time-stored e h = ground (arith, law.str_of_str (codec.isoformat e.occurred_at), h)

  event-stored :
      (e : AuditEvent)
      → event_of codec (stored_fields codec e) e.sequence e.occurred_at (items_of e.reason_codes)
        ≡ e
  unfolding event_of text_at stored_fields field
  event-stored e = ground (
    arith,
    law.str_of_str e.run_id,
    law.str_of_str e.stage,
    law.str_of_str e.artifact_id,
    law.str_of_str e.candidate_id,
    law.str_of_str e.input_sha256,
    law.str_of_str e.output_sha256,
    law.str_of_str e.component_version,
    law.str_of_str e.policy_version,
    law.str_of_str e.previous_hash,
    law.str_of_str e.event_hash,
    texts_of-items_of codec law e.reason_codes,
  )

  keys-stored :
      (e : AuditEvent) → same_codes (canonical (keys (stored_fields codec e))) event_fields ≡ true
  unfolding same_codes canonical keys stored_fields
  keys-stored e = refl

  sequence-stored : (e : AuditEvent) → sequence_at (stored_fields codec e) ≡ ok e.sequence
  unfolding sequence_at stored_fields field
  sequence-stored e = refl

  codes-stored : (e : AuditEvent) → codes_at (stored_fields codec e) ≡ ok (items_of e.reason_codes)
  unfolding codes_at stored_fields field
  codes-stored e = refl

  parse-stored :
      (e : AuditEvent)
      → codec.fromisoformat (codec.isoformat e.occurred_at) ≡ some e.occurred_at
      → parse_event codec (stored_event codec e) ≡ ok e
  unfolding parse_event stored_event
  parse-stored e h =
      rw (keys-stored e, sequence-stored e, codes-stored e, time-stored e h, event-stored e)

-- The event reads back: json.loads what json.dumps wrote of its payload, and fromisoformat its time.
pub record ReadsBack (codec : Codec) (e : AuditEvent) : Type 0 where
  pub line : codec.loads (line_of codec e) ≡ some (stored_event codec e)
  pub time : codec.fromisoformat (codec.isoformat e.occurred_at) ≡ some e.occurred_at

-- Each event of the list reads back.
abbrev pub AllReadBack : Codec → List AuditEvent → Type 0
AllReadBack codec [] = Unit {0}
AllReadBack codec (e ∷ later) = ReadsBack codec e × AllReadBack codec later

module _ (codec : Codec) (law : KeepsTexts codec) where
  line_not_blank : (e : AuditEvent) → ReadsBack codec e → is_blank (line_of codec e) ≡ false
  line_not_blank e r = elim (Bool-cases (is_blank (line_of codec e))) [
    | inl blank ↦
        let empty : line_of codec e ≡ "" = (eq_iff (line_of codec e) "").0 blank in
        cc (ap codec.loads empty, law.loads_empty, r.line)
    | inr filled ↦ filled
  ]

  parse-line : (e : AuditEvent) → ReadsBack codec e → parse_line codec (line_of codec e) ≡ ok e
  unfolding parse_line
  parse-line e r = ground (arith, r.line, parse-stored codec law e r.time)

  pub parse-lines :
      (chain : List AuditEvent)
      → AllReadBack codec chain
      → parse_lines codec (map (line_of codec) chain) ≡ ok chain
  unfolding parse_lines
  parse-lines [] rs = refl
  parse-lines (e ∷ later) rs = rw (line_not_blank e rs.0, parse-line e rs.0, parse-lines later rs.1)

  -- Lines that parse still do with one event more.
  pub parse-append :
      (lines : List String) (chain : List AuditEvent) (e : AuditEvent)
      → ReadsBack codec e
      → parse_lines codec lines ≡ ok chain
      → parse_lines codec (lines ++ line_of codec e ∷ []) ≡ ok (chain ++ e ∷ [])
  unfolding parse_lines
  parse-append [] chain e r h =
      subst (λ c. parse_lines codec (line_of codec e ∷ []) ≡ ok (c ++ e ∷ []))
        (ok-injective [] chain h) (parse-lines (e ∷ []) (r, tt))
  parse-append (line ∷ lines) chain e r h = elim (Bool-cases (is_blank line)) [
    | inl blank ↦ rw blank (parse-append lines chain e r (rw blank at h))
    | inr filled ↦
        let (x, first, h₁) = >>=-eq-ok (parse_line codec line) _ (rw filled at h) in
        let (later, rest, h₂) = >>=-eq-ok (parse_lines codec lines) _ h₁ in
        subst (λ c. parse_lines codec (line ∷ lines ++ line_of codec e ∷ []) ≡ ok (c ++ e ∷ []))
          (ok-injective (x ∷ later) chain h₂)
          (rw (filled, first, parse-append lines later e r rest))
  ]
