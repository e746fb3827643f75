-- ===== src/Audit/Append.antt =====
-- Appending keeps a chain verifiable, and is what makes one.
use hedge_desk.Prelude.{
  ◌+◌, ◌≡◌, refl, sym, ap, ◌∙◌, subst, Bool, true, false, Option, some, List, [], ◌∷◌, ◌++◌, any,
  length, arith, ok, NoneHolds, checks-bind, >>=-eq-ok, ok-injective, ltb, is_blank, is_empty,
  is_empty_iff, str_eq, eq_refl, valid_sha256, valid_sha256_or_zero, is_canonical-canonical,
}
use hedge_desk.Decimal.{pos, int_eq}
use hedge_desk.Time.{DateTime, Moment, aware, naive, aware_or, aware_or-eq-ok, datetime_gt}
use hedge_desk.Digest.{Digest, Field}
use hedge_desk.Audit.{
  AuditEvent, Cursor, genesis, advance, event_flags, verify_audit_chain, last_of, bad_hash,
  incomplete, head_hash, last_output, changes_run, goes_back, next_event, hashed_event,
  event_payload, append_audit_event, identity_checks, content_checks, out_of_order,
}
use hedge_desk.Audit.Chain.{
  Verified, verify_audit_chain-nil, after, Verified-snoc, sequence-after, after-Follows,
  Verified-last, several_runs-snoc,
}

-- What the checks of an append that returned say.
pub record Accepted (digest : Digest) (chain : List AuditEvent) (e : AuditEvent) (m : Moment)
    : Type 0 where
  pub zoned : e.occurred_at ≡ aware m
  pub complete : incomplete e ≡ false
  pub intact : verify_audit_chain digest chain ≡ []
  pub same_run : changes_run e.run_id chain ≡ false
  pub forward : goes_back e.occurred_at chain ≡ ok false
  pub lineage : str_eq e.input_sha256 (last_output chain) ≡ true
  pub named_reasons : any is_blank e.reason_codes ≡ false
  pub input_hash : bad_hash e.input_sha256 (is_empty chain) ≡ false
  pub output_hash : bad_hash e.output_sha256 false ≡ false

in_order :
    (t : DateTime) (m : Moment) (prior : Option Moment)
    → datetime_gt t (aware m) ≡ ok false
    → ((k : Moment) → t ≡ aware k → prior ≡ some k)
    → out_of_order (aware m) prior ≡ false
unfolding datetime_gt
in_order (naive t) m prior h k = cc
in_order (aware t) m prior h k =
    rw (k t refl) (ground (arith, ok-injective (ltb m.utc t.utc) false h))

module _ (digest : Digest) where
  Accepted_lem :
      (chain : List AuditEvent) (e : AuditEvent) (m : Moment) (back : Bool)
      → e.occurred_at ≡ aware m
      → NoneHolds (identity_checks digest chain e)
      → goes_back e.occurred_at chain ≡ ok back
      → NoneHolds (content_checks chain e back)
      → Accepted digest chain e m
  unfolding identity_checks content_checks
  Accepted_lem chain e m back zoned first forward second = record {
    zoned = zoned;
    complete = first.0;
    intact = (is_empty_iff (verify_audit_chain digest chain)).0 (ground (arith, first.1.0));
    same_run = first.1.1.0;
    forward = forward ∙ ap ok second.0;
    lineage = ground (arith, second.1.0);
    named_reasons = second.1.1.0;
    input_hash = ground (arith, second.1.1.1.0);
    output_hash = ground (arith, second.1.1.1.0);
  }

  pub append-Accepted :
      (chain : List AuditEvent) (e : AuditEvent) (longer : List AuditEvent)
      → append_audit_event digest chain e ≡ ok longer
      → (m : Moment) × Accepted digest chain e m
        × (longer ≡ chain ++ hashed_event digest (next_event chain e) ∷ [])
  unfolding append_audit_event
  append-Accepted chain e longer h =
      let (m, zoned, h₁) = >>=-eq-ok (aware_or e.occurred_at _) _ h in
      let (first, h₂) = checks-bind (identity_checks digest chain e) _ longer h₁ in
      let (back, forward, h₃) = >>=-eq-ok (goes_back e.occurred_at chain) _ h₂ in
      let (second, h₄) = checks-bind (content_checks chain e back) _ longer h₃ in
      (
        m,
        Accepted_lem chain e m back (aware_or-eq-ok e.occurred_at _ m zoned) first forward second,
        sym (ok-injective _ longer h₄),
      )

  -- What the loop expects behind a chain is what the new event holds.
  record Expected (chain : List AuditEvent) (m : Moment) (c : Cursor) : Type 0 where
    sequence : c.expected_sequence ≡ length chain + 1
    previous : c.expected_previous ≡ head_hash chain
    input : c.expected_input ≡ last_output chain
    time : out_of_order (aware m) c.prior_time ≡ false
    valid_previous : bad_hash (head_hash chain) (is_empty chain) ≡ false

  valid_last :
      (c : Cursor) (e : AuditEvent)
      → NoneHolds (event_flags digest c e)
      → valid_sha256 e.event_hash ≡ true
  unfolding event_flags
  valid_last c e h = ground (arith, h.1.1.1.1.1.1.0)

  chain-Expected :
      (chain : List AuditEvent) (e : AuditEvent) (m : Moment)
      → Accepted digest chain e m
      → Verified digest genesis chain
      → Expected chain m (after genesis chain)
  unfolding head_hash last_output goes_back valid_sha256_or_zero
  chain-Expected [] e m a v = record {
    sequence = refl;
    previous = refl;
    input = refl;
    time = refl;
    valid_previous = refl;
  }
  chain-Expected (x ∷ later) e m a v =
      let f = after-Follows genesis x later in
      record {
        sequence = omega (arith, sequence-after genesis (x ∷ later));
        previous = f.previous;
        input = f.input;
        time =
            in_order (last_of x later).occurred_at m (after (advance genesis x) later).prior_time
              (subst (λ t. datetime_gt (last_of x later).occurred_at t ≡ ok false) a.zoned
                a.forward)
              f.time;
        valid_previous =
            let (c, k, _) = Verified-last digest genesis x later v in
            ground (arith, valid_last c (last_of x later) k);
      }

  first_round :
      (chain : List AuditEvent) (c : Cursor)
      → c.expected_sequence ≡ length chain + 1
      → int_eq (pos c.expected_sequence) (pos 1) ≡ is_empty chain
  unfolding int_eq
  first_round [] c h = ground (arith, h)
  first_round (x ∷ later) c h = ground (arith, h)

  -- The event that is added passes every test of its round.
  new_event_passes :
      (chain : List AuditEvent) (e : AuditEvent) (m : Moment) (c : Cursor)
      → ((fields : List Field) → valid_sha256 (digest fields) ≡ true)
      → Accepted digest chain e m
      → Expected chain m c
      → NoneHolds (event_flags digest c (hashed_event digest (next_event chain e)))
  unfolding event_flags hashed_event next_event int_eq
  new_event_passes chain e m c hashes a x =
      let first = first_round chain c x.sequence in
      (
        ground (arith, x.sequence),
        (
          rw x.previous (ground (arith, eq_refl (head_hash chain))),
          (
            rw x.input (ground (arith, a.lineage)),
            (
              rw first a.input_hash,
              (
                a.output_hash,
                (
                  rw first x.valid_previous,
                  (
                    rw (hashes (event_payload (next_event chain e))) refl,
                    (
                      rw a.zoned refl,
                      (
                        rw a.zoned x.time,
                        (
                          rw (is_canonical-canonical e.reason_codes) refl,
                          (
                            a.complete,
                            (rw (eq_refl (digest (event_payload (next_event chain e)))) refl, tt),
                          ),
                        ),
                      ),
                    ),
                  ),
                ),
              ),
            ),
          ),
        ),
      )

  -- A chain that `append_audit_event` returned is accepted by `verify_audit_chain`, and is the chain
  -- before it with one event more, where a digest is a hash that is not zero.
  pub append_verifies :
      (chain : List AuditEvent) (e : AuditEvent) (longer : List AuditEvent)
      → ((fields : List Field) → valid_sha256 (digest fields) ≡ true)
      → append_audit_event digest chain e ≡ ok longer
      → (verify_audit_chain digest longer ≡ [])
        × (longer ≡ chain ++ hashed_event digest (next_event chain e) ∷ [])
  unfolding hashed_event next_event
  append_verifies chain e longer hashes h =
      let (m, a, grown) = append-Accepted chain e longer h in
      let (one_run, verified) = (verify_audit_chain-nil digest chain).0 a.intact in
      let new = hashed_event digest (next_event chain e) in
      (
        subst (λ l. verify_audit_chain digest l ≡ []) (sym grown)
            ((verify_audit_chain-nil digest (chain ++ new ∷ [])).1 (
              several_runs-snoc chain new one_run a.same_run,
              Verified-snoc digest genesis chain new verified (
                  new_event_passes chain e m (after genesis chain) hashes a
                    (chain-Expected chain e m a verified)),
            )),
        grown,
      )
