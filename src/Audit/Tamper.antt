-- ===== src/Audit/Tamper.antt =====
-- What a head hash binds: the whole chain before it.
use hedge_desk.Prelude.{
  ◌≡◌, ◌≢◌, ℕ, refl, sym, ap, ◌∙◌, String, false, List, [], ◌∷◌, length, arith, NoneHolds, str_eq,
  eq_iff, valid_sha256, Bool-cases, inl, inr, true,
}
use mathlib.Core.List.{List-discrete}
use native.Mathlib.Decide.{ℕ_discrete}
use hedge_desk.Decimal.{ℤ, pos, int_eq-eq}
use hedge_desk.Time.{DateTime, Moment}
use hedge_desk.Digest.{Digest, Collision}
use hedge_desk.Audit.{
  AuditEvent, Cursor, genesis, genesis_hash, advance, event_payload, event_flags,
  verify_audit_chain, last_of, head_hash,
}
use hedge_desk.Audit.Chain.{Verified, verify_audit_chain-nil, Verified-last}

ℤ-discrete : Discrete ℤ
ℤ-discrete = hlevel ℕ_discrete

Moment-discrete : Discrete Moment
Moment-discrete = hlevel ℕ_discrete

DateTime-discrete : Discrete DateTime
DateTime-discrete = hlevel (ℕ_discrete, Moment-discrete)

String-discrete : Discrete String
String-discrete a b = elim (Bool-cases (str_eq a b)) [
  | inl same ↦ yes ((eq_iff a b).0 same)
  | inr other ↦ no (λ e. ground (arith, eq_iff a b, e))
]

AuditEvent-discrete : Discrete AuditEvent
AuditEvent-discrete =
    hlevel (ℤ-discrete, DateTime-discrete, String-discrete, List-discrete String-discrete)

pos_eq : (m n : ℕ) → pos m ≡ pos n → m ≡ n
pos_eq m n h = ground arith

heads : (x y : AuditEvent) (xs ys : List AuditEvent) → x ∷ xs ≡ y ∷ ys → x ≡ y
heads x y xs ys h = cc

module _ (digest : Digest) where
  same_payload :
      (x y : AuditEvent) → event_payload x ≡ event_payload y → x.event_hash ≡ y.event_hash → x ≡ y
  unfolding event_payload
  same_payload x y h k = ground arith

  hash_of :
      (c : Cursor) (x : AuditEvent)
      → NoneHolds (event_flags digest c x)
      → x.event_hash ≡ digest (event_payload x)
  unfolding event_flags
  hash_of c x h =
      (eq_iff x.event_hash (digest (event_payload x))).0 (ground (arith, h.1.1.1.1.1.1.1.1.1.1.1.0))

  sequence_of :
      (c : Cursor) (x : AuditEvent)
      → NoneHolds (event_flags digest c x)
      → x.sequence ≡ pos c.expected_sequence
  unfolding event_flags
  sequence_of c x h = int_eq-eq x.sequence (pos c.expected_sequence) (ground (arith, h.0))

  previous_of :
      (c : Cursor) (x : AuditEvent)
      → NoneHolds (event_flags digest c x)
      → x.previous_hash ≡ c.expected_previous
  unfolding event_flags
  previous_of c x h = (eq_iff x.previous_hash c.expected_previous).0 (ground (arith, h.1.0))

  event-Collision :
      (c d : Cursor) (x y : AuditEvent)
      → NoneHolds (event_flags digest c x)
      → NoneHolds (event_flags digest d y)
      → x.event_hash ≡ y.event_hash
      → x ≢ y
      → Collision digest
  event-Collision c d x y h k same differ = record {
    left = event_payload x;
    right = event_payload y;
    differ = λ e. differ (same_payload x y e same);
    collide = sym (hash_of c x h) ∙ same ∙ hash_of d y k;
  }

  -- Chains of one length.
  chain-Collision :
      (c d : Cursor) (x y : AuditEvent) (xs ys : List AuditEvent)
      → length xs ≡ length ys
      → Verified digest c (x ∷ xs)
      → Verified digest d (y ∷ ys)
      → (last_of x xs).event_hash ≡ (last_of y ys).event_hash
      → x ∷ xs ≢ y ∷ ys
      → Collision digest
  unfolding advance
  chain-Collision c d x y [] [] l v w same differ =
      event-Collision c d x y v.0 w.0 same (λ e. differ (ap (λ z. z ∷ []) e))
  chain-Collision c d x y [] (y' ∷ ys) l v w same differ = absurd (omega (arith, l))
  chain-Collision c d x y (x' ∷ xs) [] l v w same differ = absurd (omega (arith, l))
  chain-Collision c d x y (x' ∷ xs) (y' ∷ ys) l v w same differ =
      elim (List-discrete AuditEvent-discrete (x' ∷ xs) (y' ∷ ys)) [
        | yes e ↦
            event-Collision c d x y v.0 w.0
              (sym (previous_of (advance c x) x' v.1.0)
                ∙ ap (λ z. z.previous_hash) (heads x' y' xs ys e)
                ∙ previous_of (advance d y) y' w.1.0)
              (λ f. differ (cc))
        | no n ↦
            chain-Collision (advance c x) (advance d y) x' y' xs ys (omega (arith, l)) v.1 w.1 same
              n
      ]

  genesis_invalid : valid_sha256 genesis_hash ≡ false
  unfolding valid_sha256
  genesis_invalid = refl

  valid_head :
      (c : Cursor) (e : AuditEvent)
      → NoneHolds (event_flags digest c e)
      → genesis_hash ≢ e.event_hash
  unfolding event_flags
  valid_head c e h same =
      let valid : valid_sha256 e.event_hash ≡ true = ground (arith, h.1.1.1.1.1.1.0) in
      cc (ap valid_sha256 same, genesis_invalid, valid)

  -- Two chains that `verify_audit_chain` accepts and that end in one head hash are the same chain, or
  -- else two payloads with one digest can be read off: nothing can be changed, dropped, added or moved
  -- before the head.
  pub tamper_evident_chain :
      (xs ys : List AuditEvent)
      → verify_audit_chain digest xs ≡ []
      → verify_audit_chain digest ys ≡ []
      → head_hash xs ≡ head_hash ys
      → xs ≢ ys
      → Collision digest
  unfolding head_hash
  tamper_evident_chain [] [] v w same differ = absurd (differ refl)
  tamper_evident_chain [] (y ∷ ys) v w same differ =
      let w' = ((verify_audit_chain-nil digest (y ∷ ys)).0 w).1 in
      let (d, k, _) = Verified-last digest genesis y ys w' in
      absurd (valid_head d (last_of y ys) k same)
  tamper_evident_chain (x ∷ xs) [] v w same differ =
      let v' = ((verify_audit_chain-nil digest (x ∷ xs)).0 v).1 in
      let (c, k, _) = Verified-last digest genesis x xs v' in
      absurd (valid_head c (last_of x xs) k (sym same))
  tamper_evident_chain (x ∷ xs) (y ∷ ys) v w same differ =
      let v' = ((verify_audit_chain-nil digest (x ∷ xs)).0 v).1 in
      let w' = ((verify_audit_chain-nil digest (y ∷ ys)).0 w).1 in
      elim (ℕ_discrete (length xs) (length ys)) [
        | yes e ↦ chain-Collision genesis genesis x y xs ys e v' w' same differ
        | no n ↦
            let (c, k, place) = Verified-last digest genesis x xs v' in
            let (d, l, place') = Verified-last digest genesis y ys w' in
            event-Collision c d (last_of x xs) (last_of y ys) k l same (λ e. n (
              omega (
                arith,
                place,
                place',
                pos_eq c.expected_sequence d.expected_sequence (
                    sym (sequence_of c (last_of x xs) k)
                    ∙ ap (λ z. z.sequence) e
                    ∙ sequence_of d (last_of y ys) l),
              )))
      ]
