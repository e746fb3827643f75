-- ===== src/Replay/Ordered.antt =====
-- What a valid replay is: a whole decision timeline, in which nothing is known before it happened and
-- nothing is received out of order.
use hedge_desk.Prelude.{
  ◌≤◌, ◌≡◌, ◌↔◌, ◌⊎◌, inl, inr, refl, ap, Bool, true, false, ◌||◌, List, [], ◌∷◌, ◌++◌, Option,
  none, some, any, map, NoneHolds, NoneHolds-append, flags, canonical, reasons-nil, is_blank,
  is_empty_iff, arith, ltb, Bool-cases,
}
use hedge_desk.Replay.{
  ReplayEventKind, kind_code, same_kinds, repeats_kind, pending_order, executed_order, ReplayEvent,
  Received, zoned_events, out_of_order, received_flags, stage_flags, validate_replay,
}

-- Each item of the list has the property.
abbrev pub All {ℓ} : {A : Type ℓ} → (A → Type 0) → List A → Type 0
All P [] = Unit {0}
All P (x ∷ xs) = P x × All P xs

-- Every event was received no later than all that follow it.
abbrev pub InOrder : List Received → Type 0
InOrder [] = Unit {0}
InOrder (x ∷ later) = All (λ y. x.received.utc ≤ y.received.utc) later × InOrder later

pub record ValidReplay (events : List ReplayEvent) : Type 0 where
  pub stages :
      (map (λ e. e.kind) events ≡ pending_order) ⊎ (map (λ e. e.kind) events ≡ executed_order)
  pub times : List Received
  pub zoned : zoned_events events ≡ some times
  pub after_event : All (λ x. x.happened.utc ≤ x.received.utc) times
  pub in_order : InOrder times
  pub artifacts : any (λ e. is_blank e.artifact_id) events ≡ false

kind_code_injective : (a b : ReplayEventKind) → kind_code a ≡ kind_code b → a ≡ b
kind_code_injective a b h = ground arith

same_kinds_iff : (xs ys : List ReplayEventKind) → (same_kinds xs ys ≡ true) ↔ (xs ≡ ys)
unfolding same_kinds
same_kinds_iff [] [] = ((λ h. refl), (λ h. refl))
same_kinds_iff [] (y ∷ ys) = ((λ h. cc), (λ h. cc))
same_kinds_iff (x ∷ xs) [] = ((λ h. cc), (λ h. cc))
same_kinds_iff (x ∷ xs) (y ∷ ys) = (
  (λ h. ground (arith, kind_code_injective x y, same_kinds_iff xs ys)),
  (λ h. ground (arith, ap kind_code, same_kinds_iff xs ys)),
)

All-le_trans :
    (x y : Received) (later : List Received)
    → x.received.utc ≤ y.received.utc
    → All (λ z. y.received.utc ≤ z.received.utc) later
    → All (λ z. x.received.utc ≤ z.received.utc) later
All-le_trans x y [] h k = tt
All-le_trans x y (z ∷ later) h k = (omega arith, All-le_trans x y later h k.1)

-- Neighbours in order are all in order.
order_iff : (times : List Received) → (out_of_order times ≡ false) ↔ InOrder times
unfolding out_of_order
order_iff [] = ((λ h. tt), (λ h. refl))
order_iff (x ∷ []) = ((λ h. (tt, tt)), (λ h. refl))
order_iff (x ∷ y ∷ later) =
    let rest = order_iff (y ∷ later) in
    (
      (λ h.
          let tail : InOrder (y ∷ later) = rest.0 (ground arith) in
          let first : x.received.utc ≤ y.received.utc = ground arith in
          ((first, All-le_trans x y later first tail.0), tail)),
      (λ h. ground (arith, rest.1 h.1, h.0.0)),
    )

after_iff :
    (times : List Received)
    → (any (λ x. ltb x.received.utc x.happened.utc) times ≡ false)
      ↔ All (λ x. x.happened.utc ≤ x.received.utc) times
after_iff [] = ((λ h. tt), (λ h. refl))
after_iff (x ∷ times) =
    let rest = after_iff times in
    ((λ h. (ground arith, rest.0 (ground arith))), (λ h. ground (arith, rest.1 h.1, h.0)))

received_iff :
    (o : Option (List Received)) (times : List Received)
    → o ≡ some times
    → NoneHolds (received_flags o)
      ↔ (All (λ x. x.happened.utc ≤ x.received.utc) times × InOrder times)
unfolding received_flags
received_iff o times e = rw e (
  (λ h. ((after_iff times).0 h.0, (order_iff times).0 h.1.0)),
  (λ h. ((after_iff times).1 h.0, ((order_iff times).1 h.1, tt))),
)

zoned_if_clear :
    (o : Option (List Received))
    → NoneHolds (received_flags o)
    → (times : List Received) × (o ≡ some times)
unfolding received_flags
zoned_if_clear none h = cc (h.0)
zoned_if_clear (some times) h = (times, refl)

-- The two orders have no stage twice.
no_repeat :
    (kinds : List ReplayEventKind)
    → (kinds ≡ pending_order) ⊎ (kinds ≡ executed_order)
    → repeats_kind kinds ≡ false
unfolding repeats_kind
no_repeat kinds (inl e) = rw e refl
no_repeat kinds (inr e) = rw e refl

stages_iff :
    (kinds : List ReplayEventKind)
    → ((same_kinds kinds pending_order || same_kinds kinds executed_order) ≡ true)
      ↔ ((kinds ≡ pending_order) ⊎ (kinds ≡ executed_order))
stages_iff kinds = (
  (λ h. elim (Bool-cases (same_kinds kinds pending_order)) [
    | inl e ↦ inl ((same_kinds_iff kinds pending_order).0 e)
    | inr e ↦ inr ((same_kinds_iff kinds executed_order).0 (rw e at h))
  ]),
  (λ h. elim h [
    | inl e ↦ rw ((same_kinds_iff kinds pending_order).1 e) refl
    | inr e ↦ either (same_kinds kinds pending_order) ((same_kinds_iff kinds executed_order).1 e)
  ]),
)
  where
    either : (a : Bool) {b : Bool} → b ≡ true → (a || b) ≡ true
    either true h = refl
    either false h = h

stage_passes :
    (events : List ReplayEvent)
    → NoneHolds (stage_flags events) ↔ (
        ((map (λ e. e.kind) events ≡ pending_order) ⊎ (map (λ e. e.kind) events ≡ executed_order))
        × (any (λ e. is_blank e.artifact_id) events ≡ false))
unfolding stage_flags
stage_passes events =
    let kinds = map (λ (e : ReplayEvent). e.kind) events in
    (
      (λ h. ((stages_iff kinds).0 (ground (arith, h.0)), h.1.1.0)),
      (λ h. (ground (arith, (stages_iff kinds).1 h.0), (no_repeat kinds h.0, (h.1, tt)))),
    )

-- A replay is valid exactly where its stages are those of a pending or of an executed decision, each
-- once and in their order, every time has a zone, no event was received before it happened, every event
-- was received no later than all that follow it, and each has an artifact.
pub replay_exact :
    (events : List ReplayEvent) → ((validate_replay events).valid ≡ true) ↔ ValidReplay events
unfolding validate_replay
replay_exact events =
    let fs = stage_flags events ++ received_flags (zoned_events events) in
    let split = NoneHolds-append (stage_flags events) (received_flags (zoned_events events)) in
    (
      (λ h.
          let (s, r) = split.0 ((reasons-nil fs).0 ((is_empty_iff (canonical (flags fs))).0 h)) in
          let (times, e) = zoned_if_clear (zoned_events events) r in
          let (stages, artifacts) = (stage_passes events).0 s in
          let (after, order) = (received_iff (zoned_events events) times e).0 r in
          record {
            stages = stages;
            times = times;
            zoned = e;
            after_event = after;
            in_order = order;
            artifacts = artifacts;
          }),
      (λ k. (is_empty_iff (canonical (flags fs))).1 (
          (reasons-nil fs).1 (
            split.1 (
              (stage_passes events).1 (k.stages, k.artifacts),
              (received_iff (zoned_events events) k.times k.zoned).1 (k.after_event, k.in_order),
            )))),
    )
