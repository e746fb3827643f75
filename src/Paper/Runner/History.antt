-- ===== src/Paper/Runner/History.antt =====
-- What holds of the runner's entries over any sequence of ticks and human closes.
use hedge_desk.Prelude.{
  ◌≡◌, ◌⊎◌, inl, inr, refl, sym, ◌∙◌, subst, String, Bool, true, false, Option, some, List, str_eq,
  eq_iff, Bool-cases, if◌then◌else◌,
}
use hedge_desk.Digest.{Digest}
use hedge_desk.Dict.{Dict, get, put, get-put}
use hedge_desk.Paper.Plan.{PaperTradePlan}
use hedge_desk.Paper.Runner.{
  Entry, RunnerState, status_pending_open, status_open, status_closed, entry_or,
}
use hedge_desk.Paper.Runner.Forward.{Progress, stays, opens, closes}
use hedge_desk.Paper.Runner.Changes.{
  RunnerEvent, run_events, entries_of, Changes, none_yet, step, events_lem,
}

-- What an earlier entry says still stands in a later one: a close is final, with its records, and an
-- open is followed by nothing but its close, with its record.
pub record Stands (e e' : Entry) : Type 0 where
  pub close_final :
      e.status ≡ status_closed
      → (e'.status ≡ status_closed)
        × (e'.open_record ≡ e.open_record)
        × (e'.close_record ≡ e.close_record)
  pub open_kept :
      e.status ≡ status_open
      → ((e'.status ≡ status_open) ⊎ (e'.status ≡ status_closed)) × (e'.open_record ≡ e.open_record)

pub open_not_closed : (s : String) → s ≡ status_open → s ≡ status_closed → ⊥
open_not_closed s p q = cc ((eq_iff status_open status_closed).1 (sym p ∙ q))

pub pending_not_closed : (s : String) → s ≡ status_pending_open → s ≡ status_closed → ⊥
pending_not_closed s p q = cc ((eq_iff status_pending_open status_closed).1 (sym p ∙ q))

pub pending_not_open : (s : String) → s ≡ status_pending_open → s ≡ status_open → ⊥
pending_not_open s p q = cc ((eq_iff status_pending_open status_open).1 (sym p ∙ q))

Progress-Stands : (digest : Digest) (e e' : Entry) → Progress digest e e' → Stands e e'
Progress-Stands digest e e' (stays s o c) = record {
  close_final = λ h. (s ∙ h, o, c);
  open_kept = λ h. (inl (s ∙ h), o);
}
Progress-Stands digest e e' (opens plan now o s p x s' o' c') = record {
  close_final = λ h. absurd (pending_not_closed e.status s h);
  open_kept = λ h. absurd (pending_not_open e.status s h);
}
Progress-Stands digest e e' (closes plan o r t c s p x s' o' c') = record {
  close_final = λ h. absurd (open_not_closed e.status s h);
  open_kept = λ h. (inr s', o');
}

Stands-refl : (e : Entry) → Stands e e
Stands-refl e = record { close_final = λ h. (h, refl, refl); open_kept = λ h. (inl h, refl) }

Stands-trans : (a b c : Entry) → Stands a b → Stands b c → Stands a c
Stands-trans a b c h k = record {
  close_final = λ p.
      let (s, o, r) = h.close_final p in let (s', o', r') = k.close_final s in (s', o' ∙ o, r' ∙ r);
  open_kept = λ p.
      let (s, o) = h.open_kept p in
      elim s [
        | inl still ↦ let (s', o') = k.open_kept still in (s', o' ∙ o)
        | inr over ↦ let (s', o', _) = k.close_final over in (inr s', o' ∙ o)
      ];
}

-- The later entry of a plan.
abbrev pub Remains : Dict Entry → String → Entry → Type 0
Remains d key e = (e' : Entry) × (get key d ≡ some e') × Stands e e'

put_stands :
    (digest : Digest) (d : Dict Entry) (key j : String) (plan : PaperTradePlan) (e e' : Entry)
    → Remains d j e
    → Progress digest (entry_or (get key d) plan) e'
    → Remains (put key e' d) j e
put_stands digest d key j plan e e' (x, found, s) p = elim (Bool-cases (str_eq key j)) [
  | inl own ↦
      let here : get key d ≡ some x =
        subst (λ k. get k d ≡ some x) (sym ((eq_iff key j).0 own)) found in
      let q : Progress digest x e' = subst (λ o. Progress digest (entry_or o plan) e') here p in
      (
        e',
        get-put key j e' d ∙ own_branch _ own,
        Stands-trans e x e' s (Progress-Stands digest x e' q),
      )
  | inr other ↦ (x, get-put key j e' d ∙ other_branch _ other ∙ found, s)
]
  where
    own_branch : {b : Bool} (o : Option Entry) → b ≡ true → (if b then some e' else o) ≡ some e'
    own_branch o h = rw h refl

    other_branch : {b : Bool} (o : Option Entry) → b ≡ false → (if b then some e' else o) ≡ o
    other_branch o h = rw h refl

changes_stand :
    (digest : Digest) (d d' : Dict Entry) (key : String) (e : Entry)
    → get key d ≡ some e
    → Changes digest d d'
    → Remains d' key e
changes_stand digest d _ key e h none_yet = (e, h, Stands-refl e)
changes_stand digest d _ key e h (step {d'} j plan e' c p) =
    put_stands digest d' j key plan e e' (changes_stand digest d d' key e h c) p

-- Whatever ticks and human closes follow, with whatever plan files and providers: the entry of a plan
-- stays in the state; once it is closed, its status, its open and its close never change again; and once
-- it is open, it stays open or closed, with the same open.
pub history_stands :
    (digest : Digest) (events : List RunnerEvent) (file : Option RunnerState) (key : String)
    (e : Entry)
    → get key (entries_of file) ≡ some e
    → Remains (entries_of (run_events digest events file)) key e
history_stands digest events file key e h =
    changes_stand digest (entries_of file) _ key e h (events_lem digest events file)
