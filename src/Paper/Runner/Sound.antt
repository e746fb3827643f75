-- ===== src/Paper/Runner/Sound.antt =====
-- What the entries of the runner's state hold, whatever wrote it.
use hedge_desk.Prelude.{
  ◌≡◌, inl, inr, refl, sym, ◌∙◌, subst, String, Bool, true, false, Option, none, some, List, [], ok,
  str_eq, Bool-cases, if◌then◌else◌,
}
use hedge_desk.Time.{Moment, DateTime, aware}
use hedge_desk.Digest.{Digest}
use hedge_desk.Dict.{Dict, get, put, get-put}
use hedge_desk.Options.Exit.{default_exit_policy}
use hedge_desk.Paper.Plan.{PaperTradePlan}
use hedge_desk.Paper.Authorize.{PaperOpen, execute_paper_open}
use hedge_desk.Paper.Close.{PaperClose, close_paper_trade}
use hedge_desk.Paper.Runner.{Entry, status_pending_open, status_open, status_closed, entry_or}
use hedge_desk.Paper.Runner.Close.{CloseRequest}
use hedge_desk.Paper.Runner.Forward.{Progress, stays, opens, closes}
use hedge_desk.Paper.Runner.Changes.{
  RunnerEvent, run_events, entries_of, Changes, none_yet, step, events_lem,
}
use hedge_desk.Paper.Runner.History.{open_not_closed, pending_not_closed, pending_not_open}

-- What an entry holds is what its status says, and was made by the paper workflow.
pub data SoundEntry (digest : Digest) (e : Entry) : Type 0 where
  waiting :
      e.status ≡ status_pending_open
      → e.open_record ≡ none
      → e.close_record ≡ none
      → SoundEntry digest e
  holding :
      (plan : PaperTradePlan) (now : Moment) (o : PaperOpen)
      → e.status ≡ status_open
      → execute_paper_open digest plan (aware now) ≡ ok o
      → e.open_record ≡ some o
      → e.close_record ≡ none
      → SoundEntry digest e
  finished :
      (plan closing_plan : PaperTradePlan) (now : Moment) (o : PaperOpen) (r : CloseRequest)
      (t : DateTime) (c : PaperClose)
      → e.status ≡ status_closed
      → execute_paper_open digest plan (aware now) ≡ ok o
      → e.open_record ≡ some o
      → close_paper_trade digest o closing_plan r.short_quote r.long_quote
          r.exit_commission_per_contract t false default_exit_policy
        ≡ ok c
      → e.close_record ≡ some c
      → SoundEntry digest e

some_injective : (a b : PaperOpen) → some a ≡ some b → a ≡ b
some_injective a b h = cc

Progress-SoundEntry :
    (digest : Digest) (e e' : Entry)
    → Progress digest e e'
    → SoundEntry digest e
    → SoundEntry digest e'
Progress-SoundEntry digest e e' (stays s o c) (waiting p q r) = waiting (s ∙ p) (o ∙ q) (c ∙ r)
Progress-SoundEntry digest e e' (stays s o c) (holding plan now x p q r u) =
    holding plan now x (s ∙ p) q (o ∙ r) (c ∙ u)
Progress-SoundEntry digest e e' (stays s o c) (finished plan plan' now x r t y p q u v w) =
    finished plan plan' now x r t y (s ∙ p) q (o ∙ u) v (c ∙ w)
Progress-SoundEntry digest e e' (opens plan now o s h x s' o' c') (waiting p q r) =
    holding plan now o s' x o' (c' ∙ r)
Progress-SoundEntry digest e e' (opens plan now o s h x s' o' c') (holding _ _ _ p _ _ _) =
    absurd (pending_not_open e.status s p)
Progress-SoundEntry digest e e' (opens plan now o s h x s' o' c')
      (finished _ _ _ _ _ _ _ p _ _ _ _) =
    absurd (pending_not_closed e.status s p)
Progress-SoundEntry digest e e' (closes plan o r t c s p x s' o' c') (waiting a _ _) =
    absurd (pending_not_open e.status a s)
Progress-SoundEntry digest e e' (closes plan o r t c s p x s' o' c') (holding plan' now y _ q u _) =
    let same : y ≡ o = some_injective y o (sym u ∙ p) in
    finished plan' plan now o r t c s'
      (subst (λ z. execute_paper_open digest plan' (aware now) ≡ ok z) same q) (o' ∙ p) x c'
Progress-SoundEntry digest e e' (closes plan o r t c s p x s' o' c')
      (finished _ _ _ _ _ _ _ a _ _ _ _) =
    absurd (open_not_closed e.status s a)

-- Every entry of the state is sound.
abbrev pub AllSound : Digest → Dict Entry → Type 0
AllSound digest d = (key : String) (e : Entry) → get key d ≡ some e → SoundEntry digest e

entry_or_sound :
    (digest : Digest) (d : Dict Entry) (key : String) (plan : PaperTradePlan)
    → AllSound digest d
    → (o : Option Entry) → get key d ≡ o
    → SoundEntry digest (entry_or o plan)
entry_or_sound digest d key plan h none found = waiting refl refl refl
entry_or_sound digest d key plan h (some e) found = h key e found

put_sound :
    (digest : Digest) (d : Dict Entry) (key : String) (e' : Entry)
    → AllSound digest d
    → SoundEntry digest e'
    → AllSound digest (put key e' d)
put_sound digest d key e' h s j e found = elim (Bool-cases (str_eq key j)) [
  | inl own ↦
      subst (λ x. SoundEntry digest x) (own_branch _ own (sym (get-put key j e' d) ∙ found)) s
  | inr other ↦ h j e (sym (other_branch _ other) ∙ sym (get-put key j e' d) ∙ found)
]
  where
    own_branch :
        {b : Bool} (o : Option Entry) → b ≡ true → (if b then some e' else o) ≡ some e → e' ≡ e
    own_branch o h k = cc

    other_branch : {b : Bool} (o : Option Entry) → b ≡ false → (if b then some e' else o) ≡ o
    other_branch o h = rw h refl

changes_sound :
    (digest : Digest) (d d' : Dict Entry)
    → AllSound digest d
    → Changes digest d d'
    → AllSound digest d'
changes_sound digest d _ h none_yet = h
changes_sound digest d _ h (step {d'} key plan e' c p) =
    let before = changes_sound digest d d' h c in
    put_sound digest d' key e' before (
      Progress-SoundEntry digest (entry_or (get key d') plan) e' p
        (entry_or_sound digest d' key plan before (get key d') refl))

nothing : (key : String) (e : Entry) → get key [] ≡ some e → ⊥
unfolding get
nothing key e found = cc

-- In the state that any ticks and human closes leave, with whatever plan files and providers and from a
-- state file that is not there yet, each entry is pending with neither open nor close; or open, with an
-- open that execute_paper_open gave for some approved plan, and no close; or closed, with such an open
-- and a close that close_paper_trade gave for it.
pub history_sound :
    (digest : Digest) (events : List RunnerEvent) (key : String) (e : Entry)
    → get key (entries_of (run_events digest events none)) ≡ some e
    → SoundEntry digest e
history_sound digest events key e h =
    changes_sound digest [] _ (λ key e found. absurd (nothing key e found))
      (events_lem digest events none) key e h
