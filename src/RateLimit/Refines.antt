-- ===== src/RateLimit/Refines.antt =====
-- The limiter against a log of all accepted attempts: it forgets only what has left the window.
pub mod Steps
pub mod History
use hedge_desk.Prelude.{
  ℕ, ◌+◌, ◌-◌, ◌≤◌, ◌<◌, ◌≡◌, refl, sym, ap, subst, ◌∙◌, ◌⊎◌, String, Bool, true, false, not, ◌||◌,
  ◌&&◌, Option, none, some, List, [], ◌∷◌, ◌++◌, length, length-append, ltb, leb, arith, str_eq,
  eq_iff, eq_refl, if◌then◌else◌, Bool-cases, Option-cases, inl, inr,
}
use native.Mathlib.Nat.{le_trans}
use mathlib.Core.List.{append-nil}
use hedge_desk.Dict.{
  Dict, IsDict, contains, get, put, remove, keep_values, get-put, get-remove, get-keep_values,
  put-IsDict, remove-IsDict, keep_values-IsDict,
}
use hedge_desk.RateLimit.{
  Limiter, events_of, times_of, drop_expired, is_elapsed, prune, evict_expired, is_full,
  record_attempt, allow, remaining, reset,
}
use hedge_desk.RateLimit.Windows.{
  live, UpTo, IsSorted, drop_expired-live, live-is_elapsed, live-live, live-append, live-IsSorted,
  live-UpTo, UpTo-le, UpTo-append, append-IsSorted, length-live-le,
}

-- The accepted attempts of all keys, oldest first.
abbrev pub Log : Type 0
Log = List (String × ℕ)

-- The times of one key.
unfoldable pub times : String → Log → List ℕ
times k [] = []
times k ((j, t) ∷ log) = if str_eq j k then t ∷ times k log else times k log

-- The log without one key.
unfoldable pub forget : String → Log → Log
forget k [] = []
forget k ((j, t) ∷ log) = if str_eq j k then forget k log else (j, t) ∷ forget k log

-- The accepted attempts of a key inside the window that ends now.
abbrev pub recent : String → ℕ → Limiter → Log → List ℕ
recent k now s log = live now s.window (times k log)

-- The deques are sorted, end by now, and hold the attempts of the log that are in the window.
pub record Tracks (s : Limiter) (log : Log) (now : ℕ) : Type 0 where
  pub is_dict : IsDict s.events
  pub sorted : (k : String) → IsSorted (events_of k s)
  pub past : (k : String) → UpTo now (events_of k s)
  pub same : (k : String) → live now s.window (events_of k s) ≡ recent k now s log
  pub within : (k : String) → length (recent k now s log) ≤ s.limit

times-append :
    (k : String) (log : Log) (j : String) (t : ℕ)
    → times k (log ++ (j, t) ∷ []) ≡ times k log ++ (if str_eq j k then t ∷ [] else [])
unfolding times
times-append k [] j t = ground arith
times-append k ((i, u) ∷ log) j t = ground (arith, times-append k log j t)

times-forget :
    (k j : String) (log : Log) → times j (forget k log) ≡ (if str_eq k j then [] else times j log)
unfolding times forget
times-forget k j [] = ground arith
times-forget k j ((i, u) ∷ log) =
    ground (arith, eq_iff i k, eq_iff i j, eq_iff k j, times-forget k j log)

-- Time passes.
pub Tracks-later :
    (s : Limiter) (log : Log) (now later : ℕ) → now ≤ later → Tracks s log now → Tracks s log later
Tracks-later s log now later h v = record {
  is_dict = v.is_dict;
  sorted = v.sorted;
  past = λ k. UpTo-le now later (events_of k s) h (v.past k);
  same = λ k.
      sym (live-live now later s.window (events_of k s) h)
      ∙ ap (live later s.window) (v.same k)
      ∙ live-live now later s.window (times k log) h;
  within = λ k.
      rw (← live-live now later s.window (times k log) h)
        (le_trans (length-live-le later s.window (recent k now s log)) (v.within k));
}

-- A limiter whose deques hold, of each key, the old deque or what is live of it.
record Refreshed (now : ℕ) (s s' : Limiter) : Type 0 where
  is_dict : IsDict s'.events
  window : s'.window ≡ s.window
  limit : s'.limit ≡ s.limit
  left :
      (k : String)
      → (events_of k s' ≡ events_of k s) ⊎ (events_of k s' ≡ live now s.window (events_of k s))

Refreshed-Tracks :
    (s s' : Limiter) (log : Log) (now : ℕ)
    → Refreshed now s s'
    → Tracks s log now
    → Tracks s' log now
Refreshed-Tracks s s' log now r v = record {
  is_dict = r.is_dict;
  sorted = λ k. elim (r.left k) [
    | inl e ↦ rw e (v.sorted k)
    | inr e ↦ rw e (live-IsSorted now s.window (events_of k s) (v.sorted k))
  ];
  past = λ k. elim (r.left k) [
    | inl e ↦ rw e (v.past k)
    | inr e ↦ rw e (live-UpTo now s.window now (events_of k s) (v.past k))
  ];
  same = λ k. elim (r.left k) [
    | inl e ↦ simp (r.window, e) (v.same k)
    | inr e ↦
        simp (r.window, e) (live-live now now s.window (events_of k s) (omega arith) ∙ v.same k)
  ];
  within = λ k. simp (r.window, r.limit) (v.within k);
}

events_of-prune :
    (j k : String) (now : ℕ) (s : Limiter)
    → events_of j (prune k now s)
      ≡ (if str_eq k j then drop_expired now s.window (events_of k s) else events_of j s)
unfolding prune
events_of-prune j k now s =
    ground (arith, get-put k j (drop_expired now s.window (events_of k s)) s.events)

prune-Refreshed :
    (k : String) (s : Limiter) (log : Log) (now : ℕ)
    → Tracks s log now
    → Refreshed now s (prune k now s)
prune-Refreshed k s log now v = record {
  is_dict = unfold prune in put-IsDict k _ s.events v.is_dict;
  window = unfold prune in refl;
  limit = unfold prune in refl;
  left = λ j. elim (Bool-cases (str_eq k j)) [
    | inl own ↦ inr (
        events_of-prune j k now s
        ∙ rw own (
            drop_expired-live now s.window (events_of k s) (v.sorted k)
            ∙ ap (λ x. live now s.window (events_of x s)) ((eq_iff k j).0 own)))
    | inr other ↦ inl (events_of-prune j k now s ∙ rw other)
  ];
}

events_of-evict :
    (k : String) (now : ℕ) (s : Limiter)
    → IsDict s.events
    → (events_of k (evict_expired now s) ≡ events_of k s)
      ⊎ ((events_of k (evict_expired now s) ≡ [])
          × (is_elapsed now s.window (events_of k s) ≡ true))
unfolding evict_expired events_of
events_of-evict k now s h =
    ground (arith, get-keep_values (λ ts. not (is_elapsed now s.window ts)) k s.events h)

evict-Refreshed :
    (s : Limiter) (log : Log) (now : ℕ) → Tracks s log now → Refreshed now s (evict_expired now s)
evict-Refreshed s log now v = record {
  is_dict = unfold evict_expired in keep_values-IsDict _ s.events v.is_dict;
  window = unfold evict_expired in refl;
  limit = unfold evict_expired in refl;
  left = λ k. elim (events_of-evict k now s v.is_dict) [
    | inl e ↦ inl e
    | inr e ↦ inr (e.0 ∙ sym (live-is_elapsed now s.window (events_of k s) (v.sorted k) e.1))
  ];
}

-- The limiter with one more accepted attempt.
push : String → ℕ → Limiter → Limiter
push k now s = record s { events = put k (events_of k s ++ now ∷ []) s.events }

events_of-push :
    (j k : String) (now : ℕ) (s : Limiter)
    → events_of j (push k now s) ≡ (if str_eq k j then events_of k s ++ now ∷ [] else events_of j s)
unfolding push events_of
events_of-push j k now s = ground (arith, get-put k j (events_of k s ++ now ∷ []) s.events)

module _ (k : String) (s : Limiter) (log : Log) (now : ℕ) (v : Tracks s log now) where
  push_same :
      (j : String)
      → live now s.window (events_of j (push k now s))
        ≡ live now s.window (times j (log ++ (k, now) ∷ []))
  push_same j = elim (Bool-cases (str_eq k j)) [
    | inl own ↦
        rw (events_of-push j k now s, times-append j log k now, own)
          (live-append now s.window (events_of k s) (now ∷ [])
            ∙ ap (λ l. l ++ live now s.window (now ∷ []))
                (subst (λ x. live now s.window (events_of x s) ≡ recent j now s log)
                  (sym ((eq_iff k j).0 own)) (v.same j))
            ∙ sym (live-append now s.window (times j log) (now ∷ [])))
    | inr other ↦
        rw (events_of-push j k now s, times-append j log k now, other) (rw append-nil (v.same j))
  ]

  push_within :
      length (recent k now s log) < s.limit
      → (j : String) → length (live now s.window (times j (log ++ (k, now) ∷ []))) ≤ s.limit
  push_within room j = elim (Bool-cases (str_eq k j)) [
    | inl own ↦
        rw (times-append j log k now, own, live-append)
          (omega (
            arith,
            length-append (recent j now s log) (live now s.window (now ∷ [])),
            length-live-le now s.window (now ∷ []),
            subst (λ x. length (recent x now s log) < s.limit) ((eq_iff k j).0 own) room,
          ))
    | inr other ↦ rw (times-append j log k now, other, append-nil) (v.within j)
  ]

  push-Tracks :
      length (recent k now s log) < s.limit → Tracks (push k now s) (log ++ (k, now) ∷ []) now
  push-Tracks room = record {
    is_dict = unfold push in put-IsDict k _ s.events v.is_dict;
    sorted = λ j. elim (Bool-cases (str_eq k j)) [
      | inl own ↦
          rw (events_of-push j k now s, own)
            (append-IsSorted now (events_of k s) (v.past k) (v.sorted k))
      | inr other ↦ rw (events_of-push j k now s, other) (v.sorted j)
    ];
    past = λ j. elim (Bool-cases (str_eq k j)) [
      | inl own ↦
          rw (events_of-push j k now s, own)
            (UpTo-append now now (events_of k s) (omega arith) (v.past k))
      | inr other ↦ rw (events_of-push j k now s, other) (v.past j)
    ];
    same = unfold push in push_same;
    within = unfold push in push_within room;
  }
