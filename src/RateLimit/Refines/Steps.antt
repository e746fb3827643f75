-- ===== src/RateLimit/Refines/Steps.antt =====
-- The methods of the limiter against the log.
use hedge_desk.Prelude.{
  ℕ, ◌-◌, ◌≡◌, refl, ◌∙◌, ◌⊎◌, String, Bool, true, false, not, ◌&&◌, ◌||◌, [], ◌∷◌, ◌++◌, length,
  ltb, leb, arith, str_eq, if◌then◌else◌, Bool-cases, inl, inr,
}
use hedge_desk.Dict.{get-remove, remove-IsDict}
use hedge_desk.RateLimit.{
  Limiter, events_of, prune, evict_expired, is_full, record_attempt, allow, remaining, reset,
}
use hedge_desk.RateLimit.Windows.{live, drop_expired-live}
use hedge_desk.RateLimit.Refines.{
  Log, times, forget, recent, Tracks, Refreshed-Tracks, prune-Refreshed, evict-Refreshed,
  events_of-prune, push, push-Tracks, times-forget,
}
use text.Mathlib.TextPositions.{eq_refl}

-- The log after an attempt.
abbrev pub logged : Bool → String → ℕ → Log → Log
logged true k now log = log ++ (k, now) ∷ []
logged false k now log = log

-- The key stands already, or there is room for it once the elapsed keys are dropped.
abbrev pub has_room : String → ℕ → Limiter → Bool
has_room k now s = not (is_full k s) || not (leb s.max_keys (length (evict_expired now s).events))

module _ (k : String) (s : Limiter) (log : Log) (now : ℕ) (v : Tracks s log now) where
  events_of-prune_self : events_of k (prune k now s) ≡ recent k now s log
  events_of-prune_self =
      events_of-prune k k now s
      ∙ rw (eq_refl k) (drop_expired-live now s.window (events_of k s) (v.sorted k) ∙ v.same k)

  prune-Tracks : Tracks (prune k now s) log now
  prune-Tracks = Refreshed-Tracks s (prune k now s) log now (prune-Refreshed k s log now v) v

  pub evict-Tracks : Tracks (evict_expired now s) log now
  evict-Tracks = Refreshed-Tracks s (evict_expired now s) log now (evict-Refreshed s log now v) v

  record_attempt_lem : record_attempt k now s ≡ (
      if leb s.limit (length (recent k now s log))
      then (prune k now s, false)
      else (push k now (prune k now s), true))
  record_attempt_lem = rw (← events_of-prune_self) (unfold record_attempt push in refl)

  record_attempt_exact : (record_attempt k now s).1 ≡ ltb (length (recent k now s log)) s.limit
  record_attempt_exact = rw record_attempt_lem (ground arith)

  recent-prune : recent k now (prune k now s) log ≡ recent k now s log
  unfolding prune
  recent-prune = refl

  limit-prune : (prune k now s).limit ≡ s.limit
  unfolding prune
  limit-prune = refl

  record_attempt-Tracks :
      Tracks (record_attempt k now s).0 (logged (record_attempt k now s).1 k now log) now
  record_attempt-Tracks = elim (Bool-cases (leb s.limit (length (recent k now s log)))) [
    | inl spent ↦ rw (record_attempt_lem, spent) prune-Tracks
    | inr room ↦
        rw (record_attempt_lem, room)
          (push-Tracks k (prune k now s) log now prune-Tracks
            (rw (recent-prune, limit-prune) (ground (arith, room))))
  ]

module _ (k : String) (s : Limiter) (now : ℕ) where
  allow_kept : is_full k s ≡ false → allow k now s ≡ record_attempt k now s
  unfolding allow
  allow_kept h = ground arith

  allow_evicted :
      is_full k s ≡ true
      → leb s.max_keys (length (evict_expired now s).events) ≡ false
      → allow k now s ≡ record_attempt k now (evict_expired now s)
  unfolding allow
  allow_evicted h e = ground arith

  allow_refused :
      is_full k s ≡ true
      → leb s.max_keys (length (evict_expired now s).events) ≡ true
      → allow k now s ≡ (evict_expired now s, false)
  unfolding allow
  allow_refused h e = ground arith

  -- The three ways through `allow`.
  pub allow_cases {ℓ} :
      (P : Limiter × Bool → Type ℓ)
      → (is_full k s ≡ false → P (record_attempt k now s))
      → (is_full k s ≡ true
          → leb s.max_keys (length (evict_expired now s).events) ≡ false
          → P (record_attempt k now (evict_expired now s)))
      → (is_full k s ≡ true
          → leb s.max_keys (length (evict_expired now s).events) ≡ true
          → P (evict_expired now s, false))
      → P (allow k now s)
  allow_cases P kept evicted refused = elim (Bool-cases (is_full k s)) [
    | inr placed ↦ rw (allow_kept placed) (kept placed)
    | inl full ↦ elim (Bool-cases (leb s.max_keys (length (evict_expired now s).events))) [
      | inl none_left ↦ rw (allow_refused full none_left) (refused full none_left)
      | inr some_left ↦ rw (allow_evicted full some_left) (evicted full some_left)
    ]
  ]

module _ (k : String) (s : Limiter) (log : Log) (now : ℕ) (v : Tracks s log now) where
  -- From a limiter that holds what is in the window of a log, `allow` grants the attempt exactly when
  -- the key has room in the map and fewer than `limit` of its attempts are inside the window.
  pub allow_exact :
      (allow k now s).1 ≡ (has_room k now s && ltb (length (recent k now s log)) s.limit)
  allow_exact =
      allow_cases k s now
        (λ r. r.1 ≡ (has_room k now s && ltb (length (recent k now s log)) s.limit))
        (λ placed. rw (record_attempt_exact k s log now v, placed))
        (λ full left.
          rw
            (
              record_attempt_exact k (evict_expired now s) log now (evict-Tracks k s log now v),
              full,
              left,
            )
            (unfold evict_expired in refl))
        (λ full left. rw (full, left))

  pub allow-Tracks : Tracks (allow k now s).0 (logged (allow k now s).1 k now log) now
  allow-Tracks =
      allow_cases k s now (λ r. Tracks r.0 (logged r.1 k now log) now)
        (λ _. record_attempt-Tracks k s log now v)
        (λ _ _. record_attempt-Tracks k (evict_expired now s) log now (evict-Tracks k s log now v))
        (λ _ _. evict-Tracks k s log now v)

  -- `remaining` is what the limit leaves after the attempts inside the window.
  pub remaining_exact : (remaining k now s).1 ≡ s.limit - length (recent k now s log)
  remaining_exact = rw (← events_of-prune_self k s log now v) (unfold remaining in refl)

  pub remaining-Tracks : Tracks (remaining k now s).0 log now
  unfolding remaining
  remaining-Tracks = prune-Tracks k s log now v

  events_of-reset :
      (j : String) → events_of j (reset k s) ≡ (if str_eq k j then [] else events_of j s)
  unfolding reset events_of
  events_of-reset j = ground (arith, get-remove k j s.events v.is_dict)

  reset-Refreshes :
      (j : String)
      → ((events_of j (reset k s) ≡ []) × (times j (forget k log) ≡ []))
        ⊎ ((events_of j (reset k s) ≡ events_of j s) × (times j (forget k log) ≡ times j log))
  reset-Refreshes j = ground (arith, events_of-reset j, times-forget k j log)

  -- `reset` forgets the attempts of its key and of no other.
  pub reset-Tracks : Tracks (reset k s) (forget k log) now
  reset-Tracks = record {
    is_dict = unfold reset in remove-IsDict k s.events v.is_dict;
    sorted = λ j. elim (reset-Refreshes j) [ inl e ↦ rw e.0 tt | inr e ↦ rw e.0 (v.sorted j) ];
    past = λ j. elim (reset-Refreshes j) [ inl e ↦ rw e.0 tt | inr e ↦ rw e.0 (v.past j) ];
    same =
        unfold reset in
        λ j. elim (reset-Refreshes j) [ inl e ↦ rw (e.0, e.1) | inr e ↦ rw (e.0, e.1) (v.same j) ];
    within =
        unfold reset in
        λ j. elim (reset-Refreshes j) [
          | inl e ↦ rw e.1 (unfold live in omega arith)
          | inr e ↦ rw e.1 (v.within j)
        ];
  }
