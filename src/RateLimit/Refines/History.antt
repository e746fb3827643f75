-- ===== src/RateLimit/Refines/History.antt =====
-- Histories of calls of one limiter, on a clock that does not go back.
use hedge_desk.Prelude.{
  ℕ, ◌≤◌, ◌≡◌, refl, ap, subst₂, ◌∙◌, String, List, [], ◌∷◌, length, arith, ok,
}
use hedge_desk.Dict.{get}
use hedge_desk.RateLimit.{
  Limiter, make_limiter, events_of, evict_expired, record_attempt, allow, remaining, reset,
}
use hedge_desk.RateLimit.Windows.{live}
use hedge_desk.RateLimit.Refines.{Log, times, forget, Tracks, Tracks-later}
use hedge_desk.RateLimit.Refines.Steps.{
  logged, allow_cases, allow-Tracks, remaining-Tracks, reset-Tracks,
}

-- The calls of a limiter.
pub data Call : Type 0 where
  allows : String → Call
  asks : String → Call
  resets : String → Call

-- A call at a time, on a limiter and the log of what it accepted.
unfoldable pub step : Limiter × Log → ℕ × Call → Limiter × Log
step (s, log) (now, allows k) = ((allow k now s).0, logged (allow k now s).1 k now log)
step (s, log) (now, asks k) = ((remaining k now s).0, log)
step (s, log) (now, resets k) = (reset k s, forget k log)

unfoldable pub run : Limiter × Log → List (ℕ × Call) → Limiter × Log
unfolding step
run state [] = state
run state (c ∷ cs) = run (step state c) cs

-- The clock of the calls never goes back, and does not pass `until`.
abbrev pub Timed : ℕ → List (ℕ × Call) → ℕ → Type 0
Timed now [] until = now ≤ until
Timed now ((t, c) ∷ cs) until = (now ≤ t) × Timed t cs until

step-Tracks :
    (s : Limiter) (log : Log) (now : ℕ) (c : Call)
    → Tracks s log now
    → Tracks (step (s, log) (now, c)).0 (step (s, log) (now, c)).1 now
unfolding step
step-Tracks s log now (allows k) v = allow-Tracks k s log now v
step-Tracks s log now (asks k) v = remaining-Tracks k s log now v
step-Tracks s log now (resets k) v = reset-Tracks k s log now v

-- After any calls on a clock that does not go back, the limiter holds exactly what is in the window
-- of the log of its accepted attempts, and of every key at most `limit` of them are in the window.
pub run-Tracks :
    (s : Limiter) (log : Log) (now : ℕ) (cs : List (ℕ × Call)) (until : ℕ)
    → Timed now cs until
    → Tracks s log now
    → Tracks (run (s, log) cs).0 (run (s, log) cs).1 until
unfolding run
run-Tracks s log now [] until h v = Tracks-later s log now until h v
run-Tracks s log now ((t, c) ∷ cs) until h v =
    let (s', log') = step (s, log) (t, c) in
    run-Tracks s' log' t cs until h.1 (step-Tracks s log t c (Tracks-later s log now t h.0 v))

-- Two limiters with one configuration.
record SameLimits (s s' : Limiter) : Type 0 where
  limit : s'.limit ≡ s.limit
  window : s'.window ≡ s.window
  max_keys : s'.max_keys ≡ s.max_keys

record_attempt-SameLimits :
    (k : String) (now : ℕ) (s : Limiter) → SameLimits s (record_attempt k now s).0
unfolding record_attempt
record_attempt-SameLimits k now s = ground arith

evict-SameLimits : (now : ℕ) (s : Limiter) → SameLimits s (evict_expired now s)
unfolding evict_expired
evict-SameLimits now s = record { limit = refl; window = refl; max_keys = refl }

step-SameLimits :
    (s : Limiter) (log : Log) (now : ℕ) (c : Call) → SameLimits s (step (s, log) (now, c)).0
unfolding step
step-SameLimits s log now (allows k) =
    allow_cases k s now (λ r. SameLimits s r.0) (λ _. record_attempt-SameLimits k now s)
      (λ _ _.
        ground
          (arith, evict-SameLimits now s, record_attempt-SameLimits k now (evict_expired now s)))
      (λ _ _. evict-SameLimits now s)
step-SameLimits s log now (asks k) =
    unfold remaining in record { limit = refl; window = refl; max_keys = refl }
step-SameLimits s log now (resets k) =
    unfold reset in record { limit = refl; window = refl; max_keys = refl }

run-SameLimits : (s : Limiter) (log : Log) (cs : List (ℕ × Call)) → SameLimits s (run (s, log) cs).0
unfolding run
run-SameLimits s log [] = record { limit = refl; window = refl; max_keys = refl }
run-SameLimits s log ((t, c) ∷ cs) =
    let (s', log') = step (s, log) (t, c) in
    ground (arith, run-SameLimits s' log' cs, step-SameLimits s log t c)

abbrev new : ℕ → ℕ → ℕ → Limiter
new l w m = record { limit = l; window = w; max_keys = m; events = [] }

make_limiter-new : (l w m : ℕ) (s : Limiter) → make_limiter l w m ≡ ok s → s ≡ new l w m
unfolding make_limiter
make_limiter-new l w m s h = ground arith

-- A new limiter tracks the empty log.
pub new-Tracks : (l w m : ℕ) (now : ℕ) → Tracks (new l w m) [] now
unfolding events_of get live times
new-Tracks l w m now = record {
  is_dict = tt;
  sorted = λ k. tt;
  past = λ k. tt;
  same = λ k. refl;
  within = λ k. omega arith;
}

-- Whatever calls a new limiter has had, on a clock that does not go back: at no later time are more
-- than `limit` accepted attempts of a key, since its last reset, inside the window. A reset forgets the
-- attempts before it, which the bound does not count.
pub window_limit :
    (l w m : ℕ) (s : Limiter) (start until : ℕ) (cs : List (ℕ × Call)) (k : String)
    → make_limiter l w m ≡ ok s
    → Timed start cs until
    → length (live until w (times k (run (s, []) cs).1)) ≤ l
window_limit l w m s start until cs k made timed =
    let e = make_limiter-new l w m s made in
    let v = run-Tracks s [] start cs until timed (rw e (new-Tracks l w m start)) in
    let same = run-SameLimits s [] cs in
    subst₂ (λ window limit. length (live until window (times k (run (s, []) cs).1)) ≤ limit)
      (same.window ∙ ap (λ x. x.window) e) (same.limit ∙ ap (λ x. x.limit) e) (v.within k)
