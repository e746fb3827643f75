-- ===== src/RateLimit/Bounded.antt =====
-- The number of keys that a limiter holds.
use hedge_desk.Prelude.{
  ℕ, ◌+◌, ◌≤◌, ◌<◌, ◌≡◌, refl, ◌⊎◌, String, true, false, [], ◌∷◌, ◌++◌, length, arith, eq_refl,
  if◌then◌else◌,
}
use hedge_desk.Dict.{contains, length-put, contains-put, length-keep_values-le}
use hedge_desk.RateLimit.{
  Limiter, drop_expired, events_of, prune, evict_expired, is_full, record_attempt, allow, remaining,
}
use hedge_desk.RateLimit.Refines.Steps.{allow_cases}

-- Pruning a key stores it.
length-prune :
    (k : String) (now : ℕ) (s : Limiter)
    → length (prune k now s).events
      ≡ (if contains k s.events then length s.events else length s.events + 1)
unfolding prune
length-prune k now s = length-put k (drop_expired now s.window (events_of k s)) s.events

contains-prune : (k : String) (now : ℕ) (s : Limiter) → contains k (prune k now s).events ≡ true
unfolding prune
contains-prune k now s =
    ground (arith, contains-put k k (drop_expired now s.window (events_of k s)) s.events, eq_refl k)

length-record_attempt :
    (k : String) (now : ℕ) (s : Limiter)
    → length (record_attempt k now s).0.events
      ≡ (if contains k s.events then length s.events else length s.events + 1)
unfolding record_attempt
length-record_attempt k now s =
    let s' = prune k now s in
    rw (← length-prune k now s)
      (ground (arith, length-put k (events_of k s' ++ now ∷ []) s'.events, contains-prune k now s))

evict-le : (now : ℕ) (s : Limiter) → length (evict_expired now s).events ≤ length s.events
unfolding evict_expired
evict-le now s = length-keep_values-le _ s.events

max_keys-evict : (now : ℕ) (s : Limiter) → (evict_expired now s).max_keys ≡ s.max_keys
unfolding evict_expired
max_keys-evict now s = refl

is_full_lem :
    (k : String) (s : Limiter)
    → is_full k s ≡ false
    → (contains k s.events ≡ true) ⊎ (length s.events < s.max_keys)
unfolding is_full
is_full_lem k s h = ground arith

-- An attempt, granted or refused, leaves at most `max_keys` keys where there were at most so many.
pub allow_bounded :
    (k : String) (now : ℕ) (s : Limiter)
    → length s.events ≤ s.max_keys
    → length (allow k now s).0.events ≤ s.max_keys
allow_bounded k now s h =
    allow_cases k s now (λ r. length r.0.events ≤ s.max_keys)
      (λ placed. ground (arith, length-record_attempt k now s, is_full_lem k s))
      (λ full left.
        ground (arith, length-record_attempt k now (evict_expired now s), max_keys-evict now s))
      (λ full left. omega (arith, evict-le now s))

-- Asking how many attempts remain to a key that is not in the map adds the key, however many keys
-- there are.
pub remaining_grows :
    (k : String) (now : ℕ) (s : Limiter)
    → contains k s.events ≡ false
    → length (remaining k now s).0.events ≡ length s.events + 1
unfolding remaining
remaining_grows k now s h = rw (length-prune k now s, h)
