-- ===== src/RateLimit.antt =====
-- rate_limit.py: the sliding-window limiter and the limits of the auth surface. The clock's value
-- is an argument of each call, in whole ticks; each method runs under the limiter's lock, so a
-- history is a list of calls. Keys are texts.

pub mod Windows
pub mod Tests
pub mod Auth
pub mod Bounded
pub mod Refines
use hedge_desk.Prelude.{
  ℕ, ◌+◌, ◌-◌, ◌*◌, String, Bool, true, false, not, ◌||◌, ◌&&◌, Option, none, some, List, [], ◌∷◌,
  ◌++◌, length, ltb, leb, Error, value_error, Result, ok, err, if◌then◌else◌, is_blank,
}
use hedge_desk.Dict.{Dict, contains, get, put, remove, keep_values}

-- `events` holds the times of the accepted attempts of each key, oldest first.
pub record Limiter : Type 0 where
  pub limit : ℕ
  pub window : ℕ
  pub max_keys : ℕ
  pub events : Dict (List ℕ)

unfoldable pub make_limiter : ℕ → ℕ → ℕ → Result Limiter
make_limiter limit window max_keys =
    if ltb limit 1
    then err (value_error "limit must be >= 1")
    else ok (record { limit = limit; window = window; max_keys = max_keys; events = [] })

-- self._events[key] of the defaultdict
abbrev pub times_of : Option (List ℕ) → List ℕ
times_of none = []
times_of (some ts) = ts

unfoldable pub events_of : String → Limiter → List ℕ
events_of key s = times_of (get key s.events)

-- while events and events[0] <= now - window: events.popleft()
unfoldable pub drop_expired : ℕ → ℕ → List ℕ → List ℕ
drop_expired now window [] = []
drop_expired now window (t ∷ ts) =
    let rest = drop_expired now window ts in if leb (t + window) now then rest else t ∷ ts

unfoldable pub prune : String → ℕ → Limiter → Limiter
unfolding drop_expired events_of
prune key now s = record s {
  events = put key (drop_expired now s.window (events_of key s)) s.events;
}

-- not v or v[-1] <= now - window
unfoldable pub is_elapsed : ℕ → ℕ → List ℕ → Bool
is_elapsed now window [] = true
is_elapsed now window (t ∷ []) = leb (t + window) now
is_elapsed now window (t ∷ u ∷ ts) = is_elapsed now window (u ∷ ts)

unfoldable pub evict_expired : ℕ → Limiter → Limiter
unfolding is_elapsed
evict_expired now s = record s {
  events = keep_values (λ ts. not (is_elapsed now s.window ts)) s.events;
}

-- A new key finds no room.
unfoldable pub is_full : String → Limiter → Bool
is_full key s = not (contains key s.events) && leb s.max_keys (length s.events)

-- The second half of `allow`, once the key has room.
unfoldable pub record_attempt : String → ℕ → Limiter → Limiter × Bool
unfolding prune events_of
record_attempt key now s =
    let s' = prune key now s in
    let events = events_of key s' in
    if leb s'.limit (length events)
    then (s', false)
    else (record s' { events = put key (events ++ now ∷ []) s'.events }, true)

unfoldable pub allow : String → ℕ → Limiter → Limiter × Bool
unfolding is_full evict_expired record_attempt
allow key now s =
    let s' = evict_expired now s in
    if is_full key s
    then (if leb s'.max_keys (length s'.events) then (s', false) else record_attempt key now s')
    else record_attempt key now s

unfoldable pub remaining : String → ℕ → Limiter → Limiter × ℕ
unfolding prune events_of
remaining key now s = let s' = prune key now s in (s', s'.limit - length (events_of key s'))

unfoldable pub reset : String → Limiter → Limiter
reset key s = record s { events = remove key s.events }

-- The three limiters of the auth surface.
pub record AuthRateLimits : Type 0 where
  pub request_per_email : Limiter
  pub request_per_ip : Limiter
  pub verify_per_email : Limiter

abbrev fresh : ℕ → Limiter
fresh limit = record { limit = limit; window = 900; max_keys = 10000; events = [] }

abbrev pub auth_rate_limits : AuthRateLimits
auth_rate_limits = record {
  request_per_email = fresh 5;
  request_per_ip = fresh 20;
  verify_per_email = fresh 10;
}

-- client_ip or "unknown"
abbrev pub ip_key : String → String
ip_key client_ip = if is_blank client_ip then "unknown" else client_ip

-- The two limiters read the clock one after the other.
unfoldable pub allow_request : String → String → ℕ → ℕ → AuthRateLimits → AuthRateLimits × Bool
unfolding allow
allow_request email client_ip now later r =
    let (ip, granted) = allow (ip_key client_ip) now r.request_per_ip in
    let (address, allowed) = allow email later r.request_per_email in
    if granted
    then (record r { request_per_ip = ip; request_per_email = address }, allowed)
    else (record r { request_per_ip = ip }, false)

unfoldable pub allow_verify : String → ℕ → AuthRateLimits → AuthRateLimits × Bool
unfolding allow
allow_verify email now r =
    let (address, allowed) = allow email now r.verify_per_email in
    (record r { verify_per_email = address }, allowed)
