-- ===== src/RateLimit/Tests.antt =====
-- Runs of the limiter, and its theorems at concrete inputs.
use hedge_desk.Prelude.{ℕ, ◌≤◌, ◌≡◌, refl, true, false, ◌&&◌, List, [], ◌∷◌, length, ltb, arith}
use hedge_desk.Dict.{contains, get, put}
use hedge_desk.RateLimit.{Limiter, make_limiter, allow, remaining}
use hedge_desk.RateLimit.Windows.{live}
use hedge_desk.RateLimit.Refines.{Tracks, times, recent}
use hedge_desk.RateLimit.Refines.Steps.{allow_exact, has_room}
use hedge_desk.RateLimit.Refines.History.{
  Call, allows, asks, run, window_limit, new-Tracks, run-Tracks,
}
use hedge_desk.RateLimit.Bounded.{remaining_grows}

-- Two attempts in ten ticks, of two keys.
abbrev small : Limiter
small = record { limit = 2; window = 10; max_keys = 2; events = [] }

abbrev calls : List (ℕ × Call)
calls = (1, allows "a") ∷ (2, allows "a") ∷ (3, allows "a") ∷ (4, asks "b") ∷ []

-- The third attempt in the window is refused, and the first one leaves it at tick 11.
third_attempt : (allow "a" 3 (run (small, []) ((1, allows "a") ∷ (2, allows "a") ∷ [])).0).1 ≡ false
unfolding allow run contains get put
third_attempt = refl

window_slides : (allow "a" 11 (run (small, []) calls).0).1 ≡ true
unfolding allow run contains remaining put get
window_slides = refl

window_limit_example : length (live 9 10 (times "a" (run (small, []) calls).1)) ≤ 2
unfolding make_limiter
window_limit_example = window_limit 2 10 2 small 0 9 calls "a" refl (omega arith)

after_calls : Tracks (run (small, []) calls).0 (run (small, []) calls).1 9
after_calls = run-Tracks small [] 0 calls 9 (omega arith) (new-Tracks 2 10 2 0)

allow_exact_example : (allow "a" 9 (run (small, []) calls).0).1 ≡ (
    has_room "a" 9 (run (small, []) calls).0
    && ltb
        (length (recent "a" 9 (run (small, []) calls).0 (run (small, []) calls).1))
        (run (small, []) calls).0.limit)
allow_exact_example =
    allow_exact "a" (run (small, []) calls).0 (run (small, []) calls).1 9 after_calls

-- A map that is full already.
abbrev crowded : Limiter
crowded = record small { events = ("a", 1 ∷ []) ∷ ("b", 2 ∷ []) ∷ [] }

remaining_grows_example : length (remaining "c" 3 crowded).0.events ≡ 3
unfolding contains
remaining_grows_example = remaining_grows "c" 3 crowded refl
