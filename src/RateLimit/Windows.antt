-- ===== src/RateLimit/Windows.antt =====
-- Times inside a window, and what the limiter's walks over a deque leave of them.
use hedge_desk.Prelude.{
  ℕ, ◌+◌, ◌≤◌, ◌≡◌, refl, true, List, [], ◌∷◌, ◌++◌, length, ltb, arith, if◌then◌else◌,
}
use hedge_desk.RateLimit.{drop_expired, is_elapsed}

-- The times that are later than now - window.
unfoldable pub live : ℕ → ℕ → List ℕ → List ℕ
live now window [] = []
live now window (t ∷ ts) =
    if ltb now (t + window) then t ∷ live now window ts else live now window ts

-- No time of the list is before t.
abbrev pub From : ℕ → List ℕ → Type 0
From t [] = Unit {0}
From t (u ∷ us) = (t ≤ u) × From t us

-- No time of the list is after now.
abbrev pub UpTo : ℕ → List ℕ → Type 0
UpTo now [] = Unit {0}
UpTo now (u ∷ us) = (u ≤ now) × UpTo now us

abbrev pub IsSorted : List ℕ → Type 0
IsSorted [] = Unit {0}
IsSorted (t ∷ ts) = From t ts × IsSorted ts

live_all : (now w t : ℕ) (ts : List ℕ) → ltb now (t + w) ≡ true → From t ts → live now w ts ≡ ts
unfolding live
live_all now w t [] h k = refl
live_all now w t (u ∷ ts) h k = ground (arith, live_all now w t ts)

-- On a sorted deque the popping loop leaves exactly the live times.
pub drop_expired-live :
    (now w : ℕ) (ts : List ℕ) → IsSorted ts → drop_expired now w ts ≡ live now w ts
unfolding drop_expired live
drop_expired-live now w [] h = refl
drop_expired-live now w (t ∷ ts) h = ground (arith, drop_expired-live now w ts, live_all now w t ts)

-- A deque whose last time has left the window holds no live time.
pub live-is_elapsed :
    (now w : ℕ) (ts : List ℕ) → IsSorted ts → is_elapsed now w ts ≡ true → live now w ts ≡ []
unfolding is_elapsed live
live-is_elapsed now w [] h k = refl
live-is_elapsed now w (t ∷ []) h k = ground arith
live-is_elapsed now w (t ∷ u ∷ ts) h k = ground (arith, live-is_elapsed now w (u ∷ ts) h.1 k)

-- What has left the window stays out of it.
pub live-live :
    (now later w : ℕ) (ts : List ℕ) → now ≤ later → live later w (live now w ts) ≡ live later w ts
unfolding live
live-live now later w [] h = refl
live-live now later w (t ∷ ts) h = ground (arith, live-live now later w ts h)

pub live-append :
    (now w : ℕ) (ts us : List ℕ) → live now w (ts ++ us) ≡ live now w ts ++ live now w us
unfolding live
live-append now w [] us = refl
live-append now w (t ∷ ts) us = ground (arith, live-append now w ts us)

From-live : (now w t : ℕ) (ts : List ℕ) → From t ts → From t (live now w ts)
unfolding live
From-live now w t [] h = tt
From-live now w t (u ∷ ts) h = ground (arith, From-live now w t ts)

pub live-IsSorted : (now w : ℕ) (ts : List ℕ) → IsSorted ts → IsSorted (live now w ts)
unfolding live
live-IsSorted now w [] h = tt
live-IsSorted now w (t ∷ ts) h = ground (arith, From-live now w t ts, live-IsSorted now w ts)

pub live-UpTo : (now w m : ℕ) (ts : List ℕ) → UpTo m ts → UpTo m (live now w ts)
unfolding live
live-UpTo now w m [] h = tt
live-UpTo now w m (t ∷ ts) h = ground (arith, live-UpTo now w m ts)

pub UpTo-le : (m n : ℕ) (ts : List ℕ) → m ≤ n → UpTo m ts → UpTo n ts
UpTo-le m n [] h k = tt
UpTo-le m n (t ∷ ts) h k = ground (arith, UpTo-le m n ts)

pub UpTo-append : (m n : ℕ) (ts : List ℕ) → n ≤ m → UpTo m ts → UpTo m (ts ++ n ∷ [])
UpTo-append m n [] h k = (h, tt)
UpTo-append m n (t ∷ ts) h k = (k.0, UpTo-append m n ts h k.1)

From-append : (t n : ℕ) (ts : List ℕ) → t ≤ n → From t ts → From t (ts ++ n ∷ [])
From-append t n [] h k = (h, tt)
From-append t n (u ∷ ts) h k = (k.0, From-append t n ts h k.1)

pub append-IsSorted : (n : ℕ) (ts : List ℕ) → UpTo n ts → IsSorted ts → IsSorted (ts ++ n ∷ [])
append-IsSorted n [] h k = (tt, tt)
append-IsSorted n (t ∷ ts) h k = (From-append t n ts h.0 k.0, append-IsSorted n ts h.1 k.1)

pub length-live-le : (now w : ℕ) (ts : List ℕ) → length (live now w ts) ≤ length ts
unfolding live
length-live-le now w [] = omega arith
length-live-le now w (t ∷ ts) = ground (arith, length-live-le now w ts)
