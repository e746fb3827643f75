-- ===== src/Time.antt =====
-- The values of Python's datetime. Time counts microseconds from 0001-01-01T00:00; an aware
-- datetime has its UTC time and the time that its own clock shows, at a fixed distance, a naive one
-- only the latter.
use hedge_desk.Prelude.{
  ℕ, ◌+◌, ◌*◌, ◌/◌, ◌≡◌, Bool, false, Option, none, some, ltb, leb, ◌==◌, Result, ok, err, Error,
  type_error,
}

-- A datetime with tzinfo.
pub record Moment : Type 0 where
  pub utc : ℕ
  pub wall : ℕ

pub data DateTime : Type 0 where
  naive : ℕ → DateTime
  aware : Moment → DateTime

-- Midnight UTC of the day with that number of days before it since 0001-01-01.
abbrev pub midnight : ℕ → DateTime
midnight days = aware (record { utc = days * 86400000000; wall = days * 86400000000 })

-- value.tzinfo is None, which raises
unfoldable pub aware_or : DateTime → Error → Result Moment
aware_or (naive t) e = err e
aware_or (aware m) e = ok m

pub aware_or-eq-ok : (t : DateTime) (e : Error) (m : Moment) → aware_or t e ≡ ok m → t ≡ aware m
unfolding aware_or
aware_or-eq-ok (naive x) e m h = cc
aware_or-eq-ok (aware x) e m h = cc

-- a < b and a <= b on aware datetimes
abbrev pub earlier : Moment → Moment → Bool
earlier a b = ltb a.utc b.utc

abbrev pub not_later : Moment → Moment → Bool
not_later a b = leb a.utc b.utc

-- a == b on aware datetimes
abbrev pub same_time : Moment → Moment → Bool
same_time a b = a.utc == b.utc

-- a > b on any two datetimes: an aware and a naive one raise TypeError
unfoldable pub datetime_gt : DateTime → DateTime → Result Bool
datetime_gt (naive a) (naive b) = ok (ltb b a)
datetime_gt (naive a) (aware b) = err type_error
datetime_gt (aware a) (naive b) = err type_error
datetime_gt (aware a) (aware b) = ok (ltb b.utc a.utc)

-- (now - then).total_seconds() > seconds
abbrev pub older_than : Moment → Moment → ℕ → Bool
older_than now past seconds = ltb (past.utc + seconds * 1000000) now.utc

-- value.date(), as the days since 0001-01-01
abbrev pub date : Moment → ℕ
date m = m.wall / 86400000000

-- value is not None and value.tzinfo is None, which raises
unfoldable pub aware_option_or : Option DateTime → Error → Result (Option Moment)
aware_option_or none e = ok none
aware_option_or (some (naive t)) e = err e
aware_option_or (some (aware m)) e = ok (some m)

-- a == b on any two datetimes: an aware and a naive one differ
unfoldable pub datetime_eq : DateTime → DateTime → Bool
datetime_eq (naive a) (naive b) = a == b
datetime_eq (aware a) (aware b) = same_time a b
datetime_eq _ _ = false

-- time + delta, in microseconds
abbrev pub later_by : Moment → ℕ → Moment
later_by m delta = record { utc = m.utc + delta; wall = m.wall + delta }
