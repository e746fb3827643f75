-- ===== src/Decimal.antt =====
-- The values of Python's decimal.Decimal, and the arithmetic of its default context: 28 significant
-- digits, rounding half to even. A `Number` is a finite value, (-1)^negative * digits *
-- 10^exponent; a `Decimal` may also be an infinity or a NaN. The bounds on the exponent are left
-- out: the amounts of the desk stay far below 10^999999.
use hedge_desk.Prelude.{
  ℕ, zero, suc, ◌+◌, ◌-◌, ◌*◌, ◌/◌, ◌%◌, ◌^◌, Bool, true, false, not, ◌&&◌, ◌||◌, ltb, leb, ◌==◌,
  if◌then◌else◌, Result, ok, err, Error, arithmetic_error, ◌≡◌, arith,
}

-- `negsuc n` is -(n + 1).
pub data ℤ : Type 0 where
  pos : ℕ → ℤ
  negsuc : ℕ → ℤ

abbrev pub pos_part : ℤ → ℕ
pos_part (pos n) = n
pos_part (negsuc n) = 0

abbrev pub neg_part : ℤ → ℕ
neg_part (pos n) = 0
neg_part (negsuc n) = suc n

-- a - b, as an integer.
abbrev pub sub_ℕ : ℕ → ℕ → ℤ
sub_ℕ a b = if leb b a then pos (a - b) else negsuc (b - a - 1)

infixl 65 ◌+ℤ◌ ◌-ℤ◌
unfoldable pub ◌+ℤ◌ : ℤ → ℤ → ℤ
a +ℤ b = sub_ℕ (pos_part a + pos_part b) (neg_part a + neg_part b)

unfoldable pub ◌-ℤ◌ : ℤ → ℤ → ℤ
a -ℤ b = sub_ℕ (pos_part a + neg_part b) (neg_part a + pos_part b)

-- a == b, for two ints
unfoldable pub int_eq : ℤ → ℤ → Bool
int_eq a b = (pos_part a + neg_part b) == (pos_part b + neg_part a)

-- a < b, for two ints
unfoldable pub int_lt : ℤ → ℤ → Bool
int_lt a b = ltb (pos_part a + neg_part b) (pos_part b + neg_part a)

pub int_eq-eq : (a b : ℤ) → int_eq a b ≡ true → a ≡ b
unfolding int_eq
int_eq-eq (pos a) (pos b) h = ground arith
int_eq-eq (pos a) (negsuc b) h = absurd (ground arith)
int_eq-eq (negsuc a) (pos b) h = absurd (ground arith)
int_eq-eq (negsuc a) (negsuc b) h = ground arith

-- value > 0, for an int
abbrev pub is_positive : ℤ → Bool
is_positive n = ltb 0 (pos_part n)

-- value < 0, for an int
abbrev pub is_negative : ℤ → Bool
is_negative n = ltb 0 (neg_part n)

pub record Number : Type 0 where
  pub negative : Bool
  pub digits : ℕ
  pub exponent : ℤ

pub data Decimal : Type 0 where
  number : Number → Decimal
  infinity : Bool → Decimal
  nan : Decimal

-- Decimal(n), for n an int that is not negative
abbrev pub whole : ℕ → Number
whole n = record { negative = false; digits = n; exponent = pos 0 }

-- Decimal("0.04") is hundredths 4
abbrev pub hundredths : ℕ → Number
hundredths n = record { negative = false; digits = n; exponent = negsuc 1 }

-- isinstance(value, Decimal) and value.is_finite(), which else raises
unfoldable pub finite_or : Decimal → Error → Result Number
finite_or (number n) e = ok n
finite_or (infinity s) e = err e
finite_or nan e = err e

-- The digits of `a` in units of the smaller of the two exponents.
abbrev pub aligned : Number → Number → ℕ
aligned a b = a.digits * 10 ^ (pos_part a.exponent + neg_part b.exponent)

abbrev above : Number → ℕ → ℕ
above a m = if a.negative then 0 else m

abbrev below : Number → ℕ → ℕ
below a m = if a.negative then m else 0

-- a < b on finite values, which is exact
unfoldable pub number_lt : Number → Number → Bool
number_lt a b =
    let x = aligned a b in
    let y = aligned b a in ltb (above a x + below b y) (above b y + below a x)

-- a == b on finite values
unfoldable pub number_eq : Number → Number → Bool
number_eq a b =
    let x = aligned a b in let y = aligned b a in (above a x + below b y) == (above b y + below a x)

-- a <= b on finite values
abbrev pub number_le : Number → Number → Bool
number_le a b = not (number_lt b a)

-- Decimal("0") <= value <= Decimal("1")
abbrev pub in_unit : Number → Bool
in_unit a = number_le (whole 0) a && number_le a (whole 1)

-- Decimal("0") < value <= Decimal("1")
abbrev pub in_unit_positive : Number → Bool
in_unit_positive a = number_lt (whole 0) a && number_le a (whole 1)

-- value == n, for a value that may be no number
unfoldable pub decimal_eq : Decimal → Number → Bool
decimal_eq (number n) m = number_eq n m
decimal_eq (infinity negative) m = false
decimal_eq nan m = false

-- value > limit, where a NaN raises InvalidOperation
unfoldable pub decimal_gt : Decimal → Number → Result Bool
decimal_gt (number n) limit = ok (number_lt limit n)
decimal_gt (infinity negative) limit = ok (not negative)
decimal_gt nan limit = err arithmetic_error

-- value < limit, where a NaN raises InvalidOperation
unfoldable pub decimal_lt : Decimal → Number → Result Bool
decimal_lt (number n) limit = ok (number_lt n limit)
decimal_lt (infinity negative) limit = ok negative
decimal_lt nan limit = err arithmetic_error

abbrev pub precision : ℕ
precision = 28

-- len(str(n)), with n + 1 as enough fuel
count_digits : ℕ → ℕ → ℕ
count_digits zero n = 1
count_digits (suc fuel) n = elim (ltb n 10) [ true ↦ 1 | false ↦ suc (count_digits fuel (n / 10)) ]

unfoldable pub digit_count : ℕ → ℕ
unfolding count_digits
digit_count n = count_digits n n

-- n / 10^k rounded half to even
unfoldable pub round_off : ℕ → ℕ → ℕ
round_off n k =
    let unit = 10 ^ k in
    let q = n / unit in
    let twice = 2 * (n % unit) in
    if ltb unit twice || ((twice == unit) && ((q % 2) == 1)) then q + 1 else q

-- The value rounded to the precision of the context; a carry to 10^28 drops its last zero.
unfoldable pub fix : Bool → ℕ → ℤ → Number
unfolding digit_count round_off ◌+ℤ◌
fix negative n e =
    let excess = digit_count n - precision in
    let q = round_off n excess in
    if excess == 0
    then record { negative = negative; digits = n; exponent = e }
    else if q == (10 ^ precision)
    then record { negative = negative; digits = q / 10; exponent = e +ℤ pos (excess + 1) }
    else record { negative = negative; digits = q; exponent = e +ℤ pos excess }

-- The smaller of two exponents.
abbrev lower : ℤ → ℤ → ℤ
lower (pos a) (pos b) = if leb a b then pos a else pos b
lower (pos a) (negsuc b) = negsuc b
lower (negsuc a) (pos b) = negsuc a
lower (negsuc a) (negsuc b) = if leb b a then negsuc a else negsuc b

-- The digits of `a` at an exponent that is not above its own.
abbrev padded : Number → ℤ → ℕ
padded a e =
    a.digits * 10 ^ ((pos_part a.exponent + neg_part e) - (neg_part a.exponent + pos_part e))

-- a + b
unfoldable pub number_add : Number → Number → Number
unfolding fix
number_add a b =
    let e = lower a.exponent b.exponent in
    let x = padded a e in
    let y = padded b e in
    if (a.negative && b.negative) || (not a.negative && not b.negative)
    then fix a.negative (x + y) e
    else if ltb y x
    then fix a.negative (x - y) e
    else if ltb x y
    then fix b.negative (y - x) e
    else fix false 0 e

-- -a, which turns the sign of a zero to plus
unfoldable pub number_neg : Number → Number
unfolding fix
number_neg a = fix (not a.negative && ltb 0 a.digits) a.digits a.exponent

-- a - b
unfoldable pub number_sub : Number → Number → Number
unfolding number_add
number_sub a b = number_add a (record b { negative = not b.negative })

-- a * b
unfoldable pub number_mul : Number → Number → Number
unfolding fix ◌+ℤ◌
number_mul a b =
    fix ((a.negative && not b.negative) || (not a.negative && b.negative)) (a.digits * b.digits)
      (a.exponent +ℤ b.exponent)

-- The digits of an exact quotient without the zeros that its ideal exponent does not ask for.
strip_zeros : ℕ → ℕ → ℕ × ℕ
strip_zeros zero n = (n, 0)
strip_zeros (suc k) n = elim ((n % 10) == 0) [
  | true ↦ let (m, dropped) = strip_zeros k (n / 10) in (m, dropped + 1)
  | false ↦ (n, 0)
]

-- a / b, where a zero divisor raises. 28 and more digits of the quotient are computed; a last digit
-- 0 or 5 above a remainder is moved up, so that the rounding of `fix` is that of the exact value.
unfoldable pub number_div : Number → Number → Result Number
unfolding fix strip_zeros digit_count ◌+ℤ◌ ◌-ℤ◌
number_div a b =
    let negative = (a.negative && not b.negative) || (not a.negative && b.negative) in
    let ideal = a.exponent -ℤ b.exponent in
    let shift = sub_ℕ (digit_count b.digits + precision + 1) (digit_count a.digits) in
    let dividend = a.digits * 10 ^ (pos_part shift) in
    let divisor = b.digits * 10 ^ (neg_part shift) in
    let q = dividend / divisor in
    let (short, dropped) = strip_zeros (pos_part shift) q in
    if b.digits == 0
    then err arithmetic_error
    else if a.digits == 0
    then ok (fix negative 0 ideal)
    else if (dividend % divisor) == 0
    then ok (fix negative short ((ideal -ℤ shift) +ℤ pos dropped))
    else if (q % 5) == 0
    then ok (fix negative (q + 1) (ideal -ℤ shift))
    else ok (fix negative q (ideal -ℤ shift))
