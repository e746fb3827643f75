-- ===== src/Prelude/Text.antt =====
-- Texts as Python orders and reads them, by code points: `<`, `in`, `str.strip` and the reading of
-- a number in base 16 by `int(value, 16)`.
use Prim.Native.Nat.{ℕ, ◌+◌, ◌-◌, ◌*◌}
use Prim.Native.Char.{Char, code}
use Prim.Native.String.compare
use Prim.Native.String
use Prim.Native.String.{String, compare}
use mathlib.Core.Path.{◌≡◌, refl}
use mathlib.Core.Option
use mathlib.Core.Option.{Option, none, some}
use mathlib.Core.Bool.{Bool, true, false, not, ◌&&◌, ◌||◌}
use mathlib.Core.List.{List, [], ◌∷◌}
use native.Mathlib.Omega.{arith}
use text.Mathlib.Text.{◌==◌ as str_eq, is_lt}
use text.Mathlib.TextEquality.{eq_iff}
use text.Mathlib.TextPositions.{compare_refl}
use hedge_desk.Prelude.Tests.{ltb, leb, ◌==◌, if◌then◌else◌}

-- a < b on str
abbrev pub text_lt : String → String → Bool
text_lt a b = is_lt (compare a b)

lt-cons :
    (c d : Char) (s t : String)
    → text_lt (String.◌∷◌ c s) (String.◌∷◌ d t)
      ≡ (ltb (code c) (code d) || ((code c == code d) && text_lt s t))
lt-cons c d s t = rw (compare.cons-cons c d s t) (ground arith)

lt-nil : (s : String) → text_lt s String.[] ≡ false
lt-nil String.[] = refl
lt-nil (String.◌∷◌ c s) = rw (compare.cons-nil c s)

nil-lt : (c : Char) (s : String) → text_lt String.[] (String.◌∷◌ c s) ≡ true
nil-lt c s = rw (compare.nil-cons c s)

pub text_lt_irrefl : (a : String) → text_lt a a ≡ false
text_lt_irrefl a = rw (compare_refl a)

pub text_lt_trans : (a b c : String) → text_lt a b ≡ true → text_lt b c ≡ true → text_lt a c ≡ true
text_lt_trans a b String.[] h k = cc (k, lt-nil b)
text_lt_trans a String.[] (String.◌∷◌ z c) h k = cc (h, lt-nil a)
text_lt_trans String.[] (String.◌∷◌ y b) (String.◌∷◌ z c) h k = nil-lt z c
text_lt_trans (String.◌∷◌ x a) (String.◌∷◌ y b) (String.◌∷◌ z c) h k =
    ground (arith, lt-cons x y a b, lt-cons y z b c, lt-cons x z a c, text_lt_trans a b c)

eq-cons :
    (c d : Char) (s t : String)
    → str_eq (String.◌∷◌ c s) (String.◌∷◌ d t) ≡ ((code c == code d) && str_eq s t)
eq-cons c d s t = rw (compare.cons-cons c d s t) (ground arith)

text_lt_total_eq : (a b : String) → text_lt a b ≡ false → text_lt b a ≡ false → str_eq a b ≡ true
text_lt_total_eq String.[] String.[] h k = refl
text_lt_total_eq String.[] (String.◌∷◌ y b) h k = cc (h, nil-lt y b)
text_lt_total_eq (String.◌∷◌ x a) String.[] h k = cc (k, nil-lt x a)
text_lt_total_eq (String.◌∷◌ x a) (String.◌∷◌ y b) h k =
    ground (arith, lt-cons x y a b, lt-cons y x b a, eq-cons x y a b, text_lt_total_eq a b)

-- One of two different texts comes first.
pub text_lt_total : (a b : String) → text_lt a b ≡ false → text_lt b a ≡ false → a ≡ b
text_lt_total a b h k = (eq_iff a b).0 (text_lt_total_eq a b h k)

-- bool(value) of a str
abbrev pub is_blank : String → Bool
is_blank s = str_eq s ""

-- The characters that str.strip removes.
abbrev pub is_space : ℕ → Bool
is_space c =
    (leb 9 c && leb c 13)
    || (leb 28 c && leb c 32)
    || (c == 133)
    || (c == 160)
    || (c == 5760)
    || (leb 8192 c && leb c 8202)
    || (c == 8232)
    || (c == 8233)
    || (c == 8239)
    || (c == 8287)
    || (c == 12288)

-- not value.strip()
unfoldable pub is_only_space : String → Bool
is_only_space String.[] = true
is_only_space (String.◌∷◌ c s) = is_space (code c) && is_only_space s

-- What is left of a text from its first character that str.strip keeps.
unfoldable pub strip_left : String → String
strip_left String.[] = String.[]
strip_left (String.◌∷◌ c s) = if is_space (code c) then strip_left s else String.◌∷◌ c s

-- The zeros of the decimal digits beyond ASCII, each followed by its other nine, in Unicode 14.
abbrev decimal_zeros : List ℕ
decimal_zeros =
    1632 ∷ 1776 ∷ 1984 ∷ 2406 ∷ 2534 ∷ 2662 ∷ 2790 ∷ 2918 ∷ 3046 ∷ 3174 ∷ 3302 ∷ 3430 ∷ 3558 ∷ 3664
    ∷ 3792 ∷ 3872 ∷ 4160 ∷ 4240 ∷ 6112 ∷ 6160 ∷ 6470 ∷ 6608 ∷ 6784 ∷ 6800 ∷ 6992 ∷ 7088 ∷ 7232
    ∷ 7248 ∷ 42528 ∷ 43216 ∷ 43264 ∷ 43472 ∷ 43504 ∷ 43600 ∷ 44016 ∷ 65296 ∷ 66720 ∷ 68912 ∷ 69734
    ∷ 69872 ∷ 69942 ∷ 70096 ∷ 70384 ∷ 70736 ∷ 70864 ∷ 71248 ∷ 71360 ∷ 71472 ∷ 71904 ∷ 72016 ∷ 72784
    ∷ 73040 ∷ 73120 ∷ 92768 ∷ 92864 ∷ 93008 ∷ 120782 ∷ 120792 ∷ 120802 ∷ 120812 ∷ 120822 ∷ 123200
    ∷ 123632 ∷ 125264 ∷ 130032 ∷ []

digit_from : ℕ → List ℕ → Option ℕ
digit_from c [] = none
digit_from c (first ∷ later) =
    let rest = digit_from c later in
    if leb first c && leb c (first + 9) then some (c - first) else rest

-- What int reads for a character: a space for a space beyond ASCII, its ASCII digit for a decimal
-- digit, and a question mark for any other character beyond ASCII.
int_code : ℕ → ℕ
unfolding digit_from
int_code c =
    if ltb c 127
    then c
    else if is_space c
    then 32
    else elim (digit_from c decimal_zeros) [ none ↦ b'?' | some d ↦ b'0' + d ]

-- The characters that int removes at both ends.
is_int_space : ℕ → Bool
unfolding int_code
is_int_space c = let d = int_code c in (leb 9 d && leb d 13) || (d == 32)

is_only_int_space : String → Bool
unfolding is_int_space
is_only_int_space String.[] = true
is_only_int_space (String.◌∷◌ c s) = is_int_space (code c) && is_only_int_space s

strip_int_left : String → String
unfolding is_int_space
strip_int_left String.[] = String.[]
strip_int_left (String.◌∷◌ c s) = if is_int_space (code c) then strip_int_left s else String.◌∷◌ c s

unfoldable pub hex_digit : ℕ → Option ℕ
hex_digit c =
    if leb b'0' c && leb c b'9'
    then some (c - b'0')
    else if leb b'a' c && leb c b'f'
    then some (c - b'a' + 10)
    else if leb b'A' c && leb c b'F'
    then some (c - b'A' + 10)
    else none

-- The digits of int(value, 16): one underscore may stand between two digits, and only space may
-- follow. `after_digit` says that a digit stands before.
unfoldable pub hex_digits : Bool → ℕ → String → Option ℕ
unfolding hex_digit is_only_int_space int_code
hex_digits after_digit n String.[] = if after_digit then some n else none
hex_digits after_digit n (String.◌∷◌ c s) = elim (hex_digit (int_code (code c))) [
  | some d ↦ hex_digits true (n * 16 + d) s
  | none ↦
      if after_digit && (int_code (code c) == b'_')
      then hex_digits false n s
      else if after_digit && is_only_int_space (String.◌∷◌ c s)
      then some n
      else none
]

-- The digits behind the prefix 0x or 0X, which an underscore may follow.
unfoldable pub hex_prefixed : String → Option ℕ
unfolding hex_digits int_code
hex_prefixed String.[] = none
hex_prefixed (String.◌∷◌ c s) =
    if int_code (code c) == b'_' then hex_digits false 0 s else hex_digits false 0 (String.◌∷◌ c s)

unfoldable pub hex_body : String → Option ℕ
unfolding hex_prefixed int_code
hex_body (String.◌∷◌ z (String.◌∷◌ x s)) =
    if (int_code (code z) == b'0') && ((int_code (code x) == b'x') || (int_code (code x) == b'X'))
    then hex_prefixed s
    else hex_digits false 0 (String.◌∷◌ z (String.◌∷◌ x s))
hex_body s = hex_digits false 0 s

-- int(value, 16): whether it is below zero, and its magnitude; `none` is a ValueError.
unfoldable pub parse_base16 : String → Option (Bool × ℕ)
unfolding hex_body strip_int_left int_code
parse_base16 value = elim (strip_int_left value) [
  | String.[] ↦ none
  | String.◌∷◌ c s ↦
      if int_code (code c) == b'-'
      then Option.map (λ n. (true, n)) (hex_body s)
      else if int_code (code c) == b'+'
      then Option.map (λ n. (false, n)) (hex_body s)
      else Option.map (λ n. (false, n)) (hex_body (String.◌∷◌ c s))
]

-- len(value) == 64 and int(value, 16) raises no ValueError
unfoldable pub valid_hex64 : String → Bool
unfolding parse_base16
valid_hex64 value =
    (String.count value == 64) && elim (parse_base16 value) [ none ↦ false | some n ↦ true ]

-- len(value) == 64 and int(value, 16) > 0, with ValueError read as False
unfoldable pub valid_sha256 : String → Bool
unfolding parse_base16
valid_sha256 value =
    (String.count value == 64)
    && elim (parse_base16 value) [ none ↦ false | some (negative, n) ↦ not negative && ltb 0 n ]

-- len(value) == 64 and int(value, 16) >= 0, with ValueError read as False
unfoldable pub valid_sha256_or_zero : String → Bool
unfolding parse_base16
valid_sha256_or_zero value =
    (String.count value == 64)
    && elim (parse_base16 value) [ none ↦ false | some (negative, n) ↦ not negative || (n == 0) ]

-- The code of a character's str.lower, as far as words of ASCII letters can tell: besides the capital
-- letters only the Kelvin sign becomes an ASCII letter.
unfoldable pub lower_code : ℕ → ℕ
lower_code c = if leb b'A' c && leb c b'Z' then c + 32 else if c == 8490 then b'k' else c

-- value.lower() == word, for a word of small ASCII letters
unfoldable pub lower_eq : String → String → Bool
unfolding lower_code
lower_eq String.[] String.[] = true
lower_eq (String.◌∷◌ c s) (String.◌∷◌ d w) = (lower_code (code c) == code d) && lower_eq s w
lower_eq _ _ = false

-- What is left of a text up to its last character that str.strip keeps.
unfoldable pub strip_right : String → String
unfolding is_only_space
strip_right String.[] = String.[]
strip_right (String.◌∷◌ c s) =
    if is_only_space (String.◌∷◌ c s) then String.[] else String.◌∷◌ c (strip_right s)

-- value.strip()
unfoldable pub strip : String → String
unfolding strip_left strip_right
strip value = strip_right (strip_left value)
