-- ===== src/Json.antt =====
-- What json.loads returns and json.dumps takes, and the parts of the standard library between values
-- and texts, which are parameters.
use hedge_desk.Prelude.{
  ◌≡◌, refl, String, Bool, Option, none, some, List, [], ◌∷◌, str_eq, ℕ, suc, ◌==◌, eq_refl,
  if◌then◌else◌, true, false, ◌&&◌,
}
use hedge_desk.Decimal.{ℤ, pos, negsuc, Number, Decimal, number, whole, number_eq}
use hedge_desk.Time.{DateTime}

mutual
  pub data Json : Type 0 where
    null : Json
    boolean : Bool → Json
    int : ℤ → Json
    float : Number → Json
    str : String → Json
    list : Items → Json
    dict : Fields → Json

  pub data Items : Type 0 where
    end : Items
    item : Json → Items → Items

  -- A dict by its entries, in the order of insertion.
  pub data Fields : Type 0 where
    none_left : Fields
    entry : String → Json → Fields → Fields

-- value[key], on a dict whose keys differ
unfoldable pub field : String → Fields → Option Json
field key none_left = none
field key (entry k v rest) = if str_eq k key then some v else field key rest

unfoldable pub keys : Fields → List String
keys none_left = []
keys (entry k v rest) = k ∷ keys rest

unfoldable pub field_count : Fields → ℕ
field_count none_left = 0
field_count (entry k v rest) = suc (field_count rest)

-- An int, a float or a bool as a number, by which Python compares them.
abbrev pub of_int : ℤ → Number
of_int (pos n) = whole n
of_int (negsuc n) = record { negative = true; digits = suc n; exponent = pos 0 }

abbrev pub number_of : Json → Option Number
number_of (boolean b) = some (if b then whole 1 else whole 0)
number_of (int n) = some (of_int n)
number_of (float n) = some n
number_of _ = none

abbrev pub same_numbers : Option Number → Option Number → Bool
same_numbers (some a) (some b) = number_eq a b
same_numbers _ _ = false

-- a == b, on what json.loads returns
unfoldable mutual
  pub json_eq : Json → Json → Bool
  json_eq null null = true
  json_eq (str a) (str b) = str_eq a b
  json_eq (list a) (list b) = items_eq a b
  json_eq (dict a) (dict b) = (field_count a == field_count b) && fields_in a b
  json_eq a b = same_numbers (number_of a) (number_of b)

  pub items_eq : Items → Items → Bool
  items_eq end end = true
  items_eq (item a as') (item b bs) = json_eq a b && items_eq as' bs
  items_eq _ _ = false

  -- Each entry is in the other dict.
  pub fields_in : Fields → Fields → Bool
  fields_in none_left b = true
  fields_in (entry k v rest) b =
      elim (field k b) [ none ↦ false | some w ↦ json_eq v w ] && fields_in rest b

-- What code that is not under hedge_desk/ does with texts: json.loads, where none is a
-- JSONDecodeError, json.dumps with sorted keys, str, the two directions of isoformat, and
-- those between a Decimal and its text, where none is an InvalidOperation.
pub record Codec : Type 0 where
  pub loads : String → Option Json
  pub dumps : Json → String
  pub str_of : Json → String
  pub isoformat : DateTime → String
  pub fromisoformat : String → Option DateTime
  pub decimal_text : Number → String
  pub decimal_of : String → Option Decimal

module _ (codec : Codec) where
  -- str(value[key]), on a dict that has the key
  unfoldable pub text_at : String → Fields → String
  unfolding field
  text_at key fields = elim (field key fields) [ none ↦ "" | some v ↦ codec.str_of v ]

  -- tuple(str(item) for item in items)
  unfoldable pub texts_of : Items → List String
  texts_of end = []
  texts_of (item j rest) = codec.str_of j ∷ texts_of rest

-- list(values), for texts
unfoldable pub items_of : List String → Items
items_of [] = end
items_of (x ∷ xs) = item (str x) (items_of xs)

-- What the standard library documents of texts: str keeps one, and the empty one is no JSON.
pub record KeepsTexts (codec : Codec) : Type 0 where
  pub str_of_str : (s : String) → codec.str_of (str s) ≡ s
  pub loads_empty : codec.loads "" ≡ none

-- Beside that, the texts of a time and of a finite Decimal read back as they were.
pub record IsCodec (codec : Codec) : Type 0 where
  pub texts : KeepsTexts codec
  pub iso_round_trip : (t : DateTime) → codec.fromisoformat (codec.isoformat t) ≡ some t
  pub decimal_round_trip : (n : Number) → codec.decimal_of (codec.decimal_text n) ≡ some (number n)

pub texts_of-items_of :
    (codec : Codec) → KeepsTexts codec → (xs : List String) → texts_of codec (items_of xs) ≡ xs
unfolding texts_of items_of
texts_of-items_of codec h [] = refl
texts_of-items_of codec h (x ∷ xs) = cc (h.str_of_str x, texts_of-items_of codec h xs)

pub items_eq_refl : (xs : List String) → items_eq (items_of xs) (items_of xs) ≡ true
unfolding items_eq json_eq items_of
items_eq_refl [] = refl
items_eq_refl (x ∷ xs) = rw (eq_refl x, items_eq_refl xs)
