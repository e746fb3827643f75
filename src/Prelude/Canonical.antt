-- ===== src/Prelude/Canonical.antt =====
-- tuple(sorted(set(codes))), the canonical form of every list of reason codes in hedge_desk/.
use mathlib.Core.Path.{◌≡◌, refl, sym, ap, ◌∙◌, subst}
use mathlib.Core.Logic.{◌↔◌, ◌≢◌, inl, inr}
use mathlib.Core.Bool.{Bool, true, false, ◌&&◌, ◌||◌}
use mathlib.Core.List.{List, [], ◌∷◌, ◌++◌}
use Prim.Native.String.{String}
use native.Mathlib.Omega.{arith}
use text.Mathlib.Text.{◌==◌ as str_eq}
use text.Mathlib.TextEquality.{eq_iff}
use text.Mathlib.TextPositions.{eq_refl}
use hedge_desk.Prelude.Tests.{if◌then◌else◌, Bool-cases}
use hedge_desk.Prelude.Results.{flags, flags-nil, NoneHolds}
use hedge_desk.Prelude.Text.{text_lt, text_lt_irrefl, text_lt_trans, text_lt_total}

-- code in codes
abbrev pub has : String → List String → Bool
has x [] = false
has x (y ∷ ys) = str_eq x y || has x ys

-- A new element of a sorted set.
unfoldable pub insert_code : String → List String → List String
insert_code c [] = c ∷ []
insert_code c (d ∷ ds) =
    if text_lt c d then c ∷ d ∷ ds else if str_eq c d then d ∷ ds else d ∷ insert_code c ds

-- tuple(sorted(set(codes)))
unfoldable pub canonical : List String → List String
unfolding insert_code
canonical [] = []
canonical (c ∷ cs) = insert_code c (canonical cs)

-- The text comes before every code of the list.
abbrev pub Before : String → List String → Type 0
Before c [] = Unit {0}
Before c (d ∷ ds) = (text_lt c d ≡ true) × Before c ds

-- The codes ascend, so each stands once.
abbrev pub Ascending : List String → Type 0
Ascending [] = Unit {0}
Ascending (c ∷ cs) = Before c cs × Ascending cs

has-insert_code :
    (x c : String) (ds : List String) → has x (insert_code c ds) ≡ (str_eq x c || has x ds)
unfolding insert_code
has-insert_code x c [] = refl
has-insert_code x c (d ∷ ds) =
    ground (arith, has-insert_code x c ds, eq_iff c d, eq_iff x c, eq_iff x d)

-- The canonical form has the members of the list.
pub has-canonical : (x : String) (cs : List String) → has x (canonical cs) ≡ has x cs
unfolding canonical
has-canonical x [] = refl
has-canonical x (c ∷ cs) =
    has-insert_code x c (canonical cs) ∙ ap (λ b. str_eq x c || b) (has-canonical x cs)

Before-trans : (a b : String) (ds : List String) → text_lt a b ≡ true → Before b ds → Before a ds
Before-trans a b [] h k = tt
Before-trans a b (d ∷ ds) h k = (text_lt_trans a b d h k.0, Before-trans a b ds h k.1)

Before-insert_code :
    (a c : String) (ds : List String)
    → text_lt a c ≡ true
    → Before a ds
    → Before a (insert_code c ds)
unfolding insert_code
Before-insert_code a c [] h k = (h, tt)
Before-insert_code a c (d ∷ ds) h k = ground (arith, Before-insert_code a c ds)

comes_before : (c d : String) → text_lt c d ≡ false → str_eq c d ≡ false → text_lt d c ≡ true
comes_before c d h k = elim (Bool-cases (text_lt d c)) [
  | inl first ↦ first
  | inr after ↦ ground (arith, eq_iff c d, text_lt_total c d)
]

insert_code-Ascending :
    (c : String) (ds : List String) → Ascending ds → Ascending (insert_code c ds)
unfolding insert_code
insert_code-Ascending c [] h = (tt, tt)
insert_code-Ascending c (d ∷ ds) h = elim (Bool-cases (text_lt c d)) [
  | inl first ↦ rw first ((first, Before-trans c d ds first h.0), h)
  | inr after ↦ rw after (elim (Bool-cases (str_eq c d)) [
    | inl same ↦ rw same h
    | inr other ↦ rw other (
      Before-insert_code d c ds (comes_before c d after other) h.0,
      insert_code-Ascending c ds h.1,
    )
  ])
]

-- The canonical form is sorted and holds each code once.
pub canonical-Ascending : (cs : List String) → Ascending (canonical cs)
unfolding canonical
canonical-Ascending [] = tt
canonical-Ascending (c ∷ cs) = insert_code-Ascending c (canonical cs) (canonical-Ascending cs)

has-Before : (c d : String) (ds : List String) → Before c ds → has d ds ≡ true → text_lt c d ≡ true
has-Before c d [] h k = cc
has-Before c d (e ∷ ds) h k = ground (arith, eq_iff d e, has-Before c d ds)

not-has-Before : (c : String) (ds : List String) → Before c ds → has c ds ≡ false
not-has-Before c ds h = elim (Bool-cases (has c ds)) [
  | inl there ↦ cc (has-Before c c ds h there, text_lt_irrefl c)
  | inr gone ↦ gone
]

heads_equal :
    (x y : String) (xs ys : List String)
    → Before x xs
    → Before y ys
    → has x (y ∷ ys) ≡ true
    → has y (x ∷ xs) ≡ true
    → x ≡ y
heads_equal x y xs ys h k p q = ground (
  arith,
  eq_iff x y,
  eq_iff y x,
  has-Before y x ys,
  has-Before x y xs,
  text_lt_trans x y x,
  text_lt_irrefl x,
)

tails_agree :
    (x z : String) (xs ys : List String)
    → Before x xs
    → Before x ys
    → has z (x ∷ xs) ≡ has z (x ∷ ys)
    → has z xs ≡ has z ys
tails_agree x z xs ys h k e = elim (Bool-cases (str_eq z x)) [
  | inl same ↦
      subst (λ w. has w xs ≡ has w ys) (sym ((eq_iff z x).0 same))
        (not-has-Before x xs h ∙ sym (not-has-Before x ys k))
  | inr other ↦ ground (arith, e)
]

-- Two ascending lists with the same members are the same list.
pub Ascending-eq :
    (xs ys : List String)
    → Ascending xs
    → Ascending ys
    → ((z : String) → has z xs ≡ has z ys)
    → xs ≡ ys
Ascending-eq [] [] h k e = refl
Ascending-eq [] (y ∷ ys) h k e = ground (arith, e y, eq_refl y)
Ascending-eq (x ∷ xs) [] h k e = ground (arith, e x, eq_refl x)
Ascending-eq (x ∷ xs) (y ∷ ys) h k e =
    let p : x ≡ y =
      heads_equal x y xs ys h.0 k.0 (ground (arith, e x, eq_refl x))
        (ground (arith, e y, eq_refl y)) in
    let q : xs ≡ ys = Ascending-eq xs ys h.1 k.1 (λ z.
      tails_agree x z xs ys h.0 (subst (λ w. Before w ys) (sym p) k.0)
        (subst (λ w. has z (x ∷ xs) ≡ has z (w ∷ ys)) (sym p) (e z))) in
    cc

-- canonical of a canonical list changes nothing.
pub canonical_of_Ascending : (cs : List String) → Ascending cs → canonical cs ≡ cs
canonical_of_Ascending cs h =
    Ascending-eq (canonical cs) cs (canonical-Ascending cs) h (λ z. has-canonical z cs)

pub canonical-canonical : (cs : List String) → canonical (canonical cs) ≡ canonical cs
canonical-canonical cs = canonical_of_Ascending (canonical cs) (canonical-Ascending cs)

insert_code-ne-nil : (c : String) (ds : List String) → insert_code c ds ≢ []
unfolding insert_code
insert_code-ne-nil c [] = ground arith
insert_code-ne-nil c (d ∷ ds) = ground arith

-- The canonical form is empty exactly when there is no code.
pub canonical-nil : (cs : List String) → (canonical cs ≡ []) ↔ (cs ≡ [])
unfolding canonical
canonical-nil [] = ((λ h. refl), (λ h. refl))
canonical-nil (c ∷ cs) = ((λ h. absurd (insert_code-ne-nil c (canonical cs) h)), (λ h. cc))

-- == on tuples of codes
unfoldable pub same_codes : List String → List String → Bool
same_codes [] [] = true
same_codes (x ∷ xs) (y ∷ ys) = str_eq x y && same_codes xs ys
same_codes _ _ = false

pub same_codes_iff : (xs ys : List String) → (same_codes xs ys ≡ true) ↔ (xs ≡ ys)
unfolding same_codes
same_codes_iff [] [] = ((λ h. refl), (λ h. refl))
same_codes_iff [] (y ∷ ys) = ((λ h. cc), (λ h. cc))
same_codes_iff (x ∷ xs) [] = ((λ h. cc), (λ h. cc))
same_codes_iff (x ∷ xs) (y ∷ ys) = (
  (λ h. ground (arith, eq_iff x y, same_codes_iff xs ys)),
  (λ h. ground (arith, eq_iff x y, same_codes_iff xs ys)),
)

-- codes == tuple(sorted(set(codes))) says that the codes ascend.
unfoldable pub is_canonical : List String → Bool
unfolding same_codes canonical
is_canonical cs = same_codes cs (canonical cs)

pub is_canonical-canonical : (cs : List String) → is_canonical (canonical cs) ≡ true
unfolding is_canonical
is_canonical-canonical cs =
    (same_codes_iff (canonical cs) (canonical (canonical cs))).1 (sym (canonical-canonical cs))

pub canonical-is_canonical : (cs : List String) → is_canonical cs ≡ true → canonical cs ≡ cs
unfolding is_canonical
canonical-is_canonical cs h = sym ((same_codes_iff cs (canonical cs)).0 h)

-- Of a run of `if test: reasons.append(code)`, sorted and without doubles, nothing is left exactly
-- when no test held.
pub reasons-nil : (fs : List (Bool × String)) → (canonical (flags fs) ≡ []) ↔ NoneHolds fs
reasons-nil fs = (
  (λ h. (flags-nil fs).0 ((canonical-nil (flags fs)).0 h)),
  (λ h. (canonical-nil (flags fs)).1 ((flags-nil fs).1 h)),
)

pub has-append : (x : String) (cs ds : List String) → has x (cs ++ ds) ≡ (has x cs || has x ds)
has-append x [] ds = refl
has-append x (c ∷ cs) ds = ground (arith, has-append x cs ds)

-- len(values) != len(set(values))
unfoldable pub has_double : List String → Bool
has_double [] = false
has_double (x ∷ xs) = has x xs || has_double xs
