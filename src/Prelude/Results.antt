-- ===== src/Prelude/Results.antt =====
-- Code that raises returns a `Result`; the errors are the exceptions of hedge_desk/ with their
-- messages. A run of `if test: raise error` statements is a list of checks: the first test that is
-- true raises its error. A run of `if test: reasons.append(code)` statements is a list of flags.
use mathlib.Core.Path.{◌≡◌, refl}
use mathlib.Core.Logic.{◌↔◌}
use mathlib.Core.Bool.{Bool, true, false}
use mathlib.Core.List.{List, [], ◌∷◌, ◌++◌}
use Prim.Native.String.{String}
use hedge_desk.Prelude.Tests.{if◌then◌else◌}

-- The exceptions that the modelled code raises.
pub data Error : Type 0 where
  value_error : String → Error
  permission_error : String → Error
  type_error : Error
  arithmetic_error : Error

-- What a call gives back: a value, or the exception that it raised.
pub data Result {κ} (V : Type κ) : Type κ where
  err : Error → Result V
  ok : V → Result V

module _ {κ μ} {V : Type κ} {W : Type μ} where
  infixl 5 ◌>>=◌
  -- An assignment of a call's value, and the statements after it.
  abbrev pub ◌>>=◌ : Result V → (V → Result W) → Result W
  err raised >>= later = err raised
  ok value >>= later = later value

  -- The inversion of a chain that returned.
  pub >>=-eq-ok :
      (call : Result V) (later : V → Result W) {w : W}
      → (call >>= later) ≡ ok w
      → (value : V) × (call ≡ ok value) × (later value ≡ ok w)
  >>=-eq-ok (err raised) later h = cc
  >>=-eq-ok (ok value) later h = (value, refl, h)

-- A statement that only checks, and the statements after it.
infixl 5 ◌>>◌
abbrev pub ◌>>◌ {κ} : {V : Type κ} → Result (Unit {0}) → Result V → Result V
only_checks >> later = only_checks >>= λ _. later

pub ok-injective {ℓ} : {A : Type ℓ} (a b : A) → ok a ≡ ok b → a ≡ b
ok-injective a b h = cc

-- What a run that returned, returned.
abbrev pub is_ok {ℓ} : {A : Type ℓ} → Result A → Bool
is_ok (ok a) = true
is_ok (err e) = false

unfoldable pub from_ok {ℓ} : {A : Type ℓ} (r : Result A) → is_ok r ≡ true → A
from_ok (ok a) h = a
from_ok (err e) h = cc

pub from_ok-eq {ℓ} : {A : Type ℓ} (r : Result A) (h : is_ok r ≡ true) → r ≡ ok (from_ok r h)
unfolding from_ok
from_ok-eq (ok a) h = refl
from_ok-eq (err e) h = cc

-- `if test: raise error`, one after the other.
unfoldable pub checks : List (Bool × Error) → Result (Unit {0})
checks [] = ok tt
checks ((test, error) ∷ rest) = let later = checks rest in if test then err error else later

-- No test of the list is true.
abbrev pub NoneHolds {ℓ} : {A : Type ℓ} → List (Bool × A) → Type 0
NoneHolds [] = Unit {0}
NoneHolds ((test, _) ∷ rest) = (test ≡ false) × NoneHolds rest

pub NoneHolds-append {ℓ} :
    {A : Type ℓ} (xs ys : List (Bool × A)) → NoneHolds (xs ++ ys) ↔ (NoneHolds xs × NoneHolds ys)
NoneHolds-append [] ys = ((λ h. (tt, h)), (λ h. h.1))
NoneHolds-append ((test, _) ∷ xs) ys =
    let later = NoneHolds-append xs ys in
    (
      (λ h. let parts = later.0 h.1 in ((h.0, parts.0), parts.1)),
      (λ h. (h.0.0, later.1 (h.0.1, h.1))),
    )

pub checks-ok : (cs : List (Bool × Error)) (u : Unit {0}) → checks cs ≡ ok u → NoneHolds cs
unfolding checks
checks-ok [] u h = tt
checks-ok ((true, e) ∷ cs) u h = cc
checks-ok ((false, e) ∷ cs) u h = (refl, checks-ok cs u h)

pub checks_pass : (cs : List (Bool × Error)) → NoneHolds cs → checks cs ≡ ok tt
unfolding checks
checks_pass [] h = refl
checks_pass ((true, e) ∷ cs) h = cc (h.0)
checks_pass ((false, e) ∷ cs) h = checks_pass cs h.1

-- A chain that begins with checks returns only where none of their tests holds.
pub checks-bind {ℓ} :
    {A : Type ℓ} (cs : List (Bool × Error)) (k : Result A) (a : A)
    → (checks cs >> k) ≡ ok a
    → NoneHolds cs × (k ≡ ok a)
unfolding checks
checks-bind [] k a h = (tt, h)
checks-bind ((true, e) ∷ cs) k a h = cc
checks-bind ((false, e) ∷ cs) k a h = let later = checks-bind cs k a h in ((refl, later.0), later.1)

-- The same inversions for a chain of many steps: each later step is about a variable.
pub after_bind {ℓ κ μ} :
    {A : Type ℓ} {B : Type κ} {P : Type μ} (m : Result A) (f : A → Result B) {b : B}
    → (m >>= f) ≡ ok b
    → ((a : A) → m ≡ ok a → f a ≡ ok b → P)
    → P
after_bind (ok a) f h next = next a refl h
after_bind (err e) f h next = cc

pub after_checks {ℓ μ} :
    {A : Type ℓ} {P : Type μ} (cs : List (Bool × Error)) (k : Result A) {a : A}
    → (checks cs >> k) ≡ ok a
    → (NoneHolds cs → k ≡ ok a → P)
    → P
after_checks cs k {a} h next = let r = checks-bind cs k a h in next r.0 r.1

-- `if test: reasons.append(code)`, one after the other.
unfoldable pub flags : List (Bool × String) → List String
flags [] = []
flags ((test, code) ∷ rest) = if test then code ∷ flags rest else flags rest

pub flags-nil : (fs : List (Bool × String)) → (flags fs ≡ []) ↔ NoneHolds fs
unfolding flags
flags-nil [] = ((λ h. tt), (λ h. refl))
flags-nil ((true, c) ∷ fs) = ((λ h. cc), (λ h. cc (h.0)))
flags-nil ((false, c) ∷ fs) = ((λ h. (refl, (flags-nil fs).0 h)), (λ h. (flags-nil fs).1 h.1))
