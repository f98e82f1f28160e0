-- ===== src/Common/Outcomes.antt =====
-- What a C++ call may do: return, throw one of the exceptions of the library, or reach an operation
-- to which C++ gives no meaning (an access outside a buffer, a shift by the width or more, a failed
-- `assert`). `out_of_fuel` is no behaviour of the code: the fuel of a modelled loop ran out.
use mathlib.Core.Path.{◌≡◌, refl}
use mathlib.Core.Logic.{◌≢◌}
use native.Mathlib.Omega.{arith}

pub data Error : Type 0 where
  logic_error invalid_argument runtime_error : Error

pub data Outcome {ℓ} (A : Type ℓ) : Type ℓ where
  ok : A → Outcome A
  throws : Error → Outcome A
  undefined : Outcome A
  out_of_fuel : Outcome A

infixl 5 ◌>>=◌
abbrev pub ◌>>=◌ {ℓ κ} : {A : Type ℓ} {B : Type κ} → Outcome A → (A → Outcome B) → Outcome B
ok a >>= f = f a
throws e >>= f = throws e
undefined >>= f = undefined
out_of_fuel >>= f = out_of_fuel

-- A chain that returns has a first part that returns.
pub >>=-eq-ok {ℓ κ} :
    {B : Type κ} {A : Type ℓ} (first : Outcome A) (next : A → Outcome B) {result : B}
    → (first >>= next) ≡ ok result
    → (a : A) × (first ≡ ok a) × (next a ≡ ok result)
>>=-eq-ok (ok a) next h = (a, refl, h)
>>=-eq-ok (throws e) next h = cc
>>=-eq-ok undefined next h = cc
>>=-eq-ok out_of_fuel next h = cc

pub ok_parts {ℓ κ μ} :
    {A : Type ℓ} {B : Type κ} {C : Type μ} {a a' : A} {b b' : B} {c c' : C}
    → ◌≡◌ {A = Outcome (A × B × C)} (ok (a, b, c)) (ok (a', b', c'))
    → (a ≡ a') × (b ≡ b') × (c ≡ c')
ok_parts e = ground arith

-- A chain is defined if its parts are.
pub >>=-ne-undefined {ℓ κ} :
    {A : Type ℓ} {B : Type κ} (m : Outcome A) (f : A → Outcome B)
    → m ≢ undefined
    → ((a : A) → f a ≢ undefined)
    → (m >>= f) ≢ undefined
>>=-ne-undefined (ok a) f hm hf e = hf a e
>>=-ne-undefined (throws x) f hm hf e = cc
>>=-ne-undefined undefined f hm hf e = hm refl
>>=-ne-undefined out_of_fuel f hm hf e = cc

pub ok_pair {ℓ κ} :
    {A : Type ℓ} {B : Type κ} {a a' : A} {b b' : B}
    → ◌≡◌ {A = Outcome (A × B)} (ok (a, b)) (ok (a', b'))
    → (a ≡ a') × (b ≡ b')
ok_pair e = ground arith

pub ok_same {ℓ} : {A : Type ℓ} {x y : A} → ok x ≡ ok y → x ≡ y
ok_same h = ground (arith, h)
