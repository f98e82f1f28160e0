-- ===== src/Common/Ends.antt =====
-- Calls that end: their modelled loops have enough fuel.
use mathlib.Core.Path.{◌≡◌, refl}
use mathlib.Core.Logic.{◌≢◌}
use mathlib.Core.Bool.{Bool, true, false}
use mathlib.Core.Option.{Option, none, some}
use cornelich.Common.Tests.{if◌then◌else◌}
use cornelich.Common.Outcomes.{Error, Outcome, ok, throws, undefined, out_of_fuel, ◌>>=◌}

pub record Ends {ℓ} {A : Type ℓ} (m : Outcome A) : Type ℓ where
  pub ends : m ≢ out_of_fuel

module _ {ℓ} {A : Type ℓ} where
  pub Ends-ok : (a : A) → Ends (ok a)
  Ends-ok a = record { ends = λ h. cc }

  pub Ends-throws : (e : Error) → Ends {A = A} (throws e)
  Ends-throws e = record { ends = λ h. cc }

  pub Ends-undefined : Ends {A = A} undefined
  Ends-undefined = record { ends = λ h. cc }

  pub Ends-if : (b : Bool) (m n : Outcome A) → Ends m → Ends n → Ends (if b then m else n)
  Ends-if true m n hm hn = hm
  Ends-if false m n hm hn = hn

  -- The same with what the test says in each branch.
  pub Ends-test :
      (b : Bool) (m n : Outcome A)
      → (b ≡ true → Ends m)
      → (b ≡ false → Ends n)
      → Ends (if b then m else n)
  Ends-test true m n hm hn = hm refl
  Ends-test false m n hm hn = hn refl

module _ {ℓ κ} {A : Type ℓ} {B : Type κ} where
  pub Ends-bind :
      (m : Outcome A) (f : A → Outcome B) → Ends m → ((a : A) → Ends (f a)) → Ends (m >>= f)
  Ends-bind (ok a) f hm hf = hf a
  Ends-bind (throws e) f hm hf = record { ends = λ h. cc }
  Ends-bind undefined f hm hf = record { ends = λ h. cc }
  Ends-bind out_of_fuel f hm hf = record { ends = λ h. hm.ends refl }

  pub Ends-option :
      (o : Option A) (x : Outcome B) (f : A → Outcome B)
      → Ends x
      → ((a : A) → Ends (f a))
      → Ends (elim o [ none ↦ x | some a ↦ f a ])
  Ends-option none x f hx hf = hx
  Ends-option (some a) x f hx hf = hf a
