-- ===== src/Common/Leaves.antt =====
-- What holds of the result of a call that returns.
use mathlib.Core.Path.{◌≡◌, refl, subst}
use mathlib.Core.Bool.{Bool, true, false}
use mathlib.Core.Option.{Option, none, some}
use cornelich.Common.Tests.{if◌then◌else◌}
use cornelich.Common.Ends.{Ends, Ends-throws, Ends-undefined}
use cornelich.Common.Outcomes.{Error, Outcome, ok, ok_same, throws, undefined, out_of_fuel, ◌>>=◌}

pub record Leaves {ℓ κ} {A : Type ℓ} (P : A → Type κ) (m : Outcome A) : Type (ℓ ⊔ κ) where
  pub leaves : (a : A) → m ≡ ok a → P a

module _ {ℓ κ} {A : Type ℓ} {P : A → Type κ} where
  pub Leaves-ok : (a : A) → P a → Leaves P (ok a)
  Leaves-ok a h = record { leaves = λ b e. subst P (ok_same e) h }

  pub Leaves-throws : (e : Error) → Leaves P (throws e)
  Leaves-throws e = record { leaves = λ a h. cc }

  pub Leaves-undefined : Leaves P undefined
  Leaves-undefined = record { leaves = λ a h. cc }

  pub Leaves-out_of_fuel : Leaves P out_of_fuel
  Leaves-out_of_fuel = record { leaves = λ a h. cc }

  -- With what the test says in each branch.
  pub Leaves-if :
      (b : Bool) (m n : Outcome A)
      → (b ≡ true → Leaves P m)
      → (b ≡ false → Leaves P n)
      → Leaves P (if b then m else n)
  Leaves-if true m n hm hn = hm refl
  Leaves-if false m n hm hn = hn refl

module _ {ℓ κ ℓ' κ'} {A : Type ℓ} {B : Type ℓ'} {P : A → Type κ} {Q : B → Type κ'} where
  pub Leaves-bind :
      (m : Outcome A) (f : A → Outcome B)
      → Leaves P m
      → ((a : A) → P a → Leaves Q (f a))
      → Leaves Q (m >>= f)
  Leaves-bind (ok a) f hm hf = hf a (hm.leaves a refl)
  Leaves-bind (throws e) f hm hf = Leaves-throws e
  Leaves-bind undefined f hm hf = Leaves-undefined
  Leaves-bind out_of_fuel f hm hf = Leaves-out_of_fuel

-- The same for calls that end, where only what a call leaves makes the rest end.
module _ {ℓ κ ℓ'} {A : Type ℓ} {B : Type ℓ'} {P : A → Type κ} where
  pub Ends-after :
      (m : Outcome A) (f : A → Outcome B)
      → Ends m
      → Leaves P m
      → ((a : A) → P a → Ends (f a))
      → Ends (m >>= f)
  Ends-after (ok a) f ends leaves next = next a (leaves.leaves a refl)
  Ends-after (throws e) f ends leaves next = Ends-throws e
  Ends-after undefined f ends leaves next = Ends-undefined
  Ends-after out_of_fuel f ends leaves next = record { ends = λ h. ends.ends refl }

module _ {ℓ ℓ' κ'} {A : Type ℓ} {B : Type ℓ'} {Q : B → Type κ'} where
  pub Leaves-option :
      (o : Option A) (x : Outcome B) (f : A → Outcome B)
      → Leaves Q x
      → ((a : A) → o ≡ some a → Leaves Q (f a))
      → Leaves Q (elim o [ none ↦ x | some a ↦ f a ])
  Leaves-option none x f hx hf = hx
  Leaves-option (some a) x f hx hf = hf a refl
