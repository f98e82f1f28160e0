-- ===== src/Common/Assoc.antt =====
-- Association lists over keys with a decidable equality. (The library's `lookup` has no writing twin.)
use mathlib.Core.Path.{◌≡◌, refl}
use mathlib.Core.Logic.{ite}
use mathlib.Core.List.{List, [], ◌∷◌}
use mathlib.Core.Option.{Option, none, some}
use native.Mathlib.Omega.{arith}

module _ {ℓ} {K V : Type ℓ} (dec : Discrete K) where
  unfoldable pub lookup : K → List (K × V) → Option V
  lookup k [] = none
  lookup k ((j, v) ∷ l) = ite (dec j k) (some v) (lookup k l)

  -- Replaces the value of a key in place, or puts a new key at the end.
  unfoldable pub insert : K → V → List (K × V) → List (K × V)
  insert k v [] = (k, v) ∷ []
  insert k v ((j, w) ∷ l) = ite (dec j k) ((k, v) ∷ l) ((j, w) ∷ insert k v l)

  pub lookup-insert :
      (k q : K) (v : V) (l : List (K × V))
      → lookup q (insert k v l) ≡ ite (dec k q) (some v) (lookup q l)
  unfolding lookup insert
  lookup-insert k q v [] = refl
  lookup-insert k q v ((j, w) ∷ l) = ground (arith, lookup-insert k q v l)
