-- ===== src/Util/Cache.antt =====
-- cornelich/util/cache.h: a cache of fixed capacity. The multi_index container is the list of its
-- entries in the order of the sequence index, least recently used first; its hashed index on the
-- keys is the search through that list.
pub mod Bounds
pub mod Served
pub mod Invariant
pub mod Calls
pub mod Entries
use cornelich.Common.{ℕ, zero, suc, ◌+◌, Bool, true, false, List, [], ◌∷◌, ◌++◌, Option, none, some}
use cornelich.Common.{Outcome, ok, undefined, ◌>>=◌, leb, if◌then◌else◌, length}
use mathlib.Core.List.{lookup}
use mathlib.Core.Logic.{ite}

pub record Cache {ℓ} (K V : Type ℓ) : Type ℓ where
  pub capacity : ℕ
  pub container : List (K × V)

module _ {ℓ} {K V : Type ℓ} where
  -- `container.pop_front()`, which must not be called on an empty container
  unfoldable pub pop_front : List (K × V) → Outcome (List (K × V))
  pop_front [] = undefined
  pop_front (e ∷ l) = ok l

module _ {ℓ} {K V : Type ℓ} (dec : Discrete K) where
  unfoldable pub find : K → List (K × V) → Option V
  find k [] = none
  find k ((j, v) ∷ l) = ite (dec j k) (some v) (find k l)

  -- the container without the entry of a key
  unfoldable pub without : K → List (K × V) → List (K × V)
  without k [] = []
  without k ((j, v) ∷ l) = ite (dec j k) l ((j, v) ∷ without k l)

  -- `sequence_index.relocate(end, it)` for the iterator at the entry (k, v)
  unfoldable pub relocate_to_end : K → V → List (K × V) → List (K × V)
  relocate_to_end k v l = without k l ++ ((k, v) ∷ [])

  -- The eviction and the insertion at the end of `get`.
  unfoldable pub store : Cache K V → K → V → Outcome (Cache K V × V)
  store c k v =
      (if leb c.capacity (length c.container) then pop_front c.container else ok c.container)
      >>= λ kept. ok (record c { container = kept ++ ((k, v) ∷ []) }, v)

  -- `get(k, provider)`: the provider acts on a state of its own, which it returns with the value.
  unfoldable pub get :
      {S : Type ℓ}
      → (V → Bool)
      → Cache K V
      → K
      → (K → S → Outcome (S × V))
      → S
      → Outcome (S × Cache K V × V)
  unfolding find relocate_to_end without store pop_front
  get validator c k provider s = elim (find k c.container) [
    | some v ↦ ok (s, record c { container = relocate_to_end k v c.container }, v)
    | none ↦ provider k s >>= λ (s', v).
        if validator v then (store c k v >>= λ (c', w). ok (s', c', w)) else ok (s', c, v)
  ]
