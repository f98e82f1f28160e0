-- ===== src/Util/Cache/Bounds.antt =====
-- The invariant of the cache: never more entries than the capacity, and never a key twice.
use cornelich.Common.{◌+◌, ◌≤◌, ◌<◌, Bool, true, List, [], ◌∷◌, ◌++◌, none, some}
use cornelich.Common.{◌≡◌, refl, ◌≢◌, arith}
use cornelich.Common.{length}
use cornelich.Util.Cache.{Cache, find, without}

module _ {ℓ} {K V : Type ℓ} (dec : Discrete K) where
  -- No key stands twice.
  abbrev pub Distinct : List (K × V) → Type ℓ
  Distinct [] = Unit
  Distinct ((k, v) ∷ l) = (find dec k l ≡ none) × Distinct l

  pub find-without_ne :
      (k q : K) (l : List (K × V)) → q ≢ k → find dec q (without dec k l) ≡ find dec q l
  unfolding find without
  find-without_ne k q [] h = refl
  find-without_ne k q ((j, v) ∷ l) h = ground (arith, find-without_ne k q l h)

  pub find-without_self :
      (k : K) (l : List (K × V)) → Distinct l → find dec k (without dec k l) ≡ none
  unfolding find without
  find-without_self k [] d = refl
  find-without_self k ((j, v) ∷ l) (fresh, d) = ground (arith, find-without_self k l d)

  pub without-Distinct : (k : K) (l : List (K × V)) → Distinct l → Distinct (without dec k l)
  unfolding without find
  without-Distinct k [] d = tt
  without-Distinct k ((j, v) ∷ l) (fresh, d) = elim (dec j k) [
    | yes p ↦ ground arith
    | no p ↦ ground (arith, find-without_ne k j l p, without-Distinct k l d)
  ]

  pub length-without :
      (k : K) (l : List (K × V)) (v : V)
      → find dec k l ≡ some v
      → length (without dec k l) + 1 ≡ length l
  unfolding find without
  length-without k [] v h = cc
  length-without k ((j, w) ∷ l) v h = ground (arith, length-without k l v)

  pub find-append_absent :
      (q : K) (l m : List (K × V)) → find dec q l ≡ none → find dec q (l ++ m) ≡ find dec q m
  unfolding find
  find-append_absent q [] m h = refl
  find-append_absent q ((j, v) ∷ l) m h = ground (arith, find-append_absent q l m)

  pub find-snoc_ne :
      (q k : K) (v : V) (l : List (K × V)) → q ≢ k → find dec q (l ++ ((k, v) ∷ [])) ≡ find dec q l
  unfolding find
  find-snoc_ne q k v [] h = ground arith
  find-snoc_ne q k v ((j, w) ∷ l) h = ground (arith, find-snoc_ne q k v l h)

  pub find-snoc_self :
      (k : K) (v : V) (l : List (K × V))
      → find dec k l ≡ none
      → find dec k (l ++ ((k, v) ∷ [])) ≡ some v
  unfolding find
  find-snoc_self k v [] h = ground arith
  find-snoc_self k v ((j, w) ∷ l) h = ground (arith, find-snoc_self k v l)

  pub snoc-Distinct :
      (k : K) (v : V) (l : List (K × V))
      → find dec k l ≡ none
      → Distinct l
      → Distinct (l ++ ((k, v) ∷ []))
  unfolding find
  snoc-Distinct k v [] h d = (refl, tt)
  snoc-Distinct k v ((j, w) ∷ l) h (fresh, d) = elim (dec j k) [
    | yes p ↦ absurd (ground arith)
    | no p ↦ (ground (arith, find-snoc_ne j k v l p), snoc-Distinct k v l (ground arith) d)
  ]

  -- What the invariant says of a container, whichever the capacity.
  pub record IsValid (validator : V → Bool) (c : Cache K V) : Type ℓ where
    pub positive : 0 < c.capacity
    pub bounded : length c.container ≤ c.capacity
    pub distinct : Distinct c.container
    pub validated : (q : K) (w : V) → find dec q c.container ≡ some w → validator w ≡ true
