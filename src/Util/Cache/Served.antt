-- ===== src/Util/Cache/Served.antt =====
-- A call of `get` that returns: the three ways in which it may, and what it keeps.
use cornelich.Common.{Bool, true, false, List, [], ◌∷◌, ◌++◌, none, some}
use cornelich.Common.{◌≡◌, refl, sym, inl, inr, arith, Outcome, ok, ◌>>=◌, leb, if◌then◌else◌}
use cornelich.Common.{length, ok_parts, Option-cases, Bool-cases, >>=-eq-ok}
use mathlib.Core.List.{tail}
use cornelich.Util.Cache.{Cache, pop_front, find, relocate_to_end, store, get}
use cornelich.Util.Cache.Bounds.{IsValid}

-- The container after the eviction of `store`.
unfoldable pub evict {ℓ} : {K V : Type ℓ} → Cache K V → List (K × V)
evict c = if leb c.capacity (length c.container) then tail c.container else c.container

module _ {ℓ} {K V : Type ℓ} (dec : Discrete K) where
  pub store-evict :
      (validator : V → Bool) (c : Cache K V) (k : K) (v : V)
      → IsValid dec validator c
      → store dec c k v ≡ ok (record c { container = evict c ++ ((k, v) ∷ []) }, v)
  unfolding store evict pop_front
  store-evict validator c k v h = elim (Bool-cases (leb c.capacity (length c.container))) [
    | inl full ↦ nonempty c.container refl full
    | inr room ↦ rw room
  ]
    where
      nonempty :
          (l : List (K × V))
          → c.container ≡ l
          → leb c.capacity (length c.container) ≡ true
          → store dec c k v ≡ ok (record c { container = evict c ++ ((k, v) ∷ []) }, v)
      nonempty [] e full = absurd (ground (arith, h.positive))
      nonempty (x ∷ l) e full = rw (full, e, store, evict, pop_front)

  -- What a call that returns has done: a hit, a value stored, or a value passed on.
  pub data Served {S : Type ℓ} (validator : V → Bool) (c : Cache K V) (k : K)
      (provider : K → S → Outcome (S × V)) (s s' : S) (c' : Cache K V) (v : V) : Type ℓ where
    hit :
        find dec k c.container ≡ some v
        → s' ≡ s
        → c' ≡ record c { container = relocate_to_end dec k v c.container }
        → Served validator c k provider s s' c' v
    stored :
        find dec k c.container ≡ none
        → provider k s ≡ ok (s', v)
        → validator v ≡ true
        → c' ≡ record c { container = evict c ++ ((k, v) ∷ []) }
        → Served validator c k provider s s' c' v
    passed :
        find dec k c.container ≡ none
        → provider k s ≡ ok (s', v)
        → validator v ≡ false
        → c' ≡ c
        → Served validator c k provider s s' c' v

  module _ {S : Type ℓ} (validator : V → Bool) (c : Cache K V) (k : K)
      (provider : K → S → Outcome (S × V)) (s : S) where
    -- The value of the provider, and what is stored of it.
    unfoldable pub answer : S × V → Outcome (S × Cache K V × V)
    answer (s', v) =
        if validator v then (store dec c k v >>= λ (c', w). ok (s', c', w)) else ok (s', c, v)

    pub get_hit :
        (v : V)
        → find dec k c.container ≡ some v
        → get dec validator c k provider s
          ≡ ok (s, record c { container = relocate_to_end dec k v c.container }, v)
    unfolding get
    get_hit v e = rw (e, get)

    pub get_miss :
        find dec k c.container ≡ none → get dec validator c k provider s ≡ (provider k s >>= answer)
    unfolding get answer
    get_miss e = rw (e, get)

    answer-Served :
        (s₁ s' : S) (c' : Cache K V) (w v : V)
        → IsValid dec validator c
        → find dec k c.container ≡ none
        → provider k s ≡ ok (s₁, w)
        → answer (s₁, w) ≡ ok (s', c', v)
        → Served validator c k provider s s' c' v
    unfolding answer
    answer-Served s₁ s' c' w v h absent p e = elim (Bool-cases (validator w)) [
      | inl good ↦
          let (es, ec, ev) = ok_parts (rw (good, store-evict validator c k w h) at e) in
          stored absent (rw (← es, ← ev) p) (rw (← ev) good) (rw (← ev) (sym ec))
      | inr bad ↦
          let (es, ec, ev) = ok_parts (rw bad at e) in
          passed absent (rw (← es, ← ev) p) (rw (← ev) bad) (sym ec)
    ]

    pub get-Served :
        (s' : S) (c' : Cache K V) (v : V)
        → IsValid dec validator c
        → get dec validator c k provider s ≡ ok (s', c', v)
        → Served validator c k provider s s' c' v
    get-Served s' c' v h e = elim (Option-cases (find dec k c.container)) [
      | inl absent ↦
          let ((s₁, w), p, q) = >>=-eq-ok (provider k s) answer (rw (get_miss absent) at e) in
          answer-Served s₁ s' c' w v h absent p q
      | inr (w, present) ↦
          let (es, ec, ev) = ok_parts (rw (get_hit w present) at e) in
          hit (rw (← ev) present) (sym es) (rw (← ev) (sym ec))
    ]
