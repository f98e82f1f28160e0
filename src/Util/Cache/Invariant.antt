-- ===== src/Util/Cache/Invariant.antt =====
-- Every call of `get` that returns keeps the invariant of the cache.
use cornelich.Common.{◌-◌, ◌≤◌, ◌<◌, Bool, true, List, [], ◌∷◌, ◌++◌, none, some}
use cornelich.Common.{◌≡◌, refl, sym, ◌∙◌, ◌⊎◌, inl, inr, arith, Outcome, ok, leb}
use cornelich.Common.{length, length-append, Bool-cases}
use mathlib.Core.List.{tail}
use cornelich.Util.Cache.{Cache, find, without, relocate_to_end, get}
use cornelich.Util.Cache.Bounds.{
  Distinct, IsValid, find-without_ne, find-without_self, without-Distinct, length-without,
  snoc-Distinct,
}
use cornelich.Util.Cache.Served.{Served, hit, stored, passed, evict, get-Served}

module _ {ℓ} {K V : Type ℓ} (dec : Discrete K) where
  -- The first entry removed.
  pub find-tail_absent :
      (k : K) (l : List (K × V)) → find dec k l ≡ none → find dec k (tail l) ≡ none
  unfolding find
  find-tail_absent k [] h = refl
  find-tail_absent k ((j, v) ∷ l) h = ground arith

  find-tail-some :
      (q : K) (w : V) (l : List (K × V))
      → Distinct dec l
      → find dec q (tail l) ≡ some w
      → find dec q l ≡ some w
  unfolding find
  find-tail-some q w [] d h = h
  find-tail-some q w ((j, v) ∷ l) (fresh, d) h = elim (dec j q) [
    | yes p ↦ absurd (ground arith)
    | no p ↦ ground arith
  ]

  pub find-without-some :
      (k q : K) (w : V) (l : List (K × V))
      → Distinct dec l
      → find dec q (without dec k l) ≡ some w
      → find dec q l ≡ some w
  find-without-some k q w l d h = elim (dec q k) [
    | yes p ↦ absurd (ground (arith, find-without_self dec k l d))
    | no p ↦ sym (find-without_ne dec k q l p) ∙ h
  ]

  tail-Distinct : (l : List (K × V)) → Distinct dec l → Distinct dec (tail l)
  tail-Distinct [] d = d
  tail-Distinct (e ∷ l) (fresh, d) = d

  pub find-evict_absent :
      (k : K) (c : Cache K V) → find dec k c.container ≡ none → find dec k (evict c) ≡ none
  unfolding evict
  find-evict_absent k c h = ground (arith, find-tail_absent k c.container)

  pub find-evict-some :
      (q : K) (w : V) (c : Cache K V)
      → Distinct dec c.container
      → find dec q (evict c) ≡ some w
      → find dec q c.container ≡ some w
  unfolding evict
  find-evict-some q w c d h = elim (Bool-cases (leb c.capacity (length c.container))) [
    | inl full ↦ find-tail-some q w c.container d (rw (full, evict) at h)
    | inr room ↦ rw (room, evict) at h
  ]

  evict-Distinct : (c : Cache K V) → Distinct dec c.container → Distinct dec (evict c)
  unfolding evict
  evict-Distinct c d = elim (Bool-cases (leb c.capacity (length c.container))) [
    | inl full ↦ rw (full, evict) (tail-Distinct c.container d)
    | inr room ↦ rw (room, evict) d
  ]

  length-tail : (l : List (K × V)) → length (tail l) ≡ length l - 1
  length-tail [] = omega arith
  length-tail (e ∷ l) = omega arith

  length-evict :
      (c : Cache K V)
      → 0 < c.capacity
      → length c.container ≤ c.capacity
      → length (evict c) < c.capacity
  unfolding evict
  length-evict c p b = ground (arith, length-tail c.container)

  pub find-snoc_some :
      (q k : K) (v w : V) (l : List (K × V))
      → find dec q (l ++ ((k, v) ∷ [])) ≡ some w
      → (find dec q l ≡ some w) ⊎ ((q ≡ k) × (w ≡ v))
  unfolding find
  find-snoc_some q k v w [] h = ground arith
  find-snoc_some q k v w ((j, u) ∷ l) h = ground (arith, find-snoc_some q k v w l)

  module _ (validator : V → Bool) (c : Cache K V) (k : K) (v : V)
      (h : IsValid dec validator c) where
    relocated :
        find dec k c.container ≡ some v
        → IsValid dec validator (record c { container = relocate_to_end dec k v c.container })
    unfolding relocate_to_end
    relocated f = record {
      positive = h.positive;
      bounded = omega (
        arith,
        length-append {ℓ} (without dec k c.container) ((k, v) ∷ []),
        length-without dec k c.container v f,
        h.bounded,
      );
      distinct =
          snoc-Distinct dec k v _ (find-without_self dec k c.container h.distinct)
            (without-Distinct dec k c.container h.distinct);
      validated = λ q w e. elim (find-snoc_some q k v w _ e) [
        | inl old ↦ h.validated q w (find-without-some k q w c.container h.distinct old)
        | inr (same, new) ↦ rw new (h.validated k v f)
      ];
    }

    extended :
        find dec k c.container ≡ none
        → validator v ≡ true
        → IsValid dec validator (record c { container = evict c ++ ((k, v) ∷ []) })
    extended f good = record {
      positive = h.positive;
      bounded =
          omega
            (arith, length-append {ℓ} (evict c) ((k, v) ∷ []), length-evict c h.positive h.bounded);
      distinct = snoc-Distinct dec k v _ (find-evict_absent k c f) (evict-Distinct c h.distinct);
      validated = λ q w e. elim (find-snoc_some q k v w _ e) [
        | inl old ↦ h.validated q w (find-evict-some q w c h.distinct old)
        | inr (same, new) ↦ rw new good
      ];
    }

  module _ {S : Type ℓ} (validator : V → Bool) where
    pub Served-IsValid :
        {c c' : Cache K V} {k : K} {provider : K → S → Outcome (S × V)} {s s' : S} {v : V}
        → IsValid dec validator c
        → Served dec validator c k provider s s' c' v
        → IsValid dec validator c'
    Served-IsValid {c} {k = k} {v = v} h (hit f e d) = rw d (relocated validator c k v h f)
    Served-IsValid {c} {k = k} {v = v} h (stored f p good d) =
        rw d (extended validator c k v h f good)
    Served-IsValid {c} h (passed f p bad d) = rw d h

    -- A call of `get` that returns keeps a valid cache valid: a capacity above 0, at most
    -- `capacity` entries, no key twice, and no value that the validator refuses.
    pub get-IsValid :
        (c : Cache K V) (k : K) (provider : K → S → Outcome (S × V)) (s s' : S) (c' : Cache K V)
        (v : V)
        → IsValid dec validator c
        → get dec validator c k provider s ≡ ok (s', c', v)
        → IsValid dec validator c'
    get-IsValid c k provider s s' c' v h e =
        Served-IsValid h (get-Served dec validator c k provider s s' c' v h e)
