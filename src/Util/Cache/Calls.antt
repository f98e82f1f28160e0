-- ===== src/Util/Cache/Calls.antt =====
-- What a client of the cache sees in a sequence of calls.
use cornelich.Common.{Bool, true, List, [], ◌∷◌, ◌++◌, Option, none, some}
use cornelich.Common.{
  ◌≡◌, refl, ◌∙◌, ap, ◌≢◌, ◌⊎◌, inl, inr, arith, Outcome, ok, undefined, leb, if◌then◌else◌,
}
use cornelich.Common.{length, >>=-ne-undefined, Option-cases, Bool-cases}
use mathlib.Core.List.{tail, head?}
use mathlib.Core.Option
use cornelich.Util.Cache.{Cache, find, without, relocate_to_end, get}
use cornelich.Util.Cache.Bounds.{
  IsValid, find-without_ne, find-without_self, find-snoc_ne, find-snoc_self,
}
use cornelich.Util.Cache.Served.{
  Served, hit, stored, passed, evict, get-Served, get_hit, get_miss, answer, store-evict,
}
use cornelich.Util.Cache.Invariant.{find-evict_absent}

-- The key that a miss on a full cache drops: the one unused for longest.
unfoldable pub victim {ℓ} : {K V : Type ℓ} → Cache K V → Option K
victim c =
    if leb c.capacity (length c.container) then Option.map (λ e. e.0) (head? c.container) else none

module _ {ℓ} {K V : Type ℓ} (dec : Discrete K) where
  without-snoc :
      (k : K) (v : V) (l : List (K × V))
      → find dec k l ≡ none
      → without dec k (l ++ ((k, v) ∷ [])) ≡ l
  unfolding find without
  without-snoc k v [] h = ground arith
  without-snoc k v ((j, w) ∷ l) h = ground (arith, without-snoc k v l)

  -- Moving the most recent entry to the end changes nothing.
  relocate-snoc :
      (k : K) (v : V) (l : List (K × V))
      → find dec k l ≡ none
      → relocate_to_end dec k v (l ++ ((k, v) ∷ [])) ≡ l ++ ((k, v) ∷ [])
  unfolding relocate_to_end
  relocate-snoc k v l h = rw (without-snoc k v l h)

  find-tail_ne :
      (q : K) (l : List (K × V))
      → Option.map (λ (e : K × V). e.0) (head? l) ≢ some q
      → find dec q (tail l) ≡ find dec q l
  unfolding find
  find-tail_ne q [] h = refl
  find-tail_ne q ((j, v) ∷ l) h = elim (dec j q) [
    | yes p ↦ absurd (h (ap some p))
    | no p ↦ ground arith
  ]

  module _ {S : Type ℓ} (validator : V → Bool) (c : Cache K V) (k : K)
      (provider : K → S → Outcome (S × V)) where
    -- The entry of the key stands at the end of the cache after a call that found or stored it.
    last_entry :
        (s s' : S) (c' : Cache K V) (v : V)
        → IsValid dec validator c
        → Served dec validator c k provider s s' c' v
        → validator v ≡ true
        → (l : List (K × V)) × (c'.container ≡ l ++ ((k, v) ∷ [])) × (find dec k l ≡ none)
    unfolding relocate_to_end
    last_entry s s' c' v h (hit f e d) good =
        (without dec k c.container, rw d, find-without_self dec k c.container h.distinct)
    last_entry s s' c' v h (stored f p g d) good = (evict c, rw d, find-evict_absent dec k c f)
    last_entry s s' c' v h (passed f p bad d) good = absurd (cc)

    -- If a call on a valid cache returned a value that the validator takes, a second call for
    -- the same key returns it too, calls no provider (whichever it is given) and leaves the
    -- cache as it is.
    pub get_again :
        (s s' : S) (c' : Cache K V) (v : V) (provider' : K → S → Outcome (S × V)) (s₁ : S)
        → IsValid dec validator c
        → get dec validator c k provider s ≡ ok (s', c', v)
        → validator v ≡ true
        → get dec validator c' k provider' s₁ ≡ ok (s₁, c', v)
    get_again s s' c' v provider' s₁ h e good =
        let (l, shape, absent) =
          last_entry s s' c' v h (get-Served dec validator c k provider s s' c' v h e) good in
        let found : find dec k c'.container ≡ some v = rw shape (find-snoc_self dec k v l absent) in
        let same : relocate_to_end dec k v c'.container ≡ c'.container =
          rw shape (relocate-snoc k v l absent) in
        get_hit dec validator c' k provider' s₁ v found ∙ rw same

    find-evict_ne : (q : K) → victim c ≢ some q → find dec q (evict c) ≡ find dec q c.container
    unfolding evict victim
    find-evict_ne q kept = elim (Bool-cases (leb c.capacity (length c.container))) [
      | inl full ↦ rw (full, evict) (find-tail_ne q c.container (rw (full, victim) at kept))
      | inr room ↦ rw (room, evict)
    ]

    Served-find_ne :
        (q : K) (s s' : S) (c' : Cache K V) (v : V)
        → q ≢ k
        → (find dec k c.container ≢ none) ⊎ (victim c ≢ some q)
        → Served dec validator c k provider s s' c' v
        → find dec q c'.container ≡ find dec q c.container
    unfolding relocate_to_end
    Served-find_ne q s s' c' v other kept (hit f e d) =
        rw d (find-snoc_ne dec q k v _ other ∙ find-without_ne dec k q c.container other)
    Served-find_ne q s s' c' v other (inl known) (stored f p g d) = absurd (known f)
    Served-find_ne q s s' c' v other (inr kept) (stored f p g d) =
        rw d (find-snoc_ne dec q k v _ other ∙ find-evict_ne q kept)
    Served-find_ne q s s' c' v other kept (passed f p bad d) = rw d

    -- A call that returns leaves every other key of a valid cache as it was, but for the key
    -- unused for longest when a new one has to be stored in a full cache.
    pub get-find_ne :
        (q : K) (s s' : S) (c' : Cache K V) (v : V)
        → IsValid dec validator c
        → q ≢ k
        → (find dec k c.container ≢ none) ⊎ (victim c ≢ some q)
        → get dec validator c k provider s ≡ ok (s', c', v)
        → find dec q c'.container ≡ find dec q c.container
    get-find_ne q s s' c' v h other kept e =
        Served-find_ne q s s' c' v other kept (get-Served dec validator c k provider s s' c' v h e)

    answered :
        (s : S)
        → IsValid dec validator c
        → (a : S × V) → answer dec validator c k provider s a ≢ undefined
    unfolding answer
    answered s h (s', v) bad = elim (Bool-cases (validator v)) [
      | inl good ↦ cc (rw (good, store-evict dec validator c k v h) at bad)
      | inr refused ↦ cc (rw refused at bad)
    ]

    -- On a valid cache a call reaches no undefined operation if the provider reaches none: it
    -- never pops from an empty container.
    pub get-ne-undefined :
        (s : S)
        → IsValid dec validator c
        → provider k s ≢ undefined
        → get dec validator c k provider s ≢ undefined
    get-ne-undefined s h fine bad = elim (Option-cases (find dec k c.container)) [
      | inl absent ↦
          >>=-ne-undefined (provider k s) (answer dec validator c k provider s) fine (answered s h)
            (rw (get_miss dec validator c k provider s absent) at bad)
      | inr (w, present) ↦ cc (get_hit dec validator c k provider s w present)
    ]
