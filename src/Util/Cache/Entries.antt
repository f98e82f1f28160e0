-- ===== src/Util/Cache/Entries.antt =====
-- Calls of `get` in cornelich/util/cache.h: what holds of every entry of the cache, and calls that return.
use cornelich.Common.{Bool, true, [], ◌∷◌, ◌++◌, some, Outcome, ok}
use cornelich.Common.{◌≡◌, ◌∙◌, inl, inr, Option-cases, Bool-cases}
use mathlib.Core.Path.{subst}
use cornelich.Util.Cache.{Cache, find, without, relocate_to_end, get}
use cornelich.Util.Cache.Bounds.{IsValid}
use cornelich.Util.Cache.Served.{
  Served, hit, stored, passed, evict, get_hit, get_miss, answer, store-evict,
}
use cornelich.Util.Cache.Invariant.{find-snoc_some, find-without-some, find-evict-some}

module _ {ℓ} {K V : Type ℓ} (dec : Discrete K) where
  -- A predicate on keys and values, at every entry.
  abbrev pub Entries : (K → V → Type ℓ) → Cache K V → Type ℓ
  Entries P c = (q : K) (w : V) → find dec q c.container ≡ some w → P q w

module _ {ℓ} {K V S : Type ℓ} (dec : Discrete K) (validator : V → Bool) where
  module _ (P : K → V → Type ℓ) {c c' : Cache K V} {k : K} {provider : K → S → Outcome (S × V)}
      {s s' : S} {v : V} (h : IsValid dec validator c) (old : Entries dec P c) where
    pub Served-Entries :
        Served dec validator c k provider s s' c' v
        → (validator v ≡ true → P k v)
        → Entries dec P c'
    unfolding relocate_to_end
    Served-Entries (hit f e d) new q w there =
        elim (find-snoc_some dec q k v w (without dec k c.container)
          (subst (λ x. find dec q x.container ≡ some w) d there)) [
            | inl before ↦ old q w (find-without-some dec k q w c.container h.distinct before)
            | inr (same, value) ↦ rw (same, value) (old k v f)
          ]
    Served-Entries (stored f p good d) new q w there =
        elim (find-snoc_some dec q k v w (evict c)
          (subst (λ x. find dec q x.container ≡ some w) d there)) [
            | inl before ↦ old q w (find-evict-some dec q w c h.distinct before)
            | inr (same, value) ↦ rw (same, value) (new good)
          ]
    Served-Entries (passed f p bad d) new q w there =
        old q w (subst (λ x. find dec q x.container ≡ some w) d there)

  -- A call returns if the provider does.
  pub get_returns :
      (c : Cache K V) (k : K) (provider : K → S → Outcome (S × V)) (s s₁ : S) (v : V)
      → IsValid dec validator c
      → provider k s ≡ ok (s₁, v)
      → (s' : S) × (c' : Cache K V) × (w : V) × (get dec validator c k provider s ≡ ok (s', c', w))
  unfolding answer
  get_returns c k provider s s₁ v h e = elim (Option-cases (find dec k c.container)) [
    | inr (w, present) ↦ (s, _, w, get_hit dec validator c k provider s w present)
    | inl absent ↦ elim (Bool-cases (validator v)) [
      | inl good ↦ (
        s₁,
        record c { container = evict c ++ ((k, v) ∷ []) },
        v,
        get_miss dec validator c k provider s absent
            ∙ rw (e, good, store-evict dec validator c k v h),
      )
      | inr bad ↦ (s₁, c, v, get_miss dec validator c k provider s absent ∙ rw (e, bad))
    ]
  ]
