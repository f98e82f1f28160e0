-- ===== src/ExcerptAppender/PublishingSafety.antt =====
-- Appenders that publish their indices at the same time never lower the chronicle's.
use cornelich.Common.{
  ℕ, ◌^◌, ◌≤◌, ◌<◌, ◌≡◌, ◌⊎◌, inl, inr, refl, ap, ◌∙◌, sym, arith, true, false, if◌then◌else◌,
}
use cornelich.Common.Words.{slt64}
use mathlib.Core.Path.{subst}
use native.Mathlib.Decide.{ℕ_discrete}
use cornelich.Chronicle.{Chronicle}
use cornelich.ExcerptAppender.{ExcerptAppender}
use cornelich.ExcerptAppender.Publishing.{
  Pc, idle, looping, loaded, returned, Move, call, load, enough, exchange, fail, System, at, pick,
  Reach, here, later,
}
use cornelich.ExcerptAppender.Published.{key64}
use cornelich.World.{World}

-- What is true of every state, for the index `first` that the chronicle had.
pub record Raised (first : ℕ) (t : System) : Type 0 where
  -- The chronicle's index is not lowered.
  pub rises : key64 first ≤ key64 t.last
  -- A call that has returned leaves it at no less than its own index.
  pub covers : (i v : ℕ) → t.pc i ≡ returned v → key64 v ≤ key64 t.last
  -- It is the first one, or that of a call that has returned.
  pub origin : (t.last ≡ first) ⊎ ((i : ℕ) × (t.pc i ≡ returned t.last))

record Inv (first last : ℕ) (pc : ℕ → Pc) : Type 0 where
  rises : key64 first ≤ key64 last
  covers : (i v : ℕ) → pc i ≡ returned v → key64 v ≤ key64 last
  loads : (i v lwi : ℕ) → pc i ≡ loaded v lwi → key64 lwi ≤ key64 last
  origin : (last ≡ first) ⊎ ((i : ℕ) × (pc i ≡ returned last))

not_less : (lwi v : ℕ) → slt64 lwi v ≡ false → key64 v ≤ key64 lwi
not_less lwi v e = ground arith

less : (lwi v : ℕ) → slt64 lwi v ≡ true → key64 lwi ≤ key64 v
less lwi v e = ground arith

module _ {first last : ℕ} {pc : ℕ → Pc} (h : Inv first last pc) (i : ℕ) where
  open h use {rises, covers, loads, origin}

  -- A call that has not returned does not matter for the origin.
  origin_still :
      (p : Pc)
      → ((v : ℕ) → pc i ≡ returned v → p ≡ returned v)
      → (last ≡ first) ⊎ ((j : ℕ) × (at pc i p j ≡ returned last))
  origin_still p same = elim origin [
    | inl e ↦ inl e
    | inr (j, e) ↦ inr (
      j,
      elim (ℕ_discrete i j) [
        | yes at_j ↦ ground (arith, same last (ap pc at_j ∙ e))
        | no other ↦ ground (arith, e)
      ],
    )
  ]

  call-Inv : (v : ℕ) → pc i ≡ idle → Inv first last (at pc i (looping v))
  call-Inv v e = record {
    rises = rises;
    covers = λ j w. ground (arith, covers j w);
    loads = λ j w l. ground (arith, loads j w l);
    origin = origin_still (looping v) (λ w f. ground (arith, e));
  }

  load-Inv : {v : ℕ} → pc i ≡ looping v → Inv first last (at pc i (loaded v last))
  load-Inv {v} e = record {
    rises = rises;
    covers = λ j w. ground (arith, covers j w);
    loads = λ j w l. ground (arith, loads j w l);
    origin = origin_still (loaded v last) (λ w f. ground (arith, e));
  }

  enough-Inv :
      {v lwi : ℕ}
      → pc i ≡ loaded v lwi
      → slt64 lwi v ≡ false
      → Inv first last (at pc i (returned v))
  enough-Inv {v} {lwi} e full =
      let low : key64 v ≤ key64 last = omega (arith, not_less lwi v full, loads i v lwi e) in
      record {
        rises = rises;
        covers = λ j w. ground (arith, covers j w);
        loads = λ j w l. ground (arith, loads j w l);
        origin = origin_still (returned v) (λ w f. ground (arith, e));
      }

  exchange-Inv :
      {v lwi : ℕ}
      → pc i ≡ loaded v lwi
      → slt64 lwi v ≡ true
      → last ≡ lwi
      → Inv first v (at pc i (returned v))
  exchange-Inv {v} {lwi} e below same =
      let up : key64 last ≤ key64 v =
        subst (λ l. key64 l ≤ key64 v) (sym same) (less lwi v below) in
      record {
        rises = omega arith;
        covers = λ j w. ground (arith, covers j w);
        loads = λ j w l. ground (arith, loads j w l);
        origin = inr (i, ground arith);
      }

  fail-Inv : {v lwi : ℕ} → pc i ≡ loaded v lwi → Inv first last (at pc i (looping v))
  fail-Inv {v} e = record {
    rises = rises;
    covers = λ j w. ground (arith, covers j w);
    loads = λ j w l. ground (arith, loads j w l);
    origin = origin_still (looping v) (λ w f. ground (arith, e));
  }

Move-Inv :
    {first last last' : ℕ} {pc : ℕ → Pc} {p p' : Pc} (i : ℕ)
    → Move last p last' p'
    → pc i ≡ p
    → Inv first last pc
    → Inv first last' (at pc i p')
Move-Inv i (call {v} fits) e h = call-Inv h i v e
Move-Inv i load e h = load-Inv h i e
Move-Inv i (enough full) e h = enough-Inv h i e full
Move-Inv i (exchange below same) e h = exchange-Inv h i e below same
Move-Inv i (fail below) e h = fail-Inv h i e

Reach-Inv : {first : ℕ} {s t : System} → Inv first s.last s.pc → Reach s t → Inv first t.last t.pc
Reach-Inv h here = h
Reach-Inv h (later r (pick i m)) = Move-Inv i m refl (Reach-Inv h r)

module _ (v last : ℕ) (pc : ℕ → Pc) (i : ℕ) (quiet : pc i ≡ idle) (fits : v < 2 ^ 64) where
  -- What one call does with no other between its accesses.
  abbrev Alone : Type 0
  Alone =
      (t : System) × Reach (record { last = last; pc = pc }) t
      × (t.last ≡ (if slt64 last v then v else last))
      × (t.pc i ≡ returned v)

  abbrev pc₁ : ℕ → Pc
  pc₁ = at pc i (looping v)

  abbrev pc₂ : ℕ → Pc
  pc₂ = at pc₁ i (loaded v last)

-- Whatever the interleaving of calls of `set_last_written_index`, which are all to come at first:
-- the chronicle's last written index, as a signed word, is not lowered, a call that has returned
-- leaves it at no less than its own index, and it is the one that the chronicle had or that of a
-- call that has returned.
pub set_last_written_index-Raised :
    {s t : System} → ((i : ℕ) → s.pc i ≡ idle) → Reach s t → Raised s.last t
set_last_written_index-Raised {s} {t} quiet r =
    let first : Inv s.last s.last s.pc = record {
      rises = omega arith;
      covers = λ i v e. ground (arith, quiet i);
      loads = λ i v l e. ground (arith, quiet i);
      origin = inl refl;
    } in
    let inv = Reach-Inv first r in
    record { rises = inv.rises; covers = inv.covers; origin = inv.origin }
