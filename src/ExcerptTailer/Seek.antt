-- ===== src/ExcerptTailer/Seek.antt =====
-- The search of `next_index` for an excerpt through the cycles.
use cornelich.Common.{
  ℕ, zero, suc, ◌+◌, ◌*◌, ◌/◌, ◌%◌, ◌^◌, ◌≤◌, ◌<◌, ◌≡◌, ◌≢◌, refl, sym, ap, arith,
}
use cornelich.Common.{
  Bool, true, false, ◌==◌, if◌then◌else◌, Option, none, some, Outcome, ok, throws, undefined,
  out_of_fuel, ◌>>=◌,
}
use cornelich.Common.Words.{widen, narrow, add32, slt32, sdiv64}
use mathlib.Core.Path.{subst}
use native.Mathlib.Nat.{mul-div_cancel, mul-le-mul_right}
use cornelich.ExcerptTailer.{seek_loop}

-- The two words of the loop, for a cycle that is not the last of std::int32_t.
pub cycle_word :
    (next E : ℕ)
    → next < 2 ^ 63
    → E < 2 ^ 63
    → next / E < 2 ^ 31
    → narrow (sdiv64 next E) ≡ next / E
cycle_word next E hn hE h = ground arith

pub next_word :
    (c E : ℕ) → c + 1 < 2 ^ 31 → (c + 1) * E < 2 ^ 63 → widen (add32 c 1) * E % 2 ^ 64 ≡ (c + 1) * E
next_word c E hc h =
    let word : widen (add32 c 1) ≡ c + 1 = ground arith in
    let product : widen (add32 c 1) * E ≡ (c + 1) * E = ap (λ x. x * E) word in below _ _ product h
  where
    below : (x y : ℕ) → x ≡ y → y < 2 ^ 63 → x % 2 ^ 64 ≡ y
    below x y e h = omega arith

pub next_cycle : (c E : ℕ) → 1 ≤ E → (c + 1) * E / E ≡ c + 1
next_cycle c E h = mul-div_cancel (c + 1) h

pub positive_test : (E : ℕ) → 1 ≤ E → (E == 0) ≡ false
positive_test E h = ground arith

pub bound_E : (now E : ℕ) → (now + 1) * E < 2 ^ 63 → E < 2 ^ 63
bound_E now E h = grind arith

module _ {S : Type 0} (look : ℕ → S → Outcome (S × Bool)) (E latest : ℕ) (positive : 1 ≤ E)
    (small : latest + 1 < 2 ^ 31) (room : (latest + 1) * E < 2 ^ 63) where
  -- The clock is not past the cycle `latest` in any round.
  abbrev pub Bounded : (ℕ → Outcome ℕ) → Type 0
  Bounded now_cycles = (k : ℕ) → (now : ℕ) × (now_cycles k ≡ ok now) × (now ≤ latest)

  -- What follows a look that finds nothing, at the cycle `c`.
  abbrev pub go_on : (ℕ → Outcome ℕ) → ℕ → ℕ → S → Outcome (S × Option ℕ)
  go_on now_cycles fuel c s = now_cycles 0 >>= λ now.
      if slt32 now c
      then ok (s, none)
      else seek_loop look E (λ k. now_cycles (suc k)) fuel (widen (add32 c 1) * E % 2 ^ 64) s

  go_on-ends :
      (now_cycles : ℕ → Outcome ℕ)
      → Bounded now_cycles
      → (fuel c : ℕ) (s : S) → c < 2 ^ 31
      → (c ≤ latest → seek_loop look E (λ k. now_cycles (suc k)) fuel ((c + 1) * E) s ≢ out_of_fuel)
      → go_on now_cycles fuel c s ≢ out_of_fuel
  go_on-ends now_cycles bounded fuel c s hc h =
      let (now, at, le) = bounded 0 in
      subst
        (λ o.
          (o >>= λ n.
          if slt32 n c
          then ok (s, none)
          else seek_loop look E (λ k. now_cycles (suc k)) fuel (widen (add32 c 1) * E % 2 ^ 64) s)
          ≢ out_of_fuel)
        (sym at) (by_test now le (slt32 now c) refl)
    where
      by_test :
          (now : ℕ)
          → now ≤ latest
          → (b : Bool) → slt32 now c ≡ b
          → (if b
              then ok (s, none)
              else seek_loop look E
                  (λ k. now_cycles (suc k))
                  fuel
                  (widen (add32 c 1) * E % 2 ^ 64)
                  s)
            ≢ out_of_fuel
      by_test now le true e = λ x. cc
      by_test now le false e =
          let low : c ≤ latest = ground arith in
          let most : (c + 1) * E ≤ (latest + 1) * E = mul-le-mul_right E (omega arith) in
          subst (λ n. seek_loop look E (λ k. now_cycles (suc k)) fuel n s ≢ out_of_fuel)
            (sym (next_word c E (omega arith) (omega arith))) (h low)

  -- If no look runs out of fuel, the search of `next_index` ends with a round for each cycle up
  -- to the present one and one more, wherever it starts, provided that the entries per cycle
  -- are positive and the indices up to the cycle after the present one stay below 2 ^ 63.
  pub seek_loop-ends :
      ((i : ℕ) (s : S) → look i s ≢ out_of_fuel)
      → (now_cycles : ℕ → Outcome ℕ) → Bounded now_cycles
      → (fuel next : ℕ) (s : S) → next < 2 ^ 63
      → next / E < 2 ^ 31
      → 1 ≤ fuel
      → latest + 2 ≤ fuel + next / E
      → seek_loop look E now_cycles fuel next s ≢ out_of_fuel
  unfolding seek_loop
  seek_loop-ends total now_cycles bounded zero next s hn hc hf h = ground arith
  seek_loop-ends total now_cycles bounded (suc fuel) next s hn hc hf h =
      let later : (s' : S) → go_on now_cycles fuel (next / E) s' ≢ out_of_fuel = λ s'.
        go_on-ends now_cycles bounded fuel (next / E) s' hc (λ low.
          let most : (next / E + 1) * E ≤ (latest + 1) * E = mul-le-mul_right E (omega arith) in
          let cycle : (next / E + 1) * E / E ≡ next / E + 1 = next_cycle (next / E) E positive in
          seek_loop-ends total (λ k. now_cycles (suc k)) (λ k. bounded (suc k)) fuel
            ((next / E + 1) * E) s' (omega arith) (omega arith) (omega arith) (omega arith)) in
      after later (look next s) (total next s)
    where
      after :
          ((s' : S) → go_on now_cycles fuel (next / E) s' ≢ out_of_fuel)
          → (o : Outcome (S × Bool)) → o ≢ out_of_fuel
          → (o >>= λ (s', found).
              if found
              then ok (s', some next)
              else if E == 0
              then undefined
              else go_on now_cycles fuel (narrow (sdiv64 next E)) s')
            ≢ out_of_fuel
      after later (ok (s', true)) n = λ x. cc
      after later (ok (s', false)) n =
          subst
            (λ b.
              (if b then undefined else go_on now_cycles fuel (narrow (sdiv64 next E)) s')
              ≢ out_of_fuel)
            (sym (positive_test E positive))
            (subst (λ c. go_on now_cycles fuel c s' ≢ out_of_fuel)
              (sym (cycle_word next E hn (bound_E latest E room) hc)) (later s'))
      after later (throws x) n = λ x. cc
      after later undefined n = λ x. cc
      after later out_of_fuel n = λ x. n refl
