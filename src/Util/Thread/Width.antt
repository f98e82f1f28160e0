-- ===== src/Util/Thread/Width.antt =====
-- The bits for the numbers of threads, beside those numbers.
use cornelich.Common.{
  ℕ, suc, ◌+◌, ◌-◌, ◌%◌, ◌^◌, ◌≤◌, ◌<◌, ◌≡◌, ap, arith, false, ◌==◌, some, ok, ◌⊎◌, inl, inr,
}
use mathlib.Core.Path.{subst}
use native.Mathlib.Decide.{ℕ_discrete}
use cornelich.Util.MathUtil.{log2_bits}
use cornelich.Util.Thread.{thread_id_bits}

-- What is relied on: `__builtin_clz` counts the zeros in front of the first 1 of an unsigned int.
pub record LeadingZeros (clz : ℕ → ℕ) : Type 0 where
  pub bounded : (v : ℕ) → 0 < v → v < 2 ^ 32 → clz v ≤ 31
  pub from_below : (v : ℕ) → 0 < v → v < 2 ^ 32 → 2 ^ (31 - clz v) ≤ v
  pub from_above : (v : ℕ) → 0 < v → v < 2 ^ 32 → v < 2 ^ (32 - clz v)

power_or_below :
    (v bits : ℕ)
    → 2 ≤ v
    → 2 ^ bits ≤ v - 1
    → v - 1 < 2 ^ suc bits
    → (v ≡ 2 ^ suc bits) ⊎ ((2 ^ bits ≤ v) × (v < 2 ^ suc bits))
power_or_below v bits low from_below from_above =
    below (2 ^ bits) (2 ^ suc bits) from_below from_above
  where
    below : (x y : ℕ) → x ≤ v - 1 → v - 1 < y → (v ≡ y) ⊎ ((x ≤ v) × (v < y))
    below x y h h' = elim (ℕ_discrete v y) [
      | yes e ↦ inl e
      | no ne ↦ inr (omega arith, omega arith)
    ]

-- Where the system allows `v` threads, from 2 to 2 ^ 32 - 1, and `clz` counts leading zeros, the
-- answer of `thread_id_bits` is the number of bits of v - 1: the numbers below `v` fit it, and v
-- - 1 does not fit one bit less. That is the whole part of log2(v) plus 1, unless v is a power of
-- 2, where it is one less.
pub thread_id_bits_lem :
    {clz : ℕ → ℕ}
    → LeadingZeros clz
    → (v : ℕ) → 2 ≤ v
    → v < 2 ^ 32
    → (bits : ℕ) × (thread_id_bits clz (some v) ≡ ok (suc bits))
      × (bits ≤ 31)
      × (2 ^ bits ≤ v - 1)
      × (v - 1 < 2 ^ suc bits)
      × ((v ≡ 2 ^ suc bits) ⊎ ((2 ^ bits ≤ v) × (v < 2 ^ suc bits)))
unfolding thread_id_bits log2_bits
thread_id_bits_lem {clz} laws v low high =
    let n : ℕ = v - 1 in
    let small = laws.bounded n (omega arith) (omega arith) in
    let before : (v + 2 ^ 32 - 1) % 2 ^ 32 ≡ v - 1 = omega arith in
    let some_bit : (v - 1 == 0) ≡ false = ground arith in
    (
      31 - clz n,
      rw (before, some_bit) (ap ok (omega arith)),
      omega arith,
      laws.from_below n (omega arith) (omega arith),
      subst (λ k. n < 2 ^ k) (omega arith) (laws.from_above n (omega arith) (omega arith)),
      power_or_below v (31 - clz n) low (laws.from_below n (omega arith) (omega arith))
          (subst (λ k. n < 2 ^ k) (omega arith) (laws.from_above n (omega arith) (omega arith))),
    )
