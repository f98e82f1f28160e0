-- ===== src/Common/Bits.antt =====
-- `&` and `|` with masks and shifted fields, as arithmetic, at every width.
use Prim.Native.Nat.{ℕ, zero, suc, ◌+◌, ◌-◌, ◌*◌, ◌/◌, ◌%◌, ◌^◌, ◌≤◌, ◌<◌, min, max}
use Prim.Native.Nat.{bit_and, bit_or, digits, bit_and-bitwise, bit_or-bitwise}
use mathlib.Core.Path.{◌≡◌, refl, ap, ◌∙◌}
use mathlib.Core.WellFounded
use native.Mathlib.Nat.{pow-suc, one-le-pow, mod-eq_of_lt, zero-add, suc-add}
use native.Mathlib.Omega.{arith}
use cornelich.Common.Order.{lt_wf}

-- The fuel of `digits` is irrelevant once it covers the first number.
fuel_irrelevant :
    (z : ℕ → ℕ) (f : ℕ → ℕ → ℕ) (a b n m : ℕ) → a ≤ n → a ≤ m → digits z f n a b ≡ digits z f m a b
fuel_irrelevant z f zero b zero zero hn hm = refl
fuel_irrelevant z f zero b zero (suc m) hn hm = refl
fuel_irrelevant z f zero b (suc n) zero hn hm = refl
fuel_irrelevant z f zero b (suc n) (suc m) hn hm = refl
fuel_irrelevant z f (suc a) b zero m hn hm = absurd (omega arith)
fuel_irrelevant z f (suc a) b (suc n) zero hn hm = absurd (omega arith)
fuel_irrelevant z f (suc a) b (suc n) (suc m) hn hm =
    ap (λ (t : ℕ). t * 2 + f (suc a % 2) (b % 2))
      (fuel_irrelevant z f (suc a / 2) (b / 2) n m (omega arith) (omega arith))

pub bit_and-halves : (a b : ℕ) → bit_and a b ≡ bit_and (a / 2) (b / 2) * 2 + min (a % 2) (b % 2)
bit_and-halves zero b = omega (arith, bit_and-bitwise 0 b, bit_and-bitwise 0 (b / 2))
bit_and-halves (suc a) b = omega (
  arith,
  bit_and-bitwise (suc a) b,
  bit_and-bitwise (suc a / 2) (b / 2),
  fuel_irrelevant (λ _. 0) min (suc a / 2) (b / 2) a (suc a / 2) (omega arith) (omega arith),
)

pub bit_or-halves : (a b : ℕ) → bit_or a b ≡ bit_or (a / 2) (b / 2) * 2 + max (a % 2) (b % 2)
bit_or-halves zero b = omega (arith, bit_or-bitwise 0 b, bit_or-bitwise 0 (b / 2))
bit_or-halves (suc a) b = omega (
  arith,
  bit_or-bitwise (suc a) b,
  bit_or-bitwise (suc a / 2) (b / 2),
  fuel_irrelevant (λ y. y) max (suc a / 2) (b / 2) a (suc a / 2) (omega arith) (omega arith),
)

pub zero-bit_or : (b : ℕ) → bit_or 0 b ≡ b
zero-bit_or b = bit_or-bitwise 0 b

and_zero : (a : ℕ) → bit_and a 0 ≡ 0
and_zero a = WellFounded.induction lt_wf {C = λ k. bit_and k 0 ≡ 0} a λ k ih. and_zero_at k ih
  where
    and_zero_at : (k : ℕ) → ((m : ℕ) → m < k → bit_and m 0 ≡ 0) → bit_and k 0 ≡ 0
    and_zero_at zero ih = refl
    and_zero_at (suc k) ih = omega (arith, bit_and-halves (suc k) 0, ih (suc k / 2) (omega arith))

or_zero : (a : ℕ) → bit_or a 0 ≡ a
or_zero a = WellFounded.induction lt_wf {C = λ k. bit_or k 0 ≡ k} a λ k ih. or_zero_at k ih
  where
    or_zero_at : (k : ℕ) → ((m : ℕ) → m < k → bit_or m 0 ≡ m) → bit_or k 0 ≡ k
    or_zero_at zero ih = refl
    or_zero_at (suc k) ih = omega (arith, bit_or-halves (suc k) 0, ih (suc k / 2) (omega arith))

-- A product by 2 ^ suc k, for `omega`.
pub mul-pow-suc : (c k : ℕ) → c * 2 ^ suc k ≡ 2 * (c * 2 ^ k)
mul-pow-suc c k = omega (arith, ap (λ (t : ℕ). c * t) (pow-suc 2 k))

div-div-pow : (a k : ℕ) → a / 2 / 2 ^ k ≡ a / 2 ^ suc k
div-div-pow a k = rw pow-suc (grind arith)

pow_pos : (k : ℕ) → 1 ≤ 2 ^ k
pow_pos k = one-le-pow k 2 (omega arith)

-- The remainder by 2 ^ suc k, from the remainder of the half.
pub mod-pow-suc : (a k : ℕ) → a % 2 ^ suc k ≡ a / 2 % 2 ^ k * 2 + a % 2
mod-pow-suc a k = rw pow-suc (grind (arith, pow_pos))

-- A mask of `k` low bits is the remainder by 2 ^ k.
pub bit_and_mask : (k a : ℕ) → bit_and a (2 ^ k - 1) ≡ a % 2 ^ k
bit_and_mask zero a = omega (arith, and_zero a)
bit_and_mask (suc k) a = ground (
  arith,
  bit_and-halves a (2 ^ suc k - 1),
  pow-suc 2 k,
  pow_pos k,
  mod-pow-suc a k,
  bit_and_mask k (a / 2),
)

-- `&` with a field shifted up by `k` bits.
pub bit_and_shifted : (k a c : ℕ) → bit_and a (c * 2 ^ k) ≡ bit_and (a / 2 ^ k) c * 2 ^ k
bit_and_shifted zero a c = ground arith
bit_and_shifted (suc k) a c = ground (
  arith,
  bit_and-halves a (c * 2 ^ suc k),
  mul-pow-suc c k,
  mul-pow-suc (bit_and (a / 2 ^ suc k) c) k,
  div-div-pow a k,
  bit_and_shifted k (a / 2) c,
)

-- `|` of a field shifted up by `k` bits and of what fits below it is their sum.
pub bit_or_disjoint : (k q r : ℕ) → r < 2 ^ k → bit_or r (q * 2 ^ k) ≡ r + q * 2 ^ k
bit_or_disjoint zero q r h = ground (arith, zero-bit_or q)
bit_or_disjoint (suc k) q r h = ground (
  arith,
  bit_or-halves r (q * 2 ^ suc k),
  mul-pow-suc q k,
  pow-suc 2 k,
  bit_or_disjoint k q (r / 2) (omega (arith, pow-suc 2 k)),
)

-- `|` with an even number keeps the lowest bit of the other.
bit_or-even : (c a : ℕ) → bit_or (c + c) a ≡ bit_or c (a / 2) * 2 + a % 2
bit_or-even c a =
    let half : (c + c) / 2 ≡ c = omega arith in
    let low : max ((c + c) % 2) (a % 2) ≡ a % 2 = omega arith in
    bit_or-halves (c + c) a ∙ rw (half, low)

bit_or-one : (a : ℕ) → bit_or 1 a ≡ a / 2 * 2 + 1
bit_or-one a = omega (arith, bit_or-halves 1 a, zero-bit_or (a / 2))

-- The top bit of a byte set: the low seven bits stay.
pub bit_or_top : (a : ℕ) → bit_or 0x80 a % 256 ≡ a % 128 + 128
bit_or_top a = omega (
  arith,
  bit_or-even 64 a,
  bit_or-even 32 (a / 2),
  bit_or-even 16 (a / 2 / 2),
  bit_or-even 8 (a / 2 / 2 / 2),
  bit_or-even 4 (a / 2 / 2 / 2 / 2),
  bit_or-even 2 (a / 2 / 2 / 2 / 2 / 2),
  bit_or-even 1 (a / 2 / 2 / 2 / 2 / 2 / 2),
  bit_or-one (a / 2 / 2 / 2 / 2 / 2 / 2 / 2),
)

-- `(a & ~(2 ^ k - 1)) == 0` of a 64-bit word, for a mask of 64 - k ones above k zeros.
pub high_bits_zero :
    (k j a : ℕ) → a / 2 ^ k < 2 ^ j → bit_and a ((2 ^ j - 1) * 2 ^ k) ≡ a / 2 ^ k * 2 ^ k
high_bits_zero k j a h = rw (bit_and_shifted, bit_and_mask) (rw (mod-eq_of_lt h))

pub pow-add : (j k : ℕ) → 2 ^ (j + k) ≡ 2 ^ j * 2 ^ k
pow-add zero k = rw zero-add (omega arith)
pow-add (suc j) k =
    rw suc-add (omega (arith, pow-suc 2 (j + k), pow-suc 2 j, pow-add j k, mul-pow-suc (2 ^ k) j))
