-- ===== src/Region/Positions.antt =====
-- The position of a region stays in its bounds.
use cornelich.Common.{
  ℕ, ◌+◌, ◌-◌, ◌*◌, ◌/◌, ◌%◌, ◌^◌, ◌≤◌, ◌<◌, bit_and, true, false, leb, if◌then◌else◌,
}
use cornelich.Common.{ok, ◌≡◌, refl, sym, ap, ◌∙◌, arith}
use cornelich.Common.Words.{add32, sub32, not32}
use cornelich.Common.Bits.{bit_and_mask, high_bits_zero, pow-add}
use native.Mathlib.Nat.{one-le-pow, pow-le-pow_right}
use cornelich.Region.{Region, region, position, set_position, limit, remaining, align_position}

-- A region as the constructor makes it: it starts at 0, its limit is its size, which fits an
-- std::int32_t, and the position is within.
pub record IsValid (r : Region) : Type 0 where
  pub starts : r.start_offset ≡ 0
  pub ends : r.limit_offset ≡ r.size
  pub small : r.size < 2 ^ 31
  pub within : r.position_offset ≤ r.size

pub region-IsValid : (path : _) (size index : ℕ) → size < 2 ^ 31 → IsValid (region path size index)
unfolding region
region-IsValid path size index h = record {
  starts = refl;
  ends = refl;
  small = h;
  within = omega arith;
}

-- The accessors of a valid region, without wrapping.
pub accessors :
    {r : Region}
    → IsValid r
    → (position r ≡ r.position_offset)
      × (limit r ≡ r.size)
      × (remaining r ≡ r.size - r.position_offset)
unfolding position limit remaining
accessors {r} v = ground arith

-- On a valid region, `position(p)` is accepted exactly for 0 to the limit, negative values being
-- refused, and a refusal changes nothing.
pub set_position_lem :
    {r : Region} (p : ℕ)
    → IsValid r
    → p < 2 ^ 32
    → set_position r p
      ≡ (if leb p r.size then (record r { position_offset = p }, true) else (r, false))
unfolding set_position
set_position_lem {r} p v h = ground arith

pub set_position-IsValid :
    {r : Region} (p : ℕ) → IsValid r → p < 2 ^ 32 → IsValid (set_position r p).0
unfolding set_position
set_position-IsValid {r} p v h = ground arith

-- The smallest multiple of 2 ^ k from `p` on.
abbrev pub round_up : ℕ → ℕ → ℕ
round_up p k = (p + (2 ^ k - 1)) / 2 ^ k * 2 ^ k

mask_of : (a b : ℕ) → a * b ≡ 2 ^ 32 → 1 ≤ a → 1 ≤ b → 2 ^ 32 - 1 - (b - 1) ≡ (a - 1) * b
mask_of a b e ha hb =
    let out : (a - 1) * b + b ≡ a * b =
      (let c : a ≡ (a - 1) + 1 = omega arith in omega (arith, ap (λ (t : ℕ). t * b) c)) in
    omega arith

quotient_lt : (x a b : ℕ) → x < a * b → x / b < a
quotient_lt x a b h = grind arith

self_mod : (q : ℕ) → 1 ≤ q → q % q ≡ 0
self_mod q h = grind arith

clear_low :
    (k j x : ℕ) → k + j ≡ 32 → x < 2 ^ 32 → bit_and x (not32 (2 ^ k - 1)) ≡ x / 2 ^ k * 2 ^ k
clear_low k j x e h =
    let whole : 2 ^ j * 2 ^ k ≡ 2 ^ 32 =
      let e' : j + k ≡ 32 = omega arith in sym (pow-add j k) ∙ ap (λ (t : ℕ). 2 ^ t) e' in
    let mask : not32 (2 ^ k - 1) ≡ (2 ^ j - 1) * 2 ^ k =
      mask_of (2 ^ j) (2 ^ k) whole (one-le-pow j 2 (omega arith)) (one-le-pow k 2 (omega arith)) in
    rw mask (high_bits_zero k j x (quotient_lt x (2 ^ j) (2 ^ k) (omega arith)))

-- Aligning a valid region to 2 ^ k, k below 31, moves its position up to the next multiple, or
-- not at all if that lies behind the limit.
pub align_position_lem :
    {r : Region} (k : ℕ)
    → IsValid r
    → k < 31
    → align_position r (2 ^ k)
      ≡ ok (
          if leb (round_up r.position_offset k) r.size
          then record r { position_offset = round_up r.position_offset k }
          else r)
unfolding align_position
align_position_lem {r} k v h =
    let bound : 2 ^ k ≤ 2 ^ 30 =
      (let fits : k ≤ 30 = omega arith in pow-le-pow_right (omega arith) fits) in
    let one : 1 ≤ 2 ^ k = one-le-pow k 2 (omega arith) in
    let step : sub32 (2 ^ k) 1 ≡ 2 ^ k - 1 = omega arith in
    let power : bit_and (2 ^ k) (2 ^ k - 1) ≡ 0 = bit_and_mask k (2 ^ k) ∙ self_mod (2 ^ k) one in
    let raised : sub32 (add32 r.position_offset (2 ^ k)) 1 ≡ r.position_offset + (2 ^ k - 1) =
      omega arith in
    let low : round_up r.position_offset k ≤ r.position_offset + (2 ^ k - 1) = grind arith in
    rw
      (
        step,
        power,
        raised,
        clear_low k (32 - k) (r.position_offset + (2 ^ k - 1)) (omega arith) (omega arith),
      )
      (rw (set_position_lem (round_up r.position_offset k) v (omega arith)) (ground arith))
