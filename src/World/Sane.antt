-- ===== src/World/Sane.antt =====
-- Where the positions of the mapped regions stand: cornelich/region.h as the appender
-- (cornelich/excerpt_appender.cpp) and the index files (cornelich/vanilla_index.cpp) move them.
use cornelich.Common.{
  ℕ, ◌*◌, ◌-◌, ◌+◌, ◌%◌, ◌^◌, ◌≤◌, ◌<◌, ◌≡◌, refl, sym, ◌∙◌, ap, arith, true, inl, inr, ok,
}
use cornelich.Common.Bits.{pow-add}
use cornelich.Common.Words.{shl64}
use mathlib.Core.Path.{subst}
use native.Mathlib.Nat.{pow-le-pow_right}
use cornelich.Chronicle.{Chronicle}
use cornelich.Environment.{starts_with, index_file_name_prefix}
use cornelich.Region.{Region, region}
use cornelich.Region.Positions.{IsValid, region-IsValid}
use cornelich.World.{RegionPtr, Store}
use cornelich.World.Access.{region_at}
use cornelich.World.Keeps.{OnlyNew, IsFresh}

-- The position is within the mapping, at a multiple of 4, and of 8 in an index file.
pub record IsSane (r : Region) : Type 0 where
  pub valid : IsValid r
  pub whole : r.size % 8 ≡ 0
  pub at_word : r.position_offset % 4 ≡ 0
  pub at_slot :
      starts_with r.path.file_name index_file_name_prefix ≡ true → r.position_offset % 8 ≡ 0

pub record Sane (st : Store) : Type 0 where
  pub all : (p : RegionPtr) (r : Region) → region_at p st ≡ ok r → IsSane r

-- Block sizes from 8 bytes to 2 ^ 30.
pub record HasBlocks (c : Chronicle) : Type 0 where
  pub index_low : 3 ≤ c.index_block_size_bits
  pub index_high : c.index_block_size_bits < 31
  pub data_low : 3 ≤ c.data_block_size_bits
  pub data_high : c.data_block_size_bits < 31

pub block_size : (bits : ℕ) → bits < 31 → shl64 1 bits % 2 ^ 32 ≡ 2 ^ bits
block_size bits h =
    let low : 2 ^ bits ≤ 2 ^ 30 =
      (let fits : bits ≤ 30 = omega arith in pow-le-pow_right (omega arith) fits) in
    omega arith

pub block_below : (bits : ℕ) → bits < 31 → shl64 1 bits % 2 ^ 32 ≤ 2 ^ 30
block_below bits h =
    let low : 2 ^ bits ≤ 2 ^ 30 =
      (let fits : bits ≤ 30 = omega arith in pow-le-pow_right (omega arith) fits) in
    omega (arith, block_size bits h)

block_whole : (bits : ℕ) → 3 ≤ bits → 2 ^ bits % 8 ≡ 0
block_whole bits h =
    let split : bits ≡ (bits - 3) + 3 = omega arith in
    let cut : 2 ^ bits ≡ 2 ^ (bits - 3) * 2 ^ 3 =
      ap (λ (t : ℕ). 2 ^ t) split ∙ pow-add (bits - 3) 3 in
    omega arith

fresh-IsSane :
    (r : Region) (bits : ℕ) → 3 ≤ bits → bits < 31 → IsFresh r (shl64 1 bits % 2 ^ 32) → IsSane r
unfolding region
fresh-IsSane r bits low high new =
    let sized : shl64 1 bits % 2 ^ 32 ≡ 2 ^ bits = block_size bits high in
    let small : 2 ^ bits ≤ 2 ^ 30 =
      (let fits : bits ≤ 30 = omega arith in pow-le-pow_right (omega arith) fits) in
    subst IsSane (sym new.is_new) (record {
      valid = region-IsValid r.path (shl64 1 bits % 2 ^ 32) r.index (omega arith);
      whole = sized_whole sized;
      at_word = refl;
      at_slot = λ e. refl;
    })
  where
    sized_whole : shl64 1 bits % 2 ^ 32 ≡ 2 ^ bits → (shl64 1 bits % 2 ^ 32) % 8 ≡ 0
    sized_whole e = ap (λ (n : ℕ). n % 8) e ∙ block_whole bits low

pub OnlyNew-Sane :
    (st st' : Store) (bits : ℕ)
    → 3 ≤ bits
    → bits < 31
    → OnlyNew st st' (shl64 1 bits % 2 ^ 32)
    → Sane st
    → Sane st'
OnlyNew-Sane st st' bits low high new h = record {
  all = λ p r e. elim (new.origin p r e) [
    | inl old ↦ h.all p r old
    | inr fresh ↦ fresh-IsSane r bits low high fresh
  ];
}
