-- ===== src/Region.antt =====
-- cornelich/region.h, region.cpp: a mapped file with a position. The bytes belong to the file, which
-- other mappings share, and are an argument of the operations that touch them. An access outside
-- the mapping has no meaning, and neither has one that fails its `assert`.
pub mod Positions
use cornelich.Files.{FilePath}
use cornelich.Common.{
  ℕ, ◌+◌, ◌-◌, ◌*◌, ◌/◌, ◌%◌, ◌^◌, bit_and, Bool, true, false, ◌||◌, ltb, leb, ◌==◌, if◌then◌else◌,
}
use cornelich.Common.{Outcome, ok, undefined}
use cornelich.Common.Words.{is_neg32, slt32, add32, sub32, not32}
use cornelich.Memory.{Bytes, load, store}

pub record Region : Type 0 where
  pub path : FilePath
  pub index : ℕ  -- std::int32_t
  pub size : ℕ  -- std::int64_t
  pub start_offset : ℕ  -- std::int32_t
  pub limit_offset : ℕ  -- std::int32_t
  pub position_offset : ℕ  -- std::atomic<std::int32_t>

-- The constructor, behind the mapping of the file: `size` is an std::uint32_t.
unfoldable pub region : FilePath → ℕ → ℕ → Region
region path size index = record {
  path = path;
  index = index;
  size = size;
  start_offset = 0;
  limit_offset = size;
  position_offset = 0;
}

-- Whether `width` bytes from an std::int32_t offset on lie in the mapping.
unfoldable pub in_range : Region → ℕ → ℕ → Bool
in_range r offset width = if is_neg32 offset then false else leb (offset + width) r.size

unfoldable pub read_ordered64 : Region → Bytes → ℕ → Outcome ℕ
unfolding in_range
read_ordered64 r m offset =
    if bit_and offset 7 == 0
    then (if in_range r offset 8 then ok (load 8 m offset) else undefined)
    else undefined

unfoldable pub read_ordered32 : Region → Bytes → ℕ → Outcome ℕ
unfolding in_range
read_ordered32 r m offset =
    if bit_and offset 3 == 0
    then (if in_range r offset 4 then ok (load 4 m offset) else undefined)
    else undefined

unfoldable pub write_ordered32 : Region → Bytes → ℕ → ℕ → Outcome Bytes
unfolding in_range
write_ordered32 r m offset value =
    if in_range r offset 4 then ok (store 4 m offset value) else undefined

-- `__sync_bool_compare_and_swap` of eight bytes
unfoldable pub cas64 : Region → Bytes → ℕ → ℕ → ℕ → Outcome (Bytes × Bool)
unfolding in_range
cas64 r m offset expect update =
    if in_range r offset 8
    then (if load 8 m offset == expect then ok (store 8 m offset update, true) else ok (m, false))
    else undefined

unfoldable pub position : Region → ℕ
position r = sub32 r.position_offset r.start_offset

-- `position(position)`: false if it is refused
unfoldable pub set_position : Region → ℕ → Region × Bool
set_position r p =
    if slt32 r.limit_offset p || is_neg32 p
    then (r, false)
    else (record r { position_offset = add32 r.start_offset p }, true)

unfoldable pub limit : Region → ℕ
limit r = sub32 r.limit_offset r.start_offset

unfoldable pub remaining : Region → ℕ
remaining r = sub32 r.limit_offset r.position_offset

-- `align_position(value)`, whose `assert` wants a power of 2
unfoldable pub align_position : Region → ℕ → Outcome Region
unfolding set_position
align_position r value =
    if value == 0
    then undefined
    else if bit_and value (sub32 value 1) == 0
    then ok
        (set_position r
          (bit_and (sub32 (add32 r.position_offset value) 1) (not32 (sub32 value 1)))).0
    else undefined
