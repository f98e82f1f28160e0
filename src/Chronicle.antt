-- ===== src/Chronicle.antt =====
-- cornelich/vanilla_chronicle.h, vanilla_chronicle.cpp: the constants that a chronicle derives from its
-- settings, and the last index that its appenders have written.
pub mod Packing
pub mod PackingLaws
use cornelich.Common.{ℕ, ◌+◌, ◌-◌, ◌^◌}
use cornelich.Common.Words.{minus_one64, shl64, sub64, sub32}
use cornelich.Settings.{Settings}
use cornelich.Util.MathUtil.{right_shift}

-- What the constructor computes. `last_written_index` is the atomic that the appenders share; the
-- index and the data files are the modules VanillaIndex and VanillaData.
pub record Chronicle : Type 0 where
  pub settings : Settings
  pub index_block_size_bits : ℕ  -- std::int32_t
  pub index_block_size_mask : ℕ  -- std::int64_t
  pub index_block_longs_bits : ℕ
  pub index_block_longs_mask : ℕ
  pub data_block_size_bits : ℕ
  pub data_block_size_mask : ℕ
  pub entries_for_cycle_bits : ℕ
  pub entries_for_cycle_mask : ℕ
  pub last_written_index : ℕ  -- std::atomic_int_fast64_t

-- `log2` is `(std::int32_t)std::log2(…)` of the standard library.
module _ (log2 : ℕ → ℕ) where
  unfoldable pub chronicle : Settings → Chronicle
  unfolding right_shift
  chronicle s =
      let index_bits : ℕ = log2 s.index_block_size in
      let data_bits : ℕ = log2 s.data_block_size in
      let cycle_bits : ℕ = log2 s.entries_per_cycle in
      record {
        settings = s;
        index_block_size_bits = index_bits;
        index_block_size_mask = sub64 (shl64 1 index_bits) 1;
        index_block_longs_bits = sub32 index_bits 3;
        index_block_longs_mask = right_shift (sub64 (shl64 1 index_bits) 1) 3;
        data_block_size_bits = data_bits;
        data_block_size_mask = sub64 (shl64 1 data_bits) 1;
        entries_for_cycle_bits = cycle_bits;
        entries_for_cycle_mask = sub64 (shl64 1 cycle_bits) 1;
        last_written_index = minus_one64;
      }
