-- ===== src/Chronicle/Packing.antt =====
-- The 64-bit numbers that the appender packs and the tailer takes apart: the index of an excerpt
-- (`index_from` of excerpt_appender.cpp) and the entry of the index file (`finish` there), against
-- the first lines and the middle of `excerpt_tailer::index(index)`.
use cornelich.Common.{ℕ, ◌*◌, ◌%◌, ◌^◌, bit_and}
use cornelich.Common.Words.{shl64, add64, sar64, widen, narrow}
use cornelich.Settings.{index_data_offset_bits, index_data_offset_mask}
use cornelich.Util.MathUtil.{right_shift}
use cornelich.Chronicle.{Chronicle}

unfoldable pub index_from : Chronicle → ℕ → ℕ → ℕ → ℕ
index_from c cycle index_count index_position =
    add64
      (add64 (shl64 cycle c.entries_for_cycle_bits) (shl64 index_count c.index_block_longs_bits))
      (sar64 index_position 3)

-- Where the tailer looks for an index.
pub record IndexPlace : Type 0 where
  pub cycle_for_index : ℕ  -- std::int32_t
  pub index_file_number : ℕ  -- std::int32_t
  pub index_offset : ℕ  -- std::int64_t, in entries

unfoldable pub index_place : Chronicle → ℕ → IndexPlace
unfolding right_shift
index_place c index = record {
  cycle_for_index = narrow (right_shift index c.entries_for_cycle_bits);
  index_file_number =
      narrow (right_shift (bit_and index c.entries_for_cycle_mask) c.index_block_longs_bits);
  index_offset = bit_and index c.index_block_longs_mask;
}

-- `data_offset` and `index_value` of `finish`: the region's index, and where the excerpt starts in it.
unfoldable pub index_value : Chronicle → ℕ → ℕ → ℕ → ℕ
index_value c thread_id region_index start =
    add64 (shl64 (widen thread_id) (index_data_offset_bits c.settings))
      (add64 (widen region_index * c.settings.data_block_size % 2 ^ 64) start)

-- What the tailer reads from an entry.
pub record DataPlace : Type 0 where
  pub thread_id : ℕ  -- std::int32_t
  pub data_file_number : ℕ  -- std::int32_t
  pub data_offset : ℕ  -- std::int32_t

unfoldable pub data_place : Chronicle → ℕ → DataPlace
unfolding right_shift
data_place c value =
    let offset0 : ℕ = bit_and value (index_data_offset_mask c.settings) in
    record {
      thread_id = narrow (right_shift value (index_data_offset_bits c.settings));
      data_file_number = narrow (right_shift offset0 c.data_block_size_bits);
      data_offset = narrow (bit_and offset0 c.data_block_size_mask);
    }
