-- ===== src/Settings.antt =====
-- cornelich/vanilla_chronicle_settings.h, vanilla_chronicle_settings.cpp: the settings of a chronicle.
-- A setter returns the changed settings.
pub mod Masks
use Prim.Native.String.{String}
use cornelich.Common.{
  ℕ, ◌-◌, ◌*◌, ◌^◌, Bool, ◌&&◌, if◌then◌else◌, Outcome, ok, throws, invalid_argument,
}
use cornelich.Common.Words.{slt64, shl64, sub64, sub32, widen}

-- The classes that implement `cycle_formatter`, each with its `m_cycle_length`.
pub data CycleFormatter : Type 0 where
  yyyymmdd yyyymmddhh yyyymmddhhmm : ℕ → CycleFormatter

abbrev pub min_cycle_length : ℕ
min_cycle_length = 60 * 60 * 1000

abbrev pub default_thread_id_bits : ℕ
default_thread_id_bits = 16

pub record Settings : Type 0 where
  pub path : String
  pub thread_id_bits : ℕ  -- std::int32_t
  pub cycle_length : ℕ  -- std::int32_t, milliseconds
  pub cycle_format : CycleFormatter
  pub entries_per_cycle : ℕ  -- std::int64_t
  pub index_block_size : ℕ  -- std::int64_t
  pub data_block_size : ℕ  -- std::int64_t
  pub index_cache_size : ℕ
  pub data_cache_size : ℕ

-- The constructor.
unfoldable pub settings : String → Settings
settings path = record {
  path = path;
  thread_id_bits = default_thread_id_bits;
  cycle_length = 24 * 60 * 60 * 1000;
  cycle_format = yyyymmdd (24 * 60 * 60 * 1000);
  entries_per_cycle = shl64 1 40;
  index_block_size = shl64 16 20;
  data_block_size = shl64 64 20;
  index_cache_size = 8;
  data_cache_size = 16;
}

unfoldable pub set_cycle_length : Settings → ℕ → CycleFormatter → Bool → Outcome Settings
set_cycle_length s cycle_length formatter check =
    if check && slt64 (widen cycle_length) min_cycle_length
    then throws invalid_argument
    else ok (record s { cycle_length = cycle_length; cycle_format = formatter })

unfoldable pub set_entries_per_cycle : Settings → ℕ → Settings
set_entries_per_cycle s n = record s { entries_per_cycle = n }

unfoldable pub set_index_block_size : Settings → ℕ → Settings
set_index_block_size s n = record s { index_block_size = n }

unfoldable pub set_data_block_size : Settings → ℕ → Settings
set_data_block_size s n = record s { data_block_size = n }

unfoldable pub set_thread_id_bits : Settings → ℕ → Settings
set_thread_id_bits s n = record s { thread_id_bits = n }

unfoldable pub set_index_cache_size : Settings → ℕ → Settings
set_index_cache_size s n = record s { index_cache_size = n }

unfoldable pub set_data_cache_size : Settings → ℕ → Settings
set_data_cache_size s n = record s { data_cache_size = n }

-- The masks have a meaning for thread_id_bits from 1 to 63: a shift by 64 has none.
unfoldable pub thread_id_mask : Settings → ℕ
thread_id_mask s = sub64 (shl64 1 s.thread_id_bits) 1

unfoldable pub index_data_offset_bits : Settings → ℕ
index_data_offset_bits s = sub32 64 s.thread_id_bits

unfoldable pub index_data_offset_mask : Settings → ℕ
unfolding index_data_offset_bits
index_data_offset_mask s = sub64 (shl64 1 (index_data_offset_bits s)) 1
