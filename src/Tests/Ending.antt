-- ===== src/Tests/Ending.antt =====
-- `finish` of cornelich/excerpt_appender.cpp comes to an end, on the excerpt of Delivery.
use cornelich.Common.{◌≡◌, ◌≢◌, inr, out_of_fuel, refl, arith}
use cornelich.ExcerptAppender.{start_excerpt_in, finish}
use cornelich.Tests.Directories.{environment}
use cornelich.Common.Assoc.{lookup, insert}
use native.Mathlib.Decide.{ℕ_discrete}
use cornelich.Chronicle.Packing.{index_from, index_value}
use cornelich.ExcerptAppender.{
  switch_regions, ensure_data_region, ensure_room, open_buffer, set_last_written_index,
  write_length, append_index, publish, move_on,
}
use cornelich.VanillaData.Mapped.{data_for, key_discrete as data_key_discrete}
use cornelich.VanillaData.Numbers.{find_next_data_file_number, behind_number, last_data_loop}
use cornelich.VanillaIndex.Scan.{last_index_file_number}
use cornelich.Environment.{starts_with}
use cornelich.Settings.{thread_id_mask}
use cornelich.Util.Cache.{get, find, pop_front, store as store_entry}
use cornelich.VanillaIndex.Mapped.{append_at, append_cycle, append_files, index_for, key_discrete}
use cornelich.VanillaIndex.Slots.{append, append_loop, advance}
use cornelich.ExcerptAppender.Write.{put_at, put, write, writes}
use cornelich.Formatters.{write_field, write_raw, write_boolean}
use cornelich.Util.BufferView.{place, skip, reset}
use cornelich.Files.{
  make_file, ensure_directory, create_mapping, Name-discrete, folder_files, find_file, put_file,
  is_some,
}
use cornelich.Memory.{load}
use cornelich.Region.{
  region, write_ordered32, in_range, cas64, limit, position, set_position, align_position,
  remaining,
}
use cornelich.World.Access.{region_at, bytes_of, put_bytes, put_region, replace, make_region}
use cornelich.ExcerptAppender.Ends.{finish-ends}
use cornelich.Tests.Delivery.{filled, filled-IsOpen}

first_file : (filled.0).last_index_file_number ≡ 0
unfolding start_excerpt_in switch_regions ensure_data_region ensure_room open_buffer
    find_next_data_file_number behind_number last_data_loop last_index_file_number data_for
    data_key_discrete reset remaining thread_id_mask starts_with finish region_at write_length
    bytes_of write_ordered32 in_range put_bytes find_file put_file folder_files lookup insert
    Name-discrete ℕ_discrete region append_index append_at is_some append_cycle append_files
    index_for get find store_entry pop_front make_file ensure_directory make_region create_mapping
    append append_loop advance cas64 limit position set_position load publish set_last_written_index
    index_from move_on align_position put_region replace key_discrete writes write put put_at place
    skip write_field write_raw write_boolean index_value
first_file = refl

finish-ends_example : finish environment filled ≢ out_of_fuel
finish-ends_example =
    finish-ends environment (filled.0) (filled.1) 4 filled-IsOpen (inr (omega (arith, first_file)))
