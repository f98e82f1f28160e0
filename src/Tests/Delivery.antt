-- ===== src/Tests/Delivery.antt =====
-- An excerpt from `start_excerpt` of an appender to the readers of a tailer, over an empty directory.
use cornelich.Common.{ℕ, ◌≡◌, refl, arith, true, [], some, ok, map, sym, ◌∙◌}
use cornelich.Chronicle.PackingLaws.{IsSized, Constants}
use cornelich.ExcerptAppender.{ExcerptAppender, excerpt_appender, start_excerpt_in, finish}
use cornelich.Delivery.Fields.{reads-finish}
use cornelich.Delivery.Reads.{excerpt_tailer-Follows}
use cornelich.Delivery.Stored.{Fits}
use cornelich.Chronicle.{chronicle}
use cornelich.Util.MathUtil.{right_shift}
use cornelich.ExcerptAppender.Started.{excerpt_appender-IsWriting, Begun, start_excerpt-Begun}
use cornelich.ExcerptAppender.Indexed.{IsOpen}
use cornelich.ExcerptAppender.Closed.{Closed, finish-Closed, mapped, entry_of}
use cornelich.ExcerptAppender.Write.Stays.{Stays-IsOpen, writes-Stays}
use cornelich.Common.Leaves.{Leaves}
use mathlib.Core.Path.{subst}
use cornelich.Memory.{Bytes}
use cornelich.ExcerptTailer.{ExcerptTailer, excerpt_tailer, index}
use cornelich.ExcerptTailer.Read.{reads}
use cornelich.World.Clients.{open_chronicle, vanilla_index, vanilla_data}
use cornelich.World.Onward.{IsSound}
use cornelich.World.Opened.{open_chronicle-IsSound}
use cornelich.Tests.Directories.{environment}
use cornelich.Tests.Excerpts.{small_blocks, small_chronicle, when_ok, is_ok, when_ok-eq, fields}
use cornelich.Common.Assoc.{lookup, insert}
use native.Mathlib.Decide.{ℕ_discrete}
use cornelich.Chronicle.Packing.{index_from, index_value}
use cornelich.ExcerptAppender.{
  switch_regions, ensure_data_region, ensure_room, open_buffer, set_last_written_index,
  write_length, append_index, publish, move_on,
}
use cornelich.VanillaData.Mapped.{data_for, key_discrete as data_key_discrete}
use cornelich.VanillaData.Numbers.{find_next_data_file_number, behind_number, last_data_loop}
use cornelich.VanillaIndex.Scan.{last_index_file_number}
use cornelich.Environment.{starts_with}
use cornelich.Settings.{thread_id_mask}
use cornelich.Util.Cache.{get, find, pop_front, store as store_entry}
use cornelich.VanillaIndex.Mapped.{append_at, append_cycle, append_files, index_for, key_discrete}
use cornelich.VanillaIndex.Slots.{append, append_loop, advance}
use cornelich.ExcerptAppender.Write.{put_at, put, write, writes}
use cornelich.ExcerptTailer.Read.{reads}
use cornelich.Formatters.{format_of, write_field, write_raw, write_boolean}
use cornelich.Util.BufferView.{place, skip, reset}
use cornelich.Files.{
  make_file, ensure_directory, create_mapping, Name-discrete, folder_files, find_file, put_file,
  is_some,
}
use cornelich.Memory.{load}
use cornelich.Region.{
  region, write_ordered32, in_range, cas64, limit, position, set_position, align_position,
  remaining,
}
use cornelich.World.{World, world}
use cornelich.World.Access.{region_at, bytes_of, put_bytes, put_region, replace, make_region}

pub small_blocks-IsSized : IsSized small_blocks 3 3 6
small_blocks-IsSized = record {
  index_block = refl;
  cycle_entries = refl;
  data_block = refl;
  index_bits = omega arith;
  cycle_bits = omega arith;
  block_bits = omega arith;
  some_thread_bits = omega arith;
  offset_bits = omega arith;
}

pub small-Constants : Constants small_blocks 3 3 6 small_chronicle
small-Constants = record {
  same_settings = refl;
  size_shift = refl;
  cycle_shift = refl;
  cycle_mask = refl;
  longs_shift = refl;
  longs_mask = refl;
  block_shift = refl;
  block_mask = refl;
}

abbrev pub empty : World
empty = world small_chronicle []

abbrev pub begun : ExcerptAppender × World
begun = when_ok (start_excerpt_in environment 4 20 5 (excerpt_appender, empty))

begun_ok : is_ok (start_excerpt_in environment 4 20 5 (excerpt_appender, empty)) ≡ true
unfolding start_excerpt_in switch_regions ensure_data_region ensure_room open_buffer
    find_next_data_file_number behind_number last_data_loop last_index_file_number data_for
    data_key_discrete reset remaining thread_id_mask starts_with finish region_at write_length
    bytes_of write_ordered32 in_range put_bytes find_file put_file folder_files lookup insert
    Name-discrete ℕ_discrete region append_index append_at is_some append_cycle append_files
    index_for get find store_entry pop_front make_file ensure_directory make_region create_mapping
    append append_loop advance cas64 limit position set_position load publish set_last_written_index
    index_from move_on align_position put_region replace key_discrete writes write put put_at place
    skip write_field write_raw write_boolean index_value
begun_ok = refl

abbrev pub filled : ExcerptAppender × World
filled = when_ok (writes fields begun)

filled_ok : is_ok (writes fields begun) ≡ true
unfolding start_excerpt_in switch_regions ensure_data_region ensure_room open_buffer
    find_next_data_file_number behind_number last_data_loop last_index_file_number data_for
    data_key_discrete reset remaining thread_id_mask starts_with finish region_at write_length
    bytes_of write_ordered32 in_range put_bytes find_file put_file folder_files lookup insert
    Name-discrete ℕ_discrete region append_index append_at is_some append_cycle append_files
    index_for get find store_entry pop_front make_file ensure_directory make_region create_mapping
    append append_loop advance cas64 limit position set_position load publish set_last_written_index
    index_from move_on align_position put_region replace key_discrete writes write put put_at place
    skip write_field write_raw write_boolean index_value
filled_ok = refl

abbrev pub ended : ExcerptAppender × World
ended = when_ok (finish environment filled)

pub ended_ok : is_ok (finish environment filled) ≡ true
unfolding start_excerpt_in switch_regions ensure_data_region ensure_room open_buffer
    find_next_data_file_number behind_number last_data_loop last_index_file_number data_for
    data_key_discrete reset remaining thread_id_mask starts_with finish region_at write_length
    bytes_of write_ordered32 in_range put_bytes find_file put_file folder_files lookup insert
    Name-discrete ℕ_discrete region append_index append_at is_some append_cycle append_files
    index_for get find store_entry pop_front make_file ensure_directory make_region create_mapping
    append append_loop advance cas64 limit position set_position load publish set_last_written_index
    index_from move_on align_position put_region replace key_discrete writes write put put_at place
    skip write_field write_raw write_boolean index_value
ended_ok = refl

-- What the excerpt is packed from.
pub packed :
    ((begun.0).buffer.start ≡ some 4)
    × (((filled.0).last_cycle ≡ 5)
        × (((filled.0).last_thread_id ≡ 4)
            × (((filled.0).last_data_file_number ≡ 0)
                × (((filled.0).buffer.position ≡ 5) × ((ended.0).last_index_file_number ≡ 0)))))
unfolding start_excerpt_in switch_regions ensure_data_region ensure_room open_buffer
    find_next_data_file_number behind_number last_data_loop last_index_file_number data_for
    data_key_discrete reset remaining thread_id_mask starts_with finish region_at write_length
    bytes_of write_ordered32 in_range put_bytes find_file put_file folder_files lookup insert
    Name-discrete ℕ_discrete region append_index append_at is_some append_cycle append_files
    index_for get find store_entry pop_front make_file ensure_directory make_region create_mapping
    append append_loop advance cas64 limit position set_position load publish set_last_written_index
    index_from move_on align_position put_region replace key_discrete writes write put put_at place
    skip write_field write_raw write_boolean index_value
packed = (refl, (refl, (refl, (refl, (refl, refl)))))

some_number : {x y : ℕ} → some x ≡ some y → x ≡ y
some_number e = ground (arith, e)

pub begun-Fits :
    (start : ℕ)
    → (begun.0).buffer.start ≡ some start
    → Fits environment small_blocks-IsSized (filled.0) (ended.0) start
begun-Fits start e =
    let (first, (cycle, (thread, (number, (len, file))))) = packed in
    let four : some start ≡ some 4 = sym e ∙ first in
    let at : start ≡ 4 = ground (arith, four) in
    record {
      cycle_word = rw cycle (omega arith);
      cycle_fits = rw cycle (omega arith);
      file_word = rw file (omega arith);
      file_fits = rw file (omega arith);
      thread_word = rw thread (omega arith);
      thread_fits = rw thread (omega arith);
      data_word = rw number (omega arith);
      data_fits = rw number (omega (arith, at));
      start_fits = omega (arith, at);
      length_fits = rw len (omega arith);
    }

pub empty-IsSound : IsSound environment empty
unfolding open_chronicle vanilla_index vanilla_data chronicle right_shift
empty-IsSound =
    open_chronicle-IsSound environment (λ n. 6) small_blocks [] (omega arith) (omega arith)
      (record {
        index_low = omega arith;
        index_high = omega arith;
        data_low = omega arith;
        data_high = omega arith;
      })

reads-finish_example :
    (t' : ExcerptTailer) × (t'' : ExcerptTailer) × (w : World) × (index environment
        (ended.0).last_written_index
        (excerpt_tailer, ended.1)
      ≡ ok ((t', w), true))
    × (reads (map format_of fields) (t', w) ≡ ok (fields, t'', w))
    × (t''.buffer.position ≡ t''.buffer.limit)
reads-finish_example =
    reads-finish environment small_blocks-IsSized 4 20 5 fields excerpt_appender (begun.0)
      (filled.0) (ended.0) empty (begun.1) (filled.1) (ended.1) excerpt_tailer small-Constants
      empty-IsSound (excerpt_appender-IsWriting environment empty) (omega arith, (omega arith, tt))
      (when_ok-eq (start_excerpt_in environment 4 20 5 (excerpt_appender, empty)) begun_ok)
      (when_ok-eq (writes fields begun) filled_ok) (when_ok-eq (finish environment filled) ended_ok)
      begun-Fits (excerpt_tailer-Follows environment (ended.1))

abbrev opened : Begun environment 4 5 empty 20 (begun.0) (begun.1)
opened =
    start_excerpt-Begun environment 4 5 20 excerpt_appender empty empty-IsSound
      (excerpt_appender-IsWriting environment empty)
      (when_ok-eq (start_excerpt_in environment 4 20 5 (excerpt_appender, empty)) begun_ok)

start_excerpt-Begun_example : Begun environment 4 5 empty 20 (begun.0) (begun.1)
start_excerpt-Begun_example =
    start_excerpt-Begun environment 4 5 20 excerpt_appender empty empty-IsSound
      (excerpt_appender-IsWriting environment empty)
      (when_ok-eq (start_excerpt_in environment 4 20 5 (excerpt_appender, empty)) begun_ok)

pub filled-IsOpen : IsOpen environment (filled.0) (filled.1) 4
filled-IsOpen =
    let same : some opened.start ≡ some 4 = sym opened.is_open.started ∙ packed.0 in
    subst (IsOpen environment (filled.0) (filled.1)) (some_number same) (
      Stays-IsOpen environment opened.is_open (
        Leaves.leaves (writes-Stays environment fields (begun.0) (begun.1) opened.is_open.sound) _
          (when_ok-eq (writes fields begun) filled_ok)))

abbrev pub memory : Bytes
memory =
    (mapped environment (filled.0) (filled.1) 4 filled-IsOpen.sound filled-IsOpen.writing
      filled-IsOpen.has_region filled-IsOpen.behind_length filled-IsOpen.small).file.bytes

finish-Closed_example :
    Closed environment
      (filled.0)
      (filled.1)
      4
      (entry_of environment (filled.0) (filled.1) 4)
      memory
      (ended.0)
      (ended.1)
finish-Closed_example =
    finish-Closed environment (filled.0) (filled.1) 4 filled-IsOpen.sound filled-IsOpen.writing
      filled-IsOpen.has_region filled-IsOpen.behind_length filled-IsOpen.small filled-IsOpen.started
      (when_ok-eq (finish environment filled) ended_ok)
