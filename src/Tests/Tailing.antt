-- ===== src/Tests/Tailing.antt =====
-- A tailer after the excerpt of the module Delivery, and the entries of an index file.
use cornelich.Common.{ℕ, ◌≡◌, refl, arith, true, [], ok, sym}
use cornelich.Chronicle.PackingLaws.{Constants}
use cornelich.ExcerptAppender.{start_excerpt_in, finish}
use cornelich.Delivery.Reads.{excerpt_tailer-Follows}
use cornelich.Delivery.Stored.{Fits}
use cornelich.Chronicle.{chronicle}
use cornelich.Util.MathUtil.{right_shift}
use cornelich.ExcerptAppender.Closed.{Closed, finish-Closed, entry_of}
use mathlib.Core.Path.{subst}
use cornelich.ExcerptTailer.{ExcerptTailer, excerpt_tailer, index}
use cornelich.World.Clients.{open_chronicle, vanilla_index, vanilla_data}
use cornelich.World.Onward.{IsSound}
use cornelich.World.Opened.{open_chronicle-IsSound}
use cornelich.Common.Assoc.{lookup, insert}
use native.Mathlib.Decide.{ℕ_discrete}
use cornelich.Chronicle.Packing.{index_from, index_value}
use cornelich.ExcerptAppender.{
  switch_regions, ensure_data_region, ensure_room, open_buffer, set_last_written_index,
  write_length, append_index, publish, move_on,
}
use cornelich.VanillaData.Mapped.{data_for, key_discrete as data_key_discrete}
use cornelich.VanillaData.Numbers.{find_next_data_file_number, behind_number, last_data_loop}
use cornelich.VanillaIndex.Scan.{last_index_file_number}
use cornelich.Environment.{starts_with}
use cornelich.Settings.{thread_id_mask}
use cornelich.Util.Cache.{get, find, pop_front, store as store_entry}
use cornelich.VanillaIndex.Mapped.{append_at, append_cycle, append_files, index_for, key_discrete}
use cornelich.VanillaIndex.Slots.{append, append_loop, advance}
use cornelich.ExcerptAppender.Write.{put_at, put, write, writes}
use cornelich.Formatters.{write_field, write_raw, write_boolean}
use cornelich.Util.BufferView.{place, skip, reset}
use cornelich.Files.{
  make_file, ensure_directory, create_mapping, Name-discrete, folder_files, find_file, put_file,
  is_some,
}
use cornelich.Memory.{load}
use cornelich.Region.{
  region, write_ordered32, in_range, cas64, limit, position, set_position, align_position,
  remaining,
}
use cornelich.World.{World, world}
use cornelich.World.Access.{region_at, bytes_of, put_bytes, put_region, replace, make_region}
use cornelich.Files.{folder}
use cornelich.World.{world}
use cornelich.Common.{[], ◌∷◌, Outcome, ok, throws, undefined, out_of_fuel, Bool, false, none}
use cornelich.Tests.Directories.{environment}
use cornelich.Tests.Excerpts.{small_blocks, small_chronicle, when_ok-eq}
use cornelich.Tests.Delivery.{
  small_blocks-IsSized, small-Constants, empty-IsSound, filled-IsOpen, begun-Fits, ended_ok, packed,
  empty, filled, ended, memory,
}
use cornelich.ExcerptTailer.Finds.{HasExcerpt, Opened, index-HasExcerpt}
use cornelich.Delivery.Reads.{Delivered, finish-index}
use cornelich.Delivery.Stored.{Closed-HasExcerpt}
use cornelich.VanillaIndex.Entered.{Filed, append_cycle-Filed}
use cornelich.ExcerptTailer.Reader.{next_index-Kept}
use cornelich.World.Consistent.{Kept}
use cornelich.ExcerptTailer.{
  next_index, Tailing, to_start, seek, seek_within, seek_loop, arrive, follow_entry,
  ensure_index_region, ensure_data_region as ensure_tailer_region,
}
use cornelich.Chronicle.Packing.{index_place}
use cornelich.ExcerptAppender.{cycle_for_now}
use cornelich.VanillaIndex.Scan.{find_first_cycle, first_cycle_loop}
use cornelich.World.{World, RegionPtr}

-- The fields of the excerpt at 4.
ended-Fits : Fits environment small_blocks-IsSized (filled.0) (ended.0) 4
ended-Fits = begun-Fits 4 (packed.0)

closed :
    Closed environment
      (filled.0)
      (filled.1)
      4
      (entry_of environment (filled.0) (filled.1) 4)
      memory
      (ended.0)
      (ended.1)
closed =
    finish-Closed environment (filled.0) (filled.1) 4 filled-IsOpen.sound filled-IsOpen.writing
      filled-IsOpen.has_region filled-IsOpen.behind_length filled-IsOpen.small filled-IsOpen.started
      (when_ok-eq (finish environment filled) ended_ok)

same_constants : (filled.1).chronicle ≡ small_chronicle
unfolding start_excerpt_in switch_regions ensure_data_region ensure_room open_buffer
    find_next_data_file_number behind_number last_data_loop last_index_file_number data_for
    data_key_discrete reset remaining thread_id_mask starts_with finish region_at write_length
    bytes_of write_ordered32 in_range put_bytes find_file put_file folder_files lookup insert
    Name-discrete ℕ_discrete region append_index append_at is_some append_cycle append_files
    index_for get find store_entry pop_front make_file ensure_directory make_region create_mapping
    append append_loop advance cas64 limit position set_position load publish set_last_written_index
    index_from move_on align_position put_region replace key_discrete writes write put put_at place
    skip write_field write_raw write_boolean index_value
same_constants = refl

filled-Constants : Constants small_blocks 3 3 6 (filled.1).chronicle
filled-Constants = subst (Constants small_blocks 3 3 6) (sym same_constants) small-Constants

abbrev excerpt :
    HasExcerpt environment (ended.1) (ended.0).last_written_index 4 (filled.0).buffer.position
excerpt =
    (Closed-HasExcerpt environment small_blocks-IsSized (filled.0) (ended.0) (filled.1) (ended.1) 4
      memory filled-Constants ended-Fits closed filled-IsOpen.behind_length refl).0

index-HasExcerpt_example :
    (t' : ExcerptTailer) × (w' : World) × (index environment
        (ended.0).last_written_index
        (excerpt_tailer, ended.1)
      ≡ ok ((t', w'), true))
    × Opened environment
        (ended.1)
        (ended.0).last_written_index
        4
        (filled.0).buffer.position
        excerpt
        t'
        w'
index-HasExcerpt_example =
    index-HasExcerpt environment excerpt_tailer (ended.1) (ended.0).last_written_index 4
      (filled.0).buffer.position closed.sound.consistent
      (excerpt_tailer-Follows environment (ended.1)) excerpt

finish-index_example :
    (t' : ExcerptTailer) × (w' : World) × (index environment
        (ended.0).last_written_index
        (excerpt_tailer, ended.1)
      ≡ ok ((t', w'), true))
    × Delivered environment small_blocks-IsSized
        (filled.0)
        (filled.1)
        4
        (ended.0)
        (ended.1)
        filled-Constants
        filled-IsOpen
        (when_ok-eq (finish environment filled) ended_ok)
        ended-Fits
        t'
        w'
finish-index_example =
    finish-index environment small_blocks-IsSized (filled.0) (filled.1) 4 (ended.0) (ended.1)
      filled-Constants filled-IsOpen (when_ok-eq (finish environment filled) ended_ok) ended-Fits
      excerpt_tailer (excerpt_tailer-Follows environment (ended.1))

-- An entry made without an appender.
abbrev when_filed : Outcome (World × RegionPtr × ℕ) → World × RegionPtr × ℕ
when_filed (ok x) = x
when_filed (throws e) = (empty, none, 0)
when_filed undefined = (empty, none, 0)
when_filed out_of_fuel = (empty, none, 0)

abbrev entered : World × RegionPtr × ℕ
entered = when_filed (append_cycle environment 5 77 0 empty)

entered_ok : append_cycle environment 5 77 0 empty ≡ ok (entered.0, entered.1, entered.2)
unfolding start_excerpt_in switch_regions ensure_data_region ensure_room open_buffer
    find_next_data_file_number behind_number last_data_loop last_index_file_number data_for
    data_key_discrete reset remaining thread_id_mask starts_with finish region_at write_length
    bytes_of write_ordered32 in_range put_bytes find_file put_file folder_files lookup insert
    Name-discrete ℕ_discrete region append_index append_at is_some append_cycle append_files
    index_for get find store_entry pop_front make_file ensure_directory make_region create_mapping
    append append_loop advance cas64 limit position set_position load publish set_last_written_index
    index_from move_on align_position put_region replace key_discrete writes write put put_at place
    skip write_field write_raw write_boolean index_value
entered_ok = refl

append_cycle-Filed_example : Filed environment empty (entered.0) (entered.1) 5 (entered.2) 77
append_cycle-Filed_example =
    append_cycle-Filed environment 5 77 0 empty (entered.0) (entered.1) (entered.2) (omega arith)
      empty-IsSound entered_ok

-- A tailer over a day without an index file.
abbrev when_read : Outcome (Tailing × Bool) → Tailing × Bool
when_read (ok x) = x
when_read (throws e) = ((excerpt_tailer, empty), false)
when_read undefined = ((excerpt_tailer, empty), false)
when_read out_of_fuel = ((excerpt_tailer, empty), false)

abbrev day : World
day = world small_chronicle ((5 ∷ [], folder []) ∷ [])

day-IsSound : IsSound environment day
unfolding open_chronicle vanilla_index vanilla_data chronicle right_shift
day-IsSound =
    open_chronicle-IsSound environment (λ n. 6) small_blocks ((5 ∷ [], folder []) ∷ [])
      (omega arith) (omega arith)
      (record {
        index_low = omega arith;
        index_high = omega arith;
        data_low = omega arith;
        data_high = omega arith;
      })

abbrev read_on : Tailing × Bool
read_on = when_read (next_index environment (λ k. 475200000) (excerpt_tailer, day))

read_on_ok :
    next_index environment (λ k. 475200000) (excerpt_tailer, day)
    ≡ ok (((read_on.0).0, (read_on.0).1), read_on.1)
unfolding next_index to_start seek seek_within seek_loop arrive index follow_entry
    ensure_index_region ensure_tailer_region is_some index_place right_shift cycle_for_now
    find_first_cycle first_cycle_loop index_for get find make_file ensure_directory make_region
    find_file folder_files lookup Name-discrete ℕ_discrete key_discrete
read_on_ok = refl

next_index-Kept_example : Kept environment day ((read_on.0).1)
next_index-Kept_example =
    next_index-Kept environment (λ k. 475200000) excerpt_tailer ((read_on.0).0) day ((read_on.0).1)
      (read_on.1) day-IsSound.consistent read_on_ok
