-- ===== src/Tests/Excerpts.antt =====
-- Runs of an appender and of a tailer.
use cornelich.Common.{
  ◌+◌, ◌≤◌, ◌≡◌, ◌≢◌, bit_and, refl, arith, Bool, true, false, [], ◌∷◌, some, Outcome, ok, throws,
  undefined, out_of_fuel, logic_error, List, map, inl,
}
use cornelich.Common.Assoc.{lookup, insert}
use cornelich.Common.Words.{minus_one64, not32, sub32}
use native.Mathlib.Decide.{ℕ_discrete}
use cornelich.Chronicle.{Chronicle}
use cornelich.Chronicle.Packing.{index_from}
use cornelich.ExcerptAppender.{
  ExcerptAppender, excerpt_appender, set_last_written_index, write_length, finish, append_index,
  publish, move_on, cycle_for_now,
}
use cornelich.ExcerptAppender.Published.{finish-finish}
use cornelich.ExcerptTailer.{ExcerptTailer, excerpt_tailer, next_index}
use cornelich.ExcerptTailer.Next.{Clock, next_index-ends}
use cornelich.VanillaIndex.Scan.{find_first_cycle, first_cycle_loop}
use cornelich.Tests.Directories.{environment}
use cornelich.Util.Cache.{get, find, pop_front, store as store_entry}
use cornelich.VanillaIndex.Mapped.{append_at, append_cycle, append_files, index_for, key_discrete}
use cornelich.VanillaIndex.Slots.{append, append_loop, advance}
use cornelich.ExcerptAppender.Write.{put_at, put, write, writes}
use cornelich.ExcerptTailer.Read.{reads}
use cornelich.ExcerptTailer.Read.Laws.{reads-writes}
use cornelich.Formatters.{Field, format_of, write_field, write_raw, write_boolean}
use cornelich.Util.BufferView.{place, skip}
use cornelich.Files.{
  make_file, ensure_directory, create_mapping, Name-discrete, File, folder, FilePath, folder_files,
  find_file, put_file, is_some,
}
use cornelich.Memory.{store, load}
use cornelich.Region.{
  Region, region, write_ordered32, in_range, cas64, limit, position, set_position, align_position,
}
use cornelich.Settings.{Settings, yyyymmdd}
use cornelich.World.{World, world, Store}
use cornelich.World.Access.{region_at, bytes_of, put_bytes, put_region, replace, make_region}

-- Index and data blocks of 64 bytes, and 64 indices to a cycle.
abbrev pub small_blocks : Settings
small_blocks = record {
  path = "base";
  thread_id_bits = 16;
  cycle_length = 86400000;
  cycle_format = yyyymmdd 86400000;
  entries_per_cycle = 64;
  index_block_size = 64;
  data_block_size = 64;
  index_cache_size = 8;
  data_cache_size = 16;
}

abbrev pub small_chronicle : Chronicle
small_chronicle = record {
  settings = small_blocks;
  index_block_size_bits = 6;
  index_block_size_mask = 63;
  index_block_longs_bits = 3;
  index_block_longs_mask = 7;
  data_block_size_bits = 6;
  data_block_size_mask = 63;
  entries_for_cycle_bits = 6;
  entries_for_cycle_mask = 63;
  last_written_index = minus_one64;
}

-- The data file of a cycle is there and mapped, and an appender has put 7 bytes behind its length.
abbrev path : FilePath
path = record { cycle_string = 5 ∷ []; file_name = 8 ∷ [] }

abbrev mapped : Region
mapped = region path 64 0

abbrev one_file : File
one_file = record { size = 64; bytes = λ i. 0 }

abbrev pub before : World
before = record (world small_chronicle ((5 ∷ [], folder ((8 ∷ [], one_file) ∷ [])) ∷ [])) {
  store = record { files = (5 ∷ [], folder ((8 ∷ [], one_file) ∷ [])) ∷ []; regions = mapped ∷ [] };
}

abbrev pub writing : ExcerptAppender
writing = record excerpt_appender {
  data_region = some 0;
  finished = false;
  buffer = record { start = some 4; position = 7; limit = 20 };
}

abbrev reading : ExcerptTailer
reading = record excerpt_tailer { data_region = some 0 }

abbrev closed : Store
closed = record {
  files =
      (
        5 ∷ [],
        folder ((8 ∷ [], record one_file { bytes = store 4 one_file.bytes 0 (not32 7) }) ∷ []),
      )
      ∷ [];
  regions = mapped ∷ [];
}

region_there : region_at (some 0) before.store ≡ ok mapped
unfolding region_at
region_there = refl

length_written : write_length writing mapped 4 before.store ≡ ok closed
unfolding write_length bytes_of write_ordered32 in_range put_bytes find_file put_file folder_files
    lookup insert Name-discrete ℕ_discrete region
length_written = refl

start_aligned : bit_and (sub32 4 4) 3 ≡ 0
start_aligned = refl

-- The same excerpt finished as the first of cycle 5: an index file is made for it.
abbrev unindexed : ExcerptAppender
unindexed = record writing { last_cycle = 5; last_thread_id = 4; last_index_file_number = 0 }

abbrev pub when_ok : Outcome (ExcerptAppender × World) → ExcerptAppender × World
when_ok (ok x) = x
when_ok (throws e) = (writing, before)
when_ok undefined = (writing, before)
when_ok out_of_fuel = (writing, before)

abbrev pub is_ok : Outcome (ExcerptAppender × World) → Bool
is_ok (ok x) = true
is_ok (throws e) = false
is_ok undefined = false
is_ok out_of_fuel = false

ran : is_ok (finish environment (unindexed, before)) ≡ true
unfolding finish region_at write_length bytes_of write_ordered32 in_range put_bytes find_file
    put_file folder_files lookup insert Name-discrete ℕ_discrete region append_index append_at
    is_some append_cycle append_files index_for get find store_entry pop_front make_file
    ensure_directory make_region create_mapping append append_loop advance cas64 limit position
    set_position load publish set_last_written_index index_from move_on align_position put_region
    replace key_discrete
ran = refl

pub when_ok-eq :
    (o : Outcome (ExcerptAppender × World)) → is_ok o ≡ true → o ≡ ok ((when_ok o).0, (when_ok o).1)
when_ok-eq (ok x) h = refl
when_ok-eq (throws e) h = cc
when_ok-eq undefined h = cc
when_ok-eq out_of_fuel h = cc

region_is_there : is_some unindexed.data_region ≡ true
unfolding is_some
region_is_there = refl

abbrev finished : ExcerptAppender × World
finished = when_ok (finish environment (unindexed, before))

finish-finish_example : finish environment finished ≡ throws logic_error
finish-finish_example =
    finish-finish environment unindexed before region_is_there
      (when_ok-eq (finish environment (unindexed, before)) ran)

-- A number and a boolean behind the 7 bytes, read through a view of the same excerpt.
abbrev pub fields : List Field
fields = Field.raw 4 70000 ∷ Field.boolean true ∷ []

abbrev view : ExcerptTailer
view = record excerpt_tailer {
  data_region = some 0;
  buffer = record { start = some 4; position = 7; limit = 20 };
}

fields_written : is_ok (writes fields (writing, before)) ≡ true
unfolding writes write put put_at place skip region_at bytes_of find_file folder_files lookup
    Name-discrete ℕ_discrete put_bytes put_file insert write_field write_raw write_boolean region
fields_written = refl

inside_mapped : 4 + 7 ≤ mapped.size
unfolding region
inside_mapped = omega arith

bytes_there : bytes_of mapped before.store ≡ ok one_file.bytes
unfolding bytes_of find_file folder_files lookup Name-discrete ℕ_discrete region
bytes_there = refl

abbrev written : ExcerptAppender × World
written = when_ok (writes fields (writing, before))

reads-writes_example :
    reads (map format_of fields) (view, written.1)
    ≡ ok (
      fields,
      record view { buffer = record (view.buffer) { position = (written.0).buffer.position } },
      written.1,
    )
reads-writes_example =
    reads-writes fields writing (written.0) view before (written.1) mapped mapped one_file.bytes 4
      (omega arith, (omega arith, tt)) region_there bytes_there refl (omega arith) inside_mapped
      region_there refl refl refl refl (when_ok-eq (writes fields (writing, before)) fields_written)

-- At noon of day 5, with the files of that day.
today : Clock (λ k. 475200000) before.chronicle.settings.cycle_length 5
unfolding cycle_for_now
today k = (5, refl, omega arith)

first_cycle : find_first_cycle environment before.store.files ≡ 5
unfolding find_first_cycle first_cycle_loop
first_cycle = refl

next_index-ends_example :
    next_index environment (λ k. 475200000) (excerpt_tailer, before) ≢ out_of_fuel
next_index-ends_example =
    next_index-ends environment (λ k. 475200000) 5 excerpt_tailer before today (omega arith)
      (omega arith) (omega arith) (inl refl) (λ e. omega (arith, first_cycle))
