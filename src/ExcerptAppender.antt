-- ===== src/ExcerptAppender.antt =====
-- cornelich/excerpt_appender.h, excerpt_appender.cpp: the writer of excerpts. The buffer's start is
-- its place in the memory of the data region.
pub mod Write
pub mod Published
pub mod Indexed
pub mod Positions
pub mod Finished
pub mod Closed
pub mod Started
pub mod Ends
pub mod Publishing
pub mod PublishingSafety
use cornelich.Common.{
  ℕ, ◌+◌, ◌*◌, ◌%◌, ◌^◌, Bool, true, false, not, ◌==◌, if◌then◌else◌, Option, none, some, bit_and,
}
use cornelich.Common.{Outcome, ok, throws, undefined, logic_error, ◌>>=◌}
use cornelich.Common.Words.{
  minus_one32, minus_one64, slt32, slt64, add32, sub32, add64, not32, widen, narrow, is_neg64,
  sdiv64,
}
use cornelich.Environment.{Environment}
use cornelich.Chronicle.{Chronicle}
use cornelich.Chronicle.Packing.{index_from, index_value}
use cornelich.Files.{is_some}
use cornelich.Memory.{Bytes, store_bytes}
use cornelich.Region.{Region, remaining, position, set_position, align_position, write_ordered32}
use cornelich.Settings.{thread_id_mask}
use cornelich.Util.BufferView.{BufferView, reset}
use cornelich.VanillaData.Mapped.{data_for}
use cornelich.VanillaData.Numbers.{find_next_data_file_number}
use cornelich.VanillaIndex.Mapped.{append_at, append_cycle}
use cornelich.VanillaIndex.Scan.{last_index_file_number}
use cornelich.World.{RegionPtr, Store, World}
use cornelich.World.Access.{region_at, put_region, bytes_of, put_bytes}

pub record ExcerptAppender : Type 0 where
  pub index_region : RegionPtr
  pub data_region : RegionPtr
  pub index : ℕ  -- std::int64_t
  pub last_cycle : ℕ  -- std::int32_t, as the next three
  pub last_index_file_number : ℕ
  pub last_thread_id : ℕ
  pub last_data_file_number : ℕ
  pub finished : Bool
  pub last_written_index : ℕ  -- std::int64_t
  pub buffer : BufferView

-- The constructor.
abbrev pub excerpt_appender : ExcerptAppender
excerpt_appender = record {
  index_region = none;
  data_region = none;
  index = minus_one64;
  last_cycle = minus_one32;
  last_index_file_number = minus_one32;
  last_thread_id = minus_one32;
  last_data_file_number = minus_one32;
  finished = true;
  last_written_index = minus_one64;
  buffer = record { start = none; position = 0; limit = 0 };
}

-- `cycle_for_now(cycle_length)`, at a time in milliseconds since the epoch
unfoldable pub cycle_for_now : ℕ → ℕ → Outcome ℕ
cycle_for_now now cycle_length =
    if cycle_length == 0 then undefined else ok (narrow (sdiv64 now (widen cycle_length)))

-- `m_buffer.reset` to the place behind the length of the next excerpt, and the end of `start_excerpt`.
unfoldable pub open_buffer : ℕ → ExcerptAppender × World → Outcome (ExcerptAppender × World)
unfolding reset position
open_buffer capacity (a, w) = region_at a.data_region w.store >>= λ r.
    ok (record a { buffer = reset (position r + 4) 0 capacity a.buffer; finished = false }, w)

-- `set_last_written_index`, the comparisons and the exchange of the loop taken as one step: another
-- appender that comes between them only makes the loop compare again. Publishing has the accesses one
-- by one.
unfoldable pub set_last_written_index :
    ℕ → ℕ → ℕ → ExcerptAppender × World → ExcerptAppender × World
unfolding index_from
set_last_written_index cycle index_count index_position (a, w) =
    let written : ℕ = index_from w.chronicle cycle index_count index_position in
    let last : ℕ = w.chronicle.last_written_index in
    (
      record a { last_written_index = written },
      record w {
        chronicle = record (w.chronicle) {
          last_written_index = if slt64 last written then written else last;
        };
      },
    )

unfoldable pub write_length : ExcerptAppender → Region → ℕ → Store → Outcome Store
unfolding write_ordered32
write_length a r start st = bytes_of r st >>= λ m.
    write_ordered32 r m (sub32 start 4) (not32 a.buffer.position) >>= λ m'. ok (put_bytes r m' st)

-- The position behind the excerpt, at the next multiple of 4.
unfoldable pub move_on : ExcerptAppender × World → Outcome (ExcerptAppender × World)
unfolding position set_position align_position
move_on (a, w) = region_at a.data_region w.store >>= λ r.
    align_position (set_position r (add32 (add32 (position r) a.buffer.position) 4)).0 4 >>= λ r'.
    ok (record a { finished = true }, record w { store = put_region a.data_region r' w.store })

unfoldable pub publish : ExcerptAppender × World × ℕ → Outcome (ExcerptAppender × World)
unfolding set_last_written_index
publish (a, w, position) = region_at a.index_region w.store >>= λ r.
    (let (a', w') = set_last_written_index (widen a.last_cycle) (widen r.index) position (a, w) in
      move_on (record a' { index = add64 a'.last_written_index 1 }, w'))

module _ (env : Environment) where
  -- The regions that no longer serve: all at a new cycle, the data region at a new thread.
  unfoldable pub switch_regions : ℕ → ℕ → ExcerptAppender × World → ExcerptAppender
  switch_regions thread_id cycle (a, w) =
      if not (cycle == a.last_cycle)
      then record a {
        index_region = none;
        data_region = none;
        last_cycle = cycle;
        last_index_file_number = last_index_file_number env w.store.files cycle 0;
        last_thread_id = thread_id;
      }
      else if not (thread_id == a.last_thread_id)
      then record a { data_region = none; last_thread_id = thread_id }
      else a

  -- A data region where there is none.
  unfoldable pub ensure_data_region :
      ℕ → ℕ → ExcerptAppender × World → Outcome (ExcerptAppender × World)
  ensure_data_region thread_id cycle (a, w) =
      if is_some a.data_region
      then ok (a, w)
      else (find_next_data_file_number env w.store.files cycle thread_id >>= λ number.
          data_for env cycle thread_id number true w >>= λ (w', p).
          ok (record a { data_region = p; last_data_file_number = number }, w'))

  -- The next data region if this one has no room for `capacity` bytes and their length.
  unfoldable pub ensure_room :
      ℕ → ℕ → ℕ → ExcerptAppender × World → Outcome (ExcerptAppender × World)
  unfolding remaining
  ensure_room thread_id cycle capacity (a, w) = region_at a.data_region w.store >>= λ r.
      if slt32 (remaining r) (add32 capacity 4)
      then (let number : ℕ = add32 a.last_data_file_number 1 in
          data_for env cycle thread_id number true w >>= λ (w', p).
          ok (record a { data_region = p; last_data_file_number = number }, w'))
      else ok (a, w)

  -- `start_excerpt(capacity, cycle)` in the thread `thread_id`, whose `assert` wants it to fit the mask
  unfoldable pub start_excerpt_in :
      ℕ → ℕ → ℕ → ExcerptAppender × World → Outcome (ExcerptAppender × World)
  start_excerpt_in thread_id capacity cycle (a, w) =
      if bit_and (widen thread_id) (thread_id_mask w.chronicle.settings) == widen thread_id
      then (ensure_data_region thread_id cycle (switch_regions thread_id cycle (a, w), w)
          >>= ensure_room thread_id cycle capacity
          >>= open_buffer capacity)
      else undefined

  -- `start_excerpt(capacity)` at the time `now`
  unfoldable pub start_excerpt :
      ℕ → ℕ → ℕ → ExcerptAppender × World → Outcome (ExcerptAppender × World)
  unfolding cycle_for_now
  start_excerpt now thread_id capacity (a, w) =
      cycle_for_now now w.chronicle.settings.cycle_length >>= λ cycle.
      start_excerpt_in thread_id capacity cycle (a, w)

  -- The entry's way into the index files: the region at hand, or else those from the next one on.
  unfoldable pub append_index : ℕ → ExcerptAppender × World → Outcome (ExcerptAppender × World × ℕ)
  append_index value (a, w) =
      (if is_some a.index_region
        then append_at a.index_region value w.store
        else ok (w.store, minus_one64))
      >>= λ (st, position).
          if is_neg64 position
          then ((if is_some a.index_region
                then (region_at a.index_region st >>= λ r. ok (add32 r.index 1))
                else ok a.last_index_file_number)
              >>= λ file_number.
                  append_cycle env a.last_cycle value file_number (record w { store = st })
                  >>= λ (w', p, position'). region_at p w'.store >>= λ r. ok (
                    record a { index_region = p; last_index_file_number = r.index },
                    w',
                    position',
                  ))
          else ok (a, record w { store = st }, position)

  unfoldable pub finish : ExcerptAppender × World → Outcome (ExcerptAppender × World)
  unfolding index_value
  finish (a, w) =
      if a.finished
      then throws logic_error
      else if is_some a.data_region
      then (region_at a.data_region w.store >>= λ r. elim a.buffer.start [
        | none ↦ undefined
        | some start ↦ write_length a r start w.store >>= λ st.
            append_index (index_value w.chronicle a.last_thread_id r.index start)
              (a, record w { store = st })
            >>= publish
      ])
      else ok (a, w)
