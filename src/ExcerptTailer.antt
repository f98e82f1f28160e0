-- ===== src/ExcerptTailer.antt =====
-- cornelich/excerpt_tailer.h, excerpt_tailer.cpp: the reader of excerpts. The buffer's start is its
-- place in the memory of the data region.
pub mod Seek
pub mod Read
pub mod Reading
pub mod Looks
pub mod Next
pub mod Forward
pub mod Follows
pub mod Finds
pub mod Reader
use cornelich.Common.{
  ℕ, zero, suc, ◌+◌, ◌*◌, ◌/◌, ◌%◌, ◌^◌, Bool, true, false, not, ◌&&◌, ◌||◌, ◌==◌, if◌then◌else◌,
  Option, none, some,
}
use cornelich.Common.{Outcome, ok, throws, undefined, out_of_fuel, logic_error, ◌>>=◌}
use cornelich.Common.Words.{
  minus_one32, minus_one64, slt32, slt64, add32, sub32, add64, sub64, not32, shl64, widen, narrow,
  is_neg32, is_neg64, sdiv64,
}
use cornelich.Environment.{Environment}
use cornelich.Chronicle.{Chronicle}
use cornelich.Chronicle.Packing.{IndexPlace, index_place, DataPlace, data_place}
use cornelich.ExcerptAppender.{cycle_for_now}
use cornelich.Files.{is_some}
use cornelich.Memory.{Bytes}
use cornelich.Region.{Region, read_ordered64, read_ordered32}
use cornelich.Util.BufferView.{BufferView, reset}
use cornelich.VanillaData.Mapped.{data_for}
use cornelich.VanillaIndex.LastIndex.{last_index}
use cornelich.VanillaIndex.Mapped.{index_for}
use cornelich.VanillaIndex.Scan.{find_first_cycle}
use cornelich.World.{RegionPtr, Store, World}
use cornelich.World.Access.{region_at, bytes_of}

pub record ExcerptTailer : Type 0 where
  pub index_region : RegionPtr
  pub data_region : RegionPtr
  pub index : ℕ  -- std::int64_t
  pub last_cycle : ℕ  -- std::int32_t, as the next three
  pub last_index_file_number : ℕ
  pub last_thread_id : ℕ
  pub last_data_file_number : ℕ
  pub buffer : BufferView

-- The constructor.
abbrev pub excerpt_tailer : ExcerptTailer
excerpt_tailer = record {
  index_region = none;
  data_region = none;
  index = minus_one64;
  last_cycle = minus_one32;
  last_index_file_number = minus_one32;
  last_thread_id = minus_one32;
  last_data_file_number = minus_one32;
  buffer = record { start = none; position = 0; limit = 0 };
}

abbrev pub Tailing : Type 0
Tailing = ExcerptTailer × World

-- `position(position)`: false if it lies behind the limit. A negative one is taken.
unfoldable pub position : ℕ → ExcerptTailer → ExcerptTailer × Bool
position p t =
    if slt32 t.buffer.limit p
    then (t, false)
    else (record t { buffer = record (t.buffer) { position = p } }, true)

-- The end of `index`: the length in front of the excerpt, then the view of it.
unfoldable pub open_excerpt : ℕ → ℕ → Tailing → Outcome (Tailing × Bool)
unfolding read_ordered32 reset
open_excerpt index data_offset (t, w) = region_at t.data_region w.store >>= λ r.
    bytes_of r w.store >>= λ m. read_ordered32 r m (sub32 data_offset 4) >>= λ len.
    if len == 0
    then ok ((t, w), false)
    else if not32 len / 2 ^ 30 == 0
    then ok
        ((record t { buffer = reset data_offset 0 (not32 len) t.buffer; index = index }, w), true)
    else throws logic_error

module _ (env : Environment) where
  -- The index region of a place, and whether it was looked up; false in front if there is none.
  unfoldable pub ensure_index_region : IndexPlace → Tailing → Outcome (Tailing × Bool × Bool)
  ensure_index_region at (t, w) =
      if not (t.last_cycle == at.cycle_for_index)
        || (not (t.last_index_file_number == at.index_file_number) || not (is_some t.index_region))
      then (index_for env at.cycle_for_index at.index_file_number false w >>= λ (w', p).
          if is_some p
          then ok (
            (
              record t {
                index_region = p;
                last_cycle = at.cycle_for_index;
                last_index_file_number = at.index_file_number;
              },
              w',
            ),
            true,
            true,
          )
          else ok ((record t { index_region = p }, w'), false, false))
      else ok ((t, w), true, false)

  -- The data region of a place, kept if it is that of the last excerpt.
  unfoldable pub ensure_data_region : ℕ → DataPlace → Bool → Tailing → Outcome Tailing
  ensure_data_region cycle at index_file_change (t, w) =
      if is_some t.data_region
        && not (
            not (t.last_thread_id == at.thread_id)
            || (not (t.last_data_file_number == at.data_file_number) || index_file_change))
      then ok (t, w)
      else (data_for env cycle at.thread_id at.data_file_number false w >>= λ (w', p). ok (
        record t {
          data_region = p;
          last_thread_id = at.thread_id;
          last_data_file_number = at.data_file_number;
        },
        w',
      ))

  -- From the entry of the index file on.
  unfoldable pub follow_entry : ℕ → ℕ → ℕ → Bool → Tailing → Outcome (Tailing × Bool)
  unfolding data_place
  follow_entry index cycle value index_file_change (t, w) =
      if value == 0
      then ok ((t, w), false)
      else (let at : DataPlace = data_place w.chronicle value in
          ensure_data_region cycle at index_file_change (t, w) >>= λ (t', w').
          if is_some t'.data_region
          then open_excerpt index at.data_offset (t', w')
          else ok ((t', w'), false))

  -- `index(index)`: true if there is an excerpt at the index.
  unfoldable pub index : ℕ → Tailing → Outcome (Tailing × Bool)
  unfolding index_place read_ordered64
  index i (t, w) =
      let at : IndexPlace = index_place w.chronicle i in
      ensure_index_region at (t, w) >>= λ (tw, mapped, changed).
      if mapped
      then (region_at (tw.0).index_region (tw.1).store >>= λ r. bytes_of r (tw.1).store >>= λ m.
          read_ordered64 r m (narrow (shl64 at.index_offset 3)) >>= λ value.
          follow_entry i at.cycle_for_index value changed tw)
      else ok (tw, false)

  unfoldable pub to_start : Tailing → Tailing
  to_start (t, w) =
      let cycle : ℕ = find_first_cycle env w.store.files in
      if is_neg32 cycle then (t, w) else (
        record t {
          index = sub64 (widen cycle * w.chronicle.settings.entries_per_cycle % 2 ^ 64) 1;
        },
        w,
      )

  unfoldable pub to_end : Tailing → Outcome Tailing
  to_end (t, w) = last_index env w >>= λ (w', last).
      if is_neg64 last then ok (to_start (t, w')) else (index last (t, w') >>= λ (tw, found). ok tw)

-- The `while` of `next_index`, over what `index` does to a state, which may be any. `now_cycles` is what
-- `cycle_for_now` answers in each round, from round 0 on.
unfoldable pub seek_loop :
    {S : Type 0}
    → (ℕ → S → Outcome (S × Bool))
    → ℕ
    → (ℕ → Outcome ℕ)
    → ℕ
    → ℕ
    → S
    → Outcome (S × Option ℕ)
seek_loop look entries_per_cycle now_cycles zero next s = out_of_fuel
seek_loop look entries_per_cycle now_cycles (suc fuel) next s =
    let again = seek_loop look entries_per_cycle (λ k. now_cycles (suc k)) fuel in
    look next s >>= λ (s', found).
    if found
    then ok (s', some next)
    else if entries_per_cycle == 0
    then undefined
    else (let cycle : ℕ = narrow (sdiv64 next entries_per_cycle) in
        now_cycles 0 >>= λ now.
        if slt32 now cycle
        then ok (s', none)
        else again (widen (add32 cycle 1) * entries_per_cycle % 2 ^ 64) s')

-- A round for each std::int32_t, whichever cycle the search starts in, and one more.
abbrev pub seek_fuel : ℕ
seek_fuel = 2 ^ 32 + 1

-- The end of `next_index`: the index at which an excerpt was found is the tailer's.
unfoldable pub arrive : Tailing × Option ℕ → Outcome (Tailing × Bool)
arrive ((t, w), none) = ok ((t, w), false)
arrive ((t, w), some next) = ok ((record t { index = next }, w), true)

module _ (env : Environment) where
  -- `next_index` behind its first lines, with a bound on the rounds.
  unfoldable pub seek_within : ℕ → (ℕ → ℕ) → Tailing → Outcome (Tailing × Bool)
  unfolding seek_loop cycle_for_now arrive
  seek_within fuel now (t, w) =
      seek_loop (index env) w.chronicle.settings.entries_per_cycle
        (λ k. cycle_for_now (now k) w.chronicle.settings.cycle_length) fuel (add64 t.index 1) (t, w)
      >>= arrive

  unfoldable pub seek : (ℕ → ℕ) → Tailing → Outcome (Tailing × Bool)
  unfolding seek_within
  seek now tw = seek_within seek_fuel now tw

  -- `next_index()`; `now k` is the time when it reads the clock in its round `k`.
  unfoldable pub next_index : (ℕ → ℕ) → Tailing → Outcome (Tailing × Bool)
  unfolding seek to_start
  next_index now (t, w) =
      if is_neg64 t.index
      then (if is_neg64 ((to_start env (t, w)).0).index
          then ok (to_start env (t, w), false)
          else seek now (to_start env (t, w)))
      else seek now (t, w)
