-- ===== src/Delivery/Stored.antt =====
-- An excerpt that `finish` (cornelich/excerpt_appender.cpp) has closed, as a tailer looks for it.
use cornelich.Common.{ℕ, ◌+◌, ◌*◌, ◌-◌, ◌/◌, ◌%◌, ◌^◌, ◌≤◌, ◌<◌, ◌≡◌, refl, sym, ◌∙◌, ap, arith}
use cornelich.Common.Words.{widen, shl64}
use mathlib.Core.Path.{subst}
use native.Mathlib.Nat.{pow-le-pow_right}
use cornelich.Chronicle.{Chronicle}
use cornelich.Chronicle.Packing.{index_from, index_place, index_value, data_place}
use cornelich.Chronicle.PackingLaws.{
  IsSized, Constants, index_place-index_from, data_place-index_value, index_value_lem,
}
use cornelich.Settings.{Settings}
use cornelich.Memory.{Bytes}
use cornelich.Environment.{Environment}
use cornelich.ExcerptAppender.{ExcerptAppender}
use cornelich.ExcerptAppender.Closed.{Closed, entry_of}
use cornelich.ExcerptTailer.Finds.{HasExcerpt}
use cornelich.World.{World}
use cornelich.World.Sane.{HasBlocks, block_size}

module _ (env : Environment) {s : Settings} {longs files block : ℕ}
    (z : IsSized s longs files block) where
  -- The fields of an excerpt fit the 64-bit numbers that they are packed in.
  pub record Fits (a a' : ExcerptAppender) (start : ℕ) : Type 0 where
    pub cycle_word : a.last_cycle < 2 ^ 31
    pub cycle_fits : a.last_cycle * 2 ^ (files + longs) < 2 ^ 63
    pub file_word : a'.last_index_file_number < 2 ^ 31
    pub file_fits : a'.last_index_file_number < 2 ^ files
    pub thread_word : a.last_thread_id < 2 ^ 31
    pub thread_fits : a.last_thread_id < 2 ^ s.thread_id_bits
    pub data_word : a.last_data_file_number < 2 ^ 31
    pub data_fits : a.last_data_file_number * 2 ^ block + start < 2 ^ (64 - s.thread_id_bits)
    pub start_fits : start < 2 ^ block
    pub length_fits : a.buffer.position < 2 ^ 30

  Constants_kept :
      (c c' : Chronicle) (n : ℕ)
      → Constants s longs files block c
      → c' ≡ record c { last_written_index = n }
      → Constants s longs files block c'
  Constants_kept c c' n k same = subst (Constants s longs files block) (sym same) (record {
    same_settings = k.same_settings;
    size_shift = k.size_shift;
    cycle_shift = k.cycle_shift;
    cycle_mask = k.cycle_mask;
    longs_shift = k.longs_shift;
    longs_mask = k.longs_mask;
    block_shift = k.block_shift;
    block_mask = k.block_mask;
  })

  -- A place in a block of data is one in the mapping.
  pub start_in_block :
      (c : Chronicle) (start : ℕ)
      → Constants s longs files block c
      → HasBlocks c
      → start < 2 ^ block
      → start ≤ shl64 1 c.data_block_size_bits % 2 ^ 32
  start_in_block c start k blocks low =
      let high : block < 31 = rw (← k.block_shift) blocks.data_high in
      let size = block_size block high in rw k.block_shift (omega (arith, size, low))

  widen_small : (x : ℕ) → x < 2 ^ 31 → widen x ≡ x
  widen_small x h = ground arith

  module _ (a a' : ExcerptAppender) (w w' : World) (start : ℕ) (before : Bytes)
      (k : Constants s longs files block w.chronicle) (fit : Fits a a' start)
      (c : Closed env a w start (entry_of env a w start) before a' w') (low : 4 ≤ start) where
    constants : Constants s longs files block w'.chronicle
    constants = Constants_kept w.chronicle w'.chronicle _ k c.same_chronicle

    index_bits : w'.chronicle.index_block_size_bits ≡ longs + 3
    index_bits = constants.size_shift

    in_file : c.slot_at < 2 ^ (longs + 3)
    in_file =
        let high : longs + 3 < 31 = rw (← index_bits) c.sound.blocks.index_high in
        let size = block_size (longs + 3) high in
        let inside : c.slot_at + 8 ≤ shl64 1 (longs + 3) % 2 ^ 32 =
          rw (← index_bits) c.entered.inside in
        omega (arith, size, inside)

    pub place : index_place w'.chronicle a'.last_written_index ≡ record {
      cycle_for_index = a.last_cycle;
      index_file_number = a'.last_index_file_number;
      index_offset = c.slot_at / 8;
    }
    unfolding index_from
    place =
        let same : a'.last_written_index
            ≡ index_from w'.chronicle a.last_cycle a'.last_index_file_number c.slot_at =
          c.written_index
          ∙ (rw
                (
                  widen_small a.last_cycle fit.cycle_word,
                  widen_small a'.last_index_file_number fit.file_word,
                )
                refl
              ∙ ap
                  (λ (x : Chronicle). index_from x a.last_cycle a'.last_index_file_number c.slot_at)
                  (sym c.same_chronicle)) in
        ap (index_place w'.chronicle) same
        ∙ index_place-index_from z w'.chronicle constants a.last_cycle a'.last_index_file_number
            c.slot_at fit.cycle_word fit.cycle_fits fit.file_fits fit.file_word in_file

    pub data_there : data_place w'.chronicle (entry_of env a w start) ≡ record {
      thread_id = a.last_thread_id;
      data_file_number = a.last_data_file_number;
      data_offset = start;
    }
    unfolding index_value
    data_there =
        ap
          (λ (x : Chronicle).
            data_place w'.chronicle (index_value x a.last_thread_id a.last_data_file_number start))
          (sym c.same_chronicle)
        ∙ data_place-index_value z w'.chronicle constants a.last_thread_id a.last_data_file_number
            start fit.thread_word fit.thread_fits fit.data_word fit.data_fits fit.start_fits

    value_positive : 0 < entry_of env a w start
    value_positive =
        let value =
          index_value_lem z w.chronicle k a.last_thread_id a.last_data_file_number start
            fit.thread_word fit.thread_fits fit.data_word fit.data_fits in
        omega (arith, value, low)

    slot_below : 8 * (c.slot_at / 8) < 2 ^ 31
    slot_below =
        let small : 2 ^ (longs + 3) ≤ 2 ^ 31 =
          (let few : longs + 3 ≤ 31 = omega (arith, z.index_bits) in
            pow-le-pow_right (omega arith) few) in
        omega (arith, in_file)

    block_small : 2 ^ block ≤ 2 ^ 31
    block_small =
        let few : block ≤ 31 = omega (arith, z.block_bits) in pow-le-pow_right (omega arith) few

    in_block : start ≤ shl64 1 w'.chronicle.data_block_size_bits % 2 ^ 32
    in_block = start_in_block w'.chronicle start constants c.sound.blocks fit.start_fits

    -- What `finish` has closed, the files hold at the index that it has written.
    pub Closed-HasExcerpt :
        start % 4 ≡ 0
        → (x : HasExcerpt env w' a'.last_written_index start a.buffer.position) × (x.value
            ≡ entry_of env a w start)
          × (x.data_file ≡ c.length_there.file)
    Closed-HasExcerpt aligned =
        let eight : 8 * (c.slot_at / 8) ≡ c.slot_at = omega (arith, c.entered.slot) in
        (
          record {
            index_file = c.entered.file;
            value = entry_of env a w start;
            data_file = c.length_there.file;
            index_file_there = rw place c.entered.file_there;
            slot_small = rw place slot_below;
            slot_inside = rw (place, eight) c.entered.inside;
            entry = rw (place, eight) c.entered.entry;
            some_value = value_positive;
            data_file_there = rw (place, data_there) c.length_there.file_there;
            starts = rw data_there refl;
            behind_length = low;
            start_small = omega (arith, block_small, fit.start_fits);
            aligned = aligned;
            start_inside = in_block;
            length_there = c.length_there.length_there;
            short = fit.length_fits;
          },
          refl,
          refl,
        )
