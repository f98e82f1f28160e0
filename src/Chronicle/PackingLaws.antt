-- ===== src/Chronicle/PackingLaws.antt =====
-- What the appender packs, the tailer takes apart again.
use cornelich.Common.{ℕ, ◌+◌, ◌-◌, ◌*◌, ◌/◌, ◌%◌, ◌^◌, ◌≤◌, ◌<◌, arith, ◌≡◌, refl, sym, ap, ◌∙◌}
use cornelich.Common.Bits.{bit_and_mask, pow-add}
use cornelich.Settings.{Settings}
use cornelich.Settings.Masks.{low_mask, masks_lem}
use cornelich.Util.MathUtil.{right_shift}
use cornelich.Chronicle.{Chronicle, chronicle}
use cornelich.Chronicle.Packing.{index_from, index_place, index_value, data_place}
use cornelich.Common.{◌==◌, if◌then◌else◌}
use native.Mathlib.Decide.{ℕ_discrete}
use native.Mathlib.Nat.{one-le-pow, pow-le-pow_right, mod-eq_of_lt}

-- Block sizes and entries that are powers of 2, as the masks of the chronicle suppose: an index block
-- of 2 ^ (longs + 3) bytes, 2 ^ files blocks to a cycle, a data block of 2 ^ block bytes.
pub record IsSized (s : Settings) (longs files block : ℕ) : Type 0 where
  pub index_block : s.index_block_size ≡ 2 ^ (longs + 3)
  pub cycle_entries : s.entries_per_cycle ≡ 2 ^ (files + longs)
  pub data_block : s.data_block_size ≡ 2 ^ block
  pub index_bits : longs + 3 < 32
  pub cycle_bits : files + longs < 63
  pub block_bits : block < 32
  pub some_thread_bits : 0 < s.thread_id_bits
  pub offset_bits : block + s.thread_id_bits < 64

quotient_field : (q r b : ℕ) → r < b → (q * b + r) / b ≡ q
quotient_field q r b h = grind arith

remainder_field : (q r b : ℕ) → r < b → (q * b + r) % b ≡ r
remainder_field q r b h = grind arith

fields_lt : (q r a b : ℕ) → q < a → r < b → q * b + r < a * b
fields_lt q r a b hq hr = grind arith

-- The derived constants of a chronicle with such settings.
pub record Constants (s : Settings) (longs files block : ℕ) (c : Chronicle) : Type 0 where
  pub same_settings : c.settings ≡ s
  pub size_shift : c.index_block_size_bits ≡ longs + 3
  pub cycle_shift : c.entries_for_cycle_bits ≡ files + longs
  pub cycle_mask : c.entries_for_cycle_mask ≡ 2 ^ (files + longs) - 1
  pub longs_shift : c.index_block_longs_bits ≡ longs
  pub longs_mask : c.index_block_longs_mask ≡ 2 ^ longs - 1
  pub block_shift : c.data_block_size_bits ≡ block
  pub block_mask : c.data_block_size_mask ≡ 2 ^ block - 1

-- `log2` is exact at powers of 2.
module _ (log2 : ℕ → ℕ) (log2-pow : (k : ℕ) → k < 63 → log2 (2 ^ k) ≡ k) where
  module _ {s : Settings} {longs files block : ℕ} (z : IsSized s longs files block) where
    mask_of_longs : right_shift (2 ^ (longs + 3) - 1) 3 ≡ 2 ^ longs - 1
    unfolding right_shift
    mask_of_longs = omega (arith, pow-add longs 3, one-le-pow longs 2 (omega arith))

    pub chronicle-Constants : Constants s longs files block (chronicle log2 s)
    unfolding chronicle
    chronicle-Constants =
        let bits : log2 s.index_block_size ≡ longs + 3 =
          rw z.index_block (log2-pow (longs + 3) (omega (arith, z.index_bits))) in
        let ebits : log2 s.entries_per_cycle ≡ files + longs =
          rw z.cycle_entries (log2-pow (files + longs) z.cycle_bits) in
        let dbits : log2 s.data_block_size ≡ block =
          rw z.data_block (log2-pow block (omega (arith, z.block_bits))) in
        record {
          same_settings = refl;
          size_shift = bits;
          cycle_shift = ebits;
          cycle_mask = rw ebits (low_mask (files + longs) (omega (arith, z.cycle_bits)));
          longs_shift = rw bits (omega (arith, z.index_bits));
          longs_mask = rw (bits, low_mask (longs + 3) (omega (arith, z.index_bits))) mask_of_longs;
          block_shift = dbits;
          block_mask = rw dbits (low_mask block (omega (arith, z.block_bits)));
        }

module _ {s : Settings} {longs files block : ℕ} (z : IsSized s longs files block) (c : Chronicle)
    (k : Constants s longs files block c) where
  -- In a chronicle whose block sizes and entries per cycle are powers of 2, the index of the
  -- slot at `position` of index file `count` of a cycle is the sum of its three fields, without
  -- wrapping, if each field is in its bounds.
  pub index_from_lem :
      (cycle count position : ℕ)
      → cycle * 2 ^ (files + longs) < 2 ^ 63
      → count < 2 ^ files
      → position < 2 ^ (longs + 3)
      → index_from c cycle count position
        ≡ cycle * 2 ^ (files + longs) + (count * 2 ^ longs + position / 8)
  unfolding index_from
  index_from_lem cycle count position hc hf hp =
      let slot : position / 8 < 2 ^ longs = omega (arith, pow-add longs 3) in
      let inner : count * 2 ^ longs + position / 8 < 2 ^ (files + longs) =
        rw (pow-add files longs) (fields_lt count (position / 8) (2 ^ files) (2 ^ longs) hf slot) in
      let bound : 2 ^ (files + longs) ≤ 2 ^ 62 =
        (let fits : files + longs ≤ 62 = omega (arith, z.cycle_bits) in
          pow-le-pow_right (omega arith) fits) in
      let low : 2 ^ (longs + 3) ≤ 2 ^ 31 =
        (let fits : longs + 3 ≤ 31 = omega (arith, z.index_bits) in
          pow-le-pow_right (omega arith) fits) in
      rw (k.cycle_shift, k.longs_shift) (ground arith)

  -- In a chronicle whose block sizes and entries per cycle are powers of 2, the tailer finds
  -- the cycle, the file and the slot of every index that an appender computes from fields in
  -- their bounds.
  pub index_place-index_from :
      (cycle count position : ℕ)
      → cycle < 2 ^ 31
      → cycle * 2 ^ (files + longs) < 2 ^ 63
      → count < 2 ^ files
      → count < 2 ^ 31
      → position < 2 ^ (longs + 3)
      → index_place c (index_from c cycle count position)
        ≡ record { cycle_for_index = cycle; index_file_number = count; index_offset = position / 8 }
  unfolding index_place right_shift
  index_place-index_from cycle count position hi hc hf hn hp =
      let slot : position / 8 < 2 ^ longs = omega (arith, pow-add longs 3) in
      let inner : count * 2 ^ longs + position / 8 < 2 ^ (files + longs) =
        rw (pow-add files longs) (fields_lt count (position / 8) (2 ^ files) (2 ^ longs) hf slot) in
      let rest : ℕ = count * 2 ^ longs + position / 8 in
      let regroup : cycle * 2 ^ (files + longs) + rest
          ≡ (cycle * 2 ^ files + count) * 2 ^ longs + position / 8 =
        omega (arith, ap (λ (t : ℕ). cycle * t) (pow-add files longs)) in
      let low : (cycle * 2 ^ (files + longs) + rest) % 2 ^ longs ≡ position / 8 =
        ap (λ (t : ℕ). t % 2 ^ longs) regroup
        ∙ remainder_field (cycle * 2 ^ files + count) (position / 8) (2 ^ longs) slot in
      rw
        (
          index_from_lem cycle count position hc hf hp,
          k.cycle_shift,
          k.cycle_mask,
          k.longs_shift,
          k.longs_mask,
          bit_and_mask,
          bit_and_mask,
          low,
          quotient_field cycle rest (2 ^ (files + longs)) inner,
          remainder_field cycle rest (2 ^ (files + longs)) inner,
          quotient_field count (position / 8) (2 ^ longs) slot,
          mod-eq_of_lt {n = cycle} {m = 2 ^ 32} (omega arith),
          mod-eq_of_lt {n = count} {m = 2 ^ 32} (omega arith),
        )
        refl

  -- In a chronicle whose block sizes and entries per cycle are powers of 2, and for fields in
  -- their bounds, the index after that of a slot is the index of the next slot, and behind the
  -- last slot of a file that of the first slot of the next file.
  pub index_from_next :
      (cycle count position : ℕ)
      → cycle * 2 ^ (files + longs) < 2 ^ 63
      → count + 1 < 2 ^ files
      → position + 8 ≤ 2 ^ (longs + 3)
      → index_from c cycle count position + 1 ≡ (
          if position + 8 == 2 ^ (longs + 3)
          then index_from c cycle (count + 1) 0
          else index_from c cycle count (position + 8))
  index_from_next cycle count position hc hf hp =
      elim (ℕ_discrete (position + 8) (2 ^ (longs + 3))) [
        | yes last ↦
            let slots : position / 8 + 1 ≡ 2 ^ longs = omega (arith, pow-add longs 3) in
            let small : 0 < 2 ^ (longs + 3) = omega arith in
            ground (
              arith,
              index_from_lem cycle count position hc (omega arith) (omega arith),
              index_from_lem cycle (count + 1) 0 hc hf small,
            )
        | no inside ↦ ground (
          arith,
          index_from_lem cycle count position hc (omega arith) (omega arith),
          index_from_lem cycle count (position + 8) hc (omega arith) (omega arith),
        )
      ]

  -- An entry of the index file, without wrapping.
  pub index_value_lem :
      (thread_id region_index start : ℕ)
      → thread_id < 2 ^ 31
      → thread_id < 2 ^ s.thread_id_bits
      → region_index < 2 ^ 31
      → region_index * 2 ^ block + start < 2 ^ (64 - s.thread_id_bits)
      → index_value c thread_id region_index start
        ≡ thread_id * 2 ^ (64 - s.thread_id_bits) + (region_index * 2 ^ block + start)
  unfolding index_value
  index_value_lem thread_id region_index start ht hm hr ho =
      let bits : ℕ = 64 - s.thread_id_bits in
      let (shift, _, _) = masks_lem s 0 z.some_thread_bits (omega (arith, z.offset_bits)) in
      let offset : ℕ = region_index * 2 ^ block + start in
      let whole : 2 ^ s.thread_id_bits * 2 ^ bits ≡ 2 ^ 64 =
        (let e : s.thread_id_bits + bits ≡ 64 = omega (arith, z.offset_bits) in
          sym (pow-add s.thread_id_bits bits) ∙ ap (λ (t : ℕ). 2 ^ t) e) in
      let fits : thread_id * 2 ^ bits + offset < 2 ^ 64 =
        rw (← whole) (fields_lt thread_id offset (2 ^ s.thread_id_bits) (2 ^ bits) hm ho) in
      rw (k.same_settings, shift, z.data_block) (ground arith)

  -- In a chronicle whose block sizes are powers of 2, the tailer finds the thread, the data
  -- file and the offset in it of every entry that an appender computes, if the thread's id fits
  -- its bits and the place in the data files fits those that are left.
  pub data_place-index_value :
      (thread_id region_index start : ℕ)
      → thread_id < 2 ^ 31
      → thread_id < 2 ^ s.thread_id_bits
      → region_index < 2 ^ 31
      → region_index * 2 ^ block + start < 2 ^ (64 - s.thread_id_bits)
      → start < 2 ^ block
      → data_place c (index_value c thread_id region_index start)
        ≡ record { thread_id = thread_id; data_file_number = region_index; data_offset = start }
  unfolding data_place right_shift
  data_place-index_value thread_id region_index start ht hm hr ho hs =
      let bits : ℕ = 64 - s.thread_id_bits in
      let offset : ℕ = region_index * 2 ^ block + start in
      let value : ℕ = thread_id * 2 ^ bits + offset in
      let block_small : 2 ^ block ≤ 2 ^ 31 =
        (let fits : block ≤ 31 = omega (arith, z.block_bits) in
          pow-le-pow_right (omega arith) fits) in
      let (shift, mask, _) = masks_lem s value z.some_thread_bits (omega (arith, z.offset_bits)) in
      rw
        (
          index_value_lem thread_id region_index start ht hm hr ho,
          k.same_settings,
          shift,
          mask,
          k.block_shift,
          k.block_mask,
          bit_and_mask,
          quotient_field thread_id offset (2 ^ bits) ho,
          remainder_field thread_id offset (2 ^ bits) ho,
          quotient_field region_index start (2 ^ block) hs,
          remainder_field region_index start (2 ^ block) hs,
          mod-eq_of_lt {n = thread_id} {m = 2 ^ 32} (omega arith),
          mod-eq_of_lt {n = region_index} {m = 2 ^ 32} (omega arith),
          mod-eq_of_lt {n = start} {m = 2 ^ 32} (omega (arith, block_small)),
        )
        refl

  -- In a chronicle whose block sizes are powers of 2, the entry of an excerpt that starts at
  -- the very end of a data block is taken apart into offset 0 of the next data file, if the
  -- thread's id and the number fit their bits.
  pub data_place-index_value_end :
      (thread_id region_index : ℕ)
      → thread_id < 2 ^ 31
      → thread_id < 2 ^ s.thread_id_bits
      → region_index + 1 < 2 ^ 31
      → (region_index + 1) * 2 ^ block < 2 ^ (64 - s.thread_id_bits)
      → data_place c (index_value c thread_id region_index (2 ^ block))
        ≡ record { thread_id = thread_id; data_file_number = region_index + 1; data_offset = 0 }
  data_place-index_value_end thread_id region_index ht hm hr ho =
      let first : (region_index + 1) * 2 ^ block ≡ region_index * 2 ^ block + 2 ^ block =
        omega arith in
      let block_one : 1 ≤ 2 ^ block = one-le-pow block 2 (omega arith) in
      let same : index_value c thread_id region_index (2 ^ block)
          ≡ index_value c thread_id (region_index + 1) 0 =
        index_value_lem thread_id region_index (2 ^ block) ht hm (omega arith)
          (omega (arith, first))
        ∙ (omega (arith, first)
            ∙ sym (index_value_lem thread_id (region_index + 1) 0 ht hm hr (omega arith))) in
      ap (data_place c) same
      ∙ data_place-index_value thread_id (region_index + 1) 0 ht hm hr (omega arith)
          (omega (arith, block_one))
