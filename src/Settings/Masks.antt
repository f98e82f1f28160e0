-- ===== src/Settings/Masks.antt =====
-- The masks split a 64-bit index entry into the thread id and the data offset.
use cornelich.Common.{ℕ, ◌-◌, ◌%◌, ◌^◌, ◌≤◌, ◌<◌, bit_and, arith}
use cornelich.Common.{
  ◌≡◌, refl, Bool, true, false, ok, throws, invalid_argument, if◌then◌else◌, ltb,
}
use cornelich.Common.Bits.{bit_and_mask}
use cornelich.Common.Words.{is_neg32, shl64, sub64, sub32}
use cornelich.Settings.{
  Settings, CycleFormatter, set_cycle_length, thread_id_mask, index_data_offset_bits,
  index_data_offset_mask,
}
use native.Mathlib.Nat.{one-le-pow, pow-le-pow_right}

-- 2 ^ k - 1 of an std::int64_t.
pub low_mask : (k : ℕ) → k < 64 → sub64 (shl64 1 k) 1 ≡ 2 ^ k - 1
low_mask k h =
    let bound : 2 ^ k ≤ 2 ^ 63 =
      (let fits : k ≤ 63 = omega arith in pow-le-pow_right (omega arith) fits) in
    let one : 1 ≤ 2 ^ k = one-le-pow k 2 (omega arith) in omega arith

-- With 1 to 63 bits for the thread id, `&` with the data offset mask is the remainder by 2 ^
-- index_data_offset_bits, and `&` with the thread id mask is that by 2 ^ thread_id_bits.
pub masks_lem :
    (s : Settings) (x : ℕ)
    → 0 < s.thread_id_bits
    → s.thread_id_bits < 64
    → (index_data_offset_bits s ≡ 64 - s.thread_id_bits)
      × (bit_and x (index_data_offset_mask s) ≡ x % 2 ^ (64 - s.thread_id_bits))
      × (bit_and x (thread_id_mask s) ≡ x % 2 ^ s.thread_id_bits)
unfolding index_data_offset_bits index_data_offset_mask thread_id_mask
masks_lem s x lo hi =
    let bits : sub32 64 s.thread_id_bits ≡ 64 - s.thread_id_bits = omega arith in
    (
      bits,
      rw (bits, low_mask (64 - s.thread_id_bits) (omega arith))
          (bit_and_mask (64 - s.thread_id_bits) x),
      rw (low_mask s.thread_id_bits hi) (bit_and_mask s.thread_id_bits x),
    )

-- For a length of 32 bits, the checked setter refuses exactly those below an hour, negative ones
-- included; otherwise, and always without the check, it changes the length and the formatter
-- alone.
set_cycle_length_lem :
    (s : Settings) (cycle_length : ℕ) (f : CycleFormatter) (check : Bool)
    → cycle_length < 2 ^ 32
    → set_cycle_length s cycle_length f check ≡ (
        if check
        then (if ltb cycle_length 3600000
            then throws invalid_argument
            else if is_neg32 cycle_length
            then throws invalid_argument
            else ok (record s { cycle_length = cycle_length; cycle_format = f }))
        else ok (record s { cycle_length = cycle_length; cycle_format = f }))
unfolding set_cycle_length
set_cycle_length_lem s cycle_length f true h = ground arith
set_cycle_length_lem s cycle_length f false h = refl
