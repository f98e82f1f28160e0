-- ===== src/Util/StopBit.antt =====
-- cornelich/util/stop_bit.cpp: 64-bit integers in groups of seven bits, lowest group first, with the
-- top bit set on every byte but the last; a negative value v is written as ~v, its groups all with
-- the top bit set, and a final byte 0. Bytes written are the list that the call appends at `offset`,
-- and bytes read are taken from the list of what the buffer holds from `offset` on.
pub mod RoundTrip
pub mod Shape
use cornelich.Common.{ℕ, zero, suc, ◌+◌, ◌-◌, ◌*◌, ◌/◌, ◌%◌, ◌^◌, ◌<◌, bit_and, bit_or, arith}
use cornelich.Common.{List, [], ◌∷◌, Bool, true, false, ltb, leb, ◌==◌, if◌then◌else◌}
use cornelich.Common.{Outcome, ok, throws, undefined, logic_error}
use cornelich.Common.Words.{not64, shl64, is_neg64}
use cornelich.Common.Order.{lt_wf}
use mathlib.Core.Logic.{dite}
use mathlib.Core.WellFounded.{Acc}
use native.Mathlib.Decide.{dec_lt}

shift_falls : (value : ℕ) → 0 < value / 128 → value / 128 < value
shift_falls value h = omega arith

-- The final byte, or the final two of a negative value.
unfoldable pub final_bytes : Bool → ℕ → List ℕ
final_bytes false value = value % 256 ∷ []
final_bytes true value = bit_or 0x80 value % 256 ∷ 0 ∷ []

-- `while ((n2 = value >> 7) != 0)` on a value that is not negative.
pub write_loop : Bool → (value : ℕ) → Acc ◌<◌ value → List ℕ
write_loop neg value (Acc.intro _ smaller) =
    dite (dec_lt 0 (value / 128))
      (λ more.
        bit_or 0x80 value % 256
        ∷ write_loop neg (value / 128) (smaller (value / 128) (shift_falls value more)))
      (λ _. final_bytes neg value)

pub write : ℕ → List ℕ
write value =
    if bit_and value (not64 0x7f) == 0
    then bit_and value 0x7f % 256 ∷ []
    else if bit_and value (not64 0x3fff) == 0
    then bit_or (bit_and value 0x7f % 256) 0x80 ∷ value / 128 % 256 ∷ []
    else if is_neg64 value
    then write_loop true (not64 value) (lt_wf.apply (not64 value))
    else write_loop false value (lt_wf.apply value)

-- The `while` of `read`. A byte from 0x80 on is a negative `std::int8_t`. A shift by 64 or more has
-- no meaning, and so has a read behind the buffer.
unfoldable pub read_loop : List ℕ → ℕ → ℕ → Outcome (ℕ × List ℕ)
read_loop [] l count = undefined
read_loop (b ∷ rest) l count =
    let more = read_loop rest (bit_or l (shl64 (bit_and b 0x7f) count)) (count + 7) in
    if leb 0x80 b
    then (if leb 64 count then undefined else more)
    else if b == 0
    then (if ltb 63 count then throws logic_error else ok (not64 l, rest))
    else if ltb 56 count
    then throws logic_error
    else ok (bit_or l (shl64 b count), rest)

unfoldable pub read : List ℕ → Outcome (ℕ × List ℕ)
read [] = undefined
read (b ∷ rest) = if ltb b 0x80 then ok (b, rest) else read_loop rest (bit_and b 0x7f) 7
