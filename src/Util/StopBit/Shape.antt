-- ===== src/Util/StopBit/Shape.antt =====
-- How many bytes `write` puts and `read` takes.
use cornelich.Common.{ℕ, zero, suc, ◌+◌, ◌*◌, ◌/◌, ◌%◌, ◌^◌, ◌≤◌, ◌<◌, bit_and, bit_or, arith}
use cornelich.Common.{List, [], ◌∷◌, Bool, true, false, ◌≡◌, ok, length, All}
use cornelich.Common.Bits.{bit_and_mask, bit_or_disjoint}
use cornelich.Common.Words.{not64}
use cornelich.Util.StopBit.{final_bytes, write_loop, write, read_loop, read}
use cornelich.Util.StopBit.RoundTrip.{
  write_loop_more, write_loop_last, write_short, write_middle, write_nonneg, write_neg,
}
use mathlib.Core.WellFounded.{Acc}
use native.Mathlib.Decide.{dec_lt}

abbrev pub IsByte : ℕ → Type 0
IsByte b = b < 256

-- Bytes, at least one and at most `n`.
abbrev pub UpTo : ℕ → List ℕ → Type 0
UpTo n bytes = All IsByte bytes × (1 ≤ length bytes) × (length bytes ≤ n)

final_bytes_shape : (k : ℕ) (neg : Bool) (w : ℕ) → UpTo (k + 2) (final_bytes neg w)
unfolding final_bytes
final_bytes_shape k true w = omega arith
final_bytes_shape k false w = omega arith

write_loop_shape :
    (k : ℕ) (neg : Bool) (w : ℕ) (a : Acc ◌<◌ w)
    → w < 128 ^ suc k
    → UpTo (k + 2) (write_loop neg w a)
write_loop_shape zero neg w a h =
    rw (write_loop_last neg w a (omega arith)) (final_bytes_shape 0 neg w)
write_loop_shape (suc k) neg w a h = elim (dec_lt w 128) [
  | yes last ↦ rw (write_loop_last neg w a last) (final_bytes_shape (suc k) neg w)
  | no more ↦
      let (a', step) = write_loop_more neg w a (omega arith) in
      let (bytes, some, few) = write_loop_shape k neg (w / 128) a' (omega arith) in
      rw step ((omega arith, bytes), omega arith, omega arith)
]

-- `write` puts 1 to 10 bytes into the buffer for any value of 64 bits.
pub write_shape : (value : ℕ) → value < 2 ^ 64 → UpTo 10 (write value)
write_shape value h = elim (dec_lt value 128) [
  | yes short ↦ rw (write_short value short) (omega arith)
  | no a ↦ elim (dec_lt value 16384) [
    | yes middle ↦
        rw (write_middle value (omega arith) middle, bit_and_mask 7 value)
          (omega (arith, bit_or_disjoint 7 1 (value % 128 % 256) (omega arith)))
    | no b ↦ elim (dec_lt value (2 ^ 63)) [
      | yes c ↦
          rw (write_nonneg value (omega arith) c) (write_loop_shape 8 false value _ (omega arith))
      | no c ↦
          rw (write_neg value (omega arith) h)
            (write_loop_shape 8 true (not64 value) _ (omega arith))
    ]
  ]
]

-- The bytes left after a successful `read_loop`, with `j` bytes behind it, the first one included.
read_loop_takes :
    (buffer : List ℕ) (l count j v : ℕ) (rest : List ℕ)
    → count ≡ 7 * j
    → read_loop buffer l count ≡ ok (v, rest)
    → (length rest < length buffer) × (length buffer + j ≤ length rest + 10)
unfolding read_loop
read_loop_takes [] l count j v rest hc e = cc
read_loop_takes (b ∷ bs) l count j v rest hc e = ground (
  arith,
  read_loop_takes bs (bit_or l (bit_and b 0x7f * 2 ^ count % 2 ^ 64)) (count + 7) (j + 1) v rest,
)

-- A `read` that returns has taken 1 to 10 bytes, however many follow in the buffer.
read_takes :
    (buffer : List ℕ) (v : ℕ) (rest : List ℕ)
    → read buffer ≡ ok (v, rest)
    → (length rest < length buffer) × (length buffer ≤ length rest + 10)
unfolding read
read_takes [] v rest e = cc
read_takes (b ∷ bs) v rest e = ground (arith, read_loop_takes bs (bit_and b 0x7f) 7 1 v rest)
