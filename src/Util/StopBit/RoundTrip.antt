-- ===== src/Util/StopBit/RoundTrip.antt =====
-- What `write` puts into a buffer, `read` takes out again.
use cornelich.Common.{ℕ, zero, suc, ◌+◌, ◌*◌, ◌/◌, ◌%◌, ◌^◌, ◌≤◌, ◌<◌, bit_and, bit_or, arith}
use cornelich.Common.{List, [], ◌∷◌, ◌++◌, Bool, true, false, ◌≡◌, ap, ◌∙◌, ok}
use cornelich.Common.Bits.{pow-add, bit_and_mask, high_bits_zero, bit_or_disjoint, bit_or_top}
use cornelich.Common.Order.{lt_wf}
use cornelich.Common.Words.{not64, shl64}
use cornelich.Util.StopBit.{shift_falls, final_bytes, write_loop, write, read_loop, read}
use mathlib.Core.WellFounded.{Acc}
use native.Mathlib.Bridge.{le_prop}
use native.Mathlib.Decide.{dec_lt}
use mathlib.Core.Logic.{◌≢◌, dif_pos}
use native.Mathlib.Nat.{pow-le-pow_right, mod-eq_of_lt}

-- What the loop has gathered, extended by the group `g` at bit `count`.
add_group :
    (g l count : ℕ)
    → g < 128
    → l < 2 ^ count
    → count ≤ 56
    → bit_or l (shl64 g count) ≡ l + g * 2 ^ count
add_group g l count hg hl hc =
    let wide : 2 ^ count ≤ 2 ^ 56 = pow-le-pow_right (omega arith) hc in
    let fits : g * 2 ^ count < 2 ^ 64 = grind arith in
    rw (mod-eq_of_lt fits) (bit_or_disjoint count g l hl)

next_group : (count : ℕ) → 2 ^ (count + 7) ≡ 2 ^ count * 128
next_group count = pow-add count 7

group_rest :
    (value count : ℕ) → value * 2 ^ count ≡ value % 128 * 2 ^ count + value / 128 * 2 ^ (count + 7)
group_rest value count =
    let scaled : (value % 128 + value / 128 * 128) * 2 ^ count ≡ value * 2 ^ count =
      ap (λ (n : ℕ). n * 2 ^ count) (omega arith) in
    let upper : value / 128 * 2 ^ (count + 7) ≡ value / 128 * (2 ^ count * 128) =
      ap (λ (n : ℕ). value / 128 * n) (next_group count) in
    omega arith

low_seven : (b : ℕ) → bit_and b 0x7f ≡ b % 128
low_seven = bit_and_mask 7

-- One round of `read_loop` on a byte with its top bit set, above the group `g`.
inner_byte :
    (g l count : ℕ) (rest : List ℕ)
    → g < 128
    → l < 2 ^ count
    → count ≤ 56
    → read_loop ((g + 128) ∷ rest) l count ≡ read_loop rest (l + g * 2 ^ count) (count + 7)
unfolding read_loop
inner_byte g l count rest hg hl hc =
    let group : bit_and (g + 128) 0x7f ≡ g = omega (arith, low_seven (g + 128)) in
    rw (group, add_group g l count hg hl hc) (ground arith)

last_byte :
    (w l count : ℕ) (rest : List ℕ)
    → w < 128
    → w ≢ 0
    → l < 2 ^ count
    → count ≤ 56
    → read_loop (w ∷ rest) l count ≡ ok (l + w * 2 ^ count, rest)
unfolding read_loop
last_byte w l count rest hw hz hl hc = rw (add_group w l count hw hl hc) (ground arith)

zero_byte :
    (l count : ℕ) (rest : List ℕ) → count ≤ 63 → read_loop (0 ∷ rest) l count ≡ ok (not64 l, rest)
unfolding read_loop
zero_byte l count rest hc = ground arith

-- What is gathered still fits below the next group.
grown : (g l count : ℕ) → g < 128 → l < 2 ^ count → l + g * 2 ^ count < 2 ^ (count + 7)
grown g l count hg hl = grind (arith, next_group count)

-- One round of `write_loop`.
pub write_loop_more :
    (neg : Bool) (w : ℕ) (a : Acc ◌<◌ w)
    → 128 ≤ w
    → (a' : Acc ◌<◌ (w / 128)) × (write_loop neg w a
        ≡ (w % 128 + 128) ∷ write_loop neg (w / 128) a')
unfolding write_loop
write_loop_more neg w (Acc.intro _ smaller) h =
    let more : 0 < w / 128 = omega arith in
    (
      smaller (w / 128) (shift_falls w more),
      dif_pos (dec_lt 0 (w / 128)) le_prop more _ _
          ∙ ap (λ (b : ℕ). b ∷ write_loop neg (w / 128) (smaller (w / 128) (shift_falls w more)))
              (bit_or_top w),
    )

pub write_loop_last :
    (neg : Bool) (w : ℕ) (a : Acc ◌<◌ w) → w < 128 → write_loop neg w a ≡ final_bytes neg w
unfolding write_loop
write_loop_last neg w (Acc.intro _ smaller) h = ground arith

-- `w` is what is still to be written, from bit `count` on; `k` more groups may follow the first.
read_loop-write_loop_nonneg :
    (k w l count : ℕ) (a : Acc ◌<◌ w) (rest : List ℕ)
    → w < 128 ^ suc k
    → w ≢ 0
    → l < 2 ^ count
    → count + 7 * k ≡ 56
    → read_loop (write_loop false w a ++ rest) l count ≡ ok (l + w * 2 ^ count, rest)
unfolding final_bytes
read_loop-write_loop_nonneg zero w l count a rest hw hz hl hc =
    rw (write_loop_last false w a (omega arith), mod-eq_of_lt {n = w} {m = 256} (omega arith))
      (last_byte w l count rest (omega arith) hz hl (omega arith))
read_loop-write_loop_nonneg (suc k) w l count a rest hw hz hl hc = elim (dec_lt w 128) [
  | yes last ↦
      rw (write_loop_last false w a last, mod-eq_of_lt {n = w} {m = 256} (omega arith))
        (last_byte w l count rest last hz hl (omega arith))
  | no more ↦
      let (a', step) = write_loop_more false w a (omega arith) in
      let sum : l + w % 128 * 2 ^ count + w / 128 * 2 ^ (count + 7) ≡ l + w * 2 ^ count =
        omega (arith, group_rest w count) in
      rw step (
        inner_byte (w % 128) l count _ (omega arith) hl (omega arith)
        ∙ read_loop-write_loop_nonneg k (w / 128) (l + w % 128 * 2 ^ count) (count + 7) a' rest
            (omega arith) (omega arith) (grown (w % 128) l count (omega arith) hl) (omega arith)
        ∙ rw sum)
]

read_loop-write_loop_neg :
    (k w l count : ℕ) (a : Acc ◌<◌ w) (rest : List ℕ)
    → w < 128 ^ suc k
    → l < 2 ^ count
    → count + 7 * k ≡ 56
    → read_loop (write_loop true w a ++ rest) l count ≡ ok (not64 (l + w * 2 ^ count), rest)
unfolding final_bytes
read_loop-write_loop_neg zero w l count a rest hw hl hc =
    let group : w % 128 ≡ w = omega arith in
    rw (write_loop_last true w a (omega arith), bit_or_top w, group)
      (inner_byte w l count _ (omega arith) hl (omega arith)
        ∙ zero_byte (l + w * 2 ^ count) (count + 7) rest (omega arith))
read_loop-write_loop_neg (suc k) w l count a rest hw hl hc = elim (dec_lt w 128) [
  | yes last ↦
      let group : w % 128 ≡ w = omega arith in
      rw (write_loop_last true w a last, bit_or_top w, group)
        (inner_byte w l count _ last hl (omega arith)
          ∙ zero_byte (l + w * 2 ^ count) (count + 7) rest (omega arith))
  | no more ↦
      let (a', step) = write_loop_more true w a (omega arith) in
      let sum : l + w % 128 * 2 ^ count + w / 128 * 2 ^ (count + 7) ≡ l + w * 2 ^ count =
        omega (arith, group_rest w count) in
      rw step (
        inner_byte (w % 128) l count _ (omega arith) hl (omega arith)
        ∙ read_loop-write_loop_neg k (w / 128) (l + w % 128 * 2 ^ count) (count + 7) a' rest
            (omega arith) (grown (w % 128) l count (omega arith) hl) (omega arith)
        ∙ rw sum)
]

-- The tests of `write` for one and for two bytes.
one_byte : (value : ℕ) → value < 2 ^ 64 → bit_and value (not64 0x7f) ≡ value / 128 * 128
one_byte value h = high_bits_zero 7 57 value (omega arith)

two_bytes : (value : ℕ) → value < 2 ^ 64 → bit_and value (not64 0x3fff) ≡ value / 16384 * 16384
two_bytes value h = high_bits_zero 14 50 value (omega arith)

-- `read` behind a first byte with its top bit set.
read_first : (g : ℕ) (rest : List ℕ) → g < 128 → read ((g + 128) ∷ rest) ≡ read_loop rest g 7
unfolding read
read_first g rest h =
    let group : bit_and (g + 128) 0x7f ≡ g = omega (arith, low_seven (g + 128)) in
    rw group (ground arith)

read-write_two :
    (value : ℕ) (rest : List ℕ)
    → 128 ≤ value
    → value < 16384
    → read ((bit_or (bit_and value 0x7f % 256) 0x80) ∷ value / 128 % 256 ∷ rest) ≡ ok (value, rest)
read-write_two value rest lo hi =
    let top : bit_or (bit_and value 0x7f % 256) 0x80 ≡ value % 128 + 128 =
      rw (low_seven value, mod-eq_of_lt {n = value % 128} {m = 256} (omega arith))
        (bit_or_disjoint 7 1 (value % 128) (omega arith)) in
    let high : value / 128 % 256 ≡ value / 128 = omega arith in
    rw (top, high)
      (read_first (value % 128) _ (omega arith)
        ∙ last_byte (value / 128) (value % 128) 7 rest (omega arith) (omega arith) (omega arith)
            (omega arith)
        ∙ ap (λ (v : ℕ). ok (v, rest)) (omega arith))

read-write_nonneg :
    (value : ℕ) (a : Acc ◌<◌ value) (rest : List ℕ)
    → 16384 ≤ value
    → value < 2 ^ 63
    → read (write_loop false value a ++ rest) ≡ ok (value, rest)
read-write_nonneg value a rest lo hi =
    let (a', step) = write_loop_more false value a (omega arith) in
    rw step (
      read_first (value % 128) _ (omega arith)
      ∙ read_loop-write_loop_nonneg 7 (value / 128) (value % 128) 7 a' rest (omega arith)
          (omega arith) (omega arith) (omega arith)
      ∙ ap (λ (v : ℕ). ok (v, rest)) (omega arith))

read-write_neg :
    (w : ℕ) (a : Acc ◌<◌ w) (rest : List ℕ)
    → w < 2 ^ 63
    → read (write_loop true w a ++ rest) ≡ ok (not64 w, rest)
unfolding final_bytes
read-write_neg w a rest hi = elim (dec_lt w 128) [
  | yes last ↦
      let group : w % 128 ≡ w = omega arith in
      rw (write_loop_last true w a last, bit_or_top w, group)
        (read_first w _ last ∙ zero_byte w 7 rest (omega arith))
  | no more ↦
      let (a', step) = write_loop_more true w a (omega arith) in
      rw step (
        read_first (w % 128) _ (omega arith)
        ∙ read_loop-write_loop_neg 7 (w / 128) (w % 128) 7 a' rest (omega arith) (omega arith)
            (omega arith)
        ∙ ap (λ (v : ℕ). ok (not64 v, rest)) (omega arith))
]

-- The four branches of `write`.
pub write_short : (value : ℕ) → value < 128 → write value ≡ value ∷ []
unfolding write
write_short value h = ground (arith, one_byte value (omega arith), low_seven value)

pub write_middle :
    (value : ℕ)
    → 128 ≤ value
    → value < 16384
    → write value ≡ bit_or (bit_and value 0x7f % 256) 0x80 ∷ value / 128 % 256 ∷ []
unfolding write
write_middle value lo hi =
    ground (arith, one_byte value (omega arith), two_bytes value (omega arith))

pub write_nonneg :
    (value : ℕ)
    → 16384 ≤ value
    → value < 2 ^ 63
    → write value ≡ write_loop false value (lt_wf.apply value)
unfolding write
write_nonneg value lo hi =
    ground (arith, one_byte value (omega arith), two_bytes value (omega arith))

pub write_neg :
    (value : ℕ)
    → 2 ^ 63 ≤ value
    → value < 2 ^ 64
    → write value ≡ write_loop true (not64 value) (lt_wf.apply (not64 value))
unfolding write
write_neg value lo hi = ground (arith, one_byte value (omega arith), two_bytes value (omega arith))

-- Reading back a value of 64 bits that was written returns that value, and leaves what follows it
-- in the buffer.
pub read-write :
    (value : ℕ) (rest : List ℕ) → value < 2 ^ 64 → read (write value ++ rest) ≡ ok (value, rest)
read-write value rest h = elim (dec_lt value 128) [
  | yes short ↦ rw (write_short value short) (unfold read in ground arith)
  | no a ↦ elim (dec_lt value 16384) [
    | yes middle ↦
        rw (write_middle value (omega arith) middle)
          (read-write_two value rest (omega arith) middle)
    | no b ↦ elim (dec_lt value (2 ^ 63)) [
      | yes c ↦
          rw (write_nonneg value (omega arith) c) (read-write_nonneg value _ rest (omega arith) c)
      | no c ↦ rw (write_neg value (omega arith) h) (
          read-write_neg (not64 value) _ rest (omega arith)
          ∙ ap (λ (v : ℕ). ok (v, rest)) (omega arith))
    ]
  ]
]
