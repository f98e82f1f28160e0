-- ===== src/Common/Words.antt =====
-- Machine integers. An `std::int32_t` or `std::int64_t` is its bit pattern, a number below 2 ^ 32
-- or 2 ^ 64; a negative value v is the pattern 2 ^ w + v. Conversions wrap as GCC documents.
use Prim.Native.Nat.{ℕ, ◌+◌, ◌-◌, ◌*◌, ◌/◌, ◌%◌, ◌^◌}
use mathlib.Core.Bool.{Bool}
use cornelich.Common.Tests.{ltb, leb, if◌then◌else◌}

abbrev pub u32_mod : ℕ
u32_mod = 2 ^ 32

abbrev pub u64_mod : ℕ
u64_mod = 2 ^ 64

-- The patterns of -1.
abbrev pub minus_one32 : ℕ
minus_one32 = 2 ^ 32 - 1

abbrev pub minus_one64 : ℕ
minus_one64 = 2 ^ 64 - 1

-- `x < 0`
abbrev pub is_neg32 : ℕ → Bool
is_neg32 x = leb (2 ^ 31) x

abbrev pub is_neg64 : ℕ → Bool
is_neg64 x = leb (2 ^ 63) x

-- `a < b` of signed words
abbrev pub slt32 : ℕ → ℕ → Bool
slt32 a b = ltb ((a + 2 ^ 31) % 2 ^ 32) ((b + 2 ^ 31) % 2 ^ 32)

abbrev pub slt64 : ℕ → ℕ → Bool
slt64 a b = ltb ((a + 2 ^ 63) % 2 ^ 64) ((b + 2 ^ 63) % 2 ^ 64)

abbrev pub add32 : ℕ → ℕ → ℕ
add32 a b = (a + b) % 2 ^ 32

abbrev pub sub32 : ℕ → ℕ → ℕ
sub32 a b = (a + 2 ^ 32 - b) % 2 ^ 32

abbrev pub not32 : ℕ → ℕ
not32 a = 2 ^ 32 - 1 - a

abbrev pub add64 : ℕ → ℕ → ℕ
add64 a b = (a + b) % 2 ^ 64

abbrev pub sub64 : ℕ → ℕ → ℕ
sub64 a b = (a + 2 ^ 64 - b) % 2 ^ 64

abbrev pub not64 : ℕ → ℕ
not64 a = 2 ^ 64 - 1 - a

-- `a << k` for k < 64
abbrev pub shl64 : ℕ → ℕ → ℕ
shl64 a k = a * 2 ^ k % 2 ^ 64

-- `static_cast<std::int64_t>` of an `std::int32_t`, and back
abbrev pub widen : ℕ → ℕ
widen a = if is_neg32 a then a + (2 ^ 64 - 2 ^ 32) else a

abbrev pub narrow : ℕ → ℕ
narrow a = a % 2 ^ 32

-- `a >> k` of a signed word, which GCC fills with the sign.
abbrev pub sar64 : ℕ → ℕ → ℕ
sar64 a k = if is_neg64 a then not64 (not64 a / 2 ^ k) else a / 2 ^ k

-- `a / b` of signed 64-bit words, which rounds towards 0; `b` is not 0
abbrev pub sdiv64 : ℕ → ℕ → ℕ
sdiv64 a b =
    if is_neg64 a
    then (if is_neg64 b then (2 ^ 64 - a) / (2 ^ 64 - b) else (2 ^ 64 - (2 ^ 64 - a) / b) % 2 ^ 64)
    else (if is_neg64 b then (2 ^ 64 - a / (2 ^ 64 - b)) % 2 ^ 64 else a / b)

abbrev pub mul64 : ℕ → ℕ → ℕ
mul64 a b = a * b % 2 ^ 64

-- The greatest signed word whose product with `b` is at most `a`, for `b` from 1 on.
abbrev pub floor_div64 : ℕ → ℕ → ℕ
floor_div64 a b = if is_neg64 a then (2 ^ 64 - (2 ^ 64 - a + (b - 1)) / b) % 2 ^ 64 else a / b
