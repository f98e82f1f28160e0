-- ===== src/Util/MathUtil.antt =====
-- cornelich/util/math_util.h: shifts and logarithms of machine words.
use cornelich.Common.{ℕ, ◌-◌, ◌/◌, ◌^◌, ◌==◌, if◌then◌else◌, Outcome, ok, undefined}

-- `right_shift(x, how_much)`: the shift of the pattern, which fills with zeros from the left. It is
-- used with how_much below the width.
unfoldable pub right_shift : ℕ → ℕ → ℕ
right_shift x how_much = x / 2 ^ how_much

-- `log2_bits(v)`; `clz` is `__builtin_clz` of the compiler, which has no meaning at 0.
unfoldable pub log2_bits : (ℕ → ℕ) → ℕ → Outcome ℕ
log2_bits clz v = if v == 0 then undefined else ok (32 - clz v - 1)
