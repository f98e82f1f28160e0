-- ===== src/Util/TestHelpers/Hex.antt =====
-- Hexadecimal texts, and the bytes that they are read as.
use cornelich.Common.{
  ℕ, ◌+◌, ◌-◌, ◌/◌, ◌%◌, ◌<◌, ◌≡◌, ◌⊎◌, refl, ap, arith, ltb, if◌then◌else◌, List, [], ◌∷◌, All, ok,
}
use cornelich.Util.TestHelpers.{char2int, hex2bin}

-- A digit below 16, its letters from `ten` on.
abbrev pub hex_digit : ℕ → ℕ → ℕ
hex_digit ten n = if ltb n 10 then b'0' + n else ten + (n - 10)

abbrev pub hex_text : ℕ → List ℕ → List ℕ
hex_text ten [] = []
hex_text ten (b ∷ bytes) = hex_digit ten (b / 16) ∷ hex_digit ten (b % 16) ∷ hex_text ten bytes

char2int-hex_digit :
    (ten n : ℕ) → (ten ≡ b'a') ⊎ (ten ≡ b'A') → n < 16 → char2int (hex_digit ten n) ≡ ok n
unfolding char2int
char2int-hex_digit ten n letters small = ground arith

-- The hexadecimal text of bytes, two digits for each, in small or in capital letters, is read as
-- those bytes.
pub hex2bin-hex_text :
    (ten : ℕ) (bytes : List ℕ)
    → (ten ≡ b'a') ⊎ (ten ≡ b'A')
    → All (λ b. b < 256) bytes
    → hex2bin (hex_text ten bytes) ≡ ok bytes
unfolding hex2bin
hex2bin-hex_text ten [] letters h = refl
hex2bin-hex_text ten (b ∷ bytes) letters (small, h) =
    rw
      (
        char2int-hex_digit ten (b / 16) letters (omega arith),
        char2int-hex_digit ten (b % 16) letters (omega arith),
        hex2bin-hex_text ten bytes letters h,
      )
      (ap (λ c. ok (c ∷ bytes)) (omega arith))
