-- ===== src/Formatters.antt =====
-- cornelich/formatters.h, and the `write` and `read` templates of excerpt_appender.h and
-- excerpt_tailer.h: fields of an excerpt. A writer is the list of the bytes that it puts at `offset`
-- and by whose number it moves `offset`; a reader takes bytes from the list of what the buffer holds
-- from `offset` on. A read behind the end of the buffer has no meaning.
pub mod RoundTrip
use cornelich.Common.{
  ℕ, zero, suc, ◌+◌, ◌*◌, ◌/◌, ◌%◌, ◌^◌, Bool, true, false, not, leb, ◌==◌, if◌then◌else◌,
}
use cornelich.Common.{List, [], ◌∷◌, ◌++◌, length, take, drop, Outcome, ok, undefined, ◌>>=◌}
use cornelich.Common.Words.{narrow}
use cornelich.Util.StopBit

-- `memcpy` of a value of `size` bytes, the lowest first: `writers::raw`, `write(T val)`
unfoldable pub write_raw : ℕ → ℕ → List ℕ
write_raw zero val = []
write_raw (suc size) val = val % 256 ∷ write_raw size (val / 256)

-- `readers::raw`, `read<T>()`
unfoldable pub read_raw : ℕ → List ℕ → Outcome (ℕ × List ℕ)
read_raw zero buffer = ok (0, buffer)
read_raw (suc size) [] = undefined
read_raw (suc size) (b ∷ buffer) =
    read_raw size buffer >>= λ (high, rest). ok (b + 256 * high, rest)

unfoldable pub write_boolean : Bool → List ℕ
write_boolean val = (if val then b'Y' else 0) ∷ []

unfoldable pub read_boolean : List ℕ → Outcome (Bool × List ℕ)
read_boolean [] = undefined
read_boolean (b ∷ rest) = ok (not (b == 0), rest)

-- `writers::chars`: the length in stop bits, then the characters, given as bytes.
unfoldable pub write_chars : List ℕ → List ℕ
write_chars str = StopBit.write (length str) ++ str

-- `readers::chars`: the string that it returns refers to `len` characters, and the offset moves by
-- `static_cast<std::int32_t>(len)`.
unfoldable pub read_chars : List ℕ → Outcome (List ℕ × List ℕ)
read_chars buffer = StopBit.read buffer >>= λ (len, rest).
    if leb len (length rest) then ok (take len rest, drop (narrow len) rest) else undefined

-- A field that a client writes: a POD value of some bytes, a boolean, a number in stop bits or a string.
pub data Field : Type 0 where
  raw : ℕ → ℕ → Field
  boolean : Bool → Field
  stop_bit : ℕ → Field
  chars : List ℕ → Field

-- The reader that a client calls.
pub data Format : Type 0 where
  raw : ℕ → Format
  boolean stop_bit chars : Format

abbrev pub format_of : Field → Format
format_of (raw size val) = raw size
format_of (boolean val) = boolean
format_of (stop_bit val) = stop_bit
format_of (chars str) = chars

-- `appender.write(…)`
unfoldable pub write_field : Field → List ℕ
write_field (raw size val) = write_raw size val
write_field (boolean val) = write_boolean val
write_field (stop_bit val) = StopBit.write val
write_field (chars str) = write_chars str

-- `tailer.read(…)`
unfoldable pub read_field : Format → List ℕ → Outcome (Field × List ℕ)
read_field (raw size) buffer = read_raw size buffer >>= λ (val, rest). ok (raw size val, rest)
read_field boolean buffer = read_boolean buffer >>= λ (val, rest). ok (boolean val, rest)
read_field stop_bit buffer = StopBit.read buffer >>= λ (val, rest). ok (stop_bit val, rest)
read_field chars buffer = read_chars buffer >>= λ (str, rest). ok (chars str, rest)

unfoldable pub write_fields : List Field → List ℕ
write_fields [] = []
write_fields (f ∷ fs) = write_field f ++ write_fields fs

unfoldable pub read_fields : List Format → List ℕ → Outcome (List Field × List ℕ)
read_fields [] buffer = ok ([], buffer)
read_fields (f ∷ fs) buffer = read_field f buffer >>= λ (field, rest).
    read_fields fs rest >>= λ (fields, end). ok (field ∷ fields, end)
