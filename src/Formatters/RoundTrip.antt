-- ===== src/Formatters/RoundTrip.antt =====
-- The readers take out of a buffer what the writers put in.
use cornelich.Common.{ℕ, zero, suc, ◌/◌, ◌^◌, ◌<◌, true, false, leb, arith}
use cornelich.Common.{
  List, [], ◌∷◌, ◌++◌, map, length, take-append, drop-append, length-append, All, ok, ◌≡◌, refl, ap,
}
use cornelich.Common.Words.{narrow}
use cornelich.Util.StopBit.RoundTrip.{read-write}
use cornelich.Formatters.{
  write_raw, read_raw, write_boolean, read_boolean, write_chars, read_chars, Field, format_of,
  write_field, read_field, write_fields, read_fields,
}
use mathlib.Core.List.{append_assoc}
use native.Mathlib.Nat.{pow-suc}

read_raw-write_raw :
    (size val : ℕ) (rest : List ℕ)
    → val < 256 ^ size
    → read_raw size (write_raw size val ++ rest) ≡ ok (val, rest)
unfolding read_raw write_raw
read_raw-write_raw zero val rest h = ap (λ (v : ℕ). ok (v, rest)) (omega arith)
read_raw-write_raw (suc size) val rest h =
    rw (read_raw-write_raw size (val / 256) rest (omega (arith, pow-suc 256 size)))
      (ap (λ (v : ℕ). ok (v, rest)) (omega arith))

read_chars-write_chars :
    (str rest : List ℕ)
    → length str < 2 ^ 31
    → read_chars (write_chars str ++ rest) ≡ ok (str, rest)
unfolding read_chars write_chars
read_chars-write_chars str rest h =
    rw (append_assoc, read-write (length str) (str ++ rest) (omega arith))
      (let fits : leb (length str) (length (str ++ rest)) ≡ true =
          ground (arith, length-append str rest) in
        let narrowed : narrow (length str) ≡ length str = omega arith in
        rw (fits, narrowed, take-append, drop-append))

-- What a field may hold: a value of its size, a 64-bit number, a string shorter than 2 ^ 31.
abbrev pub Fits : Field → Type 0
Fits (Field.raw size val) = val < 256 ^ size
Fits (Field.boolean val) = Unit
Fits (Field.stop_bit val) = val < 2 ^ 64
Fits (Field.chars str) = length str < 2 ^ 31

pub read_field-write_field :
    (f : Field) (rest : List ℕ)
    → Fits f
    → read_field (format_of f) (write_field f ++ rest) ≡ ok (f, rest)
unfolding read_field write_field
read_field-write_field (Field.raw size val) rest h = rw (read_raw-write_raw size val rest h)
read_field-write_field (Field.boolean true) rest h = unfold read_boolean write_boolean in refl
read_field-write_field (Field.boolean false) rest h = unfold read_boolean write_boolean in refl
read_field-write_field (Field.stop_bit val) rest h = rw (read-write val rest h)
read_field-write_field (Field.chars str) rest h = rw (read_chars-write_chars str rest h)

-- A client that reads an excerpt with the readers that match its writers gets the fields that
-- were written, in order, and leaves the bytes that follow them, if every number fits its width
-- and every string is shorter than 2 ^ 31.
pub read_fields-write_fields :
    (fs : List Field) (rest : List ℕ)
    → All Fits fs
    → read_fields (map format_of fs) (write_fields fs ++ rest) ≡ ok (fs, rest)
unfolding read_fields write_fields
read_fields-write_fields [] rest h = refl
read_fields-write_fields (f ∷ fs) rest (hf, hfs) =
    rw (append_assoc, read_field-write_field f (write_fields fs ++ rest) hf)
      (rw (read_fields-write_fields fs rest hfs))
