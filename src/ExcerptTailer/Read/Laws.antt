-- ===== src/ExcerptTailer/Read/Laws.antt =====
-- What a tailer reads from the memory of a region that an appender has written.
use cornelich.Common.{
  ℕ, zero, suc, ◌+◌, ◌-◌, ◌^◌, ◌≤◌, ◌<◌, ◌≡◌, refl, sym, ap, ◌∙◌, arith, List, [], ◌∷◌, ◌++◌, All,
  some, map, length, length-append, ok,
}
use mathlib.Core.Path.{ap₂}
use mathlib.Core.List.{head-eq_of_cons-eq, tail-eq_of_cons-eq}
use cornelich.ExcerptAppender.{ExcerptAppender}
use cornelich.ExcerptAppender.Write.{writes}
use cornelich.ExcerptAppender.Write.Laws.{writes_lem, place_lem}
use cornelich.ExcerptTailer.{ExcerptTailer}
use cornelich.ExcerptTailer.Read.{read, reads}
use cornelich.Formatters.{Field, format_of, write_field, write_fields}
use cornelich.Formatters.RoundTrip.{Fits, read_field-write_field}
use cornelich.Memory.{Bytes, store_bytes, load_bytes, load_bytes-store_bytes_self}
use cornelich.Region.{Region}
use cornelich.Util.BufferView.{BufferView, skip}
use cornelich.World.{World}
use cornelich.World.Access.{region_at, bytes_of}

length-load_bytes : (n : ℕ) (m : Bytes) (at : ℕ) → length (load_bytes n m at) ≡ n
unfolding load_bytes
length-load_bytes zero m at = refl
length-load_bytes (suc n) m at = ap suc (length-load_bytes n m (at + 1))

load_bytes-add :
    (n k : ℕ) (m : Bytes) (at : ℕ)
    → load_bytes (n + k) m at ≡ load_bytes n m at ++ load_bytes k m (at + n)
unfolding load_bytes
load_bytes-add zero k m at = ap₂ (λ n a. load_bytes n m a) (omega arith) (omega arith)
load_bytes-add (suc n) k m at =
    let longer : suc n + k ≡ suc (n + k) = omega arith in
    let further : at + 1 + n ≡ at + suc n = omega arith in
    ap (λ j. load_bytes j m at) longer
    ∙ ap (λ l. m at ∷ l)
        (load_bytes-add n k m (at + 1)
          ∙ ap (λ j. load_bytes n m (at + 1) ++ load_bytes k m j) further)

-- The bytes of a row are those of its parts.
parts :
    (bs cs : List ℕ) (m : Bytes) (at : ℕ)
    → load_bytes (length (bs ++ cs)) m at ≡ bs ++ cs
    → (load_bytes (length bs) m at ≡ bs) × (load_bytes (length cs) m (at + length bs) ≡ cs)
unfolding load_bytes
parts [] cs m at h = (refl, ap (λ j. load_bytes (length cs) m j) (omega arith) ∙ h)
parts (b ∷ bs) cs m at h =
    let (first, rest) = parts bs cs m (at + 1) (tail-eq_of_cons-eq h) in
    (
      ap₂ (λ x l. x ∷ l) (head-eq_of_cons-eq h) first,
      ap (λ j. load_bytes (length cs) m j) (omega arith) ∙ rest,
    )

skip_forward :
    (n : ℕ) (b : BufferView)
    → b.position + n < 2 ^ 31
    → skip n b ≡ ok (record b { position = b.position + n })
unfolding skip
skip_forward n b short = ground arith

-- One field.
read_lem :
    (f : Field) (t : ExcerptTailer) (w : World) (r : Region) (m : Bytes) (start : ℕ)
    → Fits f
    → region_at t.data_region w.store ≡ ok r
    → bytes_of r w.store ≡ ok m
    → t.buffer.start ≡ some start
    → t.buffer.position + length (write_field f) < 2 ^ 31
    → start + (t.buffer.position + length (write_field f)) ≤ r.size
    → load_bytes (length (write_field f)) m (start + t.buffer.position) ≡ write_field f
    → read (format_of f) (t, w)
      ≡ ok (
        f,
        record t {
          buffer = record (t.buffer) { position = t.buffer.position + length (write_field f) };
        },
        w,
      )
unfolding read
read_lem f t w r m start fits at there started short inside bytes =
    let k : ℕ = length (write_field f) in
    let p : ℕ = start + t.buffer.position in
    let n : ℕ = r.size - p - k in
    let rest = load_bytes n m (p + k) in
    let seen : load_bytes (r.size - p) m p ≡ write_field f ++ rest =
      ap (λ j. load_bytes j m p) (omega arith)
      ∙ load_bytes-add k n m p
      ∙ ap (λ l. l ++ rest) bytes in
    let taken : r.size - p - length rest ≡ k = omega (arith, length-load_bytes n m (p + k)) in
    rw
      (
        at,
        there,
        place_lem t.buffer start started (omega arith),
        seen,
        read_field-write_field f rest fits,
        taken,
        skip_forward k t.buffer short,
      )
      refl

-- All fields.
pub reads_lem :
    (fs : List Field) (t : ExcerptTailer) (w : World) (r : Region) (m : Bytes) (start : ℕ)
    → All Fits fs
    → region_at t.data_region w.store ≡ ok r
    → bytes_of r w.store ≡ ok m
    → t.buffer.start ≡ some start
    → t.buffer.position + length (write_fields fs) < 2 ^ 31
    → start + (t.buffer.position + length (write_fields fs)) ≤ r.size
    → load_bytes (length (write_fields fs)) m (start + t.buffer.position) ≡ write_fields fs
    → reads (map format_of fs) (t, w)
      ≡ ok (
        fs,
        record t {
          buffer = record (t.buffer) { position = t.buffer.position + length (write_fields fs) };
        },
        w,
      )
unfolding reads write_fields
reads_lem [] t w r m start fits at there started short inside bytes =
    ap (λ (p : ℕ). ok ([], record t { buffer = record (t.buffer) { position = p } }, w))
      (omega arith)
reads_lem (f ∷ fs) t w r m start (fit, fits) at there started short inside bytes =
    let k : ℕ = length (write_field f) in
    let whole = length-append (write_field f) (write_fields fs) in
    let (first, more) =
      parts (write_field f) (write_fields fs) m (start + t.buffer.position) bytes in
    let t1 : ExcerptTailer = record t {
      buffer = record (t.buffer) { position = t.buffer.position + k };
    } in
    let later =
      reads_lem fs t1 w r m start fits at there started (omega (arith, whole))
        (omega (arith, whole))
        (ap (load_bytes (length (write_fields fs)) m) (omega arith) ∙ more) in
    let behind : t.buffer.position + k + length (write_fields fs)
        ≡ t.buffer.position + length (write_field f ++ write_fields fs) =
      omega (arith, whole) in
    rw
      (
        read_lem f t w r m start fit at there started (omega (arith, whole)) (omega (arith, whole))
            first,
        later,
      )
      (ap (λ (p : ℕ). ok (f ∷ fs, record t { buffer = record (t.buffer) { position = p } }, w))
        behind)

-- If the writes of some fields, each of which fits its width, return, then a tailer whose data
-- region maps the same file with the same size, and whose view starts where the appender's did
-- and has the same position, reads the same fields with the matching readers and comes to the
-- place that the appender has come to. The position is not negative and lies in the mapping at
-- first.
pub reads-writes :
    (fs : List Field) (a a' : ExcerptAppender) (t : ExcerptTailer) (w w' : World) (r r' : Region)
    (m : Bytes) (start : ℕ)
    → All Fits fs
    → region_at a.data_region w.store ≡ ok r
    → bytes_of r w.store ≡ ok m
    → a.buffer.start ≡ some start
    → a.buffer.position < 2 ^ 31
    → start + a.buffer.position ≤ r.size
    → region_at t.data_region w.store ≡ ok r'
    → r'.path ≡ r.path
    → r'.size ≡ r.size
    → t.buffer.start ≡ some start
    → t.buffer.position ≡ a.buffer.position
    → writes fs (a, w) ≡ ok (a', w')
    → reads (map format_of fs) (t, w')
      ≡ ok (fs, record t { buffer = record (t.buffer) { position = a'.buffer.position } }, w')
reads-writes fs a a' t w w' r r' m start fits at there started small inside at' path size started'
      same h =
    let wrote = writes_lem fs a a' w w' r m start at there started small inside h in
    let bytes = load_bytes-store_bytes_self (write_fields fs) m (start + a.buffer.position) in
    let p : t.buffer.position + length (write_fields fs) ≡ a'.buffer.position =
      omega (arith, same, wrote.moved) in
    let there' : start + a.buffer.position ≡ start + t.buffer.position = omega arith in
    let memory = wrote.memory r' path in
    reads_lem fs t w' r' (store_bytes m (start + a.buffer.position) (write_fields fs)) start fits
      (wrote.regions t.data_region ∙ at') memory started' (omega (arith, p, wrote.positive))
      (omega (arith, p, wrote.mapped, size))
      (ap
          (load_bytes (length (write_fields fs))
            (store_bytes m (start + a.buffer.position) (write_fields fs)))
          (sym there')
        ∙ bytes)
    ∙ ap (λ (p : ℕ). ok (fs, record t { buffer = record (t.buffer) { position = p } }, w')) p
