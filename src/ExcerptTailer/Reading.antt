-- ===== src/ExcerptTailer/Reading.antt =====
-- What the tailer opens is what the appender closed.
use cornelich.Common.{ℕ, ◌/◌, ◌^◌, ◌<◌, ◌≡◌, bit_and, ◌∙◌, arith}
use cornelich.Common.{true, false, ◌==◌, some, Option-cases, inl, inr, ok, >>=-eq-ok}
use cornelich.Common.Words.{sub32, not32}
use mathlib.Core.Path.{subst}
use cornelich.ExcerptAppender.{ExcerptAppender, write_length}
use cornelich.ExcerptTailer.{ExcerptTailer, open_excerpt}
use cornelich.Files.{find_file}
use cornelich.Files.Laws.{find_file-put_file_self}
use cornelich.Memory.{Bytes, load-store_self}
use cornelich.Region.{Region, read_ordered32, write_ordered32, in_range}
use cornelich.Util.BufferView.{reset}
use cornelich.World.{World, Store}
use cornelich.World.Access.{region_at, bytes_of, put_bytes}
use cornelich.World.Writes.{region_at-put_bytes}

pub bytes_of-put_bytes :
    (r r' : Region) (m m' : Bytes) (st : Store)
    → r'.path ≡ r.path
    → bytes_of r st ≡ ok m
    → bytes_of r' (put_bytes r m' st) ≡ ok m'
unfolding bytes_of put_bytes
bytes_of-put_bytes r r' m m' st same h = elim (Option-cases (find_file r.path st.files)) [
  | inl e ↦ ground arith
  | inr (f, e) ↦ ground (arith, find_file-put_file_self r.path (record f { bytes = m' }) st.files)
]

-- A word that is written is read through another mapping of the same size.
read_ordered32-write_ordered32 :
    (r r' : Region) (m m' : Bytes) (offset v : ℕ)
    → r'.size ≡ r.size
    → bit_and offset 3 ≡ 0
    → v < 2 ^ 32
    → write_ordered32 r m offset v ≡ ok m'
    → read_ordered32 r' m' offset ≡ ok v
unfolding read_ordered32 write_ordered32 in_range
read_ordered32-write_ordered32 r r' m m' offset v size aligned small h =
    ground (arith, load-store_self 4 m offset v)

-- The way of `open_excerpt` to its end.
pub opens :
    (t : ExcerptTailer) (w : World) (r : Region) (m : Bytes) (i start len : ℕ)
    → region_at t.data_region w.store ≡ ok r
    → bytes_of r w.store ≡ ok m
    → read_ordered32 r m (sub32 start 4) ≡ ok len
    → (len == 0) ≡ false
    → (not32 len / 2 ^ 30 == 0) ≡ true
    → open_excerpt i start (t, w)
      ≡ ok (
        (
          record t {
            index = i;
            buffer = record { start = some start; position = 0; limit = not32 len };
          },
          w,
        ),
        true,
      )
unfolding open_excerpt reset
opens t w r m i start len h1 h2 h3 h4 h5 = rw (h1, h2, h3, h4, h5)

-- When the appender has written the length of an excerpt of less than 2 ^ 30 bytes that starts at
-- a multiple of 4, a tailer with a mapping of the same file and size opens a view that starts
-- there and has that length as its limit.
pub open_excerpt-write_length :
    (a : ExcerptAppender) (t : ExcerptTailer) (w : World) (r r' : Region) (st' : Store)
    (i start : ℕ)
    → region_at t.data_region w.store ≡ ok r'
    → r'.path ≡ r.path
    → r'.size ≡ r.size
    → bit_and (sub32 start 4) 3 ≡ 0
    → a.buffer.position < 2 ^ 30
    → write_length a r start w.store ≡ ok st'
    → open_excerpt i start (t, record w { store = st' })
      ≡ ok (
        (
          record t {
            index = i;
            buffer = record { start = some start; position = 0; limit = a.buffer.position };
          },
          record w { store = st' },
        ),
        true,
      )
unfolding write_length
open_excerpt-write_length a t w r r' st' i start at path size aligned short h =
    let (m, hm, h1) = >>=-eq-ok (bytes_of r w.store) _ h in
    let (m', hw, h2) =
      >>=-eq-ok (write_ordered32 r m (sub32 start 4) (not32 a.buffer.position))
        (λ m'. ok (put_bytes r m' w.store)) h1 in
    let small : not32 a.buffer.position < 2 ^ 32 = ground arith in
    let read =
      read_ordered32-write_ordered32 r r' m m' (sub32 start 4) (not32 a.buffer.position) size
        aligned small hw in
    let bytes = bytes_of-put_bytes r r' m m' w.store path hm in
    let stored : put_bytes r m' w.store ≡ st' = ground arith in
    let there : region_at t.data_region st' ≡ ok r' =
      subst (λ s. region_at t.data_region s ≡ ok r') stored
        (region_at-put_bytes t.data_region r m' w.store ∙ at) in
    let twice : not32 (not32 a.buffer.position) ≡ a.buffer.position = omega arith in
    subst
      (λ n.
        open_excerpt i start (t, record w { store = st' })
        ≡ ok (
          (
            record t { index = i; buffer = record { start = some start; position = 0; limit = n } },
            record w { store = st' },
          ),
          true,
        ))
      twice
      (opens t (record w { store = st' }) r' m' i start (not32 a.buffer.position) there
        (subst (λ s. bytes_of r' s ≡ ok m') stored bytes) read (ground arith) (ground arith))
