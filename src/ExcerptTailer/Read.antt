-- ===== src/ExcerptTailer/Read.antt =====
-- The `read` templates of cornelich/excerpt_tailer.h on the memory of the data region. Nothing compares
-- with the limit; an access behind the mapping has no meaning.
pub mod Laws
use cornelich.Common.{◌-◌, List, [], ◌∷◌, none, some, length, Outcome, ok, undefined, ◌>>=◌}
use cornelich.ExcerptTailer.{ExcerptTailer, Tailing}
use cornelich.Formatters.{Field, Format, read_field}
use cornelich.Memory.{load_bytes}
use cornelich.Util.BufferView.{place, skip}
use cornelich.World.{World}
use cornelich.World.Access.{region_at, bytes_of}

-- `tailer.read(…)`: the reader sees the memory from `data() + position()` to the end of the mapping.
unfoldable pub read : Format → Tailing → Outcome (Field × ExcerptTailer × World)
unfolding place skip
read format (t, w) = region_at t.data_region w.store >>= λ r. bytes_of r w.store >>= λ m.
    elim (place t.buffer) [
      | none ↦ undefined
      | some at ↦ read_field format (load_bytes (r.size - at) m at) >>= λ (field, rest).
          skip (r.size - at - length rest) t.buffer >>= λ b. ok (field, record t { buffer = b }, w)
    ]

-- One call after the other.
unfoldable pub reads : List Format → Tailing → Outcome (List Field × ExcerptTailer × World)
unfolding read
reads [] (t, w) = ok ([], t, w)
reads (f ∷ fs) (t, w) = read f (t, w) >>= λ (field, t', w').
    reads fs (t', w') >>= λ (fields, t'', w''). ok (field ∷ fields, t'', w'')
