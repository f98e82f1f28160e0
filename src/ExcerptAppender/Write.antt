-- ===== src/ExcerptAppender/Write.antt =====
-- The `write` templates of cornelich/excerpt_appender.h on the memory of the data region. Nothing
-- compares with the capacity; an access behind the mapping has no meaning.
pub mod Laws
pub mod Stays
use cornelich.Common.{
  ℕ, ◌+◌, leb, if◌then◌else◌, List, [], ◌∷◌, none, some, length, Outcome, ok, undefined, ◌>>=◌,
}
use cornelich.ExcerptAppender.{ExcerptAppender}
use cornelich.Formatters.{Field, write_field}
use cornelich.Memory.{Bytes, store_bytes}
use cornelich.Region.{Region}
use cornelich.Util.BufferView.{place, skip}
use cornelich.World.{World}
use cornelich.World.Access.{region_at, bytes_of, put_bytes}

-- What a writer does with the memory `m` of a region: its bytes at a place, and the position behind.
unfoldable pub put_at :
    ℕ → List ℕ → Region → Bytes → ExcerptAppender × World → Outcome (ExcerptAppender × World)
unfolding skip
put_at at bytes r m (a, w) =
    if leb (at + length bytes) r.size
    then (skip (length bytes) a.buffer >>= λ b. ok (
      record a { buffer = b },
      record w { store = put_bytes r (store_bytes m at bytes) w.store },
    ))
    else undefined

-- The same from `data() + position()` on.
unfoldable pub put : List ℕ → ExcerptAppender × World → Outcome (ExcerptAppender × World)
unfolding place put_at
put bytes (a, w) = region_at a.data_region w.store >>= λ r. bytes_of r w.store >>= λ m.
    elim (place a.buffer) [ none ↦ undefined | some at ↦ put_at at bytes r m (a, w) ]

-- `appender.write(…)`
unfoldable pub write : Field → ExcerptAppender × World → Outcome (ExcerptAppender × World)
unfolding put
write field aw = put (write_field field) aw

-- One call after the other.
unfoldable pub writes : List Field → ExcerptAppender × World → Outcome (ExcerptAppender × World)
unfolding write
writes [] aw = ok aw
writes (f ∷ fs) aw = write f aw >>= writes fs
