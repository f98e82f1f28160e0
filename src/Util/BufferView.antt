-- ===== src/Util/BufferView.antt =====
-- cornelich/util/buffer_view.h: a window on the bytes of an excerpt. The pointer is where the window
-- starts in the memory of its region, none for `nullptr`. `m_index` refers to the index of the owner.
use cornelich.Common.{
  ℕ, ◌+◌, ◌-◌, ◌%◌, ◌^◌, ltb, leb, if◌then◌else◌, Option, none, some, Outcome, ok, undefined,
}
use cornelich.Common.Words.{sub32, is_neg32}

pub record BufferView : Type 0 where
  pub start : Option ℕ
  pub position : ℕ  -- std::int32_t
  pub limit : ℕ  -- std::int32_t

-- `reset()`
unfoldable pub clear : BufferView → BufferView
clear b = record { start = none; position = 0; limit = 0 }

-- `reset(data, position, limit)`
unfoldable pub reset : ℕ → ℕ → ℕ → BufferView → BufferView
reset address position limit b = record { start = some address; position = position; limit = limit }

unfoldable pub remaining : BufferView → ℕ
remaining b = sub32 b.limit b.position

-- `data() + position()`, none if that lies before the memory of the region or there is no data.
unfoldable pub place : BufferView → Option ℕ
place b = elim b.start [
  | none ↦ none
  | some start ↦
      if is_neg32 b.position
      then (if leb (2 ^ 32 - b.position) start then some (start + b.position - 2 ^ 32) else none)
      else some (start + b.position)
]

-- `position() += taken`, where an std::int32_t that overflows has no meaning.
unfoldable pub skip : ℕ → BufferView → Outcome BufferView
skip taken b =
    if ltb ((b.position + 2 ^ 31) % 2 ^ 32 + taken) (2 ^ 32)
    then ok (record b { position = (b.position + taken) % 2 ^ 32 })
    else undefined
