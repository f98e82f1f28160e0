-- ===== src/VanillaIndex/Race.antt =====
-- Appenders of one index region at the same time: each runs `vanilla_index::append(region &, value)`
-- of cornelich/vanilla_index.cpp, and their accesses to the region are interleaved in any order.
-- The threads are numbered from 0; they share the region object, its position included.
use cornelich.Common.{ℕ, ◌^◌, ◌<◌, ◌≡◌, true, false, Option, none, some, ok}
use cornelich.Common.Words.{slt32, add32, sub32}
use cornelich.Memory.{Bytes}
use cornelich.Region.{Region, cas64, position, set_position, limit}
use mathlib.Core.Logic.{ite}
use native.Mathlib.Decide.{ℕ_discrete}

-- Where an appender stands, with its `index_value` and its `position`.
pub data Pc : Type 0 where
  idle : Pc
  scanning : ℕ → ℕ → Pc  -- in the `while`
  swapped : ℕ → ℕ → Pc  -- the compare-and-swap has succeeded
  returned : ℕ → ℕ → Pc  -- the position is returned
  refused : ℕ → Pc  -- -1 is returned

-- A step of one appender.
pub data Move (r : Region) (m : Bytes) : Pc → Region → Bytes → Pc → Type 0 where
  call : {v : ℕ} → v < 2 ^ 64 → Move r m idle r m (scanning v (position r))
  eof : {v p : ℕ} → slt32 (sub32 (limit r) p) 8 ≡ true → Move r m (scanning v p) r m (refused v)
  lose :
      {v p : ℕ} {m' : Bytes}
      → slt32 (sub32 (limit r) p) 8 ≡ false
      → cas64 r m p 0 v ≡ ok (m', false)
      → Move r m (scanning v p) r m' (scanning v (add32 p 8))
  win :
      {v p : ℕ} {m' : Bytes}
      → slt32 (sub32 (limit r) p) 8 ≡ false
      → cas64 r m p 0 v ≡ ok (m', true)
      → Move r m (scanning v p) r m' (swapped v p)
  move_on :
      {v p : ℕ} {r' : Region}
      → set_position r (add32 p 8) ≡ (r', true)
      → Move r m (swapped v p) r' m (returned v p)

pub record System : Type 0 where
  pub region : Region
  pub bytes : Bytes
  pub pc : ℕ → Pc

abbrev pub at : (ℕ → Pc) → ℕ → Pc → ℕ → Pc
at pc i p j = ite (ℕ_discrete i j) p (pc j)

pub data Step (s : System) : System → Type 0 where
  pick :
      (i : ℕ) {r : Region} {m : Bytes} {p : Pc}
      → Move s.region s.bytes (s.pc i) r m p
      → Step s (record { region = r; bytes = m; pc = at s.pc i p })

-- The states that some interleaving leads to.
pub data Reach (s : System) : System → Type 0 where
  here : Reach s s
  later : {t u : System} → Reach s t → Step t u → Reach s u

-- The `index_value` that an appender was called with.
abbrev pub asked : Pc → Option ℕ
asked idle = none
asked (scanning v p) = some v
asked (swapped v p) = some v
asked (returned v p) = some v
asked (refused v) = some v

-- The value that an appender has put into the region, and where.
abbrev pub placed : Pc → Option (ℕ × ℕ)
placed idle = none
placed (scanning v p) = none
placed (swapped v p) = some (v, p)
placed (returned v p) = some (v, p)
placed (refused v) = none
