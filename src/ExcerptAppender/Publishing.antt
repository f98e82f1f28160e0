-- ===== src/ExcerptAppender/Publishing.antt =====
-- Calls of `set_last_written_index` of cornelich/excerpt_appender.cpp at the same time: each has a
-- `last_written_index` of its own, and their accesses to that of the chronicle, which they share,
-- are interleaved in any order. The calls are numbered from 0.
use cornelich.Common.{ℕ, ◌^◌, ◌<◌, ◌≡◌, true, false}
use cornelich.Common.Words.{slt64}
use mathlib.Core.Logic.{ite}
use native.Mathlib.Decide.{ℕ_discrete}

-- Where a call stands, with its `last_written_index` and its `lwi`.
pub data Pc : Type 0 where
  idle : Pc
  looping : ℕ → Pc  -- at the head of the `while`
  loaded : ℕ → ℕ → Pc  -- `lwi` is loaded
  returned : ℕ → Pc

-- A step of one call, where the chronicle's index is `last`. A weak exchange may fail although the
-- index is still `lwi`.
pub data Move (last : ℕ) : Pc → ℕ → Pc → Type 0 where
  call : {v : ℕ} → v < 2 ^ 64 → Move last idle last (looping v)
  load : {v : ℕ} → Move last (looping v) last (loaded v last)
  enough : {v lwi : ℕ} → slt64 lwi v ≡ false → Move last (loaded v lwi) last (returned v)
  exchange : {v lwi : ℕ} → slt64 lwi v ≡ true → last ≡ lwi → Move last (loaded v lwi) v (returned v)
  fail : {v lwi : ℕ} → slt64 lwi v ≡ true → Move last (loaded v lwi) last (looping v)

pub record System : Type 0 where
  pub last : ℕ  -- m_last_written_index of the chronicle
  pub pc : ℕ → Pc

abbrev pub at : (ℕ → Pc) → ℕ → Pc → ℕ → Pc
at pc i p j = ite (ℕ_discrete i j) p (pc j)

pub data Step (s : System) : System → Type 0 where
  pick :
      (i : ℕ) {last : ℕ} {p : Pc}
      → Move s.last (s.pc i) last p
      → Step s (record { last = last; pc = at s.pc i p })

-- The states that some interleaving leads to.
pub data Reach (s : System) : System → Type 0 where
  here : Reach s s
  later : {t u : System} → Reach s t → Step t u → Reach s u
