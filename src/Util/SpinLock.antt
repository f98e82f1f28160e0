-- ===== src/Util/SpinLock.antt =====
-- cornelich/util/spin_lock.h: a lock on one atomic flag, with a back-off that doubles its pause and
-- then yields. Any number of threads, numbered from 0, are interleaved at their atomic steps.
pub mod Exclusion
use cornelich.Common.{ℕ, ◌+◌, ◌*◌, ◌/◌, ◌%◌, ◌^◌, Bool, true, false, ◌==◌, bit_and, if◌then◌else◌}
use mathlib.Core.Logic.{ite}
use native.Mathlib.Decide.{ℕ_discrete}

-- What a call of the back-off does: `wait(delay)` or `sched_yield()`, and the count it leaves.
pub data Pause : Type 0 where
  wait : ℕ → Pause
  yield : Pause

-- `default_backoff<n>::operator()`; the count is an std::uint_fast32_t of 64 bits.
unfoldable pub backoff : ℕ → ℕ → Pause × ℕ
backoff n count =
    if bit_and count (2 ^ n) == 0 then (wait count, count * 2 % 2 ^ 64) else (yield, count)

-- Where a thread stands: outside, in the `while` of `lock` with the count of its back-off, or
-- between `lock` and `unlock`.
pub data Pc : Type 0 where
  outside : Pc
  locking : ℕ → Pc
  inside : Pc

pub record System : Type 0 where
  pub flag : Bool
  pub pc : ℕ → Pc

abbrev pub at : (ℕ → Pc) → ℕ → Pc → ℕ → Pc
at pc i p j = ite (ℕ_discrete i j) p (pc j)

abbrev pub initial : System
initial = record { flag = false; pc = λ _. outside }

-- An atomic step of one thread on the flag. `lock()` begins with a fresh back-off; `test_and_set` sets
-- the flag and answers what it was; `unlock()` clears it.
pub data Move : Bool → Pc → Bool → Pc → Type 0 where
  begin_lock : {f : Bool} → Move f outside f (locking 1)
  acquire : {n : ℕ} → Move false (locking n) true inside
  spin : {n : ℕ} → Move true (locking n) true (locking (backoff 5 n).1)
  unlock : {f : Bool} → Move f inside false outside

pub data Step (s : System) : System → Type 0 where
  pick :
      (i : ℕ) {f : Bool} {p : Pc}
      → Move s.flag (s.pc i) f p
      → Step s (record { flag = f; pc = at s.pc i p })

pub data Reach : System → Type 0 where
  start : Reach initial
  later : {s t : System} → Reach s → Step s t → Reach t
