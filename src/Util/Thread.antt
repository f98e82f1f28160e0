-- ===== src/Util/Thread.antt =====
-- cornelich/util/thread.cpp: the number of the thread, and how many bits such numbers take.
pub mod Width
use cornelich.Common.{ℕ, ◌+◌, ◌-◌, ◌%◌, ◌^◌, Option, none, some}
use cornelich.Common.{Outcome, ok, throws, runtime_error, ◌>>=◌}
use cornelich.Common.Words.{add32}
use cornelich.Util.MathUtil.{log2_bits}

-- `get_native_thread_id()`: `tid` is the thread's variable, none before its first call, and `gettid`
-- what the system call answers now. The variable after the call, and the result.
unfoldable pub get_native_thread_id : ℕ → Option ℕ → Option ℕ × ℕ
get_native_thread_id gettid none = (some (gettid % 2 ^ 32), gettid % 2 ^ 32)
get_native_thread_id gettid (some tid) = (some tid, tid)

-- `thread_id_bits()`: `threads_max` is the number at the front of /proc/sys/kernel/threads-max as the
-- stream reads it into an unsigned, none if there is no such file.
unfoldable pub thread_id_bits : (ℕ → ℕ) → Option ℕ → Outcome ℕ
thread_id_bits clz none = throws runtime_error
thread_id_bits clz (some v) =
    log2_bits clz ((v + 2 ^ 32 - 1) % 2 ^ 32) >>= λ bits. ok (add32 bits 1)
