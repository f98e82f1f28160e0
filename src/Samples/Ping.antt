-- ===== src/Samples/Ping.antt =====
-- cornelich_sample/ping.cpp: threads that write numbered excerpts. The parser of the command line, the
-- removal of the old files and the measured times are left out.
use cornelich.Common.{ℕ, zero, suc, ◌+◌, ◌%◌, ◌^◌, Bool, false, List, [], ◌∷◌, Outcome, ok, ◌>>=◌}
use Prim.Native.String.{String}
use cornelich.Environment.{Environment}
use cornelich.Chronicle.{Chronicle, chronicle}
use cornelich.ExcerptAppender.{ExcerptAppender, excerpt_appender, start_excerpt, finish}
use cornelich.ExcerptAppender.Write.{writes}
use cornelich.Files.{Name}
use cornelich.Formatters.{Field}
use cornelich.Settings.{settings, set_thread_id_bits}
use cornelich.World.{World}

-- The options and their defaults.
pub record PingOptions : Type 0 where
  pub output : String
  pub max_count : ℕ
  pub writer_threads : ℕ
  pub delete : Bool

abbrev pub ping_defaults : PingOptions
ping_defaults = record {
  output = "/tmp/__test/chr";
  max_count = 10000000;
  writer_threads = 4;
  delete = false;
}

-- The chronicle at a path, with 16 bits for the id of a thread.
unfoldable pub ping_chronicle : (ℕ → ℕ) → String → Chronicle
ping_chronicle log2 path = chronicle log2 (set_thread_id_bits (settings path) 16)

abbrev pub magic : ℕ
magic = 0x0badcafedeadbeef

-- "FooBar"
abbrev pub foo_bar : Name
foo_bar = b'F' ∷ b'o' ∷ b'o' ∷ b'B' ∷ b'a' ∷ b'r' ∷ []

-- "AnotherFooBar"
abbrev pub another_foo_bar : Name
another_foo_bar =
    b'A' ∷ b'n' ∷ b'o' ∷ b't' ∷ b'h' ∷ b'e' ∷ b'r' ∷ b'F' ∷ b'o' ∷ b'o' ∷ b'B' ∷ b'a' ∷ b'r' ∷ []

-- What thread `tid` writes as its excerpt `i`, both of type unsigned.
unfoldable pub ping_fields : ℕ → ℕ → List Field
ping_fields tid i =
    Field.raw 4 tid
    ∷ Field.stop_bit i
    ∷ Field.raw 8 magic
    ∷ Field.chars foo_bar
    ∷ Field.chars another_foo_bar
    ∷ []

module _ (env : Environment) where
  -- A round of the thread's `for`, at a time; `thread_id` is the system's number of the thread.
  unfoldable pub ping_round :
      ℕ → ℕ → ℕ → ℕ → ExcerptAppender × World → Outcome (ExcerptAppender × World)
  ping_round thread_id tid now i aw =
      start_excerpt env now thread_id 8192 aw >>= writes (ping_fields tid i) >>= finish env

  -- The `for` of a thread that runs alone, with `count` rounds to go from `i` on.
  unfoldable pub ping_rounds :
      (ℕ → ℕ)
      → ℕ
      → ℕ
      → (count : ℕ) → ℕ
      → ExcerptAppender × World
      → Outcome (ExcerptAppender × World)
  unfolding ping_round
  ping_rounds clock thread_id tid zero i aw = ok aw
  ping_rounds clock thread_id tid (suc count) i aw =
      ping_round thread_id tid (clock i) i aw
      >>= ping_rounds clock thread_id tid count ((i + 1) % 2 ^ 32)

  -- A thread: its appender, and the excerpts from 0 to `max_count`.
  unfoldable pub ping_thread : (ℕ → ℕ) → ℕ → ℕ → ℕ → World → Outcome (ExcerptAppender × World)
  unfolding ping_rounds
  ping_thread clock thread_id tid max_count w =
      ping_rounds clock thread_id tid max_count 0 (excerpt_appender, w)
