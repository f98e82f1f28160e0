-- ===== src/Scenarios/CycleBoundary.antt =====
-- cornelich_test/cornelich_read_write_cycle.cpp: a reader, a fast writer, and a slow writer that finishes
-- its excerpt in a cycle that the fast writer has left. What the other threads do to the shared
-- state before a call is an argument of the loops, with the time of the call.
use cornelich.Common.{
  ℕ, ◌+◌, ◌*◌, ◌%◌, ◌^◌, Bool, false, ◌==◌, if◌then◌else◌, List, [], ◌∷◌, ◌++◌, Outcome, ok,
  undefined, out_of_fuel, ◌>>=◌,
}
use Prim.Native.String.{String}
use cornelich.Common.Words.{shl64}
use cornelich.Environment.{Environment}
use cornelich.ExcerptAppender.{ExcerptAppender, excerpt_appender, start_excerpt, finish}
use cornelich.ExcerptAppender.Write.{writes}
use cornelich.ExcerptTailer.{Tailing, next_index}
use cornelich.ExcerptTailer.Read.{reads}
use cornelich.Formatters.{Field, Format}
use cornelich.Settings.{
  Settings, yyyymmddhhmm, settings, set_data_block_size, set_index_block_size, set_cycle_length,
  set_entries_per_cycle,
}
use cornelich.World.{World}

-- Cycles of a minute.
unfoldable pub minute_settings : String → Outcome Settings
minute_settings path =
    set_cycle_length
      (set_index_block_size (set_data_block_size (settings path) (shl64 1 20)) (shl64 1 13))
      (1000 * 60) (yyyymmddhhmm (1000 * 60)) false
    >>= λ s. ok (set_entries_per_cycle s (shl64 1 29))

-- A call's time, and what the other threads do to the shared state before it.
abbrev pub Moment : Type 0
Moment = ℕ × (World → World)

-- Whether the last number is 100.
unfoldable pub ends_with_100 : List ℕ → Bool
ends_with_100 [] = false
ends_with_100 (n ∷ []) = n == 100
ends_with_100 (n ∷ m ∷ numbers) = ends_with_100 (m ∷ numbers)

-- The int that an excerpt begins with.
unfoldable pub number_of : List Field → Outcome ℕ
number_of (Field.raw size v ∷ []) = ok v
number_of fields = undefined

module _ (env : Environment) where
  -- The excerpt with one number.
  unfoldable pub write_number :
      ℕ → ℕ → ℕ → ExcerptAppender × World → Outcome (ExcerptAppender × World)
  write_number now thread_id n aw =
      start_excerpt env now thread_id 32 aw >>= writes (Field.raw 4 n ∷ []) >>= finish env

  -- The slow writer: it holds its excerpt open until the lock is free.
  unfoldable pub slow_writer : ℕ → ℕ → (World → World) → World → Outcome (ExcerptAppender × World)
  slow_writer now thread_id others w =
      start_excerpt env now thread_id 32 (excerpt_appender, w) >>= λ (a, w').
      writes (Field.raw 4 9999 ∷ []) (a, others w') >>= finish env

  -- The `for` of the fast writer from the round of `i` on.
  unfoldable pub fast_writer_rounds :
      ℕ → ℕ → List Moment → ExcerptAppender × World → Outcome (ExcerptAppender × World)
  unfolding write_number
  fast_writer_rounds thread_id i [] aw = ok aw
  fast_writer_rounds thread_id i ((now, others) ∷ later) (a, w) =
      write_number now thread_id ((i + 1) % 2 ^ 32) (a, others w)
      >>= fast_writer_rounds thread_id (i + 1) later

  -- The reader, with the clock of each call of `next_index`: the numbers that it reads until one is 100.
  unfoldable pub reader : List ((ℕ → ℕ) × (World → World)) → List ℕ → Tailing → Outcome (List ℕ)
  unfolding ends_with_100 number_of
  reader [] numbers tw = if ends_with_100 numbers then ok numbers else out_of_fuel
  reader ((now, others) ∷ later) numbers (t, w) =
      let rest = reader later in
      if ends_with_100 numbers
      then ok numbers
      else (next_index env now (t, others w) >>= λ (tw, found).
          if found
          then (reads (Format.raw 4 ∷ []) tw >>= λ (fields, t', w').
              number_of fields >>= λ n. rest (numbers ++ (n ∷ [])) (t', w'))
          else rest numbers tw)

  -- The last loop of the test: all numbers, from the start until there is no excerpt.
  unfoldable pub read_all : List (ℕ → ℕ) → Tailing → Outcome (List ℕ)
  unfolding number_of
  read_all [] tw = out_of_fuel
  read_all (now ∷ later) tw =
      let rest = read_all later in
      next_index env now tw >>= λ (tw', found).
      if found
      then (reads (Format.raw 4 ∷ []) tw' >>= λ (fields, t, w).
          number_of fields >>= λ n. rest (t, w) >>= λ numbers. ok (n ∷ numbers))
      else ok []
