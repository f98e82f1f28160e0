-- ===== src/Scenarios/TestData.antt =====
-- cornelich_test/write_test_data.h: the excerpts that the tests of a chronicle write.
use cornelich.Common.{ℕ, zero, suc, ◌+◌, ◌%◌, ◌^◌, List, [], ◌∷◌, Outcome, ok, ◌>>=◌}
use cornelich.Environment.{Environment}
use cornelich.ExcerptAppender.{ExcerptAppender, start_excerpt, finish}
use cornelich.ExcerptAppender.Write.{writes}
use cornelich.Formatters.{Field}
use cornelich.World.{World}

-- The fields of excerpt `i`; `id` and `i` are of type std::uint32_t.
abbrev pub test_fields : ℕ → ℕ → List Field
test_fields id i =
    Field.raw 4 id
    ∷ Field.raw 4 i
    ∷ Field.raw 8 0x0123456789abcdef
    ∷ Field.raw 4 1
    ∷ Field.raw 4 2
    ∷ Field.raw 4 3
    ∷ Field.raw 4 4
    ∷ Field.raw 4 5
    ∷ []

-- `clock` gives the time at which excerpt `i` is started, and `post_single_append` what the call of
-- that name does; it does nothing by default.
module _ (env : Environment) (clock : ℕ → ℕ) (thread_id : ℕ)
    (post_single_append : ExcerptAppender × World → ExcerptAppender × World) where
  -- The `for`, with `rounds` to go from `i` on.
  unfoldable pub write_from :
      ℕ → (rounds : ℕ) → ℕ → ExcerptAppender × World → Outcome (ExcerptAppender × World)
  write_from id zero i aw = ok aw
  write_from id (suc rounds) i aw =
      start_excerpt env (clock i) thread_id 128 aw
      >>= writes (test_fields id i)
      >>= finish env
      >>= λ aw'. write_from id rounds ((i + 1) % 2 ^ 32) (post_single_append aw')

  unfoldable pub write_test_data :
      ℕ → ℕ → ExcerptAppender × World → Outcome (ExcerptAppender × World)
  unfolding write_from
  write_test_data id count aw = write_from id count 0 aw
