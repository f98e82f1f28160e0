-- ===== src/Samples/Basic.antt =====
-- cornelich_sample/basic_write.cpp, basic_read.cpp: a number and a text, written and read.
use cornelich.Common.{Option, if◌then◌else◌, ℕ, List, [], ◌∷◌, none, some, Outcome, ok, ◌>>=◌}
use cornelich.Environment.{Environment}
use cornelich.ExcerptAppender.{ExcerptAppender, start_excerpt, finish}
use cornelich.ExcerptAppender.Write.{writes}
use cornelich.ExcerptTailer.{ExcerptTailer, Tailing, next_index}
use cornelich.ExcerptTailer.Read.{reads}
use cornelich.Files.{Files, Name}
use cornelich.Formatters.{Field, Format}
use cornelich.Settings.{settings}
use cornelich.World.{World}
use cornelich.World.Clients.{open_chronicle, create_appender}

-- "Some text"
abbrev pub some_text : Name
some_text = b'S' ∷ b'o' ∷ b'm' ∷ b'e' ∷ b' ' ∷ b't' ∷ b'e' ∷ b'x' ∷ b't' ∷ []

abbrev pub basic_fields : List Field
basic_fields = Field.raw 4 42 ∷ Field.chars some_text ∷ []

abbrev pub basic_formats : List Format
basic_formats = Format.raw 4 ∷ Format.chars ∷ []

module _ (env : Environment) (log2 : ℕ → ℕ) where
  -- `main` of basic_write.cpp, at a time and in a thread, over the files that it finds.
  unfoldable pub basic_write : ℕ → ℕ → Files → Outcome (ExcerptAppender × World)
  basic_write now thread_id fs =
      start_excerpt env now thread_id 1024
        (create_appender (open_chronicle log2 (settings "/tmp/example") fs))
      >>= writes basic_fields
      >>= finish env

  -- A round of the `while` of basic_read.cpp: what it prints, none if `next_index` finds nothing.
  unfoldable pub basic_read_round :
      (ℕ → ℕ) → Tailing → Outcome (Option (List Field) × ExcerptTailer × World)
  basic_read_round now tw = next_index env now tw >>= λ ((t, w), found).
      if found
      then (reads basic_formats (t, w) >>= λ (fields, t', w'). ok (some fields, t', w'))
      else ok (none, t, w)

  -- The rounds with the given clocks: what they print.
  unfoldable pub basic_read : List (ℕ → ℕ) → Tailing → Outcome (List (List Field))
  unfolding basic_read_round
  basic_read [] tw = ok []
  basic_read (now ∷ later) tw = basic_read_round now tw >>= λ (printed, t, w).
      basic_read later (t, w) >>= λ lines. elim printed [
        | none ↦ ok lines
        | some fields ↦ ok (fields ∷ lines)
      ]
