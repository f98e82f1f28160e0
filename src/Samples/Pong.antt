-- ===== src/Samples/Pong.antt =====
-- cornelich_sample/pong.cpp: threads that read what ping.cpp writes and check the numbers. The parser
-- of the command line, the removal of old files and the measured times are left out.
pub mod Numbered
use cornelich.Common.{
  ℕ, zero, suc, ◌+◌, ◌-◌, ◌*◌, ◌%◌, ◌^◌, Bool, true, false, not, ◌||◌, ◌&&◌, ◌==◌, ltb,
  if◌then◌else◌, List, [], ◌∷◌, Option, none, some, Outcome, ok, undefined, out_of_fuel, length,
  ◌>>=◌,
}
use Prim.Native.String.{String}
use mathlib.Core.Logic.{ite, ◌↔◌}
use native.Mathlib.Decide.{ℕ_discrete}
use cornelich.Common.Words.{widen}
use cornelich.Environment.{Environment}
use cornelich.ExcerptTailer.{ExcerptTailer, Tailing, excerpt_tailer, next_index}
use cornelich.ExcerptTailer.Read.{reads}
use cornelich.Files.{Name, Name-discrete}
use cornelich.Formatters.{Field, Format, raw, stop_bit, chars}
use cornelich.Samples.Ping.{magic, foo_bar, another_foo_bar}
use cornelich.World.{World}

-- EXPECTED1 and EXPECTED2
abbrev pub expected1 : Name
expected1 = foo_bar

abbrev pub expected2 : Name
expected2 = another_foo_bar

-- The options and their defaults.
pub record PongOptions : Type 0 where
  pub input : String
  pub max_count : ℕ
  pub writer_threads : ℕ
  pub reader_threads : ℕ
  pub delete : Bool

abbrev pub pong_defaults : PongOptions
pong_defaults = record {
  input = "/tmp/__test/chr";
  max_count = 10000000;
  writer_threads = 4;
  reader_threads = 4;
  delete = false;
}

-- `max_count` of the threads, an std::size_t
unfoldable pub excerpts_expected : PongOptions → ℕ
excerpts_expected o = o.writer_threads * o.max_count % 2 ^ 64

-- `std::map<int, int> counts`: a key that is not there counts 0.
abbrev pub Counts : Type 0
Counts = ℕ → ℕ

abbrev pub no_counts : Counts
no_counts id = 0

unfoldable pub counted : ℕ → Counts → Counts
counted id counts j = ite (ℕ_discrete id j) ((counts id + 1) % 2 ^ 32) (counts j)

-- `counts[id]++`: the count before, where an int that overflows has no meaning.
unfoldable pub count_up : ℕ → Counts → Outcome (ℕ × Counts)
unfolding counted
count_up id counts =
    if counts id == 2 ^ 31 - 1 then undefined else ok (counts id, counted id counts)

unfoldable pub same_text : Name → Name → Bool
same_text [] [] = true
same_text [] (c ∷ t) = false
same_text (b ∷ s) [] = false
same_text (b ∷ s) (c ∷ t) = b == c && same_text s t

abbrev pub pong_formats : List Format
pong_formats = Format.raw 4 ∷ Format.stop_bit ∷ Format.raw 8 ∷ Format.chars ∷ Format.chars ∷ []

-- The test of an excerpt: the counts, and whether a value is unexpected.
unfoldable pub check_values : ℕ → ℕ → ℕ → Name → Name → Counts → Outcome (Counts × Bool)
unfolding count_up same_text
check_values id val long_value text1 text2 counts = count_up id counts >>= λ (count, counts'). ok (
  counts',
  not (widen count == val)
      || (not (long_value == magic)
          || (not (same_text text1 expected1) || not (same_text text2 expected2))),
)

-- The same on the fields that `pong_formats` reads; there are no others.
unfoldable pub check_fields : List Field → Counts → Outcome (Counts × Bool)
unfolding check_values
check_fields
      (Field.raw _ id
        ∷ Field.stop_bit val
        ∷ Field.raw _ long_value
        ∷ Field.chars text1
        ∷ Field.chars text2
        ∷ [])
      counts =
    check_values id val long_value text1 text2 counts
check_fields fields counts = undefined

-- The `while` of a thread, over what a round's `next_index` and reads do to a state, which may be any:
-- what the thread returns. `rounds` bounds the rounds, of which the code has as many as it takes.
unfoldable pub pong_loop :
    {S : Type 0}
    → (S → Outcome (Option (List Field) × S))
    → ℕ
    → (rounds : ℕ) → ℕ
    → Counts
    → S
    → Outcome ℕ
unfolding check_fields
pong_loop look max_count zero count counts s = out_of_fuel
pong_loop look max_count (suc rounds) count counts s =
    let again = pong_loop look max_count rounds in
    if count == max_count
    then ok 0
    else (look s >>= λ (found, s'). elim found [
      | none ↦ again count counts s'
      | some fields ↦ check_fields fields counts >>= λ (counts', unexpected).
          if unexpected then ok 1 else again ((count + 1) % 2 ^ 32) counts' s'
    ])

module _ (env : Environment) where
  -- `next_index`, and the reads if it finds an excerpt. The clocks of the calls are part of the state,
  -- with what the writers do to the shared state before each.
  unfoldable pub pong_look :
      List ((ℕ → ℕ) × (World → World)) × Tailing
      → Outcome (Option (List Field) × (List ((ℕ → ℕ) × (World → World)) × Tailing))
  pong_look ([], (t, w)) = out_of_fuel
  pong_look ((now, written) ∷ later, (t, w)) =
      next_index env now (t, written w) >>= λ ((t', w'), found).
      if found
      then (reads pong_formats (t', w') >>= λ (fields, t'', w'').
          ok (some fields, (later, (t'', w''))))
      else ok (none, (later, (t', w')))

  -- A thread.
  unfoldable pub pong_thread : List ((ℕ → ℕ) × (World → World)) → ℕ → World → Outcome ℕ
  unfolding pong_loop pong_look
  pong_thread rounds max_count w =
      pong_loop (pong_look) max_count (suc (length rounds)) 0 no_counts
        (rounds, (excerpt_tailer, w))
