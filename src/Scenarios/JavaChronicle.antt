-- ===== src/Scenarios/JavaChronicle.antt =====
-- cornelich_test/reading_java_chronicle.cpp: a chronicle that the Java library has written, in two days
-- by 4 threads with 1000 excerpts each, is read and checked. `clock` gives the times that a call
-- reads by the number of calls that a loop may still make.
use cornelich.Common.{
  ℕ, zero, suc, ◌+◌, ◌%◌, ◌^◌, Bool, true, false, ◌&&◌, ◌==◌, if◌then◌else◌, List, [], ◌∷◌, Outcome,
  ok, out_of_fuel, ◌>>=◌,
}
use mathlib.Core.Logic.{ite}
use native.Mathlib.Decide.{ℕ_discrete}
use Prim.Native.String.{String}
use cornelich.Common.Words.{minus_one64, widen}
use cornelich.Chronicle.{Chronicle, chronicle}
use cornelich.Environment.{Environment}
use cornelich.ExcerptTailer.{Tailing, excerpt_tailer, next_index, to_end, position}
use cornelich.ExcerptTailer.Read.{reads}
use cornelich.Formatters.{Field, Format}
use cornelich.Settings.{settings, set_thread_id_bits}
use cornelich.VanillaIndex.LastIndex.{last_index}
use cornelich.World.{World}

-- LAST_INDEX_IN_SAMPLE_CHRONICLE
abbrev pub last_index_in_sample : ℕ
last_index_in_sample = 0x41710000000f9f

abbrev pub pattern64 : ℕ
pattern64 = 0x0123456789abcdef

-- The reads of a whole excerpt, and of its front.
abbrev pub java_formats : List Format
java_formats =
    Format.raw 8
    ∷ Format.raw 4
    ∷ Format.raw 8
    ∷ Format.raw 4
    ∷ Format.raw 4
    ∷ Format.raw 4
    ∷ Format.raw 4
    ∷ Format.raw 4
    ∷ []

abbrev pub front_formats : List Format
front_formats = Format.raw 8 ∷ Format.raw 4 ∷ []

-- The chronicle of the test data.
unfoldable pub sample_chronicle : (ℕ → ℕ) → String → Chronicle
sample_chronicle log2 path = chronicle log2 (set_thread_id_bits (settings path) 15)

-- Whether the values that were read are the given ones.
unfoldable pub same_values : List Field → List ℕ → Bool
same_values [] [] = true
same_values (Field.raw size v ∷ fs) (w ∷ ws) = v == w && same_values fs ws
same_values fs ws = false

unfoldable pub first_value : List Field → ℕ
first_value (Field.raw size v ∷ fs) = v
first_value fs = 0

module _ (env : Environment) (clock : ℕ → ℕ → ℕ) where
  -- "A non-existent chronicle"
  unfoldable pub missing_chronicle : World → Outcome Bool
  missing_chronicle w = last_index env w >>= λ (w', last). ok (last == minus_one64)

  -- "An existing chronicle"
  unfoldable pub existing_chronicle : World → Outcome Bool
  existing_chronicle w = last_index env w >>= λ (w', last).
      ok (last == last_index_in_sample && excerpt_tailer.index == minus_one64)

  -- "Tailer can go to the end"
  unfoldable pub goes_to_end : World → Outcome Bool
  goes_to_end w = to_end env (excerpt_tailer, w) >>= λ (t, w'). ok (t.index == last_index_in_sample)

  -- `while(tailer.next_index()) ++count;`
  unfoldable pub count_excerpts : ℕ → ℕ → Tailing → Outcome ℕ
  count_excerpts zero count tw = out_of_fuel
  count_excerpts (suc calls) count tw =
      let rest = count_excerpts calls ((count + 1) % 2 ^ 32) in
      next_index env (clock calls) tw >>= λ (tw', found). if found then rest tw' else ok count

  -- "The number of elements in the chronicle is correct"
  unfoldable pub right_number : ℕ → World → Outcome Bool
  unfolding count_excerpts
  right_number calls w = count_excerpts calls 0 (excerpt_tailer, w) >>= λ count. ok (count == 8000)

  -- The inner `for`, with `count` excerpts to go: the tailer behind them, and whether each thread's
  -- numbers are in order.
  unfoldable pub aggregate_day : ℕ → (ℕ → ℕ) → Tailing → Outcome (Tailing × Bool)
  aggregate_day zero counts tw = ok (tw, true)
  aggregate_day (suc count) counts tw =
      let rest = aggregate_day count in
      next_index env (clock count) tw >>= λ ((t, w), found).
      reads front_formats (t, w) >>= λ (fields, t', w').
      (let id : ℕ = first_value fields in
        if same_values fields (id ∷ widen (counts id) ∷ [])
        then rest (λ j. ite (ℕ_discrete id j) (counts id + 1) (counts j)) (t', w')
        else ok ((t', w'), false))

  -- "Aggregates computed from the contents are correct", for two days
  unfoldable pub right_aggregates : World → Outcome Bool
  unfolding aggregate_day
  right_aggregates w = aggregate_day 4000 (λ id. 0) (excerpt_tailer, w) >>= λ (tw, first).
      if first then (aggregate_day 4000 (λ id. 0) tw >>= λ (tw', second). ok second) else ok false

  -- The excerpt at hand has 40 bytes with the given values, and reading it leads to its end.
  unfoldable pub right_excerpt : List ℕ → Tailing → Outcome (Tailing × Bool)
  unfolding same_values
  right_excerpt values (t, w) =
      if t.buffer.position == 0 && t.buffer.limit == 40
      then (reads java_formats (t, w) >>= λ (fields, t', w').
          ok ((t', w'), same_values fields values && t'.buffer.position == 40))
      else ok ((t, w), false)

  -- Back to the front of the excerpt, and the first value again.
  unfoldable pub reads_again : Tailing → Outcome (Tailing × Bool)
  unfolding same_values position
  reads_again (t, w) =
      if (position 0 t).1
      then (reads (Format.raw 8 ∷ []) ((position 0 t).0, w) >>= λ (fields, t', w').
          ok ((t', w'), same_values fields (3 ∷ []) && t'.buffer.position == 8))
      else ok ((t, w), false)

  -- `next_index` so often, whatever it finds
  unfoldable pub go_on : ℕ → Tailing → Outcome Tailing
  go_on zero tw = ok tw
  go_on (suc count) tw =
      let rest = go_on count in next_index env (clock count) tw >>= λ (tw', found). rest tw'

  -- "Iterating through the chronicle checking the contents", with the calls for the final loop
  unfoldable pub right_contents : ℕ → World → Outcome Bool
  unfolding right_excerpt reads_again go_on count_excerpts
  right_contents calls w = next_index env (clock 0) (excerpt_tailer, w) >>= λ (tw, found).
      if found
      then (right_excerpt (3 ∷ 0 ∷ pattern64 ∷ 1 ∷ 2 ∷ 3 ∷ 4 ∷ 5 ∷ []) tw >>= λ (tw1, first).
          reads_again tw1 >>= λ (tw2, again). go_on 3456 tw2 >>= λ tw3.
          right_excerpt (1 ∷ 864 ∷ pattern64 ∷ 1 ∷ 2 ∷ 3 ∷ 4 ∷ 5 ∷ []) tw3 >>= λ (tw4, middle).
          count_excerpts calls 3457 tw4 >>= λ count.
          ok (first && (again && (middle && count == 8000))))
      else ok false
