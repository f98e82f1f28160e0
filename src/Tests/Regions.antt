-- ===== src/Tests/Regions.antt =====
-- Runs of a region, the settings, the packing of indices and an index file.
use cornelich.Common.{some, ℕ, zero, suc, ◌+◌, ◌-◌, ◌*◌, ◌/◌, ◌^◌, ◌≤◌, ◌<◌, ◌≡◌, ◌≢◌, refl, arith}
use cornelich.Common.{◌==◌, if◌then◌else◌, [], ◌∷◌, ok, leb}
use cornelich.Common.Words.{minus_one64}
use cornelich.Util.MathUtil.{right_shift}
use cornelich.Chronicle.{Chronicle, chronicle}
use cornelich.Chronicle.Packing.{index_from, index_place, index_value, data_place}
use cornelich.Chronicle.PackingLaws.{
  IsSized, Constants, data_place-index_value_end, index_place-index_from, index_from_next,
  data_place-index_value,
}
use native.Mathlib.Decide.{ℕ_discrete}
use cornelich.Files.{FilePath}
use cornelich.Memory.{Bytes, load, store}
use cornelich.Region.{Region, cas64, in_range, limit, position, align_position}
use cornelich.Region.Positions.{IsValid, round_up, align_position_lem}
use cornelich.Settings.{Settings, yyyymmdd}
use cornelich.VanillaIndex.Race.{
  asked, System, idle, Reach, here, later, pick, call, lose, win, scanning, swapped, at,
}
use cornelich.VanillaIndex.RaceSafety.{NoneLost, append-NoneLost}
use cornelich.VanillaIndex.Slots.{append, count_index_entries}
use cornelich.VanillaIndex.SlotsRefine.{
  Holds, append-Holds, append_full, count_index_entries-length, moved_region, moved_bytes,
}

abbrev path : FilePath
path = record { cycle_string = 50 ∷ []; file_name = 51 ∷ [] }

abbrev small : Region
small = record {
  path = path;
  index = 0;
  size = 16;
  start_offset = 0;
  limit_offset = 16;
  position_offset = 5;
}

small-IsValid : IsValid small
small-IsValid = record { starts = refl; ends = refl; small = omega arith; within = omega arith }

align_position_lem_example :
    align_position small (2 ^ 2)
    ≡ ok (
        if leb (round_up small.position_offset 2) small.size
        then record small { position_offset = round_up small.position_offset 2 }
        else small)
align_position_lem_example = align_position_lem 2 small-IsValid (omega arith)

abbrev defaults : Settings
defaults = record {
  path = "base";
  thread_id_bits = 16;
  cycle_length = 86400000;
  cycle_format = yyyymmdd 86400000;
  entries_per_cycle = 2 ^ 40;
  index_block_size = 2 ^ 24;
  data_block_size = 2 ^ 26;
  index_cache_size = 8;
  data_cache_size = 16;
}

-- The logarithm of the powers of 2 that are used.
abbrev log2 : ℕ → ℕ
log2 n = if n == 2 ^ 24 then 24 else if n == 2 ^ 26 then 26 else 40

abbrev shared : Chronicle
shared = record {
  settings = defaults;
  index_block_size_bits = 24;
  index_block_size_mask = 2 ^ 24 - 1;
  index_block_longs_bits = 21;
  index_block_longs_mask = 2 ^ 21 - 1;
  data_block_size_bits = 26;
  data_block_size_mask = 2 ^ 26 - 1;
  entries_for_cycle_bits = 40;
  entries_for_cycle_mask = 2 ^ 40 - 1;
  last_written_index = minus_one64;
}

shared_constructed : chronicle log2 defaults ≡ shared
unfolding chronicle right_shift
shared_constructed = refl

defaults-IsSized : IsSized defaults 21 19 26
defaults-IsSized = record {
  index_block = refl;
  cycle_entries = refl;
  data_block = refl;
  index_bits = omega arith;
  cycle_bits = omega arith;
  block_bits = omega arith;
  some_thread_bits = omega arith;
  offset_bits = omega arith;
}

shared-Constants : Constants defaults 21 19 26 shared
shared-Constants = record {
  same_settings = refl;
  size_shift = refl;
  cycle_shift = refl;
  cycle_mask = refl;
  longs_shift = refl;
  longs_mask = refl;
  block_shift = refl;
  block_mask = refl;
}

index_place-index_from_example :
    index_place shared (index_from shared 17000 3 40)
    ≡ record { cycle_for_index = 17000; index_file_number = 3; index_offset = 40 / 8 }
index_place-index_from_example =
    index_place-index_from defaults-IsSized shared shared-Constants 17000 3 40 (omega arith)
      (omega arith) (omega arith) (omega arith) (omega arith)

index_from_next_example : index_from shared 17000 3 40 + 1 ≡ (
    if 40 + 8 == 2 ^ 24
    then index_from shared 17000 (3 + 1) 0
    else index_from shared 17000 3 (40 + 8))
index_from_next_example =
    index_from_next defaults-IsSized shared shared-Constants 17000 3 40 (omega arith) (omega arith)
      (omega arith)

data_place-index_value_example :
    data_place shared (index_value shared 4321 2 100)
    ≡ record { thread_id = 4321; data_file_number = 2; data_offset = 100 }
data_place-index_value_example =
    data_place-index_value defaults-IsSized shared shared-Constants 4321 2 100 (omega arith)
      (omega arith) (omega arith) (omega arith) (omega arith)

-- An index region of two slots, the first of which holds 9.
abbrev two_slots : Region
two_slots = record small { position_offset = 0 }

abbrev nine : Bytes
nine i = if i == 0 then 9 else 0

two_slots-Holds : Holds two_slots nine (9 ∷ [])
unfolding load
two_slots-Holds = record {
  valid = record { starts = refl; ends = refl; small = omega arith; within = omega arith };
  aligned = refl;
  behind = omega arith;
  at_slot = refl;
  room = omega arith;
  written = λ i h. one_entry i h;
  slots = λ i h. two_reads i h;
}
  where
    one_entry : (i : ℕ) → i < 1 → cornelich.VanillaIndex.SlotsRefine.slot (9 ∷ []) i ≢ 0
    one_entry zero h = omega arith
    one_entry (suc i) h = omega arith

    two_reads :
        (i : ℕ)
        → 8 * i + 8 ≤ 16
        → load 8 nine (8 * i) ≡ cornelich.VanillaIndex.SlotsRefine.slot (9 ∷ []) i
    two_reads zero h = refl
    two_reads (suc zero) h = refl
    two_reads (suc (suc i)) h = omega arith

append-Holds_example :
    (append two_slots nine 7
      ≡ ok (moved_region two_slots-Holds 7, moved_bytes two_slots-Holds 7, 8 * 1))
    × Holds (moved_region two_slots-Holds 7) (moved_bytes two_slots-Holds 7) (9 ∷ (7 ∷ []))
append-Holds_example = append-Holds two_slots-Holds 7 (omega arith) (omega arith) (omega arith)

count_index_entries-length_example : count_index_entries two_slots nine ≡ ok 1
count_index_entries-length_example = count_index_entries-length two_slots-Holds

-- An appender finds the first slot taken and puts its value into the second one.
abbrev quiet : System
quiet = record { region = two_slots; bytes = nine; pc = λ i. idle }

abbrev called : System
called = record quiet { pc = at quiet.pc 0 (scanning 7 0) }

abbrev lost : System
lost = record quiet { pc = at called.pc 0 (scanning 7 8) }

abbrev won : System
won = record { region = two_slots; bytes = store 8 nine 8 7; pc = at lost.pc 0 (swapped 7 8) }

won-Reach : Reach quiet won
unfolding cas64 in_range load limit position ℕ_discrete
won-Reach =
    later (later (later here (pick 0 (call {v = 7} (omega arith)))) (pick 0 (lose refl refl)))
      (pick 0 (win refl refl))

only_seven : (i : ℕ) → asked (won.pc i) ≢ some 0
only_seven i e = ground (arith, e)

append-NoneLost_example : NoneLost (9 ∷ []) won
append-NoneLost_example =
    append-NoneLost two_slots-Holds (λ i. refl) won-Reach (λ i e. only_seven i e)

data_place-index_value_end_example :
    data_place shared (index_value shared 4321 2 (2 ^ 26))
    ≡ record { thread_id = 4321; data_file_number = 3; data_offset = 0 }
data_place-index_value_end_example =
    data_place-index_value_end defaults-IsSized shared shared-Constants 4321 2 (omega arith)
      (omega arith) (omega arith) (omega arith)
