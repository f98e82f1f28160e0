-- ===== src/Tests/Directories.antt =====
-- Runs of what is read from directories. A number is printed as one symbol, and a folder is named by
-- its cycle.
use cornelich.Common.{ok, ℕ, ◌-◌, ◌%◌, ◌^◌, ◌≤◌, ◌<◌, ◌≡◌, ◌≢◌, ◌⊎◌, inl, inr, refl, arith}
use cornelich.Common.{
  true, false, ◌==◌, if◌then◌else◌, List, [], ◌∷◌, ◌++◌, Option, none, some, All,
}
use cornelich.Common.Assoc.{lookup}
use cornelich.Common.Words.{minus_one32}
use native.Mathlib.Decide.{ℕ_discrete}
use cornelich.Environment.{Environment, NumeralLaws, starts_with, index_file_name_prefix}
use cornelich.Files.{
  Name, Name-discrete, File, folder, plain, Files, folder_files, find_file, is_some,
}
use cornelich.VanillaData.Fresh.{
  data_file, find_next_data_file_number_greater, find_next_data_file_number_fresh,
}
use cornelich.VanillaData.Numbers.{
  data_prefix, find_next_data_file_number, last_data_loop, data_number, behind_number,
}
use cornelich.VanillaIndex.LastFile.{WellNamed, last_index_file_number-stuck}
use cornelich.VanillaIndex.Scan.{
  parse_number, find_first_cycle, find_last_cycle, last_index_file_number,
}
use cornelich.VanillaIndex.ScanLaws.{
  key, Among, cycles, find_first_cycle_min, find_first_cycle_stray, find_last_cycle_max,
}

abbrev cycle_of : Name → ℕ
cycle_of [] = minus_one32
cycle_of (c ∷ []) = c % 2 ^ 32
cycle_of (c ∷ (d ∷ name)) = minus_one32

abbrev number_of : Name → Option ℕ
number_of [] = none
number_of (n ∷ []) = some n
number_of (s ∷ (n ∷ rest)) = if s == 45 then some ((2 ^ 32 - n) % 2 ^ 32) else none

abbrev pub environment : Environment
environment = record {
  date_from_cycle = λ c. c ∷ [];
  cycle_from_date = cycle_of;
  print_int = λ n. n ∷ [];
  qi_int = number_of;
}

environment-NumeralLaws : NumeralLaws environment
environment-NumeralLaws = record { qi_int-print_int = λ n h. refl; qi_int-minus = λ n h. refl }

abbrev empty : File
empty = record { size = 0; bytes = λ i. 0 }

abbrev index_name : ℕ → Name
index_name n = index_file_name_prefix ++ (n ∷ [])

abbrev data_name : ℕ → Name
data_name n = data_prefix environment 4 ++ (n ∷ [])

-- Two cycles, the second with index files 0 and 5 and a data file 2 of thread 4; and a stray file.
abbrev some_files : List (Name × File)
some_files = (index_name 0, empty) ∷ (index_name 5, empty) ∷ (data_name 2, empty) ∷ []

abbrev two_cycles : Files
two_cycles = (300 ∷ [], folder []) ∷ (7 ∷ 7 ∷ [], plain) ∷ (400 ∷ [], folder some_files) ∷ []

find_first_cycle_min_example :
    ((cycles environment two_cycles ≡ []) × (find_first_cycle environment two_cycles ≡ minus_one32))
    ⊎ (Among (find_first_cycle environment two_cycles) (cycles environment two_cycles)
        × All (λ c. find_first_cycle environment two_cycles ≤ c) (cycles environment two_cycles))
find_first_cycle_min_example =
    find_first_cycle_min environment two_cycles (omega arith, (omega arith, tt))

abbrev with_stray : Files
with_stray = (7 ∷ 7 ∷ [], folder []) ∷ two_cycles

find_first_cycle_stray_example : find_first_cycle environment with_stray ≡ minus_one32
find_first_cycle_stray_example =
    find_first_cycle_stray environment with_stray (inl refl)
      (omega arith, (omega arith, (omega arith, tt)))
      (omega arith, (omega arith, (omega arith, tt)))

find_last_cycle_max_example :
    All (λ c. key c ≤ key (find_last_cycle environment with_stray)) (cycles environment with_stray)
    × ((find_last_cycle environment with_stray ≡ minus_one32)
        ⊎ Among (find_last_cycle environment with_stray) (cycles environment with_stray))
find_last_cycle_max_example =
    find_last_cycle_max environment with_stray (omega arith, (omega arith, (omega arith, tt)))
      (omega arith, (omega arith, (omega arith, tt)))

files_of_cycle : folder_files (400 ∷ []) two_cycles ≡ some_files
unfolding folder_files lookup Name-discrete ℕ_discrete
files_of_cycle = refl

All-WellNamed : All (λ f. WellNamed environment (f.0)) (folder_files (400 ∷ []) two_cycles)
unfolding folder_files lookup Name-discrete ℕ_discrete starts_with
All-WellNamed = (inr (0, omega arith, refl), (inr (5, omega arith, refl), (inl refl, tt)))

last_index_file_number-stuck_example :
    (last_index_file_number environment two_cycles 400 minus_one32 ≡ minus_one32)
    ⊎ (last_index_file_number environment two_cycles 400 minus_one32 ≡ 0)
last_index_file_number-stuck_example =
    last_index_file_number-stuck environment environment-NumeralLaws two_cycles 400 minus_one32
      All-WellNamed

two_there : is_some (find_file (data_file environment 400 4 2) two_cycles) ≡ true
unfolding is_some find_file folder_files lookup Name-discrete ℕ_discrete
two_there = refl

next_number : find_next_data_file_number environment two_cycles 400 4 ≡ ok 3
unfolding find_next_data_file_number behind_number last_data_loop data_number parse_number
    starts_with folder_files lookup Name-discrete ℕ_discrete
next_number = refl

find_next_data_file_number_greater_example : 2 < 3
find_next_data_file_number_greater_example =
    find_next_data_file_number_greater environment environment-NumeralLaws two_cycles 400 4 2 3
      (omega arith) two_there next_number

find_next_data_file_number_fresh_example :
    is_some (find_file (data_file environment 400 4 3) two_cycles) ≡ false
find_next_data_file_number_fresh_example =
    find_next_data_file_number_fresh environment environment-NumeralLaws two_cycles 400 4 3
      next_number

no_plain : lookup Name-discrete (500 ∷ []) two_cycles ≢ some plain
unfolding lookup Name-discrete ℕ_discrete
no_plain = λ h. cc
