-- ===== src/VanillaIndex/Scan.antt =====
-- cornelich/vanilla_index.cpp, the questions that are answered by listing folders: the first and the
-- last cycle, and the last index file of a cycle.
use cornelich.Common.{
  ℕ, ◌-◌, ◌^◌, ◌==◌, if◌then◌else◌, List, [], ◌∷◌, Option, none, some, length, drop,
}
use cornelich.Common.Words.{minus_one32, slt32}
use cornelich.Environment.{Environment, starts_with, index_file_name_prefix}
use cornelich.Files.{Name, File, folder, plain, Files, folder_files}

-- `std::numeric_limits<std::int32_t>::max()`
abbrev pub int32_max : ℕ
int32_max = 2 ^ 31 - 1

-- `parse_number(begin, end, target)` of util/parse.h, as the value of `target` after it
unfoldable pub parse_number : (Name → Option ℕ) → Name → ℕ → ℕ
parse_number qi_int text target = elim (qi_int text) [ some n ↦ n | none ↦ target ]

module _ (env : Environment) where
  -- The loop of `find_first_cycle`.
  unfoldable pub first_cycle_loop : Files → ℕ → ℕ
  first_cycle_loop [] first_cycle = first_cycle
  first_cycle_loop ((name, plain) ∷ entries) first_cycle = first_cycle_loop entries first_cycle
  first_cycle_loop ((name, folder _) ∷ entries) first_cycle = first_cycle_loop entries (
      if slt32 (env.cycle_from_date name) first_cycle
      then env.cycle_from_date name
      else first_cycle)

  unfoldable pub find_first_cycle : Files → ℕ
  unfolding first_cycle_loop
  find_first_cycle [] = minus_one32
  find_first_cycle (e ∷ entries) =
      let first_cycle = first_cycle_loop (e ∷ entries) int32_max in
      if first_cycle == int32_max then minus_one32 else first_cycle

  -- The loop of `find_last_cycle`.
  unfoldable pub last_cycle_loop : Files → ℕ → ℕ
  last_cycle_loop [] last_cycle = last_cycle
  last_cycle_loop ((name, plain) ∷ entries) last_cycle = last_cycle_loop entries last_cycle
  last_cycle_loop ((name, folder _) ∷ entries) last_cycle =
      last_cycle_loop entries (
        if slt32 last_cycle (env.cycle_from_date name)
        then env.cycle_from_date name
        else last_cycle)

  unfoldable pub find_last_cycle : Files → ℕ
  unfolding last_cycle_loop
  find_last_cycle fs = last_cycle_loop fs minus_one32

  -- The number in the name of an index file. The text is read from one before the end of the prefix.
  unfoldable pub index_number : Name → ℕ
  unfolding parse_number
  index_number name =
      parse_number env.qi_int (drop (length index_file_name_prefix - 1) name) minus_one32

  -- The loop of `last_index_file_number`.
  unfoldable pub last_index_loop : List (Name × File) → ℕ → ℕ
  unfolding index_number
  last_index_loop [] last_number = last_number
  last_index_loop ((name, _) ∷ files) last_number = last_index_loop files (
      if starts_with name index_file_name_prefix
      then (if slt32 last_number (index_number name) then index_number name else last_number)
      else last_number)

  unfoldable pub last_index_file_number : Files → ℕ → ℕ → ℕ
  unfolding last_index_loop
  last_index_file_number fs cycle default_cycle =
      let last_number = last_index_loop (folder_files (env.date_from_cycle cycle) fs) minus_one32 in
      if last_number == minus_one32 then default_cycle else last_number
