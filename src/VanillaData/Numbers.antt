-- ===== src/VanillaData/Numbers.antt =====
-- cornelich/vanilla_data.cpp, the number of the next data file of a cycle and a thread.
use cornelich.Common.{
  ℕ, ◌-◌, ◌^◌, ◌==◌, Outcome, ok, undefined, if◌then◌else◌, List, [], ◌∷◌, ◌++◌, length, drop,
}
use cornelich.Common.Words.{minus_one32, slt32, add32, narrow}
use cornelich.Environment.{Environment, starts_with, data_file_name_prefix}
use cornelich.Files.{Name, File, Files, folder_files}
use cornelich.VanillaIndex.Scan.{parse_number}

-- `last_number + 1`, which has no meaning behind the last std::int32_t.
unfoldable pub behind_number : ℕ → Outcome ℕ
behind_number last_number =
    if narrow last_number == 2 ^ 31 - 1 then undefined else ok (add32 last_number 1)

module _ (env : Environment) where
  -- `data_prefix`, for a thread_id
  abbrev pub data_prefix : ℕ → Name
  data_prefix thread_id = data_file_name_prefix ++ (env.print_int thread_id ++ (b'-' ∷ []))

  -- The number behind the prefix.
  unfoldable pub data_number : Name → Name → ℕ
  unfolding parse_number
  data_number prefix name = parse_number env.qi_int (drop (length prefix) name) minus_one32

  -- The loop of `find_next_data_file_number`.
  unfoldable pub last_data_loop : Name → List (Name × File) → ℕ → ℕ
  unfolding data_number
  last_data_loop prefix [] last_number = last_number
  last_data_loop prefix ((name, _) ∷ files) last_number = last_data_loop prefix files (
      if starts_with name prefix
      then (if slt32 last_number (data_number prefix name)
          then data_number prefix name
          else last_number)
      else last_number)

  unfoldable pub find_next_data_file_number : Files → ℕ → ℕ → Outcome ℕ
  unfolding last_data_loop behind_number
  find_next_data_file_number fs cycle thread_id = behind_number (
      last_data_loop (data_prefix thread_id) (folder_files (env.date_from_cycle cycle) fs)
        minus_one32)
