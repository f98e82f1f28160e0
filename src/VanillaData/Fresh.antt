-- ===== src/VanillaData/Fresh.antt =====
-- The next data file number is one that no file has.
use cornelich.Common.{ℕ, ◌^◌, ◌≤◌, ◌<◌, ◌≡◌, ◌≢◌, ◌-◌, ok, sym, ap, ◌∙◌, arith}
use cornelich.Common.{
  ◌⊎◌, inl, inr, Bool-cases, Bool, true, false, if◌then◌else◌, List, [], ◌∷◌, ◌++◌, none, some,
  drop-append,
}
use cornelich.Common.Words.{minus_one32, slt32, add32, narrow}
use cornelich.Common.Assoc.{lookup}
use mathlib.Core.Path.{subst}
use cornelich.Environment.{Environment, NumeralLaws, starts_with, starts_with-append}
use cornelich.Files.{Name, Name-discrete, File, Files, FilePath, folder_files, find_file, is_some}
use cornelich.VanillaIndex.Scan.{parse_number}
use cornelich.VanillaIndex.ScanLaws.{key}
use cornelich.VanillaData.Numbers.{
  data_prefix, data_number, last_data_loop, behind_number, find_next_data_file_number,
}

lookup_cons :
    (name other : Name) (f : File) (files : List (Name × File))
    → is_some (lookup Name-discrete name ((other, f) ∷ files)) ≡ true
    → (other ≡ name) ⊎ (is_some (lookup Name-discrete name files) ≡ true)
unfolding lookup is_some
lookup_cons name other f files h = ground arith

behind_number_lem :
    (last n : ℕ) → behind_number last ≡ ok n → (narrow last ≢ 2 ^ 31 - 1) × (n ≡ add32 last 1)
unfolding behind_number
behind_number_lem last n e = ground arith

module _ (env : Environment) where
  -- The path of the data file `k` of a cycle and a thread.
  abbrev pub data_file : ℕ → ℕ → ℕ → FilePath
  data_file cycle thread_id k = record {
    cycle_string = env.date_from_cycle cycle;
    file_name = data_prefix env thread_id ++ env.print_int k;
  }

  abbrev raised : Bool → ℕ → ℕ → ℕ
  raised b n last = if b then (if slt32 last n then n else last) else last

  raised-le : (b : Bool) (n last : ℕ) → key last ≤ key (raised b n last)
  raised-le b n last = ground arith

  raised-ge : (n last : ℕ) → key n ≤ key (raised true n last)
  raised-ge n last = ground arith

  loop-le :
      (prefix : Name) (files : List (Name × File)) (last : ℕ)
      → key last ≤ key (last_data_loop env prefix files last)
  unfolding last_data_loop
  loop-le prefix [] last = omega arith
  loop-le prefix ((name, f) ∷ files) last =
      let now = raised-le (starts_with name prefix) (data_number env prefix name) last in
      let later =
        loop-le prefix files
          (raised (starts_with name prefix) (data_number env prefix name) last) in
      omega arith

  -- The loop ends at no less than the number of a file that it passes.
  loop-ge :
      (prefix name : Name) (files : List (Name × File)) (last : ℕ)
      → starts_with name prefix ≡ true
      → is_some (lookup Name-discrete name files) ≡ true
      → key (data_number env prefix name) ≤ key (last_data_loop env prefix files last)
  unfolding last_data_loop is_some lookup
  loop-ge prefix name [] last h found = ground arith
  loop-ge prefix name ((other, f) ∷ files) last h found =
      elim (lookup_cons name other f files found) [
        | inl e ↦
            let here : key (data_number env prefix name)
                ≤ key (raised (starts_with other prefix) (data_number env prefix other) last) =
              subst
                (λ o.
                  key (data_number env prefix name)
                  ≤ key (raised (starts_with o prefix) (data_number env prefix o) last))
                (sym e)
                (subst
                  (λ b.
                    key (data_number env prefix name)
                    ≤ key (raised b (data_number env prefix name) last))
                  (sym h) (raised-ge (data_number env prefix name) last)) in
            let later =
              loop-le prefix files
                (raised (starts_with other prefix) (data_number env prefix other) last) in
            omega arith
        | inr rest ↦ loop-ge prefix name files _ h rest
      ]

module _ (env : Environment) (laws : NumeralLaws env) where
  data_number-name :
      (thread_id k : ℕ)
      → k < 2 ^ 31
      → data_number env (data_prefix env thread_id) (data_prefix env thread_id ++ env.print_int k)
        ≡ k
  unfolding data_number parse_number
  data_number-name thread_id k h =
      ap (λ o. elim o [ some n ↦ n | none ↦ minus_one32 ])
        (ap env.qi_int (drop-append (data_prefix env thread_id) (env.print_int k))
          ∙ laws.qi_int-print_int k h)

  -- If printed numbers are read back and `find_next_data_file_number` returns a number, each
  -- data file that the thread has in the cycle, with a number of std::int32_t, has a smaller
  -- number than that.
  pub find_next_data_file_number_greater :
      (fs : Files) (cycle thread_id k n : ℕ)
      → k < 2 ^ 31
      → is_some (find_file (data_file env cycle thread_id k) fs) ≡ true
      → find_next_data_file_number env fs cycle thread_id ≡ ok n
      → k < n
  unfolding find_next_data_file_number find_file
  find_next_data_file_number_greater fs cycle thread_id k n h found next =
      let files = folder_files (env.date_from_cycle cycle) fs in
      let name = data_prefix env thread_id ++ env.print_int k in
      let ge =
        loop-ge env (data_prefix env thread_id) name files minus_one32
          (starts_with-append (data_prefix env thread_id) (env.print_int k)) found in
      above _ (last_data_loop env (data_prefix env thread_id) files minus_one32) ge
        (data_number-name thread_id k h) next
    where
      above : (m last : ℕ) → key m ≤ key last → m ≡ k → behind_number last ≡ ok n → k < n
      above m last ge e next = let (room, number) = behind_number_lem last n next in omega arith

  next_small :
      (fs : Files) (cycle thread_id n : ℕ)
      → find_next_data_file_number env fs cycle thread_id ≡ ok n
      → n < 2 ^ 31
  unfolding find_next_data_file_number
  next_small fs cycle thread_id n next =
      let files = folder_files (env.date_from_cycle cycle) fs in
      below (last_data_loop env (data_prefix env thread_id) files minus_one32)
        (loop-le env (data_prefix env thread_id) files minus_one32) next
    where
      below : (last : ℕ) → key minus_one32 ≤ key last → behind_number last ≡ ok n → n < 2 ^ 31
      below last low next = let (room, number) = behind_number_lem last n next in omega arith

  -- If printed numbers are read back, the thread has no data file yet in the cycle with the
  -- number that `find_next_data_file_number` returns.
  pub find_next_data_file_number_fresh :
      (fs : Files) (cycle thread_id n : ℕ)
      → find_next_data_file_number env fs cycle thread_id ≡ ok n
      → is_some (find_file (data_file env cycle thread_id n) fs) ≡ false
  find_next_data_file_number_fresh fs cycle thread_id n next =
      elim (Bool-cases (is_some (find_file (data_file env cycle thread_id n) fs))) [
        | inl there ↦
            let less =
              find_next_data_file_number_greater fs cycle thread_id n n
                (next_small fs cycle thread_id n next) there next in
            ground arith
        | inr absent ↦ absent
      ]
