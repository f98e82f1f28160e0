-- ===== src/VanillaIndex/Mapped.antt =====
-- cornelich/vanilla_index.cpp over the mapped files of a cycle: `index_for`, and `append(cycle, …)`,
-- which goes through the index files from a number on.
use cornelich.Common.{ℕ, zero, suc, Bool, true, ◌++◌, if◌then◌else◌}
use cornelich.Common.{Outcome, ok, throws, out_of_fuel, logic_error, ◌>>=◌}
use cornelich.Common.Words.{slt32, add32, is_neg64}
use native.Mathlib.Decide.{ℕ_discrete}
use cornelich.Environment.{Environment, index_file_name_prefix}
use cornelich.Files.{make_file, is_some}
use cornelich.Util.Cache.{get}
use cornelich.VanillaIndex.Slots.{append}
use cornelich.World.{RegionPtr, Store, World}
use cornelich.World.Access.{region_at, put_region, bytes_of, put_bytes, make_region}

unfoldable pub key_discrete : Discrete (ℕ × ℕ)
unfolding ℕ_discrete
key_discrete = hlevel ℕ_discrete

-- `append(region &, index_value)` through a pointer
unfoldable pub append_at : RegionPtr → ℕ → Store → Outcome (Store × ℕ)
append_at p index_value st = region_at p st >>= λ r. bytes_of r st >>= λ m.
    append r m index_value >>= λ (r', m', position).
    ok (put_bytes r' m' (put_region p r' st), position)

module _ (env : Environment) where
  unfoldable pub index_for : ℕ → ℕ → Bool → World → Outcome (World × RegionPtr)
  index_for cycle file_number append w =
      get key_discrete is_some w.index_cache (cycle, file_number)
        (λ (cycle', file_number') st.
          make_file (env.date_from_cycle cycle')
            (index_file_name_prefix ++ env.print_int file_number') append st.files
          >>= λ (fs, path). ok (
              make_region path w.chronicle.index_block_size_bits file_number'
                (record st { files = fs })))
        w.store
      >>= λ (st, cache, p). ok (record w { store = st; index_cache = cache }, p)

  -- The `for` of `append(cycle, index_value, file_number)`, with `index_count` for its variable.
  unfoldable pub append_files : ℕ → ℕ → ℕ → ℕ → World → Outcome (World × RegionPtr × ℕ)
  append_files zero cycle index_value index_count w = out_of_fuel
  append_files (suc fuel) cycle index_value index_count w =
      let next = append_files fuel cycle index_value (add32 index_count 1) in
      if slt32 index_count 10000
      then (index_for cycle index_count true w >>= λ (w', p).
          if is_some p
          then (append_at p index_value w'.store >>= λ (st, position).
              if is_neg64 position
              then next (record w' { store = st })
              else ok (record w' { store = st }, p, position))
          else next w')
      else throws logic_error

  -- At most a round for each number from `file_number` to 10000, and one for -1.
  unfoldable pub append_cycle : ℕ → ℕ → ℕ → World → Outcome (World × RegionPtr × ℕ)
  append_cycle cycle index_value file_number w = append_files 10002 cycle index_value file_number w
