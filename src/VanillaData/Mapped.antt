-- ===== src/VanillaData/Mapped.antt =====
-- cornelich/vanilla_data.cpp, `data_for`.
use cornelich.Common.{ℕ, Bool, ◌++◌, Outcome, ok, ◌>>=◌}
use native.Mathlib.Decide.{ℕ_discrete}
use cornelich.Environment.{Environment}
use cornelich.Files.{make_file, is_some}
use cornelich.Util.Cache.{get}
use cornelich.VanillaData.Numbers.{data_prefix}
use cornelich.World.{RegionPtr, World}
use cornelich.World.Access.{make_region}

unfoldable pub key_discrete : Discrete (ℕ × (ℕ × ℕ))
unfolding ℕ_discrete
key_discrete = hlevel ℕ_discrete

module _ (env : Environment) where
  unfoldable pub data_for : ℕ → ℕ → ℕ → Bool → World → Outcome (World × RegionPtr)
  data_for cycle thread_id file_number for_write w =
      get key_discrete is_some w.data_cache (cycle, (thread_id, file_number))
        (λ (cycle', (thread_id', file_number')) st.
          make_file (env.date_from_cycle cycle')
            (data_prefix env thread_id' ++ env.print_int file_number') for_write st.files
          >>= λ (fs, path). ok (
              make_region path w.chronicle.data_block_size_bits file_number'
                (record st { files = fs })))
        w.store
      >>= λ (st, cache, p). ok (record w { store = st; data_cache = cache }, p)
