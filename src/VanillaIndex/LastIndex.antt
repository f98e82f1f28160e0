-- ===== src/VanillaIndex/LastIndex.antt =====
-- cornelich/vanilla_chronicle.cpp, `last_index`: the index of the last excerpt, by the files.
use cornelich.Common.{ℕ, false, ◌==◌, if◌then◌else◌, Outcome, ok, ◌>>=◌}
use cornelich.Common.Words.{minus_one32, minus_one64, add64, sub64, shl64, widen, slt64}
use cornelich.Chronicle.{Chronicle}
use cornelich.Environment.{Environment}
use cornelich.Files.{is_some}
use cornelich.VanillaIndex.Mapped.{index_for}
use cornelich.VanillaIndex.Scan.{find_last_cycle, last_index_file_number}
use cornelich.VanillaIndex.Slots.{count_index_entries}
use cornelich.World.{World}
use cornelich.World.Access.{region_at, bytes_of}

-- The sum at the end of `last_index`.
unfoldable pub packed_last_index : Chronicle → ℕ → ℕ → ℕ → ℕ
packed_last_index c last_cycle last_file count_entries =
    let index_entry_number : ℕ = if slt64 0 count_entries then sub64 count_entries 1 else 0 in
    add64
      (add64 (shl64 (widen last_cycle) c.entries_for_cycle_bits)
        (shl64 (widen last_file) c.index_block_size_bits))
      index_entry_number

module _ (env : Environment) where
  unfoldable pub last_index : World → Outcome (World × ℕ)
  last_index w =
      let last_cycle : ℕ = find_last_cycle env w.store.files in
      let last_file : ℕ = last_index_file_number env w.store.files last_cycle minus_one32 in
      if last_cycle == minus_one32
      then ok (w, minus_one64)
      else if last_file == minus_one32
      then ok (w, minus_one64)
      else (index_for env last_cycle last_file false w >>= λ (w', p).
          if is_some p
          then (region_at p w'.store >>= λ r. bytes_of r w'.store >>= λ m.
              count_index_entries r m >>= λ n.
              ok (w', packed_last_index w'.chronicle last_cycle last_file n))
          else ok (w', minus_one64))
