-- ===== src/Tests/Searching.antt =====
-- A tailer's search over the files of one cycle, which hold one excerpt.
use cornelich.Common.{◌+◌, ◌*◌, ◌^◌, ◌≡◌, refl, arith, Bool, true, false, [], ◌∷◌, ◌++◌}
use cornelich.Common.{Outcome, ok, throws, undefined, out_of_fuel}
use cornelich.Common.Assoc.{lookup, insert}
use cornelich.Common.Words.{not32}
use native.Mathlib.Decide.{ℕ_discrete}
use cornelich.Environment.{index_file_name_prefix}
use cornelich.ExcerptAppender.{cycle_for_now}
use cornelich.ExcerptTailer.{
  ExcerptTailer, Tailing, excerpt_tailer, index, ensure_index_region, ensure_data_region,
  follow_entry, open_excerpt, arrive, seek_loop, seek_within, seek, next_index,
}
use cornelich.ExcerptTailer.Next.{Clock}
use cornelich.ExcerptTailer.Forward.{Ahead, next_index-Ahead}
use cornelich.Files.{
  Name-discrete, File, folder, Files, make_file, ensure_directory, create_mapping, folder_files,
  find_file, put_file, is_some,
}
use cornelich.Memory.{store, load}
use cornelich.Region.{region, in_range, read_ordered64, read_ordered32}
use cornelich.Settings.{index_data_offset_bits, index_data_offset_mask}
use cornelich.Tests.Directories.{environment}
use cornelich.Tests.Excerpts.{small_chronicle}
use cornelich.Util.BufferView.{reset}
use cornelich.Util.Cache.{get, find, pop_front, store as store_entry}
use cornelich.VanillaData.Mapped.{data_for, key_discrete as data_key_discrete}
use cornelich.VanillaData.Numbers.{data_prefix}
use cornelich.VanillaIndex.Mapped.{index_for, key_discrete}
use cornelich.World.{World, world}
use cornelich.World.Access.{region_at, bytes_of, make_region}

-- Thread 4 has written 7 bytes behind their length at the front of its first data file.
abbrev index_file : File
index_file = record { size = 64; bytes = store 8 (λ i. 0) 0 (4 * 2 ^ 48 + 4) }

abbrev data_file : File
data_file = record { size = 64; bytes = store 4 (λ i. 0) 0 (not32 7) }

abbrev files : Files
files =
    (
      5 ∷ [],
      folder (
          (index_file_name_prefix ++ (0 ∷ []), index_file)
          ∷ (data_prefix environment 4 ++ (0 ∷ []), data_file)
          ∷ []),
    )
    ∷ []

abbrev before : World
before = world small_chronicle files

abbrev behind : ExcerptTailer
behind = record excerpt_tailer { index = 319 }

abbrev result : Outcome (Tailing × Bool)
result = next_index environment (λ k. 475200000) (behind, before)

abbrev found : Outcome (Tailing × Bool) → Bool
found (ok (tw, b)) = b
found (throws e) = false
found undefined = false
found out_of_fuel = false

abbrev state : Outcome (Tailing × Bool) → Tailing
state (ok (tw, b)) = tw
state (throws e) = (behind, before)
state undefined = (behind, before)
state out_of_fuel = (behind, before)

found-eq :
    (o : Outcome (Tailing × Bool)) → found o ≡ true → o ≡ ok (((state o).0, (state o).1), true)
found-eq (ok (tw, true)) h = refl
found-eq (ok (tw, false)) h = cc
found-eq (throws e) h = cc
found-eq undefined h = cc
found-eq out_of_fuel h = cc

finds : found result ≡ true
unfolding next_index seek seek_within seek_loop cycle_for_now arrive index ensure_index_region
    ensure_data_region follow_entry open_excerpt region_at bytes_of index_for data_for get find
    store_entry pop_front make_file ensure_directory make_region create_mapping folder_files
    find_file put_file is_some lookup insert Name-discrete ℕ_discrete region in_range read_ordered64
    read_ordered32 reset load store key_discrete data_key_discrete index_data_offset_bits
    index_data_offset_mask
finds = refl

today : Clock (λ k. 475200000) before.chronicle.settings.cycle_length 5
unfolding cycle_for_now
today k = (5, refl, omega arith)

next_index-Ahead_example : Ahead 64 320 ((state result).0).index
next_index-Ahead_example =
    next_index-Ahead environment (λ k. 475200000) 5 behind ((state result).0) before
      ((state result).1) today (omega arith) (omega arith) (omega arith) (omega arith) (omega arith)
      (found-eq result finds)
