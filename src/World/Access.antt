-- ===== src/World/Access.antt =====
-- Regions behind their pointers, and the bytes of the files that they map.
use cornelich.Common.{
  ℕ, zero, suc, ◌^◌, ◌%◌, List, [], ◌∷◌, ◌++◌, Option, none, some, length, get_elem?, Outcome, ok,
  undefined,
}
use cornelich.Common.Words.{shl64}
use cornelich.Files.{FilePath, find_file, put_file, create_mapping}
use cornelich.Memory.{Bytes}
use cornelich.Region.{Region, region}
use cornelich.World.{RegionPtr, Store}

unfoldable pub replace : List Region → ℕ → Region → List Region
replace [] i r = []
replace (x ∷ xs) zero r = r ∷ xs
replace (x ∷ xs) (suc i) r = x ∷ replace xs i r

-- `*p`, which an empty pointer does not have
unfoldable pub region_at : RegionPtr → Store → Outcome Region
region_at none st = undefined
region_at (some i) st = elim (get_elem? st.regions i) [ some r ↦ ok r | none ↦ undefined ]

-- The changed region.
unfoldable pub put_region : RegionPtr → Region → Store → Store
unfolding replace
put_region none r st = st
put_region (some i) r st = record st { regions = replace st.regions i r }

-- The bytes of a region's file. A file that is no longer there has none.
unfoldable pub bytes_of : Region → Store → Outcome Bytes
bytes_of r st = elim (find_file r.path st.files) [ some f ↦ ok f.bytes | none ↦ undefined ]

unfoldable pub put_bytes : Region → Bytes → Store → Store
put_bytes r m st = elim (find_file r.path st.files) [
  | some f ↦ record st { files = put_file r.path (record f { bytes = m }) st.files }
  | none ↦ st
]

-- `std::make_shared<region>(path, 1LL << bits, file_number)`, none for an empty path. The size is
-- converted to the std::uint32_t of the constructor.
unfoldable pub make_region : Option FilePath → ℕ → ℕ → Store → Store × RegionPtr
make_region none bits file_number st = (st, none)
make_region (some path) bits file_number st =
    let size : ℕ = shl64 1 bits % 2 ^ 32 in
    (
      record {
        files = create_mapping path size st.files;
        regions = st.regions ++ (region path size file_number ∷ []);
      },
      some (length st.regions),
    )
