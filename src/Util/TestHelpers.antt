-- ===== src/Util/TestHelpers.antt =====
-- cornelich/util/test_helpers.h: what the tests share. A char is its byte, where the values from 128
-- on are the negative ones.
pub mod Hex
use cornelich.Common.{
  ℕ, ◌+◌, ◌-◌, ◌*◌, ◌%◌, Bool, ◌&&◌, leb, if◌then◌else◌, List, [], ◌∷◌, ◌++◌, Outcome, ok, throws,
  undefined, out_of_fuel, invalid_argument, ◌>>=◌,
}

unfoldable pub char2int : ℕ → Outcome ℕ
char2int input =
    if leb b'0' input && leb input b'9'
    then ok (input - b'0')
    else if leb b'A' input && leb input b'F'
    then ok (input - b'A' + 10)
    else if leb b'a' input && leb input b'f'
    then ok (input - b'a' + 10)
    else throws invalid_argument

-- `hex2bin(src, target)` on the characters before the final zero: the bytes that it writes.
unfoldable pub hex2bin : List ℕ → Outcome (List ℕ)
unfolding char2int
hex2bin [] = ok []
hex2bin (c ∷ []) = ok []
hex2bin (c ∷ d ∷ src) =
    let rest = hex2bin src in
    char2int c >>= λ high.
    char2int d >>= λ low. rest >>= λ target. ok ((high * 16 + low) % 256 ∷ target)

-- `clean_up_fixture`, over what the functions of boost::filesystem do: a temporary folder, a name
-- that is not taken, whether there is something at a path, and the removal, which may throw when some
-- of it is done.
module _ {Location Disk : Type 0} (temp_directory_path : Disk → Location)
    (unique_path : Disk → Location) (join : Location → Location → Location)
    (exists : Location → Disk → Bool) (remove_all : Location → Disk → Disk × Bool) where
  -- The constructor: `m_path`.
  unfoldable pub fixture_path : Disk → Location
  fixture_path disk = join (temp_directory_path disk) (unique_path disk)

  -- The destructor: an exception of the removal (the Bool) is caught.
  unfoldable pub fixture_end : Location → Disk → Disk
  fixture_end path disk =
      if exists path disk then (let (disk', failed) = remove_all path disk in disk') else disk
