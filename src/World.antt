-- ===== src/World.antt =====
-- What the objects of one process share: the files, the mapped regions, which `region_ptr`s refer to,
-- and the caches of the index and of the data files. `m_lock` of either lets one caller in at a time.
pub mod Access
pub mod Keeps
pub mod Mapping
pub mod Sane
pub mod Writes
pub mod Lookup
pub mod Consistent
pub mod Onward
pub mod Opened
pub mod Ends
pub mod Clients
use cornelich.Common.{
  ℕ, zero, suc, ◌^◌, List, [], ◌∷◌, ◌++◌, Option, none, some, length, get_elem?, Outcome, ok,
  undefined,
}
use cornelich.Common.Words.{shl64}
use cornelich.Chronicle.{Chronicle}
use cornelich.Files.{Files, FilePath}
use cornelich.Region.{Region}
use cornelich.Util.Cache.{Cache}

-- `region_ptr`: none for an empty pointer, or the place of a region among those made.
abbrev pub RegionPtr : Type 0
RegionPtr = Option ℕ

pub record Store : Type 0 where
  pub files : Files
  pub regions : List Region

pub record World : Type 0 where
  pub chronicle : Chronicle
  pub store : Store
  pub index_cache : Cache (ℕ × ℕ) RegionPtr
  pub data_cache : Cache (ℕ × (ℕ × ℕ)) RegionPtr

-- A chronicle as its constructor leaves it, over some files.
abbrev pub world : Chronicle → Files → World
world c fs = record {
  chronicle = c;
  store = record { files = fs; regions = [] };
  index_cache = record { capacity = c.settings.index_cache_size; container = [] };
  data_cache = record { capacity = c.settings.data_cache_size; container = [] };
}
