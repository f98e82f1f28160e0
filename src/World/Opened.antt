-- ===== src/World/Opened.antt =====
-- The shared state as the constructor of a chronicle (cornelich/vanilla_chronicle.cpp) leaves it.
use cornelich.Common.{ℕ, ◌<◌, ◌≡◌, arith, some, none, [], ok}
use cornelich.Chronicle.{chronicle}
use cornelich.Environment.{Environment}
use cornelich.Files.{Files}
use cornelich.Region.{Region}
use cornelich.Settings.{Settings}
use cornelich.Util.Cache.{find}
use cornelich.World.{RegionPtr}
use cornelich.World.Access.{region_at}
use cornelich.World.Clients.{open_chronicle, vanilla_index, vanilla_data}
use cornelich.World.Onward.{IsSound}
use cornelich.World.Sane.{HasBlocks, IsSane}

no_regions :
    (fs : Files) (p : RegionPtr) (r : Region)
    → region_at p (record { files = fs; regions = [] }) ≡ ok r
    → IsSane r
unfolding region_at
no_regions fs none r e = cc
no_regions fs (some i) r e = cc

module _ (env : Environment) (log2 : ℕ → ℕ) where
  -- The constructor of a chronicle with room in its caches, and with blocks from 8 bytes to 2 ^
  -- 30, leaves a sound shared state over any files.
  pub open_chronicle-IsSound :
      (s : Settings) (fs : Files)
      → 0 < s.index_cache_size
      → 0 < s.data_cache_size
      → HasBlocks (chronicle log2 s)
      → IsSound env (open_chronicle log2 s fs)
  unfolding open_chronicle vanilla_index vanilla_data find chronicle
  open_chronicle-IsSound s fs some_index some_data blocks = record {
    consistent = record {
      index_filled = record {
        valid = record {
          positive = some_index;
          bounded = omega arith;
          distinct = tt;
          validated = λ q w e. cc;
        };
        entries = λ q w e. cc;
      };
      data_filled = record {
        valid = record {
          positive = some_data;
          bounded = omega arith;
          distinct = tt;
          validated = λ q w e. cc;
        };
        entries = λ q w e. cc;
      };
    };
    sane = record { all = no_regions fs };
    blocks = blocks;
  }
