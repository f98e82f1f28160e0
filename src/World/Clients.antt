-- ===== src/World/Clients.antt =====
-- The objects of a chronicle as they are made: its index and data files
-- (cornelich/vanilla_index.cpp, cornelich/vanilla_data.cpp), and the appenders and tailers of its clients
-- (cornelich/vanilla_chronicle.cpp), which refer to the shared state.
use cornelich.Common.{ℕ, []}
use cornelich.Chronicle.{chronicle}
use cornelich.ExcerptAppender.{ExcerptAppender, excerpt_appender}
use cornelich.ExcerptTailer.{ExcerptTailer, excerpt_tailer}
use cornelich.Files.{Files}
use cornelich.Settings.{Settings}
use cornelich.Util.Cache.{Cache}
use cornelich.World.{RegionPtr, World}

-- `vanilla_index(settings, bits)`: its cache, which is what changes.
unfoldable pub vanilla_index : Settings → Cache (ℕ × ℕ) RegionPtr
vanilla_index s = record { capacity = s.index_cache_size; container = [] }

-- `vanilla_data(settings, bits)`
unfoldable pub vanilla_data : Settings → Cache (ℕ × (ℕ × ℕ)) RegionPtr
vanilla_data s = record { capacity = s.data_cache_size; container = [] }

-- `vanilla_chronicle(settings)` with all that belongs to it, over the files that are there.
unfoldable pub open_chronicle : (ℕ → ℕ) → Settings → Files → World
unfolding vanilla_index vanilla_data
open_chronicle log2 s fs = record {
  chronicle = chronicle log2 s;
  store = record { files = fs; regions = [] };
  index_cache = vanilla_index s;
  data_cache = vanilla_data s;
}

unfoldable pub create_appender : World → ExcerptAppender × World
create_appender w = (excerpt_appender, w)

unfoldable pub create_tailer : World → ExcerptTailer × World
create_tailer w = (excerpt_tailer, w)
