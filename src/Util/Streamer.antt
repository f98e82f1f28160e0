-- ===== src/Util/Streamer.antt =====
-- cornelich/util/streamer.h, and the printing operators of buffer_view.cpp and
-- vanilla_chronicle_settings.cpp. A stream is the list of what was inserted; what the standard library
-- prints for it is a parameter.
use Prim.Native.String.{String}
use cornelich.Common.{ℕ, List, [], ◌∷◌, ◌++◌, Option}
use cornelich.Files.{Name}
use cornelich.Settings.{Settings, thread_id_mask, index_data_offset_bits, index_data_offset_mask}
use cornelich.Util.BufferView.{BufferView}

-- What is inserted: a text, a signed word of 32 or 64 bits, a size, the double that std::log2 gives
-- for a word, a pointer, or one of the manipulators std::hex and std::dec.
pub data Insertion : Type 0 where
  text : String → Insertion
  int32 int64 size log2 : ℕ → Insertion
  pointer : Option ℕ → Insertion
  hex dec : Insertion

-- `m_stream`
pub record Streamer : Type 0 where
  pub stream : List Insertion

abbrev pub streamer : Streamer
streamer = record { stream = [] }

-- `operator<<`
unfoldable pub insert : Insertion → Streamer → Streamer
insert value s = record { stream = s.stream ++ (value ∷ []) }

-- `str()`, and the conversion to std::string
unfoldable pub str : (List Insertion → Name) → Streamer → Name
str print s = print s.stream

-- `os << b` for a buffer view; `b.index()` is an int64 of the owner.
unfoldable pub print_buffer_view : ℕ → BufferView → List Insertion
print_buffer_view index b =
    text "Buffer {"
    ∷ text "ptr="
    ∷ pointer b.start
    ∷ text ", "
    ∷ text "index="
    ∷ int64 index
    ∷ text ", "
    ∷ text "position="
    ∷ int32 b.position
    ∷ text ", "
    ∷ text "limit="
    ∷ int32 b.limit
    ∷ text "}"
    ∷ []

-- `os << s` for settings
unfoldable pub print_settings : Settings → List Insertion
unfolding thread_id_mask index_data_offset_bits index_data_offset_mask
print_settings s =
    text "- path                   = "
    ∷ text s.path
    ∷ text "\n"
    ∷ text "- cycle_length           = "
    ∷ int32 s.cycle_length
    ∷ text "\n"
    ∷ text "- entries_per_cycle      = "
    ∷ int64 s.entries_per_cycle
    ∷ text " ["
    ∷ log2 s.entries_per_cycle
    ∷ text " bits]\n"
    ∷ text "- index_block_size       = "
    ∷ int64 s.index_block_size
    ∷ text " ["
    ∷ log2 s.index_block_size
    ∷ text " bits]\n"
    ∷ text "- data_block_size        = "
    ∷ int64 s.data_block_size
    ∷ text " ["
    ∷ log2 s.data_block_size
    ∷ text " bits]\n"
    ∷ text "- thread_id_bits         = "
    ∷ int32 s.thread_id_bits
    ∷ text "\n"
    ∷ text "- thread_id_mask         = 0x"
    ∷ hex
    ∷ int64 (thread_id_mask s)
    ∷ dec
    ∷ text "\n"
    ∷ text "- index_data_offset_bits = "
    ∷ int32 (index_data_offset_bits s)
    ∷ text "\n"
    ∷ text "- index_data_offset_mask = 0x"
    ∷ hex
    ∷ int64 (index_data_offset_mask s)
    ∷ dec
    ∷ text "\n"
    ∷ text "- index_cache_size       = "
    ∷ size s.index_cache_size
    ∷ text "\n"
    ∷ text "- data_cache_size        = "
    ∷ size s.data_cache_size
    ∷ []
