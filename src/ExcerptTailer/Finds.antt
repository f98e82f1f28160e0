-- ===== src/ExcerptTailer/Finds.antt =====
-- `index(index)` of cornelich/excerpt_tailer.cpp against the files alone: no cache and no mapping.
use cornelich.Common.{
  ℕ, ◌+◌, ◌*◌, ◌-◌, ◌%◌, ◌^◌, ◌≤◌, ◌<◌, ◌≡◌, refl, ap, ◌∙◌, arith, Bool, true, false, ◌==◌, some,
  Outcome, ok,
}
use cornelich.Common.Bits.{bit_and_mask}
use cornelich.Common.Words.{shl64, narrow, sub32, not32}
use mathlib.Core.Path.{subst}
use cornelich.Environment.{Environment}
use cornelich.Chronicle.Packing.{IndexPlace, index_place, DataPlace, data_place}
use cornelich.ExcerptTailer.{
  ExcerptTailer, Tailing, index, follow_entry, open_excerpt, ensure_data_region,
}
use cornelich.ExcerptTailer.Follows.{
  MapsData, Follows, IndexReady, DataReady, ensure_index_region_lem, ensure_data_region_lem,
}
use cornelich.ExcerptTailer.Reading.{opens}
use cornelich.Files.{File, find_file, is_some}
use cornelich.Memory.{load, Bytes}
use cornelich.Region.{Region, read_ordered64, read_ordered32, in_range}
use cornelich.World.{World}
use cornelich.World.Access.{region_at, bytes_of}
use cornelich.World.Consistent.{index_path, data_path, IsConsistent, Kept, Kept-trans}
use cornelich.World.Keeps.{bytes_of-Maps}

module _ (env : Environment) where
  -- The files hold an excerpt at an index: the entry in the slot of the index file, and in the data
  -- file that the entry names the complement of the length in front of the excerpt, which starts at
  -- a multiple of 4 inside the mapping.
  pub record HasExcerpt (w : World) (i start len : ℕ) : Type 0 where
    pub index_file : File
    pub value : ℕ
    pub data_file : File
    pub index_file_there :
        find_file
          (index_path env
            (index_place w.chronicle i).cycle_for_index
            (index_place w.chronicle i).index_file_number)
          w.store.files
        ≡ some index_file
    pub slot_small : 8 * (index_place w.chronicle i).index_offset < 2 ^ 31
    pub slot_inside :
        8 * (index_place w.chronicle i).index_offset + 8
        ≤ shl64 1 w.chronicle.index_block_size_bits % 2 ^ 32
    pub entry : load 8 index_file.bytes (8 * (index_place w.chronicle i).index_offset) ≡ value
    pub some_value : 0 < value
    pub data_file_there :
        find_file
          (data_path env
            (index_place w.chronicle i).cycle_for_index
            (data_place w.chronicle value).thread_id
            (data_place w.chronicle value).data_file_number)
          w.store.files
        ≡ some data_file
    pub starts : (data_place w.chronicle value).data_offset ≡ start
    pub behind_length : 4 ≤ start
    pub start_small : start < 2 ^ 31
    pub aligned : start % 4 ≡ 0
    pub start_inside : start ≤ shl64 1 w.chronicle.data_block_size_bits % 2 ^ 32
    pub length_there : load 4 data_file.bytes (start - 4) ≡ not32 len
    pub short : len < 2 ^ 30

  slot_word : (o : ℕ) → 8 * o < 2 ^ 31 → narrow (shl64 o 3) ≡ 8 * o
  slot_word o h = omega arith

  read_slot :
      (r : Region) (m : Bytes) (o : ℕ)
      → 8 * o < 2 ^ 31
      → 8 * o + 8 ≤ r.size
      → read_ordered64 r m (narrow (shl64 o 3)) ≡ ok (load 8 m (8 * o))
  unfolding read_ordered64 in_range
  read_slot r m o small inside = rw (slot_word o small) (ground (arith, bit_and_mask 3 (8 * o)))

  read_length :
      (r : Region) (m : Bytes) (start : ℕ)
      → 4 ≤ start
      → start < 2 ^ 31
      → start % 4 ≡ 0
      → start ≤ r.size
      → read_ordered32 r m (sub32 start 4) ≡ ok (load 4 m (start - 4))
  unfolding read_ordered32 in_range
  read_length r m start behind small aligned inside =
      let place : sub32 start 4 ≡ start - 4 = omega arith in
      rw place (ground (arith, bit_and_mask 2 (start - 4)))

  -- The tailer has opened the excerpt: the view of its bytes, in a mapping of the entry's data file.
  pub record Opened (w : World) (i start len : ℕ) (x : HasExcerpt w i start len)
      (t' : ExcerptTailer) (w' : World) : Type 0 where
    pub kept : Kept env w w'
    pub follows : Follows env t' w'
    pub at_index : t'.index ≡ i
    pub view : t'.buffer ≡ record { start = some start; position = 0; limit = len }
    pub in_file :
        MapsData env w' t'.data_region
          (index_place w.chronicle i).cycle_for_index
          (data_place w.chronicle x.value).thread_id
          (data_place w.chronicle x.value).data_file_number
    pub bytes : bytes_of in_file.mapping w'.store ≡ ok x.data_file.bytes

  opens_length :
      (t : ExcerptTailer) (w : World) (r : Region) (m : Bytes) (i start len : ℕ)
      → region_at t.data_region w.store ≡ ok r
      → bytes_of r w.store ≡ ok m
      → read_ordered32 r m (sub32 start 4) ≡ ok (not32 len)
      → len < 2 ^ 30
      → open_excerpt i start (t, w)
        ≡ ok (
          (
            record t {
              index = i;
              buffer = record { start = some start; position = 0; limit = len };
            },
            w,
          ),
          true,
        )
  opens_length t w r m i start len at bytes read short =
      let twice : not32 (not32 len) ≡ len = omega arith in
      subst
        (λ n.
          open_excerpt i start (t, w)
          ≡ ok (
            (
              record t {
                index = i;
                buffer = record { start = some start; position = 0; limit = n };
              },
              w,
            ),
            true,
          ))
        twice (opens t w r m i start (not32 len) at bytes read (ground arith) (ground arith))

  entry_leads :
      (i cycle value : ℕ) (changed : Bool) (t₁ : ExcerptTailer) (w₁ : World) (t₂ : ExcerptTailer)
      (w₂ : World)
      → (value == 0) ≡ false
      → ensure_data_region env cycle (data_place w₁.chronicle value) changed (t₁, w₁) ≡ ok (t₂, w₂)
      → is_some t₂.data_region ≡ true
      → follow_entry env i cycle value changed (t₁, w₁)
        ≡ open_excerpt i (data_place w₁.chronicle value).data_offset (t₂, w₂)
  unfolding follow_entry
  entry_leads i cycle value changed t₁ w₁ t₂ w₂ nonzero got there = rw (nonzero, got, there) refl

  module _ (w : World) (i start len : ℕ) (x : HasExcerpt w i start len) (t₁ : ExcerptTailer)
      (w₁ : World) (t : ExcerptTailer) (changed : Bool)
      (ready : IndexReady env (index_place w.chronicle i) t w t₁ w₁ changed) where
    abbrev cycle : ℕ
    cycle = (index_place w.chronicle i).cycle_for_index

    abbrev at : DataPlace
    at = data_place w.chronicle x.value

    abbrev EndsOpen : Outcome (Tailing × Bool) → Type 0
    EndsOpen o =
        (t' : ExcerptTailer) × (w' : World) × (o ≡ ok ((t', w'), true))
        × Opened w i start len x t' w'

    still-Follows :
        (t₂ : ExcerptTailer) (w₂ : World)
        → DataReady env cycle at t₁ w₁ t₂ w₂
        → Follows env
            (record t₂ {
              index = i;
              buffer = record { start = some start; position = 0; limit = len };
            })
            w₂
    still-Follows t₂ w₂ ready₂ =
        let here : t₂.last_cycle ≡ cycle = ready₂.same_cycle ∙ ready.cycle_set in
        let file : t₂.last_index_file_number ≡ (index_place w.chronicle i).index_file_number =
          ready₂.same_file ∙ ready.number_set in
        record {
          index_follows = λ e.
              rw (here, file, ready₂.same_index)
                (rw ready₂.kept.same_chronicle (ready₂.kept.grown.still _ _ _ _ ready.maps));
          data_follows = λ e. rw (here, ready₂.thread_set, ready₂.number_set) ready₂.maps;
        }

    opens_there :
        (t₂ : ExcerptTailer) (w₂ : World)
        → DataReady env cycle at t₁ w₁ t₂ w₂
        → EndsOpen (open_excerpt i at.data_offset (t₂, w₂))
    opens_there t₂ w₂ ready₂ =
        let kept = Kept-trans env ready.kept ready₂.kept in
        let m = ready₂.maps in
        let (f, there, same) = kept.unwritten.still _ x.data_file x.data_file_there in
        let bytes = bytes_of-Maps w₂.store t₂.data_region _ _ _ f m there in
        let inside : start ≤ m.mapping.size = rw (m.of_size, kept.same_chronicle) x.start_inside in
        let read : read_ordered32 m.mapping f.bytes (sub32 start 4) ≡ ok (not32 len) =
          read_length m.mapping f.bytes start x.behind_length x.start_small x.aligned inside
          ∙ rw (same, x.length_there) refl in
        (
          record t₂ {
            index = i;
            buffer = record { start = some start; position = 0; limit = len };
          },
          w₂,
          rw x.starts (opens_length t₂ w₂ m.mapping f.bytes i start len m.at bytes read x.short),
          record {
            kept = kept;
            follows = still-Follows t₂ w₂ ready₂;
            at_index = refl;
            view = refl;
            in_file = m;
            bytes = bytes ∙ ap ok same;
          },
        )

    follows_entry : EndsOpen (follow_entry env i cycle x.value changed (t₁, w₁))
    follows_entry =
        let (f, there, same) = ready.kept.unwritten.still _ x.data_file x.data_file_there in
        let (t₂, w₂, got, ready₂) =
          ensure_data_region_lem env cycle at changed t₁ w₁ ready.kept.consistent ready.data_kept f
            there in
        let (t', w', opened, result) = opens_there t₂ w₂ ready₂ in
        let nonzero : (x.value == 0) ≡ false = ground (arith, x.some_value) in
        let place : data_place w₁.chronicle x.value ≡ at =
          ap (λ c. data_place c x.value) ready.kept.same_chronicle in
        (
          t',
          w',
          entry_leads i cycle x.value changed t₁ w₁ t₂ w₂ nonzero
                (ap (λ p. ensure_data_region env cycle p changed (t₁, w₁)) place ∙ got) ready₂.there
              ∙ (ap (λ (p : DataPlace). open_excerpt i p.data_offset (t₂, w₂)) place ∙ opened),
          result,
        )

  -- Over consistent caches, a tailer whose regions are those of its last look-ups finds every
  -- excerpt that the files hold: `index` returns true, with a view of the excerpt's bytes in a
  -- mapping of the data file that the entry names, whether it made the mappings, took them from
  -- the caches or kept them. The caches stay consistent, no byte of a file changes, and the
  -- tailer's regions are again those of its last look-ups.
  pub index-HasExcerpt :
      (t : ExcerptTailer) (w : World) (i start len : ℕ)
      → IsConsistent env w
      → Follows env t w
      → (x : HasExcerpt w i start len)
      → (t' : ExcerptTailer) × (w' : World) × (index env i (t, w) ≡ ok ((t', w'), true))
        × Opened w i start len x t' w'
  unfolding index
  index-HasExcerpt t w i start len h follows x =
      let at : IndexPlace = index_place w.chronicle i in
      let (t₁, w₁, changed, got, ready) =
        ensure_index_region_lem env at t w h follows x.index_file x.index_file_there in
      let (f, there, same) = ready.kept.unwritten.still _ x.index_file x.index_file_there in
      let m = ready.maps in
      let bytes = bytes_of-Maps w₁.store t₁.index_region _ _ _ f m there in
      let inside : 8 * at.index_offset + 8 ≤ m.mapping.size =
        rw (m.of_size, ready.kept.same_chronicle) x.slot_inside in
      let read : read_ordered64 m.mapping f.bytes (narrow (shl64 at.index_offset 3)) ≡ ok x.value =
        read_slot m.mapping f.bytes at.index_offset x.slot_small inside ∙ rw (same, x.entry) refl in
      let (t', w', opened, result) = follows_entry w i start len x t₁ w₁ t changed ready in
      (t', w', rw (got, m.at, bytes, read) opened, result)
