-- ===== src/ExcerptTailer/Follows.antt =====
-- The regions that a tailer keeps from one call of `index` (cornelich/excerpt_tailer.cpp) to the next.
use cornelich.Common.{ℕ, ◌%◌, ◌^◌, ◌≡◌, refl, arith, inl, inr, Bool-cases}
use cornelich.Common.{Bool, true, false, not, ◌&&◌, ◌||◌, ◌==◌, some, ok}
use cornelich.Common.Words.{shl64}
use cornelich.Environment.{Environment}
use cornelich.Chronicle.Packing.{IndexPlace, DataPlace}
use cornelich.ExcerptTailer.{ExcerptTailer, ensure_index_region, ensure_data_region}
use cornelich.Files.{File, find_file, is_some}
use cornelich.World.{World, RegionPtr}
use cornelich.World.Consistent.{
  index_path, data_path, IsConsistent, Kept, Kept-refl, index_for-IsConsistent, index_for_existing,
  data_for-IsConsistent, data_for_existing,
}
use cornelich.World.Keeps.{Maps}

module _ (env : Environment) where
  -- The pointer maps an index file, or a data file, in the size of the chronicle's blocks.
  abbrev pub MapsIndex : World → RegionPtr → ℕ → ℕ → Type 0
  MapsIndex w p cycle number =
      Maps w.store p (index_path env cycle number)
        (shl64 1 w.chronicle.index_block_size_bits % 2 ^ 32) number

  abbrev pub MapsData : World → RegionPtr → ℕ → ℕ → ℕ → Type 0
  MapsData w p cycle thread_id number =
      Maps w.store p (data_path env cycle thread_id number)
        (shl64 1 w.chronicle.data_block_size_bits % 2 ^ 32) number

  -- The regions at hand are those of the cycle, the thread and the numbers of the last look-ups.
  pub record Follows (t : ExcerptTailer) (w : World) : Type 0 where
    pub index_follows :
        is_some t.index_region ≡ true
        → MapsIndex w t.index_region t.last_cycle t.last_index_file_number
    pub data_follows :
        is_some t.data_region ≡ true
        → MapsData w t.data_region t.last_cycle t.last_thread_id t.last_data_file_number

  -- The index region of a place is at hand; the data region is still the old one.
  pub record IndexReady (at : IndexPlace) (t : ExcerptTailer) (w : World) (t' : ExcerptTailer)
      (w' : World) (changed : Bool) : Type 0 where
    pub kept : Kept env w w'
    pub maps : MapsIndex w' t'.index_region at.cycle_for_index at.index_file_number
    pub cycle_set : t'.last_cycle ≡ at.cycle_for_index
    pub number_set : t'.last_index_file_number ≡ at.index_file_number
    pub data_kept :
        changed ≡ false
        → is_some t'.data_region ≡ true
        → MapsData w' t'.data_region at.cycle_for_index t'.last_thread_id t'.last_data_file_number

  module _ (at : IndexPlace) (t : ExcerptTailer) (w : World) (h : IsConsistent env w)
      (follows : Follows t w) where
    abbrev Looked : Type 0
    Looked =
        (t' : ExcerptTailer) × (w' : World) × (changed : Bool) × (ensure_index_region env at (t, w)
          ≡ ok ((t', w'), true, changed))
        × IndexReady at t w t' w' changed

    -- Whether the region at hand does not serve.
    abbrev stale : Bool
    stale =
        not (t.last_cycle == at.cycle_for_index)
        || (not (t.last_index_file_number == at.index_file_number) || not (is_some t.index_region))

    looked_up :
        (f : File)
        → find_file (index_path env at.cycle_for_index at.index_file_number) w.store.files ≡ some f
        → stale ≡ true
        → Looked
    unfolding ensure_index_region
    looked_up f there e =
        let (w', p, got, good) =
          index_for_existing env at.cycle_for_index at.index_file_number w f h there in
        let (kept, maps) =
          index_for-IsConsistent env at.cycle_for_index at.index_file_number false w w' p h got in
        (
          record t {
            index_region = p;
            last_cycle = at.cycle_for_index;
            last_index_file_number = at.index_file_number;
          },
          w',
          true,
          rw (e, got, good) refl,
          record {
            kept = kept;
            maps = rw kept.same_chronicle (maps good);
            cycle_set = refl;
            number_set = refl;
            data_kept = λ q. cc;
          },
        )

    serves :
        stale ≡ false
        → (t.last_cycle ≡ at.cycle_for_index)
          × ((t.last_index_file_number ≡ at.index_file_number) × (is_some t.index_region ≡ true))
    serves e = ground arith

    at_hand : stale ≡ false → Looked
    unfolding ensure_index_region
    at_hand e =
        let (same_cycle, (same_number, there)) = serves e in
        (
          t,
          w,
          false,
          rw e refl,
          record {
            kept = Kept-refl env w h;
            maps = rw (← same_cycle, ← same_number) (follows.index_follows there);
            cycle_set = same_cycle;
            number_set = same_number;
            data_kept = λ q some_data. rw (← same_cycle) (follows.data_follows some_data);
          },
        )

    pub ensure_index_region_lem :
        (f : File)
        → find_file (index_path env at.cycle_for_index at.index_file_number) w.store.files ≡ some f
        → Looked
    ensure_index_region_lem f there = elim (Bool-cases stale) [
      | inl e ↦ looked_up f there e
      | inr e ↦ at_hand e
    ]

  -- The data region of a place is at hand.
  pub record DataReady (cycle : ℕ) (at : DataPlace) (t : ExcerptTailer) (w : World)
      (t' : ExcerptTailer) (w' : World) : Type 0 where
    pub kept : Kept env w w'
    pub maps : MapsData w' t'.data_region cycle at.thread_id at.data_file_number
    pub there : is_some t'.data_region ≡ true
    pub thread_set : t'.last_thread_id ≡ at.thread_id
    pub number_set : t'.last_data_file_number ≡ at.data_file_number
    pub same_index : t'.index_region ≡ t.index_region
    pub same_cycle : t'.last_cycle ≡ t.last_cycle
    pub same_file : t'.last_index_file_number ≡ t.last_index_file_number

  module _ (cycle : ℕ) (at : DataPlace) (changed : Bool) (t : ExcerptTailer) (w : World)
      (h : IsConsistent env w)
      (kept_data : changed ≡ false
        → is_some t.data_region ≡ true
        → MapsData w t.data_region cycle t.last_thread_id t.last_data_file_number) where
    abbrev Fetched : Type 0
    Fetched =
        (t' : ExcerptTailer) × (w' : World) × (ensure_data_region env cycle at changed (t, w)
          ≡ ok (t', w'))
        × DataReady cycle at t w t' w'

    -- Whether the region at hand serves.
    abbrev serving : Bool
    serving =
        is_some t.data_region
        && not (
            not (t.last_thread_id == at.thread_id)
            || (not (t.last_data_file_number == at.data_file_number) || changed))

    data_at_hand : serving ≡ true → Fetched
    unfolding ensure_data_region
    data_at_hand e =
        let (there, (same_thread, (same_number, unchanged))) = matches e in
        (
          t,
          w,
          rw e refl,
          record {
            kept = Kept-refl env w h;
            maps = rw (← same_thread, ← same_number) (kept_data unchanged there);
            there = there;
            thread_set = same_thread;
            number_set = same_number;
            same_index = refl;
            same_cycle = refl;
            same_file = refl;
          },
        )
      where
        matches :
            serving ≡ true
            → (is_some t.data_region ≡ true)
              × ((t.last_thread_id ≡ at.thread_id)
                  × ((t.last_data_file_number ≡ at.data_file_number) × (changed ≡ false)))
        matches e = ground arith

    data_looked_up :
        (f : File)
        → find_file (data_path env cycle at.thread_id at.data_file_number) w.store.files ≡ some f
        → serving ≡ false
        → Fetched
    unfolding ensure_data_region
    data_looked_up f there e =
        let (w', p, got, good) =
          data_for_existing env cycle at.thread_id at.data_file_number w f h there in
        let (kept, maps) =
          data_for-IsConsistent env cycle at.thread_id at.data_file_number false w w' p h got in
        (
          record t {
            data_region = p;
            last_thread_id = at.thread_id;
            last_data_file_number = at.data_file_number;
          },
          w',
          rw (e, got) refl,
          record {
            kept = kept;
            maps = rw kept.same_chronicle (maps good);
            there = good;
            thread_set = refl;
            number_set = refl;
            same_index = refl;
            same_cycle = refl;
            same_file = refl;
          },
        )

    pub ensure_data_region_lem :
        (f : File)
        → find_file (data_path env cycle at.thread_id at.data_file_number) w.store.files ≡ some f
        → Fetched
    ensure_data_region_lem f there = elim (Bool-cases serving) [
      | inl e ↦ data_at_hand e
      | inr e ↦ data_looked_up f there e
    ]
