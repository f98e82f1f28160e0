-- ===== src/ExcerptTailer/Looks.antt =====
-- The calls of `index` in cornelich/excerpt_tailer.cpp, one by one.
use cornelich.Common.{ℕ, ◌/◌, ◌^◌, Bool, false, ◌==◌, ok}
use cornelich.Common.Words.{sub32, not32, narrow, shl64}
use cornelich.Common.Ends.{Ends, Ends-ok, Ends-throws, Ends-if, Ends-bind}
use cornelich.Chronicle.Packing.{IndexPlace, index_place, DataPlace, data_place}
use cornelich.Environment.{Environment}
use cornelich.VanillaData.Mapped.{data_for}
use cornelich.World.{World}
use cornelich.ExcerptTailer.{
  Tailing, index, ensure_index_region, ensure_data_region, follow_entry, open_excerpt,
}
use cornelich.World.Ends.{
  region_at-Ends, bytes_of-Ends, read_ordered64-Ends, read_ordered32-Ends, make_file-Ends, get-Ends,
}
use cornelich.VanillaIndex.Ends.{index_for-Ends}

module _ (env : Environment) where
  data_for-Ends :
      (cycle thread_id file_number : ℕ) (for_write : Bool) (w : World)
      → Ends (data_for env cycle thread_id file_number for_write w)
  unfolding data_for
  data_for-Ends cycle thread_id file_number for_write w =
      Ends-bind _ _
        (get-Ends _ _ _ _ _ _
          (Ends-bind _ _ (make_file-Ends _ _ for_write w.store.files) (λ (fs, path). Ends-ok _)))
        (λ (st, cache, p). Ends-ok _)

  open_excerpt-Ends : (i offset : ℕ) (tw : Tailing) → Ends (open_excerpt i offset tw)
  unfolding open_excerpt
  open_excerpt-Ends i offset (t, w) = Ends-bind _ _ (region_at-Ends t.data_region w.store) (λ r.
      Ends-bind _ _ (bytes_of-Ends r w.store) (λ m.
        Ends-bind _ _ (read_ordered32-Ends r m (sub32 offset 4)) (λ len.
          Ends-if (len == 0) _ _ (Ends-ok _)
            (Ends-if (not32 len / 2 ^ 30 == 0) _ _ (Ends-ok _) (Ends-throws _)))))

  ensure_data_region-Ends :
      (cycle : ℕ) (at : DataPlace) (changed : Bool) (tw : Tailing)
      → Ends (ensure_data_region env cycle at changed tw)
  unfolding ensure_data_region
  ensure_data_region-Ends cycle at changed (t, w) =
      Ends-if _ _ _ (Ends-ok _)
        (Ends-bind _ _ (data_for-Ends cycle _ _ false w) (λ (w', p). Ends-ok _))

  follow_entry-Ends :
      (i cycle value : ℕ) (changed : Bool) (tw : Tailing)
      → Ends (follow_entry env i cycle value changed tw)
  unfolding follow_entry
  follow_entry-Ends i cycle value changed (t, w) = Ends-if (value == 0) _ _ (Ends-ok _) (
      Ends-bind _ _ (ensure_data_region-Ends cycle (data_place w.chronicle value) changed (t, w))
        (λ (t', w'). Ends-if _ _ _ (open_excerpt-Ends i _ (t', w')) (Ends-ok _)))

  ensure_index_region-Ends : (at : IndexPlace) (tw : Tailing) → Ends (ensure_index_region env at tw)
  unfolding ensure_index_region
  ensure_index_region-Ends at (t, w) =
      Ends-if _ _ _
        (Ends-bind _ _ (index_for-Ends env _ _ false w)
          (λ (w', p). Ends-if _ _ _ (Ends-ok _) (Ends-ok _)))
        (Ends-ok _)

  pub index-Ends : (i : ℕ) (tw : Tailing) → Ends (index env i tw)
  unfolding index
  index-Ends i (t, w) =
      let at : IndexPlace = index_place w.chronicle i in
      Ends-bind _ _ (ensure_index_region-Ends at (t, w)) (λ (tw, mapped, changed).
        Ends-if mapped _ (ok (tw, false))
          (Ends-bind _ _ (region_at-Ends _ _) (λ r. Ends-bind _ _ (bytes_of-Ends r _) (λ m.
            Ends-bind _ _ (read_ordered64-Ends r m (narrow (shl64 at.index_offset 3)))
              (λ value. follow_entry-Ends i at.cycle_for_index value changed tw))))
          (Ends-ok (tw, false)))
