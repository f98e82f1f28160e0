-- ===== src/ExcerptTailer/Reader.antt =====
-- What the calls of cornelich/excerpt_tailer.cpp do to the state that the clients of a chronicle share.
use cornelich.Common.{
  ℕ, zero, suc, ◌%◌, ◌*◌, ◌^◌, ◌/◌, ◌≡◌, refl, sym, inl, inr, Bool-cases, Bool, true, false, not,
  ◌||◌, ◌&&◌, ◌==◌, Option, none, some, Outcome, ok, throws, undefined, logic_error, ◌>>=◌,
  if◌then◌else◌,
}
use cornelich.Common.Leaves.{
  Leaves, Leaves-ok, Leaves-if, Leaves-bind, Leaves-throws, Leaves-undefined, Leaves-out_of_fuel,
}
use cornelich.Common.Words.{
  narrow, shl64, sub32, not32, sdiv64, slt32, add32, widen, is_neg64, is_neg32, add64,
}
use mathlib.Core.Path.{subst}
use cornelich.Chronicle.Packing.{IndexPlace, index_place, DataPlace, data_place}
use cornelich.Environment.{Environment}
use cornelich.ExcerptAppender.{cycle_for_now}
use cornelich.ExcerptTailer.{
  ExcerptTailer, Tailing, index, follow_entry, ensure_index_region, ensure_data_region,
  open_excerpt, seek_loop, seek_within, seek, seek_fuel, arrive, to_start, next_index,
}
use cornelich.Files.{is_some}
use cornelich.Region.{read_ordered64, read_ordered32}
use cornelich.VanillaData.Mapped.{data_for}
use cornelich.VanillaIndex.Mapped.{index_for}
use cornelich.VanillaIndex.Scan.{find_first_cycle}
use cornelich.World.{World, RegionPtr}
use cornelich.World.Access.{region_at, bytes_of}
use cornelich.World.Consistent.{
  IsConsistent, Kept, Kept-refl, Kept-trans, index_for-IsConsistent, data_for-IsConsistent,
}

module _ (env : Environment) where
  -- A call has kept the shared state, whatever it answers.
  abbrev KeptBy : {A : Type 0} → World → Tailing × A → Type 0
  KeptBy w (tw, a) = Kept env w (tw.1)

  anything {ℓ} : {A : Type ℓ} (m : Outcome A) → Leaves (λ (x : A). Unit {0}) m
  anything m = record { leaves = λ a e. tt }

  open_excerpt-Kept :
      (i offset : ℕ) (t : ExcerptTailer) (w₀ w : World)
      → Kept env w₀ w
      → Leaves (KeptBy w₀) (open_excerpt i offset (t, w))
  unfolding open_excerpt
  open_excerpt-Kept i offset t w₀ w k =
      Leaves-bind (region_at t.data_region w.store) _ (anything _) (λ r u.
        Leaves-bind (bytes_of r w.store) _ (anything _) (λ m v.
          Leaves-bind (read_ordered32 r m (sub32 offset 4)) _ (anything _) (λ len x.
            Leaves-if (len == 0) _ _ (λ e. Leaves-ok _ k)
              (λ e.
                Leaves-if (not32 len / 2 ^ 30 == 0) _ (throws logic_error) (λ f. Leaves-ok _ k)
                  (λ f. Leaves-throws logic_error)))))

  ensure_data_region-Kept :
      (cycle : ℕ) (at : DataPlace) (changed : Bool) (t : ExcerptTailer) (w₀ w : World)
      → Kept env w₀ w
      → Leaves
          (λ (tw : Tailing). Kept env w₀ (tw.1))
          (ensure_data_region env cycle at changed (t, w))
  unfolding ensure_data_region
  ensure_data_region-Kept cycle at changed t w₀ w k =
      let after : World × RegionPtr → Outcome Tailing = λ (w', p). ok (
        record t {
          data_region = p;
          last_thread_id = at.thread_id;
          last_data_file_number = at.data_file_number;
        },
        w',
      ) in
      let serving : Bool =
        is_some t.data_region
        && not (
            not (t.last_thread_id == at.thread_id)
            || (not (t.last_data_file_number == at.data_file_number) || changed)) in
      Leaves-if serving (ok (t, w))
        (data_for env cycle at.thread_id at.data_file_number false w >>= after)
        (λ e. Leaves-ok (t, w) k)
        (λ e.
          Leaves-bind {P = λ (x : World × RegionPtr). Kept env w₀ (x.0)}
            (data_for env cycle at.thread_id at.data_file_number false w) after
            (record {
              leaves = λ (w', p) d. Kept-trans env k (
                  (data_for-IsConsistent env cycle at.thread_id at.data_file_number false w w' p
                    k.consistent d).0);
            })
            (λ (w', p) k'.
              Leaves-ok
                (
                  record t {
                    data_region = p;
                    last_thread_id = at.thread_id;
                    last_data_file_number = at.data_file_number;
                  },
                  w',
                )
                k'))

  follow_entry-Kept :
      (i cycle value : ℕ) (changed : Bool) (t : ExcerptTailer) (w₀ w : World)
      → Kept env w₀ w
      → Leaves (KeptBy w₀) (follow_entry env i cycle value changed (t, w))
  unfolding follow_entry
  follow_entry-Kept i cycle value changed t w₀ w k =
      Leaves-if (value == 0) _ _ (λ e. Leaves-ok _ k)
        (λ e.
          Leaves-bind (ensure_data_region env cycle (data_place w.chronicle value) changed (t, w)) _
            (ensure_data_region-Kept cycle (data_place w.chronicle value) changed t w₀ w k)
            (λ (t', w') k'.
              Leaves-if (is_some t'.data_region) _ _
                (λ there.
                  open_excerpt-Kept i (data_place w.chronicle value).data_offset t' w₀ w' k')
                (λ absent. Leaves-ok _ k')))

  ensure_index_region-Kept :
      (at : IndexPlace) (t : ExcerptTailer) (w : World)
      → IsConsistent env w
      → Leaves
          (λ (x : Tailing × Bool × Bool). Kept env w ((x.0).1))
          (ensure_index_region env at (t, w))
  unfolding ensure_index_region
  ensure_index_region-Kept at t w h =
      let found : World × RegionPtr → Outcome (Tailing × Bool × Bool) = λ (w', p).
        if is_some p
        then ok (
          (
            record t {
              index_region = p;
              last_cycle = at.cycle_for_index;
              last_index_file_number = at.index_file_number;
            },
            w',
          ),
          true,
          true,
        )
        else ok ((record t { index_region = p }, w'), false, false) in
      let stale : Bool =
        not (t.last_cycle == at.cycle_for_index)
        || (not (t.last_index_file_number == at.index_file_number)
            || not (is_some t.index_region)) in
      Leaves-if stale (index_for env at.cycle_for_index at.index_file_number false w >>= found)
        (ok ((t, w), true, false))
        (λ e.
          Leaves-bind {P = λ (x : World × RegionPtr). Kept env w (x.0)}
            (index_for env at.cycle_for_index at.index_file_number false w) found
            (record {
              leaves = λ (w', p) d.
                  (index_for-IsConsistent env at.cycle_for_index at.index_file_number false w w' p h
                    d).0;
            })
            (λ (w', p) k. Leaves-if (is_some p) _ _ (λ e. Leaves-ok _ k) (λ e. Leaves-ok _ k)))
        (λ e. Leaves-ok ((t, w), true, false) (Kept-refl env w h))

  index-Leaves :
      (i : ℕ) (t : ExcerptTailer) (w : World)
      → IsConsistent env w
      → Leaves (KeptBy w) (index env i (t, w))
  unfolding index
  index-Leaves i t w h =
      let at = index_place w.chronicle i in
      Leaves-bind (ensure_index_region env at (t, w)) _ (ensure_index_region-Kept at t w h)
        (λ (tw, mapped, changed) k.
          Leaves-if mapped _ _
            (λ e. Leaves-bind (region_at (tw.0).index_region (tw.1).store) _ (anything _) (λ r u.
              Leaves-bind (bytes_of r (tw.1).store) _ (anything _) (λ m v.
                Leaves-bind (read_ordered64 r m (narrow (shl64 at.index_offset 3))) _ (anything _)
                  (λ value x.
                    follow_entry-Kept i at.cycle_for_index value changed (tw.0) w (tw.1) k))))
            (λ e. Leaves-ok _ k))

  seek_loop-Kept :
      (entries : ℕ) (now_cycles : ℕ → Outcome ℕ) (fuel next : ℕ) (t : ExcerptTailer) (w₀ w : World)
      → Kept env w₀ w
      → Leaves (KeptBy w₀) (seek_loop (index env) entries now_cycles fuel next (t, w))
  unfolding seek_loop
  seek_loop-Kept entries now_cycles zero next t w₀ w k = Leaves-out_of_fuel
  seek_loop-Kept entries now_cycles (suc fuel) next t w₀ w k =
      Leaves-bind (index env next (t, w)) _ (index-Leaves next t w k.consistent)
        (λ ((t', w'), found) k'.
          let both = Kept-trans env k k' in
          Leaves-if found _ _ (λ e. Leaves-ok _ both)
            (λ e.
              Leaves-if (entries == 0) undefined _ (λ e. Leaves-undefined)
                (λ e. Leaves-bind (now_cycles 0) _ (anything (now_cycles 0)) (λ now u.
                  Leaves-if (slt32 now (narrow (sdiv64 next entries))) _ _ (λ e. Leaves-ok _ both)
                    (λ e.
                      seek_loop-Kept entries (λ k. now_cycles (suc k)) fuel
                        (widen (add32 (narrow (sdiv64 next entries)) 1) * entries % 2 ^ 64) t' w₀ w'
                        both)))))

  arrive-Kept :
      (w₀ : World) (a : Tailing × Option ℕ)
      → Kept env w₀ ((a.0).1)
      → Leaves (λ (x : Tailing × Bool). Kept env w₀ ((x.0).1)) (arrive a)
  unfolding arrive
  arrive-Kept w₀ ((t, w), none) k = Leaves-ok _ k
  arrive-Kept w₀ ((t, w), some next) k = Leaves-ok _ k

  seek-Kept :
      (now : ℕ → ℕ) (w₀ : World) (tw : Tailing)
      → Kept env w₀ (tw.1)
      → Leaves (λ (x : Tailing × Bool). Kept env w₀ ((x.0).1)) (seek env now tw)
  unfolding seek seek_within
  seek-Kept now w₀ (t, w) k =
      let now_cycles : ℕ → Outcome ℕ =
        λ k. cycle_for_now (now k) w.chronicle.settings.cycle_length in
      let entries = w.chronicle.settings.entries_per_cycle in
      Leaves-bind (seek_loop (index env) entries now_cycles seek_fuel (add64 t.index 1) (t, w))
        arrive (seek_loop-Kept entries now_cycles seek_fuel (add64 t.index 1) t w₀ w k)
        (arrive-Kept w₀)

  to_start_lem : (t : ExcerptTailer) (w : World) → (to_start env (t, w)).1 ≡ w
  unfolding to_start
  to_start_lem t w = elim (Bool-cases (is_neg32 (find_first_cycle env w.store.files))) [
    | inl absent ↦ rw (absent, to_start) refl
    | inr found ↦ rw (found, to_start) refl
  ]

  next_index-Leaves :
      (now : ℕ → ℕ) (t : ExcerptTailer) (w : World)
      → IsConsistent env w
      → Leaves (λ (x : Tailing × Bool). Kept env w ((x.0).1)) (next_index env now (t, w))
  unfolding next_index
  next_index-Leaves now t w h =
      let start : Tailing = to_start env (t, w) in
      let here : Kept env w (start.1) =
        subst (Kept env w) (sym (to_start_lem t w)) (Kept-refl env w h) in
      Leaves-if (is_neg64 t.index)
        (if is_neg64 (start.0).index then ok (start, false) else seek env now start)
        (seek env now (t, w))
        (λ e.
          Leaves-if (is_neg64 (start.0).index) (ok (start, false)) (seek env now start)
            (λ f. Leaves-ok (start, false) here) (λ f. seek-Kept now w start here))
        (λ e. seek-Kept now w (t, w) (Kept-refl env w h))

  -- Over consistent caches, every call of `next_index` that returns, whatever it has found,
  -- leaves the caches consistent, every mapping a mapping of the same file, and every file
  -- there with the same bytes.
  pub next_index-Kept :
      (now : ℕ → ℕ) (t t' : ExcerptTailer) (w w' : World) (found : Bool)
      → IsConsistent env w
      → next_index env now (t, w) ≡ ok ((t', w'), found)
      → Kept env w w'
  next_index-Kept now t t' w w' found h e = Leaves.leaves (next_index-Leaves now t w h) _ e
